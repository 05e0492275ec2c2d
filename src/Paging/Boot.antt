-- ===== src/Paging/Boot.antt =====
-- The bump allocator and `PhysicalOffset` as what the mapper relies on, and a first level-4 table,
-- as the fourth boot stage puts them together.
use miniature_os.Base.{
  ℕ, suc, ◌+◌, ◌-◌, ◌*◌, ◌/◌, ◌%◌, ◌^◌, ◌≤◌, ◌<◌, ◌≡◌, ◌≢◌, refl, sym, ◌∙◌, inl, inr, arith,
}
use miniature_os.Base.{List, [], ◌∷◌, Option, none, some, true, false, Bool-cases, Run, ok}
use miniature_os.Base.{ltb, lt→ltb, u64_mod, if◌then◌else◌, ◌==◌, ==_self, ne→==}
use native.Mathlib.Decide.{ℕ_discrete}
use miniature_os.Memory.Region.{MemoryRegion}
use miniature_os.Memory.Frame.{PhysicalFrame, size_4kib}
use miniature_os.Memory.Frame.Laws.{containing_address_lem}
use miniature_os.Memory.Bump.{BumpFrameAllocator, steps, nth_frame, allocate_frame}
use miniature_os.Memory.Bump.Order.{
  Ordered, InUsable, Found, frame_after, frames_apart, add64-eq-ok,
}
use miniature_os.Paging.Crates.{BitCrates}
use miniature_os.Paging.Entry.{is_unused}
use miniature_os.Paging.Table.{Memory}
use miniature_os.Paging.Mapper.{FrameAllocator, offset_mapping}
use miniature_os.Paging.Mapper.Tree.{Owners, IsTree}
use miniature_os.Paging.Mapper.Grow.{IsEmptyTable}
use miniature_os.Paging.Mapper.Step.{IsApart}
use miniature_os.Paging.Mapper.Supply.{IsMapping, Handed, IsAllocator}

-- An offset of whole pages gives each frame below 2^48 an address of its own.
pub offset_mapping-IsMapping :
    (offset : ℕ) → offset % 4096 ≡ 0 → offset + 2 ^ 48 ≤ u64_mod → IsMapping (offset_mapping offset)
unfolding offset_mapping
offset_mapping-IsMapping offset aligned low = record {
  total = λ f (page, small). (
    offset + f.address,
    let fits : ltb (offset + f.address) u64_mod ≡ true = lt→ltb _ _ (omega arith) in rw fits refl,
    omega arith,
  );
  injective = λ f g t e e'.
      omega (arith, add64-eq-ok offset f.address t e, add64-eq-ok offset g.address t e');
}

-- The one table of a tree that has been initialised.
abbrev pub only_root : ℕ → Owners
only_root root u = if u == root then some [] else none

pub only_root-IsTree :
    (lib : BitCrates) (frame_to_virtual : PhysicalFrame size_4kib → Run ℕ) (depth root : ℕ)
    (m : Memory)
    → root % 4096 ≡ 0
    → IsEmptyTable m root
    → IsTree lib frame_to_virtual depth root m (only_root root)
unfolding is_unused
only_root-IsTree lib frame_to_virtual depth root m aligned empty = record {
  top = rw (==_self root) refl;
  aligned = λ t p o. rw (is_root t p o) aligned;
  entry = λ t i p o lt small. inl (rw (is_root t p o, empty i small) refl);
}
  where
    is_root : (t : ℕ) (p : List ℕ) → only_root root t ≡ some p → t ≡ root
    is_root t p o = elim (ℕ_discrete t root) [
      | yes e ↦ e
      | no ne ↦
          absurd
            (let differ : (t == root) ≡ false = ne→== t root ne in let k = rw differ at o in cc)
    ]

-- A first level-4 table that lies in no free frame.
pub only_root-IsApart :
    (lib : BitCrates) (offset depth root : ℕ) {A : Type 0} (IsFree : A → ℕ → Type 0) (a : A)
    → ((x : ℕ) → IsFree a x → offset + x ≢ root)
    → IsApart lib (offset_mapping offset) depth root IsFree (only_root root) a
unfolding offset_mapping
only_root-IsApart lib offset depth root IsFree a apart f t free e =
    let differ : (t == root) ≡ false =
      ne→== t root (λ same. apart f.address free (sym (add64-eq-ok offset f.address t e) ∙ same)) in
    rw differ refl

module _ {D : Type 0} (lib : MemoryRegion D) (low : ℕ) (memory_map : List D)
    (order : Ordered lib low memory_map) where
  open lib use {start, end_of, is_usable}

  -- All regions end below 2^48.
  abbrev pub IsBelow : List D → Type 0
  IsBelow [] = Unit {0}
  IsBelow (r ∷ rs) = ((e : ℕ) → end_of r ≡ ok e → e ≤ 2 ^ 48) × IsBelow rs

  abbrev pub bump_frames : FrameAllocator (BumpFrameAllocator D)
  bump_frames = record { allocate_frame = allocate_frame lib }

  -- Free are the frames from the next one on.
  abbrev pub IsFree : BumpFrameAllocator D → ℕ → Type 0
  IsFree a x =
      (n : ℕ) × (a.memory_map ≡ memory_map)
      × (a.next ≤ n)
      × Found lib memory_map n (record { address = x })

  abbrev pub IsReady : ℕ → BumpFrameAllocator D → Type 0
  IsReady k a = (a.memory_map ≡ memory_map) × (a.next + k < u64_mod)

  InUsable-lt : (rs : List D) (x : ℕ) → IsBelow rs → InUsable lib x rs → x < 2 ^ 48
  InUsable-lt [] x below inside = absurd inside
  InUsable-lt (r ∷ rs) x (h, below) (inl (_, le, (e, ends, lt))) = omega (arith, h e ends)
  InUsable-lt (r ∷ rs) x (h, below) (inr inside) = InUsable-lt rs x below inside

  -- A memory map in order has an answer for every index.
  nth_frame_total :
      (rs : List D) (first n : ℕ)
      → Ordered lib first rs
      → (r : Option (PhysicalFrame size_4kib)) × (nth_frame lib rs n ≡ ok r)
  unfolding nth_frame
  nth_frame_total [] first n o = (none, refl)
  nth_frame_total (r ∷ rs) first n (after, page, e, ends, le, small, rest) =
      elim (Bool-cases (is_usable r)) [
        | inr locked ↦ let (x, q) = nth_frame_total rs e n rest in (x, rw locked q)
        | inl usable ↦ elim (Bool-cases (ltb n (steps lib (start r) e))) [
          | inl here ↦
              let lt : n < steps lib (start r) e = ground arith in
              (
                some (record { address = (start r + n * 4096) / 4096 * 4096 }),
                rw
                    (
                      usable,
                      ends,
                      here,
                      containing_address_lem size_4kib (start r + n * 4096) (omega arith),
                    )
                    refl,
              )
          | inr there ↦
              let (x, q) = nth_frame_total rs e (n - steps lib (start r) e) rest in
              (x, rw (usable, ends, there) q)
        ]
      ]

  -- After the last frame there is none.
  nth_frame_spent :
      (rs : List D) (first n later : ℕ)
      → Ordered lib first rs
      → n ≤ later
      → nth_frame lib rs n ≡ ok none
      → nth_frame lib rs later ≡ ok none
  unfolding nth_frame
  nth_frame_spent [] first n later o le h = refl
  nth_frame_spent (r ∷ rs) first n later (after, page, e, ends, ge, small, rest) le h =
      elim (Bool-cases (is_usable r)) [
        | inr locked ↦ rw locked (nth_frame_spent rs e n later rest le (rw locked at h))
        | inl usable ↦ elim (Bool-cases (ltb n (steps lib (start r) e))) [
          | inl here ↦ absurd (
              let lt : n < steps lib (start r) e = ground arith in
              let k =
                rw
                  (
                    usable,
                    ends,
                    here,
                    containing_address_lem size_4kib (start r + n * 4096) (omega arith),
                  )
                  at h in
              cc)
          | inr there ↦
              let not_here : ltb later (steps lib (start r) e) ≡ false = ground arith in
              rw (usable, ends, not_here)
                (nth_frame_spent rs e (n - steps lib (start r) e) (later - steps lib (start r) e)
                  rest (omega arith) (rw (usable, ends, there) at h))
        ]
      ]

  bump-Handed :
      IsBelow memory_map
      → (r : Option (PhysicalFrame size_4kib)) (a : BumpFrameAllocator D)
      → a.memory_map ≡ memory_map
      → nth_frame lib memory_map a.next ≡ ok r
      → Handed bump_frames IsFree a r (record a { next = a.next + 1 })
  bump-Handed below none a map q = λ x (n, e, le, there).
      absurd
        (let k = sym (nth_frame_spent memory_map low a.next n order (omega arith) q) ∙ there in cc)
  bump-Handed below (some f) a map q =
      let (_, page, inside) = frame_after lib memory_map low a.next f order q in
      (
        (page, InUsable-lt memory_map f.address below inside),
        (a.next, map, omega arith, q),
        λ (n, e, le, there).
            omega (arith, frames_apart lib memory_map low a.next n f f order (omega arith) q there),
        λ x (n, e, le, there). (n, map, omega arith, there),
      )

  bump_call :
      IsBelow memory_map
      → (k : ℕ) (a : BumpFrameAllocator D) → IsReady (suc k) a
      → (r : Option (PhysicalFrame size_4kib)) × (allocate_frame lib a
          ≡ ok (r, record a { next = a.next + 1 }))
        × IsReady k (record a { next = a.next + 1 })
        × Handed bump_frames IsFree a r (record a { next = a.next + 1 })
  unfolding allocate_frame
  bump_call below k a (map, h) =
      let (r, q) = nth_frame_total memory_map low a.next order in
      let fits : ltb (a.next + 1) u64_mod ≡ true = lt→ltb _ _ (omega arith) in
      let found : nth_frame lib a.memory_map a.next ≡ ok r = rw map q in
      (r, rw (found, fits) refl, (map, omega arith), bump-Handed below r a map q)

  -- With a memory map in order whose regions end below 2^48, and while the count of calls fits 64
  -- bits, the bump allocator is a frame allocator as the mapper needs it: each call returns; it
  -- hands out a free frame, which is aligned, below 2^48 and not free any more, or nothing, and
  -- then no frame is free; and no frame becomes free. Free are the frames behind the count.
  pub bump_frames-IsAllocator : IsBelow memory_map → IsAllocator bump_frames IsFree IsReady
  bump_frames-IsAllocator below = record {
    fewer = λ k a (map, h). (map, omega arith);
    call = λ k a ready.
        let (r, e, ready', handed) = bump_call below k a ready in
        (r, record a { next = a.next + 1 }, e, ready', handed);
  }

  -- The allocator has more than `k` frames left.
  abbrev pub IsStocked : ℕ → BumpFrameAllocator D → Type 0
  IsStocked k a = IsReady k a × (f : PhysicalFrame size_4kib) × Found lib memory_map (a.next + k) f

  stocked_before :
      (n : ℕ) (f : PhysicalFrame size_4kib)
      → Found lib memory_map (suc n) f
      → (g : PhysicalFrame size_4kib) × Found lib memory_map n g
  stocked_before n f found = let (r, q) = nth_frame_total memory_map low n order in there r q
    where
      there :
          (r : Option (PhysicalFrame size_4kib))
          → nth_frame lib memory_map n ≡ ok r
          → (g : PhysicalFrame size_4kib) × Found lib memory_map n g
      there none q = absurd (
          let k = sym (nth_frame_spent memory_map low n (suc n) order (omega arith) q) ∙ found in
          cc)
      there (some g) q = (g, q)

  -- With a stock of frames, it never runs out.
  pub bump_frames-IsStocked : IsBelow memory_map → IsAllocator bump_frames IsFree IsStocked
  bump_frames-IsStocked below = record {
    fewer = λ k a ((map, h), f, found).
        let e : a.next + suc k ≡ suc (a.next + k) = omega arith in
        let (g, found_g) = stocked_before (a.next + k) f (rw e at found) in
        ((map, omega arith), g, found_g);
    call = λ k a (ready, f, found).
        let (r, e, ready', handed) = bump_call below k a ready in
        let same : a.next + suc k ≡ a.next + 1 + k = omega arith in
        (r, record a { next = a.next + 1 }, e, (ready', f, rw same at found), handed);
  }

  pub stocked-IsFree : (k : ℕ) (a : BumpFrameAllocator D) → IsStocked k a → (x : ℕ) × IsFree a x
  stocked-IsFree k a ((map, h), f, found) = (f.address, (a.next + k, map, omega arith, found))
