-- ===== src/Memory/Bump/Order.antt =====
-- The frames of the bump allocator lie in usable regions, and behind one another.
use miniature_os.Base.{ℕ, ◌+◌, ◌-◌, ◌*◌, ◌/◌, ◌%◌, ◌≤◌, ◌<◌, ◌≡◌, refl, sym, ap, ◌∙◌, arith}
use miniature_os.Base.{◌⊎◌, inl, inr, List, [], ◌∷◌, Option, some, true, false, Bool-cases}
use miniature_os.Base.{ok, panic, >>=-eq-ok, ltb, ltb→lt, add64, u64_mod}
use miniature_os.Memory.Region.{MemoryRegion}
use miniature_os.Memory.Frame.{PhysicalFrame, size_4kib}
use miniature_os.Memory.Frame.Laws.{containing_address_lem}
use miniature_os.Memory.Bump.{BumpFrameAllocator, steps, nth_frame, allocate_frame}

pub add64-eq-ok : (a b c : ℕ) → add64 a b ≡ ok c → c ≡ a + b
add64-eq-ok a b c h = elim (Bool-cases (ltb (a + b) u64_mod)) [
  | inl small ↦ (let q : add64 a b ≡ ok (a + b) = rw small refl in cc)
  | inr big ↦ (let q : add64 a b ≡ panic = rw big refl in cc)
]

module _ {D : Type 0} (lib : MemoryRegion D) where
  open lib use {start, end_of, is_usable}

  -- A memory map in order: each region begins at a page, not before `low`, and ends, below 2^64,
  -- before the next one begins.
  abbrev pub Ordered : ℕ → List D → Type 0
  Ordered low [] = Unit
  Ordered low (r ∷ rs) =
      (low ≤ start r)
      × (start r % 4096 ≡ 0)
      × (e : ℕ) × (end_of r ≡ ok e)
      × (start r ≤ e)
      × (e < u64_mod)
      × Ordered e rs

  -- The address lies in a usable region of the map.
  abbrev pub InUsable : ℕ → List D → Type 0
  InUsable a [] = ⊥
  InUsable a (r ∷ rs) =
      ((is_usable r ≡ true) × (start r ≤ a) × ((e : ℕ) × (end_of r ≡ ok e) × (a < e)))
      ⊎ InUsable a rs

  -- Where the frame `n` of a map is.
  abbrev pub Found : List D → ℕ → PhysicalFrame size_4kib → Type 0
  Found rs n f = nth_frame lib rs n ≡ ok (some f)

  pub Found-none : (n : ℕ) (f : PhysicalFrame size_4kib) → ¬ Found [] n f
  unfolding nth_frame
  Found-none n f h = cc

  -- A frame of a map is a step of the first region, or a frame of the others.
  Found-cases :
      (low : ℕ) (r : D) (rs : List D) (n : ℕ) (f : PhysicalFrame size_4kib)
      → Ordered low (r ∷ rs)
      → Found (r ∷ rs) n f
      → (e : ℕ) × (end_of r ≡ ok e)
        × (((is_usable r ≡ true) × (n < steps lib (start r) e) × (f.address ≡ start r + n * 4096))
            ⊎ (((is_usable r ≡ true)
                  × (steps lib (start r) e ≤ n)
                  × Found rs (n - steps lib (start r) e) f)
                ⊎ ((is_usable r ≡ false) × Found rs n f)))
  unfolding nth_frame
  Found-cases low r rs n f (after, page, e, ends, le, lt, next) h =
      elim (Bool-cases (is_usable r)) [
        | inr locked ↦
            let step : nth_frame lib (r ∷ rs) n ≡ nth_frame lib rs n = rw locked refl in
            (e, ends, inr (inr (locked, sym step ∙ h)))
        | inl usable ↦ elim (Bool-cases (ltb n (steps lib (start r) e))) [
          | inl here ↦
              let lt' : n < steps lib (start r) e = ltb→lt _ _ here in
              let whole : (start r + n * 4096) / 4096 * 4096 ≡ start r + n * 4096 =
                omega (arith, page) in
              let step : nth_frame lib (r ∷ rs) n
                  ≡ ok (some (record { address = start r + n * 4096 })) =
                rw
                  (
                    usable,
                    ends,
                    here,
                    containing_address_lem size_4kib (start r + n * 4096) (omega arith),
                    whole,
                  )
                  refl in
              let same : record { address = start r + n * 4096 } ≡ f = cc in
              (
                e,
                ends,
                inl (usable, lt', ap (λ (g : PhysicalFrame size_4kib). g.address) (sym same)),
              )
          | inr there ↦
              let step : nth_frame lib (r ∷ rs) n ≡ nth_frame lib rs (n - steps lib (start r) e) =
                rw (usable, ends, there) refl in
              (e, ends, inr (inl (usable, ground arith, sym step ∙ h)))
        ]
      ]

  pub frame_after :
      (rs : List D) (low n : ℕ) (f : PhysicalFrame size_4kib)
      → Ordered low rs
      → Found rs n f
      → (low ≤ f.address) × (f.address % 4096 ≡ 0) × InUsable f.address rs
  frame_after [] low n f ord h = absurd (Found-none n f h)
  frame_after (r ∷ rs) low n f ord h =
      let (after, page, e', ends', le, small, rest) = ord in
      let (e, ends, found) = Found-cases low r rs n f ord h in
      let same : e' ≡ e = cc in
      elim found [
        | inl (usable, lt, at) ↦ (
          omega (arith, at),
          omega (arith, at, page),
          inl (usable, omega (arith, at), (e, ends, omega (arith, at))),
        )
        | inr (inl (usable, ge, later)) ↦
            let (low', aligned, inside) =
              frame_after rs e' (n - steps lib (start r) e) f rest later in
            (omega arith, aligned, inr inside)
        | inr (inr (locked, later)) ↦
            let (low', aligned, inside) = frame_after rs e' n f rest later in
            (omega arith, aligned, inr inside)
      ]

  pub frames_apart :
      (rs : List D) (low n m : ℕ) (f g : PhysicalFrame size_4kib)
      → Ordered low rs
      → n < m
      → Found rs n f
      → Found rs m g
      → f.address + 4096 ≤ g.address
  frames_apart [] low n m f g ord lt hf hg = absurd (Found-none n f hf)
  frames_apart (r ∷ rs) low n m f g ord lt hf hg =
      let (after, page, e', ends', le, small, rest) = ord in
      let (e, ends, where_f) = Found-cases low r rs n f ord hf in
      let (d, ends_d, where_g) = Found-cases low r rs m g ord hg in
      let same : e' ≡ e = cc in
      let same_d : e' ≡ d = cc in
      let count : steps lib (start r) d ≡ steps lib (start r) e =
        ap (steps lib (start r)) (sym same_d ∙ same) in
      elim where_f [
        | inl (usable, ltf, at) ↦ elim where_g [
          | inl (_, ltg, at_g) ↦ omega (arith, at, at_g)
          | inr (inl (_, ge, later)) ↦
              let (low', aligned, _) = frame_after rs e' (m - steps lib (start r) d) g rest later in
              omega (arith, at, page)
          | inr (inr (locked, _)) ↦ cc
        ]
        | inr (inl (usable, ge, later)) ↦ elim where_g [
          | inl (_, ltg, at_g) ↦ absurd (omega (arith, count))
          | inr (inl (_, ge_g, later_g)) ↦
              frames_apart rs e' (n - steps lib (start r) e) (m - steps lib (start r) d) f g rest
                (omega (arith, count)) later later_g
          | inr (inr (locked, _)) ↦ cc
        ]
        | inr (inr (locked, later)) ↦ elim where_g [
          | inl (usable, _, _) ↦ cc
          | inr (inl (usable, _, _)) ↦ cc
          | inr (inr (_, later_g)) ↦ frames_apart rs e' n m f g rest lt later later_g
        ]
      ]

  -- What a call that returns a frame says of the map.
  allocate_frame-Found :
      (a a' : BumpFrameAllocator D) (f : PhysicalFrame size_4kib)
      → allocate_frame lib a ≡ ok (some f, a')
      → Found a.memory_map a.next f × (a' ≡ record a { next = a.next + 1 })
  unfolding allocate_frame
  allocate_frame-Found a a' f h =
      let (frame, q, rest) = >>=-eq-ok (nth_frame lib a.memory_map a.next) _ h in
      let (next, q', last) = >>=-eq-ok (add64 a.next 1) _ rest in
      let left : Option (PhysicalFrame size_4kib) × BumpFrameAllocator D =
        (frame, record a { next = next }) in
      let right : Option (PhysicalFrame size_4kib) × BumpFrameAllocator D = (some f, a') in
      let result : left ≡ right = cc in
      let counted : next ≡ a.next + 1 = add64-eq-ok a.next 1 next q' in
      (
        q ∙ ap (λ p. ok (p.0)) result,
        ap (λ p. p.1) (sym result) ∙ ap (λ k. record a { next = k }) counted,
      )

  -- With the map in order, a frame that is handed out begins at a page, at an address of a usable
  -- region, and every frame handed out later lies behind it: no two share a byte. A later state of
  -- the allocator has the same map, and has counted at least the one call more.
  pub allocate_frame_lem :
      (low : ℕ) (a a' b b' : BumpFrameAllocator D) (f g : PhysicalFrame size_4kib)
      → Ordered low a.memory_map
      → allocate_frame lib a ≡ ok (some f, a')
      → b.memory_map ≡ a'.memory_map
      → a'.next ≤ b.next
      → allocate_frame lib b ≡ ok (some g, b')
      → (f.address % 4096 ≡ 0) × InUsable f.address a.memory_map × (f.address + 4096 ≤ g.address)
  allocate_frame_lem low a a' b b' f g ord h map later h' =
      let (here, step) = allocate_frame-Found a a' f h in
      let (there, _) = allocate_frame-Found b b' g h' in
      let same_map : b.memory_map ≡ a.memory_map =
        map ∙ ap (λ (s : BumpFrameAllocator D). s.memory_map) step in
      let counted : a'.next ≡ a.next + 1 = ap (λ (s : BumpFrameAllocator D). s.next) step in
      let (_, page, inside) = frame_after a.memory_map low a.next f ord here in
      (
        page,
        inside,
        frames_apart a.memory_map low a.next b.next f g ord (omega (arith, counted)) here
            (ap (λ rs. nth_frame lib rs b.next) (sym same_map) ∙ there),
      )
