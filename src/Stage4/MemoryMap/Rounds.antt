-- ===== src/Stage4/MemoryMap/Rounds.antt =====
-- The rounds of `build_memory_map`, and the free addresses of its result.
use miniature_os.Base.{
  ℕ, zero, suc, ◌+◌, ◌-◌, ◌≤◌, ◌<◌, ◌≡◌, ◌≢◌, ◌⊎◌, inl, inr, refl, sym, ◌∙◌, arith,
}
use miniature_os.Base.{Option, none, List, [], ◌∷◌, Bool, true, false, not, ◌&&◌, ◌||◌, Bool-cases}
use miniature_os.Base.{ok, ltb, leb, ◌==◌, if◌then◌else◌, lt→ltb, le→leb, u64_mod, ==_self, ne→==}
use miniature_os.Base.{length, get_or, replicate, length-replicate}
use native.Mathlib.Decide.{ℕ_discrete}
use miniature_os.Memory.Region.{
  E820MemoryRegion, e820_memory_region, PhysicalMemoryRegion, PhysicalMemoryRegionType, is_free,
  into_physical, is_normal,
}
use miniature_os.Memory.Region.{E820MemoryRegionType, physical_type}
use miniature_os.Memory.Frame.{PageSize, PhysicalFrame, frame_end, page_size}
use miniature_os.Stage4.MemoryMap.{
  Regions, region_of, split_region, add_region, add_regions, build_memory_map,
}
use miniature_os.Stage4.MemoryMap.Free.{
  FreeAt, Clean, Written, Written-map, Written-trans, after, put_ok, put-Written,
  put-Written_locked,
}
open e820_memory_region use {is_usable}

replicate_none :
    (n i : ℕ) → get_or {A = Option PhysicalMemoryRegion} (replicate n none) i none ≡ none
replicate_none zero i = refl
replicate_none (suc n) zero = refl
replicate_none (suc n) (suc i) = replicate_none n i

or_true : (c : Bool) → (c || true) ≡ true
or_true true = refl
or_true false = refl

is_free-physical_type : (t : E820MemoryRegionType) → is_free (physical_type t) ≡ is_normal t
is_free-physical_type E820MemoryRegionType.none = refl
is_free-physical_type E820MemoryRegionType.normal = refl
is_free-physical_type E820MemoryRegionType.reserved = refl
is_free-physical_type E820MemoryRegionType.acpi_reclaimable = refl
is_free-physical_type E820MemoryRegionType.acpi_nvs = refl
is_free-physical_type E820MemoryRegionType.unusable = refl

module _ (S : PageSize) (last_frame : PhysicalFrame S) where
  abbrev last_end : ℕ
  last_end = last_frame.address + page_size S

  -- The last frame begins in the region, or just behind it.
  abbrev pub Holds : E820MemoryRegion → Type 0
  Holds r = (r.start ≤ last_frame.address) × (last_frame.address ≤ r.start + r.size)

  -- The addresses of a region that the kernel may use: it is usable, does not begin at 0, and the
  -- address is not before the end of the last frame, if that lies in the region.
  abbrev pub Left : E820MemoryRegion → ℕ → Type 0
  Left r x =
      (is_usable r ≡ true)
      × (r.start ≢ 0)
      × (r.start ≤ x)
      × (x < r.start + r.size)
      × (Holds r → last_end ≤ x)

  abbrev pub LeftAt : List E820MemoryRegion → ℕ → Type 0
  LeftAt [] x = ⊥
  LeftAt (r ∷ rs) x = Left r x ⊎ LeftAt rs x

  -- A region ends below 2^64, and the last frame does not reach over the end of a usable one.
  abbrev pub Fits : E820MemoryRegion → Type 0
  Fits r =
      (r.start + r.size < u64_mod) × (is_usable r ≡ true → Holds r → last_end ≤ r.start + r.size)

  abbrev pub AllFit : List E820MemoryRegion → Type 0
  AllFit [] = Unit {0}
  AllFit (r ∷ rs) = Fits r × AllFit rs

  -- How many places a region takes.
  abbrev pub places : E820MemoryRegion → ℕ
  places r =
      if not (is_usable r)
      then 1
      else if r.start == 0
      then 0
      else if (leb r.start last_frame.address && leb last_frame.address (r.start + r.size))
          && not (last_end == (r.start + r.size))
      then 2
      else 1

  abbrev pub all_places : List E820MemoryRegion → ℕ
  all_places [] = 0
  all_places (r ∷ rs) = places r + all_places rs

  -- What a round does: it writes `n` places, which make the addresses of the region free.
  abbrev Round : E820MemoryRegion → Regions → ℕ → ℕ → Type 0
  Round r before idx n =
      (now : Regions) × (c : Bool) × (add_region S last_frame r before idx ≡ ok (now, idx + n, c))
      × Written (idx + n) before now (Left r)

  module _ (r : E820MemoryRegion) (before : Regions) (idx : ℕ) (clean : Clean before idx) where
    locked_round : idx < length before → is_usable r ≡ false → Round r before idx 1
    unfolding add_region
    locked_round room locked = (
      after before idx (into_physical r) room clean,
      false,
      rw (locked, put_ok before idx (into_physical r) room clean) refl,
      Written-map (λ x new. absurd (let k = sym (is_free-physical_type r.typ) ∙ new.0 in cc))
          (λ x left. absurd (let k = left.0 in cc))
          (put-Written before idx (into_physical r) room clean),
    )

    zero_round : idx < length before → is_usable r ≡ true → r.start ≡ 0 → Round r before idx 0
    unfolding add_region
    zero_round room usable bottom =
        let p : PhysicalMemoryRegion = record (into_physical r) {
          typ = PhysicalMemoryRegionType.reserved;
        } in
        let test : (r.start == 0) ≡ true = ground arith in
        let same : idx + 0 ≡ idx = omega arith in
        (
          after before idx p room clean,
          true,
          rw (usable, test, put_ok before idx p room clean, same) refl,
          rw same (
              Written-map (λ x new. absurd new) (λ x left. left.1 bottom)
                (put-Written_locked before idx p room clean refl)),
        )

    whole_round :
        idx < length before
        → is_usable r ≡ true
        → r.start ≢ 0
        → r.start + r.size < u64_mod
        → ¬ Holds r
        → Round r before idx 1
    unfolding add_region
    whole_round room usable above fits outside =
        let test : (r.start == 0) ≡ false = ground arith in
        let contains : e820_memory_region.contains r last_frame.address ≡ ok false = ground arith in
        (
          after before idx (into_physical r) room clean,
          false,
          rw (usable, test, contains, put_ok before idx (into_physical r) room clean) refl,
          Written-map (λ x new. (usable, above, new.1, new.2, λ h. absurd (outside h)))
              (λ x left. (is_free-physical_type r.typ ∙ usable, left.2, left.3))
              (put-Written before idx (into_physical r) room clean),
        )

    used_round :
        idx < length before
        → is_usable r ≡ true
        → r.start ≢ 0
        → Holds r
        → last_end ≡ r.start + r.size
        → r.start + r.size < u64_mod
        → Round r before idx 1
    unfolding add_region split_region frame_end
    used_round room usable above (le, ge) whole fits =
        let p = region_of r.start (last_end - r.start) PhysicalMemoryRegionType.reserved in
        (
          after before idx p room clean,
          false,
          rw
              (
                usable,
                (let t : (r.start == 0) ≡ false = ground arith in t),
                le→leb _ _ le,
                lt→ltb _ _ fits,
                le→leb _ _ ge,
                lt→ltb last_end u64_mod (omega arith),
                le→leb r.start last_end (omega arith),
                put_ok before idx p room clean,
                (let t : (last_end == r.start + r.size) ≡ true = rw whole (==_self _) in t),
              )
              refl,
          Written-map (λ x new. absurd (let k = new.0 in cc))
              (λ x (u, a, from, to, h). absurd (let k = h (le, ge) in omega arith))
              (put-Written before idx p room clean),
        )

    split_round :
        idx + 1 < length before
        → is_usable r ≡ true
        → r.start ≢ 0
        → Holds r
        → last_end < r.start + r.size
        → r.start + r.size < u64_mod
        → Round r before idx 2
    unfolding add_region split_region frame_end
    split_round room usable above (le, ge) part fits =
        let p = region_of r.start (last_end - r.start) PhysicalMemoryRegionType.reserved in
        let q = region_of last_end (r.start + r.size - last_end) PhysicalMemoryRegionType.free in
        let first = put-Written before idx p (omega arith) clean in
        (
          after (after before idx p (omega arith) clean) (idx + 1) q
              (omega (arith, first.same_length)) first.clean,
          false,
          rw
              (
                usable,
                (let t : (r.start == 0) ≡ false = ground arith in t),
                le→leb _ _ le,
                lt→ltb _ _ fits,
                le→leb _ _ ge,
                lt→ltb last_end u64_mod (omega arith),
                le→leb r.start last_end (omega arith),
                put_ok before idx p (omega arith) clean,
                ne→== last_end (r.start + r.size) (omega arith),
                le→leb last_end (r.start + r.size) (omega arith),
                put_ok (after before idx p (omega arith) clean) (idx + 1) q
                    (omega (arith, first.same_length)) first.clean,
              )
              refl,
          (let two : idx + 2 ≡ idx + 1 + 1 = omega arith in
              rw two (
                Written-map
                  (λ x new. elim new [
                    | inl f ↦ absurd (let k = f.0 in cc)
                    | inr f ↦ (usable, above, omega arith, omega arith, λ h. omega arith)
                  ])
                  (λ x (u, a, from, to, h).
                    inr (refl, h (le, ge), (let k = h (le, ge) in omega arith)))
                  (Written-trans first (
                    put-Written (after before idx p (omega arith) clean) (idx + 1) q
                      (omega (arith, first.same_length)) first.clean)))),
        )

  round :
      (r : E820MemoryRegion) (before : Regions) (idx : ℕ)
      → Clean before idx
      → Fits r
      → idx < length before
      → idx + places r < length before
      → Round r before idx (places r)
  round r before idx clean (fits, inside) room rooms = elim (Bool-cases (is_usable r)) [
    | inr locked ↦
        let n : places r ≡ 1 = rw locked refl in rw n (locked_round r before idx clean room locked)
    | inl usable ↦ elim (ℕ_discrete r.start 0) [
      | yes bottom ↦
          let n : places r ≡ 0 = rw (usable, bottom) refl in
          rw n (zero_round r before idx clean room usable bottom)
      | no above ↦
          elim (Bool-cases
            (leb r.start last_frame.address && leb last_frame.address (r.start + r.size))) [
              | inr outside ↦
                  let bottom : (r.start == 0) ≡ false = ne→== r.start 0 above in
                  let n : places r ≡ 1 = rw (usable, bottom, outside) refl in
                  rw n (
                    whole_round r before idx clean room usable above fits (λ h.
                      let k : (leb r.start last_frame.address
                            && leb last_frame.address (r.start + r.size))
                          ≡ true =
                        ground arith in
                      cc))
              | inl within ↦
                  let bottom : (r.start == 0) ≡ false = ne→== r.start 0 above in
                  let holds : Holds r = (ground arith, ground arith) in
                  elim (ℕ_discrete last_end (r.start + r.size)) [
                    | yes whole ↦
                        let t : (last_end == (r.start + r.size)) ≡ true = rw whole (==_self _) in
                        let n : places r ≡ 1 = rw (usable, bottom, within, t) refl in
                        rw n (used_round r before idx clean room usable above holds whole fits)
                    | no part ↦
                        let t : (last_end == (r.start + r.size)) ≡ false = ne→== _ _ part in
                        let n : places r ≡ 2 = rw (usable, bottom, within, t) refl in
                        rw n (
                          split_round r before idx clean (let k = rw n at rooms in omega arith)
                            usable above holds (let k = inside usable holds in omega arith) fits)
                  ]
            ]
    ]
  ]

  -- The loop from any state on.
  add_regions_lem :
      (regions : List E820MemoryRegion) (before : Regions) (idx : ℕ)
      → Clean before idx
      → AllFit regions
      → idx + all_places regions < length before
      → (now : Regions) × (end : ℕ) × (add_regions S last_frame regions before idx ≡ ok now)
        × Written end before now (LeftAt regions)
  unfolding add_regions
  add_regions_lem [] before idx clean fit room = (
    before,
    idx,
    refl,
    record {
      same_length = refl;
      clean = clean;
      free = λ x f. inl f;
      kept = λ x f. elim f [ inl old ↦ old | inr new ↦ absurd new ];
    },
  )
  add_regions_lem (r ∷ rs) before idx clean (fit, fits) room =
      let (now, c, e, w) = round r before idx clean fit (omega arith) (omega arith) in
      let inside : ltb (idx + places r) (length now) ≡ true =
        lt→ltb _ _ (omega (arith, w.same_length)) in
      let (final, end, e', w') =
        add_regions_lem rs now (idx + places r) w.clean fits (omega (arith, w.same_length)) in
      (final, end, rw (e, inside, or_true c) e', Written-trans w w')

  -- If the regions of the BIOS take fewer than 32 places, each ends below 2^64, and the last
  -- allocated frame does not reach over the end of a usable region that it begins in (or
  -- just behind), then the map is built, and its free regions hold exactly the addresses of
  -- usable regions that do not begin at 0, less those before the end of the last frame in a
  -- region that holds it.
  pub build_memory_map-free :
      (regions : List E820MemoryRegion)
      → AllFit regions
      → all_places regions < 32
      → (now : Regions) × (build_memory_map S last_frame regions ≡ ok now)
        × ((x : ℕ) → FreeAt now x → LeftAt regions x)
        × ((x : ℕ) → LeftAt regions x → FreeAt now x)
  unfolding build_memory_map
  build_memory_map-free regions fit room =
      let empty : Clean (replicate 32 none) 0 =
        λ i p le e. absurd (let k = replicate_none 32 i in cc) in
      let (now, end, e, w) =
        add_regions_lem regions (replicate 32 none) 0 empty fit
          (omega (arith, length-replicate {0} 32 none)) in
      (
        now,
        e,
        (λ x f. elim (w.free x f) [
          | inr left ↦ left
          | inl (i, p, at, g) ↦ absurd (let k = replicate_none 32 i in cc)
        ]),
        λ x left. w.kept x (inr left),
      )
