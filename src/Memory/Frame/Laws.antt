-- ===== src/Memory/Frame/Laws.antt =====
-- Alignment, arithmetic and ranges of frames and pages.
use miniature_os.Base.{ℕ, zero, suc, ◌+◌, ◌-◌, ◌*◌, ◌/◌, ◌%◌, ◌<◌, ◌≤◌, ◌≡◌, refl, ap, ◌∙◌, arith}
use miniature_os.Base.{List, [], ◌∷◌, ok, false, leb}
use miniature_os.Base.{u64_mod, lt→ltb, le→leb, ◌>>=◌}
use native.Mathlib.Nat.{add-mul-div_right, mul-div_cancel, div-add-mod'}
use miniature_os.Memory.Address.{align_down_lem}
use miniature_os.Memory.Frame.{PageSize, size_4kib, size_2mib, page_size, PhysicalFrame}
use miniature_os.Memory.Frame.{containing_address, add_frames, frame_distance, advance}
use miniature_os.Memory.Frame.{RangeInclusive, range_next, range_collect}

pub page_size_bounds : (S : PageSize) → (1 ≤ page_size S) × (page_size S ≤ 0x200000)
page_size_bounds size_4kib = omega arith
page_size_bounds size_2mib = omega arith

pub containing_address_lem :
    (S : PageSize) (a : ℕ)
    → a < u64_mod
    → containing_address S a ≡ ok (record { address = a / page_size S * page_size S })
unfolding containing_address
containing_address_lem size_4kib a h = rw (align_down_lem 12 a (omega arith) h) refl
containing_address_lem size_2mib a h = rw (align_down_lem 21 a (omega arith) h) refl

multiple_stays : (m a n : ℕ) → 0 < m → a % m ≡ 0 → (a + n * m) / m * m ≡ a + n * m
multiple_stays m a n pos e =
    omega (arith, ap (λ (t : ℕ). t * m) (add-mul-div_right a n pos), div-add-mod' a m)

steps_between : (m a n : ℕ) → 0 < m → (a + n * m - a) / m ≡ n
steps_between m a n pos =
    ap (λ t. t / m) (let e : a + n * m - a ≡ n * m = omega arith in e) ∙ mul-div_cancel n pos

-- A frame that starts at a multiple of its size.
abbrev pub IsAligned : (S : PageSize) → PhysicalFrame S → Type 0
IsAligned S f = f.address % page_size S ≡ 0

module _ (S : PageSize) where
  -- The frame `n` frames further on starts `n * page_size` bytes later and is `n` frames away: the
  -- sum and the distance of frames undo each other as long as the address fits 64 bits.
  pub distance-add :
      (f : PhysicalFrame S) (n : ℕ)
      → IsAligned S f
      → f.address + n * page_size S < u64_mod
      → (g : PhysicalFrame S) × (add_frames S f n ≡ ok g)
        × (g.address ≡ f.address + n * page_size S)
        × (frame_distance S g f ≡ ok n)
  unfolding add_frames frame_distance
  distance-add f n a h = (
    record { address = f.address + n * page_size S },
    rw
        (
          lt→ltb (n * page_size S) u64_mod (omega arith),
          lt→ltb (f.address + n * page_size S) u64_mod h,
        )
        (containing_address_lem S (f.address + n * page_size S) h
          ∙ ap (λ k. ok (record { address = k }))
              (multiple_stays (page_size S) f.address n (page_size_bounds S).0 a)),
    refl,
    rw (le→leb f.address (f.address + n * page_size S) (omega arith))
        (ap ok (steps_between (page_size S) f.address n (page_size_bounds S).0)),
  )

  -- `n` consecutive frames from the address `a` on.
  abbrev pub frames_from : ℕ → ℕ → List (PhysicalFrame S)
  frames_from a zero = []
  frames_from a (suc n) = record { address = a } ∷ frames_from (a + page_size S) n

  abbrev pub range : ℕ → ℕ → RangeInclusive S
  range a b = record { start = record { address = a }; end = record { address = b } }

  pub range_ends : (fuel a last : ℕ) → last < a → range_collect S (suc fuel) (range a last) ≡ ok []
  unfolding range_collect range_next
  range_ends fuel a last h = let e : leb a last ≡ false = ground arith in rw e

  range_steps :
      (fuel a last : ℕ)
      → a ≤ last
      → a + page_size S < u64_mod
      → range_collect S (suc fuel) (range a last) ≡ (
          range_collect S fuel (range (a + page_size S) last) >>= λ rest.
          ok (record { address = a } ∷ rest))
  unfolding range_collect range_next advance
  range_steps fuel a last h lt =
      let one : page_size S * 1 ≡ page_size S = omega arith in
      rw
        (
          le→leb a last h,
          one,
          lt→ltb (page_size S) u64_mod (omega arith),
          lt→ltb (a + page_size S) u64_mod lt,
        )
        refl

  range_from :
      (n fuel a last : ℕ)
      → a + n * page_size S ≡ last
      → last + page_size S < u64_mod
      → suc n < fuel
      → range_collect S fuel (range a last) ≡ ok (frames_from a (suc n))
  range_from n zero a last e h enough = absurd (omega arith)
  range_from n (suc zero) a last e h enough = absurd (omega arith)
  range_from zero (suc (suc fuel)) a last e h enough =
      range_steps (suc fuel) a last (omega arith) (omega arith)
      ∙ rw (range_ends fuel (a + page_size S) last (omega (arith, page_size_bounds S))) refl
  range_from (suc n) (suc (suc fuel)) a last e h enough =
      range_steps (suc fuel) a last (omega arith) (omega arith)
      ∙ rw (range_from n (suc fuel) (a + page_size S) last (omega arith) h (omega arith)) refl

  -- A range of `n + 1` frames goes through exactly these frames and ends, with fuel for one more
  -- round, if the address after the last frame fits 64 bits.
  pub range_collect_lem :
      (n fuel a : ℕ)
      → a + n * page_size S + page_size S < u64_mod
      → suc n < fuel
      → range_collect S fuel (record {
        start = record { address = a };
        end = record { address = a + n * page_size S };
      })
        ≡ ok (frames_from a (suc n))
  range_collect_lem n fuel a h enough = range_from n fuel a (a + n * page_size S) refl h enough
