-- ===== src/Memory/Frame.antt =====
-- `PhysicalFrame` and `Page`: an address at which a frame or page of a fixed size begins. The two
-- types have the same operations, over physical and virtual addresses.
pub mod Laws
use miniature_os.Base.{ℕ, zero, suc, ◌+◌, ◌-◌, ◌*◌, ◌/◌, ◌%◌, ◌<◌, ◌≤◌, ◌≡◌, refl, ap, ◌∙◌, arith}
use miniature_os.Base.{Option, none, some, List, [], ◌∷◌, Run, ok, out_of_fuel, ◌>>=◌, ◌>>◌}
use miniature_os.Base.{add64, mul64, sub, assert, leb, if◌then◌else◌, u64_mod, lt→ltb, le→leb}
use miniature_os.Memory.Address.{align_down, is_aligned, align_down_lem}

pub data PageSize : Type 0 where
  size_4kib size_2mib : PageSize

-- `PageSize::SIZE`.
abbrev pub page_size : PageSize → ℕ
page_size size_4kib = 0x1000
page_size size_2mib = 0x200000

pub record PhysicalFrame (S : PageSize) : Type 0 where
  pub address : ℕ

abbrev pub Page : PageSize → Type 0
Page = PhysicalFrame

module _ (S : PageSize) where
  unfoldable pub containing_address : ℕ → Run (PhysicalFrame S)
  containing_address a = do aligned ← align_down a (page_size S); ok (record { address = aligned })

  -- `Page::for_address` asserts the alignment.
  pub for_address : ℕ → Run (Page S)
  for_address a = do
    aligned ← is_aligned a (page_size S)
    assert aligned
    ok (record { address = a })

  unfoldable pub frame_end : PhysicalFrame S → Run ℕ
  frame_end f = add64 f.address (page_size S)

  -- `Add<u64>`, `Sub<u64>` and `Sub` of two frames or pages.
  unfoldable pub add_frames : PhysicalFrame S → ℕ → Run (PhysicalFrame S)
  add_frames f n = do bytes ← mul64 n (page_size S); a ← add64 f.address bytes; containing_address a

  pub sub_frames : PhysicalFrame S → ℕ → Run (PhysicalFrame S)
  sub_frames f n = do bytes ← mul64 n (page_size S); a ← sub f.address bytes; containing_address a

  unfoldable pub frame_distance : PhysicalFrame S → PhysicalFrame S → Run ℕ
  frame_distance f g = do d ← sub f.address g.address; ok (d / page_size S)

  -- `AddAssign<u64>`.
  unfoldable pub advance : PhysicalFrame S → ℕ → Run (PhysicalFrame S)
  advance f n = do
    bytes ← mul64 (page_size S) n
    a ← add64 f.address bytes
    ok (record { address = a })

  -- `PhysicalFrameRangeInclusive` and `PageRangeInclusive`.
  pub record RangeInclusive : Type 0 where
    pub start : PhysicalFrame S
    pub end : PhysicalFrame S

  unfoldable pub range_next : RangeInclusive → Run (Option (PhysicalFrame S) × RangeInclusive)
  range_next r =
      if leb r.start.address r.end.address
      then (do start' ← advance r.start 1; ok (some r.start, record r { start = start' }))
      else ok (none, r)

  -- A `for` loop over the range: the frames that it goes through.
  unfoldable pub range_collect : ℕ → RangeInclusive → Run (List (PhysicalFrame S))
  range_collect zero r = out_of_fuel
  range_collect (suc fuel) r = do
    (item, r') ← range_next r
    elim item [ none ↦ ok [] | some f ↦ do rest ← range_collect fuel r'; ok (f ∷ rest) ]
