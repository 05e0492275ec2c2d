-- ===== src/Memory/Bump.antt =====
-- `BumpFrameAllocator` (x86_64/src/paging/bump_frame_allocator.rs): frames of 4 KiB, handed out in
-- the order of the memory map. The iterator over the memory map is the list of its regions.
pub mod Order
use miniature_os.Base.{ℕ, ◌+◌, ◌-◌, ◌*◌, ◌/◌, List, [], ◌∷◌, Option, none, some, Bool, max}
use miniature_os.Base.{Run, ok, panic, ◌>>=◌, add64, ltb, if◌then◌else◌}
use miniature_os.Memory.Region.{MemoryRegion}
use miniature_os.Memory.Frame.{PhysicalFrame, size_4kib, containing_address}

pub record BumpFrameAllocator (D : Type 0) : Type 0 where
  pub memory_map : List D
  pub next : ℕ

module _ {D : Type 0} (lib : MemoryRegion D) where
  open lib use {start, set_start, end_of, contains, is_usable}

  -- `new`.
  unfoldable pub new : List D → BumpFrameAllocator D
  new memory_map = record { memory_map = memory_map; next = 0 }

  -- The regions from the one that contains the address on; that one begins at the address.
  unfoldable pub skip_to : ℕ → List D → Run (List D)
  skip_to address [] = ok []
  skip_to address (region ∷ regions) =
      let rest = skip_to address regions in
      (do
        inside ← contains region address
        if inside
            then (if is_usable region then ok (set_start region address ∷ regions) else panic)
            else rest)

  unfoldable pub new_starting_at : PhysicalFrame size_4kib → List D → Run (BumpFrameAllocator D)
  new_starting_at frame memory_map = do
    regions ← skip_to frame.address memory_map
    ok (record { memory_map = regions; next = 0 })

  -- The largest end of a region after `region`.
  unfoldable pub max_end : D → List D → Run ℕ
  max_end region [] = end_of region
  max_end region (other ∷ regions) = do
    here ← end_of region
    rest ← max_end other regions
    ok (max here rest)

  unfoldable pub max_physical_address : BumpFrameAllocator D → Run ℕ
  max_physical_address allocator = elim allocator.memory_map [
    | [] ↦ panic
    | region ∷ regions ↦ max_end region regions
  ]

  -- How many addresses `(start..end).step_by(4096)` has.
  abbrev pub steps : ℕ → ℕ → ℕ
  steps from to = (to - from + 4095) / 4096

  -- `usable_frames().nth(n)`: the steps of the usable regions, one region after the other.
  unfoldable pub nth_frame : List D → ℕ → Run (Option (PhysicalFrame size_4kib))
  nth_frame [] n = ok none
  nth_frame (region ∷ regions) n =
      if is_usable region
      then (do
        end ← end_of region
        if ltb n (steps (start region) end)
            then (do
              frame ← containing_address size_4kib (start region + n * 4096)
              ok (some frame))
            else nth_frame regions (n - steps (start region) end))
      else nth_frame regions n

  unfoldable pub allocate_frame :
      BumpFrameAllocator D → Run (Option (PhysicalFrame size_4kib) × BumpFrameAllocator D)
  allocate_frame allocator = do
    frame ← nth_frame allocator.memory_map allocator.next
    next ← add64 allocator.next 1
    ok (frame, record allocator { next = next })
