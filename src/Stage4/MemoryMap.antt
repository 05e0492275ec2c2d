-- ===== src/Stage4/MemoryMap.antt =====
-- `build_memory_map` (bootloader/x86_64/bios/stage4/src/main.rs): the memory map that the kernel
-- is given, an array of 32 places. `last_frame` is the last frame that the stage has allocated.
pub mod Free
pub mod Rounds
use miniature_os.Base.{ℕ, ◌+◌, ◌-◌, Option, none, some, List, [], ◌∷◌, Bool, true, false, not, ◌||◌}
use miniature_os.Base.{Run, ok, panic, ◌>>=◌, ◌>>◌, assert, sub, ltb, ◌==◌, if◌then◌else◌}
use miniature_os.Base.{length, set, replicate}
use miniature_os.Memory.Region.{
  E820MemoryRegion, e820_memory_region, PhysicalMemoryRegion, PhysicalMemoryRegionType,
  into_physical,
}
use miniature_os.Memory.Frame.{PageSize, PhysicalFrame, frame_end}
open e820_memory_region use {start, end_of, contains, is_usable}

-- `[Option<PhysicalMemoryRegion>; 0x20]`.
abbrev pub Regions : Type 0
Regions = List (Option PhysicalMemoryRegion)

-- `new_regions[idx] = Some(region)`: an index out of range panics.
unfoldable pub put : Regions → ℕ → PhysicalMemoryRegion → Run Regions
put new_regions idx region =
    if ltb idx (length new_regions) then ok (set new_regions idx (some region)) else panic

abbrev pub region_of : ℕ → ℕ → PhysicalMemoryRegionType → PhysicalMemoryRegion
region_of start size typ = record { start = start; size = size; typ = typ }

module _ (S : PageSize) (last_frame : PhysicalFrame S) where
  -- The region that holds the last frame: its used part, and the rest if there is one.
  unfoldable pub split_region : E820MemoryRegion → Regions → ℕ → Run (Regions × ℕ)
  split_region region new_regions idx = do
    last_end ← frame_end S last_frame
    used ← sub last_end (start region)
    new_regions' ←
        put new_regions idx (region_of (start region) used PhysicalMemoryRegionType.reserved)
    end ← end_of region
    if not (last_end == end)
        then (do
          left ← sub end last_end
          new_regions'' ←
              put new_regions' (idx + 1) (region_of last_end left PhysicalMemoryRegionType.free)
          ok (new_regions'', idx + 2))
        else ok (new_regions', idx + 1)

  -- One round of the loop; the last part says whether it ends by `continue`.
  unfoldable pub add_region : E820MemoryRegion → Regions → ℕ → Run (Regions × ℕ × Bool)
  add_region region new_regions idx =
      if not (is_usable region)
      then (do
        new_regions' ← put new_regions idx (into_physical region)
        ok (new_regions', idx + 1, false))
      else if start region == 0
      then (do
        new_regions' ←
            put new_regions idx
              (record (into_physical region) { typ = PhysicalMemoryRegionType.reserved })
        ok (new_regions', idx, true))
      else (do
        inside ← contains region last_frame.address
        if inside
            then (do
              (new_regions', idx') ← split_region region new_regions idx
              ok (new_regions', idx', false))
            else (do
              new_regions' ← put new_regions idx (into_physical region)
              ok (new_regions', idx + 1, false)))

  -- The loop, from the state of an earlier round on.
  unfoldable pub add_regions : List E820MemoryRegion → Regions → ℕ → Run Regions
  add_regions [] new_regions idx = ok new_regions
  add_regions (region ∷ regions) new_regions idx = do
    (new_regions', idx', continued) ← add_region region new_regions idx
    assert (continued || ltb idx' (length new_regions'))
    add_regions regions new_regions' idx'

  unfoldable pub build_memory_map : List E820MemoryRegion → Run Regions
  build_memory_map regions = add_regions regions (replicate 32 none) 0
