-- ===== src/Tests/Pages.antt =====
-- Addresses, frames and page tables at concrete inputs.
use miniature_os.Base.{ℕ, ◌+◌, ◌*◌, ◌%◌, ◌^◌, ◌<◌, ◌≤◌, ◌≡◌, refl, arith, ok, some, List, [], ◌∷◌}
use miniature_os.Base.{◌==◌}
use miniature_os.Memory.Address.{align_down, align_up, align_up_lem}
use miniature_os.Memory.Region.{E820MemoryRegion, E820MemoryRegionType, e820_memory_region}
use miniature_os.Memory.Frame.{
  PhysicalFrame, size_4kib, containing_address, add_frames, frame_distance, range_collect,
}
use miniature_os.Memory.Frame.Laws.{distance-add, range_collect_lem, frames_from}
use miniature_os.Memory.Bump.{BumpFrameAllocator, allocate_frame, nth_frame}
use miniature_os.Memory.Bump.Order.{InUsable, Ordered, allocate_frame_lem}
use miniature_os.Paging.Crates.{plain_bits}
use miniature_os.Paging.Entry.{
  entry_address, entry_flags, is_present, set_address, set_address_fields,
}

align_up_lem_example :
    (r : ℕ) × (align_up 0x12345 (2 ^ 12) ≡ ok r)
    × (r % 2 ^ 12 ≡ 0)
    × (0x12345 ≤ r)
    × (r < 0x12345 + 2 ^ 12)
align_up_lem_example = align_up_lem 12 0x12345 (omega arith) (omega arith)

distance-add_example :
    (g : PhysicalFrame size_4kib) × (add_frames size_4kib (record { address = 0x3000 }) 5 ≡ ok g)
    × (g.address ≡ 0x3000 + 5 * 0x1000)
    × (frame_distance size_4kib g (record { address = 0x3000 }) ≡ ok 5)
distance-add_example = distance-add size_4kib (record { address = 0x3000 }) 5 refl (omega arith)

range_collect_lem_example :
    range_collect size_4kib 4 (record {
      start = record { address = 0x3000 };
      end = record { address = 0x3000 + 2 * 0x1000 };
    })
    ≡ ok (frames_from size_4kib 0x3000 3)
range_collect_lem_example = range_collect_lem size_4kib 2 4 0x3000 (omega arith) (omega arith)

abbrev e820 : List E820MemoryRegion
e820 =
    record {
      start = 0;
      size = 0x2000;
      typ = E820MemoryRegionType.reserved;
      acpi_extended_attributes = 0;
    }
    ∷ record {
      start = 0x3000;
      size = 0x1800;
      typ = E820MemoryRegionType.normal;
      acpi_extended_attributes = 0;
    }
    ∷ record {
      start = 0x6000;
      size = 0x2000;
      typ = E820MemoryRegionType.normal;
      acpi_extended_attributes = 0;
    }
    ∷ []

abbrev bump : ℕ → BumpFrameAllocator E820MemoryRegion
bump n = record { memory_map = e820; next = n }

second_frame :
    allocate_frame e820_memory_region (bump 1) ≡ ok (some (record { address = 0x4000 }), bump 2)
unfolding allocate_frame nth_frame containing_address align_down
second_frame = refl

third_frame :
    allocate_frame e820_memory_region (bump 2) ≡ ok (some (record { address = 0x6000 }), bump 3)
unfolding allocate_frame nth_frame containing_address align_down
third_frame = refl

e820-Ordered : Ordered e820_memory_region 0 e820
e820-Ordered = (
  omega arith,
  refl,
  0x2000,
  refl,
  omega arith,
  omega arith,
  (
    omega arith,
    refl,
    0x4800,
    refl,
    omega arith,
    omega arith,
    (omega arith, refl, 0x8000, refl, omega arith, omega arith, tt),
  ),
)

allocate_frame_lem_example :
    (0x4000 % 4096 ≡ 0) × InUsable e820_memory_region 0x4000 e820 × (0x4000 + 4096 ≤ 0x6000)
allocate_frame_lem_example =
    allocate_frame_lem e820_memory_region 0 (bump 1) (bump 2) (bump 2) (bump 3)
      (record { address = 0x4000 }) (record { address = 0x6000 }) e820-Ordered second_frame refl
      (omega arith) third_frame

set_address_fields_example :
    (entry_address plain_bits (set_address (0x1234 * 2 ^ 12) (0x800 * 2 ^ 52 + 3))
      ≡ 0x1234 * 2 ^ 12)
    × (entry_flags plain_bits (set_address (0x1234 * 2 ^ 12) (0x800 * 2 ^ 52 + 3))
        ≡ 0x800 * 2 ^ 52 + 3)
    × (is_present (set_address (0x1234 * 2 ^ 12) (0x800 * 2 ^ 52 + 3)) ≡ (3 % 2 == 1))
set_address_fields_example =
    set_address_fields plain_bits 0x1234 0x800 3 (omega arith) (omega arith) (omega arith)
