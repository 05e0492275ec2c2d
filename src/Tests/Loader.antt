-- ===== src/Tests/Loader.antt =====
-- A segment of the kernel in the fourth boot stage, at a concrete input.
use miniature_os.Base.{ℕ, ◌+◌, ◌*◌, ◌%◌, ◌<◌, ◌≡◌, inl, inr, refl, arith, true, false, Run}
use miniature_os.Memory.Region.{e820_memory_region}
use miniature_os.Memory.Bump.{nth_frame}
use miniature_os.Memory.Bump.Order.{frame_after}
use miniature_os.Memory.Address.{align_down}
use miniature_os.Memory.Frame.{containing_address}
use miniature_os.Paging.Crates.{plain_bits}
use miniature_os.Paging.Table.{Memory}
use miniature_os.Paging.Mapper.{offset_mapping}
use miniature_os.Paging.Boot.{
  offset_mapping-IsMapping, only_root, bump_frames, bump_frames-IsStocked, stocked-IsFree,
}
use miniature_os.Stage4.Elf.{Header, KernelLoader, Machine, Bytes, allocate_segment}
use miniature_os.Stage4.Elf.Frames.{at_page}
use miniature_os.Stage4.Elf.Segment.{IsPlaced, Done, Loaded, allocate_segment-Loaded}
use miniature_os.Tests.Stages.{
  one_mib, one_mib-Ordered, one_mib-IsBelow, Bump, all_free, IsLeft, HasMore, no_pages,
  empty_tables, nothing_mapped,
}

abbrev loader : KernelLoader
loader = record { virtual_base = 0xffffffff80000000; kernel_start = 0x600000 }

-- Two pages of the file, the second of them in part, and one more page of zeros.
abbrev data_segment : Header
data_segment = record {
  offset = 0x1234;
  virtual_addr = 0x1234;
  file_size = 0x1500;
  mem_size = 0x2000;
  is_execute = false;
  is_write = true;
}

abbrev first_page : ℕ
first_page = 0xffffffff80001000

placed : IsPlaced loader data_segment 0x601000 first_page 0x234 1 1
placed = record {
  in_file = refl;
  in_memory = refl;
  small = omega arith;
  page = refl;
  low = omega arith;
  sizes = omega arith;
  some_file = omega arith;
  all_file = omega arith;
  some_memory = omega arith;
  all_memory = omega arith;
  span = record { page = refl; apart = omega arith; small = omega arith };
}

free_low : (x : ℕ) → IsLeft all_free x → x < 0x300000
free_low x (n, e, le, there) =
    let (_, page, inside) =
      frame_after e820_memory_region one_mib 0 n (record { address = x }) one_mib-Ordered there in
    elim inside [
      | inl (_, _, (e', ends, lt)) ↦ let k : 0x300000 ≡ e' = cc in omega (arith, k, lt)
      | inr none_left ↦ absurd none_left
    ]

many_left : HasMore (3 * (1 + 1) + (4 + (4 * 1 + 0))) all_free
unfolding nth_frame containing_address align_down
many_left = ((refl, omega arith), record { address = 0x20e000 }, refl)

abbrev file : Bytes
file x = x % 251

abbrev Segment : (Memory → Bytes → Bump → Type 0) → Run (Machine Bump) → Type 0
Segment Post run =
    Done plain_bits (offset_mapping 0) (offset_mapping-IsMapping 0 refl (omega arith))
      (bump_frames e820_memory_region 0 one_mib one_mib-Ordered) IsLeft HasMore
      (bump_frames-IsStocked e820_memory_region 0 one_mib one_mib-Ordered one_mib-IsBelow)
      (stocked-IsFree e820_memory_region 0 one_mib one_mib-Ordered) 0x100000 loader data_segment
      0x601000 first_page 0x234 1 1 placed Post run 0 no_pages file all_free

abbrev InMemory : Memory → Bytes → Bump → Type 0
InMemory =
    Loaded plain_bits (offset_mapping 0) (offset_mapping-IsMapping 0 refl (omega arith))
      (bump_frames e820_memory_region 0 one_mib one_mib-Ordered) IsLeft HasMore
      (bump_frames-IsStocked e820_memory_region 0 one_mib one_mib-Ordered one_mib-IsBelow)
      (stocked-IsFree e820_memory_region 0 one_mib one_mib-Ordered) 0x100000 loader data_segment
      0x601000 first_page 0x234 1 1 placed file

allocate_segment-Loaded_example : Segment InMemory (
    allocate_segment plain_bits
      (offset_mapping 0)
      (bump_frames e820_memory_region 0 one_mib one_mib-Ordered)
      0x100000
      loader
      5
      data_segment
      (record { tables = no_pages; bytes = file; allocator = all_free }))
allocate_segment-Loaded_example =
    allocate_segment-Loaded plain_bits (offset_mapping 0)
      (offset_mapping-IsMapping 0 refl (omega arith))
      (bump_frames e820_memory_region 0 one_mib one_mib-Ordered) IsLeft HasMore
      (bump_frames-IsStocked e820_memory_region 0 one_mib one_mib-Ordered one_mib-IsBelow)
      (stocked-IsFree e820_memory_region 0 one_mib one_mib-Ordered) 0x100000 loader data_segment
      0x601000 first_page 0x234 1 1 placed 5 0 no_pages file all_free (only_root 0x100000)
      (omega arith) empty_tables many_left
      (λ j le free. let lt : 0x601000 + j * 4096 < 0x300000 = free_low _ free in omega (arith, lt))
      (λ j le lt. nothing_mapped (at_page (first_page + j * 4096)))
