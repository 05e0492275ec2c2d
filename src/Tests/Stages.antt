-- ===== src/Tests/Stages.antt =====
-- The memory map and the kernel stack of the fourth boot stage, at concrete inputs.
use miniature_os.Base.{
  ℕ, ◌+◌, ◌/◌, ◌%◌, ◌^◌, ◌≤◌, ◌≡◌, inl, inr, refl, arith, true, ok, List, [], ◌∷◌, lt→ltb, ltb,
}
use miniature_os.Memory.Region.{E820MemoryRegion, E820MemoryRegionType, e820_memory_region}
use miniature_os.Memory.Frame.{PhysicalFrame, Page, size_4kib}
use miniature_os.Memory.Bump.{BumpFrameAllocator, nth_frame}
use miniature_os.Memory.Bump.Order.{Ordered, frame_after}
use miniature_os.Memory.Address.{align_down}
use miniature_os.Memory.Frame.{containing_address}
use miniature_os.Paging.Crates.{plain_bits}
use miniature_os.Paging.Entry.{is_unused, l4_index}
use miniature_os.Paging.Table.{Memory, slot}
use miniature_os.Paging.Mapper.{
  offset_mapping, translate_4kib, translate_at, find_table, get_pagetable, not_mapped,
}
use miniature_os.Paging.Mapper.Tree.{Owners}
use miniature_os.Paging.Mapper.Map.{IsSound}
use miniature_os.Paging.Boot.{
  offset_mapping-IsMapping, only_root, only_root-IsTree, only_root-IsApart, bump_frames, IsFree,
  IsStocked, bump_frames-IsStocked, stocked-IsFree, IsBelow,
}
use miniature_os.Stage4.MemoryMap.{Regions, build_memory_map}
use miniature_os.Stage4.MemoryMap.Free.{FreeAt}
use miniature_os.Stage4.MemoryMap.Rounds.{LeftAt, build_memory_map-free}
use miniature_os.Stage4.Stack.{allocate_and_map_stack, kernel_stack_top}
use miniature_os.Stage4.Stack.Guarded.{
  stack_pages, guard_page, Unmapped, Backed, SameElsewhere, allocate_and_map_stack_lem,
}

abbrev bios_region : ℕ → ℕ → E820MemoryRegionType → E820MemoryRegion
bios_region start size typ = record {
  start = start;
  size = size;
  typ = typ;
  acpi_extended_attributes = 0;
}

abbrev bios_regions : List E820MemoryRegion
bios_regions =
    bios_region 0 0x9fc00 E820MemoryRegionType.normal
    ∷ bios_region 0x9fc00 0x400 E820MemoryRegionType.reserved
    ∷ bios_region 0x100000 0x7ee0000 E820MemoryRegionType.normal
    ∷ bios_region 0x7fe0000 0x20000 E820MemoryRegionType.acpi_reclaimable
    ∷ []

abbrev last_frame : PhysicalFrame size_4kib
last_frame = record { address = 0x400000 }

build_memory_map-free_example :
    (now : Regions) × (build_memory_map size_4kib last_frame bios_regions ≡ ok now)
    × ((x : ℕ) → FreeAt now x → LeftAt size_4kib last_frame bios_regions x)
    × ((x : ℕ) → LeftAt size_4kib last_frame bios_regions x → FreeAt now x)
build_memory_map-free_example =
    build_memory_map-free size_4kib last_frame bios_regions
      (
        (omega arith, λ u h. omega arith),
        (
          (omega arith, λ u h. omega arith),
          ((omega arith, λ u h. omega arith), ((omega arith, λ u h. omega arith), tt)),
        ),
      )
      (omega arith)

-- 256 frames of 4 KiB.
abbrev pub one_mib : List E820MemoryRegion
one_mib = bios_region 0x200000 0x100000 E820MemoryRegionType.normal ∷ []

pub one_mib-Ordered : Ordered e820_memory_region 0 one_mib
one_mib-Ordered = (omega arith, refl, 0x300000, refl, omega arith, omega arith, tt)

pub one_mib-IsBelow : IsBelow e820_memory_region 0 one_mib one_mib-Ordered one_mib
one_mib-IsBelow = (λ e h. (let k : 0x300000 ≡ e = cc in omega (arith, k)), tt)

abbrev pub Bump : Type 0
Bump = BumpFrameAllocator E820MemoryRegion

abbrev pub all_free : Bump
all_free = record { memory_map = one_mib; next = 0 }

abbrev pub IsLeft : Bump → ℕ → Type 0
IsLeft = IsFree e820_memory_region 0 one_mib one_mib-Ordered

abbrev pub HasMore : ℕ → Bump → Type 0
HasMore = IsStocked e820_memory_region 0 one_mib one_mib-Ordered

many_left : HasMore (136 + 0) all_free
unfolding nth_frame containing_address align_down
many_left = ((refl, omega arith), record { address = 0x288000 }, refl)

-- A level-4 table at 1 MiB, and no table else.
abbrev pub no_pages : Memory
no_pages x = 0

free_high : (x : ℕ) → IsLeft all_free x → 0x200000 ≤ x
free_high x (n, e, le, there) =
    let (_, page, inside) =
      frame_after e820_memory_region one_mib 0 n (record { address = x }) one_mib-Ordered there in
    elim inside [ inl (_, low, _) ↦ low | inr none_left ↦ absurd none_left ]

pub empty_tables :
    IsSound plain_bits (offset_mapping 0) 3 0x100000 IsLeft no_pages all_free (only_root 0x100000)
empty_tables = (
  only_root-IsTree plain_bits (offset_mapping 0) 3 0x100000 no_pages refl (λ j h. refl),
  only_root-IsApart plain_bits 0 3 0x100000 IsLeft all_free
      (λ x free_x same. let high : 0x200000 ≤ x = free_high x free_x in omega (arith, same)),
)

pub nothing_mapped :
    (p : Page size_4kib)
    → translate_4kib plain_bits (offset_mapping 0) 0x100000 p no_pages ≡ ok not_mapped
unfolding translate_4kib translate_at find_table get_pagetable slot is_unused l4_index
nothing_mapped p =
    let small : ltb (p.address / 2 ^ 39 % 2 ^ 9) 512 ≡ true = lt→ltb _ _ (omega arith) in
    rw small refl

abbrev NoPageMapped : List (Page size_4kib) → Type 0
NoPageMapped ps =
    Unmapped plain_bits (offset_mapping 0) (offset_mapping-IsMapping 0 refl (omega arith))
      (bump_frames e820_memory_region 0 one_mib one_mib-Ordered) IsLeft HasMore
      (bump_frames-IsStocked e820_memory_region 0 one_mib one_mib-Ordered one_mib-IsBelow)
      (stocked-IsFree e820_memory_region 0 one_mib one_mib-Ordered) 0x100000 ps no_pages

abbrev AllBacked : Memory → Type 0
AllBacked m =
    Backed plain_bits (offset_mapping 0) (offset_mapping-IsMapping 0 refl (omega arith))
      (bump_frames e820_memory_region 0 one_mib one_mib-Ordered) IsLeft HasMore
      (bump_frames-IsStocked e820_memory_region 0 one_mib one_mib-Ordered one_mib-IsBelow)
      (stocked-IsFree e820_memory_region 0 one_mib one_mib-Ordered) 0x100000 (IsLeft all_free)
      stack_pages m

abbrev ElsewhereSame : Memory → Type 0
ElsewhereSame m =
    SameElsewhere plain_bits (offset_mapping 0) (offset_mapping-IsMapping 0 refl (omega arith))
      (bump_frames e820_memory_region 0 one_mib one_mib-Ordered) IsLeft HasMore
      (bump_frames-IsStocked e820_memory_region 0 one_mib one_mib-Ordered one_mib-IsBelow)
      (stocked-IsFree e820_memory_region 0 one_mib one_mib-Ordered) 0x100000
      (guard_page ∷ stack_pages) no_pages m

unmapped : (ps : List (Page size_4kib)) → NoPageMapped ps
unmapped [] = tt
unmapped (p ∷ ps) = (nothing_mapped p, unmapped ps)

allocate_and_map_stack_lem_example :
    (m' : Memory) × (a' : Bump) × (own' : Owners) × (allocate_and_map_stack plain_bits
        (offset_mapping 0)
        (bump_frames e820_memory_region 0 one_mib one_mib-Ordered)
        0x100000
        40
        no_pages
        all_free
      ≡ ok (kernel_stack_top, m', a'))
    × IsSound plain_bits (offset_mapping 0) 3 0x100000 IsLeft m' a' own'
    × HasMore 0 a'
    × AllBacked m'
    × (translate_4kib plain_bits (offset_mapping 0) 0x100000 guard_page m' ≡ ok not_mapped)
    × ElsewhereSame m'
allocate_and_map_stack_lem_example =
    allocate_and_map_stack_lem plain_bits (offset_mapping 0)
      (offset_mapping-IsMapping 0 refl (omega arith))
      (bump_frames e820_memory_region 0 one_mib one_mib-Ordered) IsLeft HasMore
      (bump_frames-IsStocked e820_memory_region 0 one_mib one_mib-Ordered one_mib-IsBelow)
      (stocked-IsFree e820_memory_region 0 one_mib one_mib-Ordered) 0x100000 0 40 no_pages all_free
      (only_root 0x100000) (omega arith) empty_tables many_left
      (unmapped (guard_page ∷ stack_pages))
