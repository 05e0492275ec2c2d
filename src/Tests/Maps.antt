-- ===== src/Tests/Maps.antt =====
-- The mapper over the bump allocator, at concrete inputs.
use miniature_os.Base.{
  ℕ, ◌+◌, ◌*◌, ◌%◌, ◌^◌, ◌<◌, ◌≡◌, ◌≢◌, ◌⊎◌, refl, arith, ok, none, some, List, [], ◌∷◌, ◌++◌,
  length, ap, inl, inr, bit_or, Bool-cases, if◌then◌else◌, ◌==◌, ne→==,
}
use native.Mathlib.Decide.{ℕ_discrete}
use miniature_os.Memory.Address.{align_down}
use miniature_os.Memory.Region.{E820MemoryRegion, E820MemoryRegionType, e820_memory_region}
use miniature_os.Memory.Frame.{Page, size_4kib, size_2mib, containing_address}
use miniature_os.Memory.Bump.{BumpFrameAllocator}
use miniature_os.Memory.Bump.Order.{Ordered, frame_after}
use miniature_os.Paging.Crates.{plain_bits}
use miniature_os.Paging.Entry.{
  huge_page, is_unused, is_present, physical_frame, entry_address, entry_flags, l4_index, l3_index,
  l2_index, l1_index,
}
use miniature_os.Paging.Table.{Memory, slot}
use miniature_os.Paging.Mapper.{
  FrameAllocator, MapResult, map_to_4kib, map_to_2mib, translate_4kib, translate_2mib,
  offset_mapping, unmap_4kib, unmapped, translated, translate_at, find_table, get_pagetable,
}
use miniature_os.Paging.Mapper.Tree.{Owners, IsTree, IsEntry}
use miniature_os.Paging.Mapper.Remove.{Removed, unmap_4kib-translate}
use miniature_os.Paging.Mapper.Supply.{IsAllocator}
use miniature_os.Paging.Mapper.Map.{IsSound}
use miniature_os.Paging.Mapper.Pages.{After}
use miniature_os.Paging.Mapper.Translate.{map_to_4kib-translate, map_to_2mib-translate}
use miniature_os.Paging.Boot.{
  offset_mapping-IsMapping, only_root, only_root-IsTree, only_root-IsApart,
}
use miniature_os.Paging.Boot.{bump_frames, IsFree, IsReady, bump_frames-IsAllocator, IsBelow}

abbrev low_memory : List E820MemoryRegion
low_memory =
    record {
      start = 0x3000;
      size = 0x9000;
      typ = E820MemoryRegionType.normal;
      acpi_extended_attributes = 0;
    }
    ∷ []

low_memory-Ordered : Ordered e820_memory_region 0 low_memory
low_memory-Ordered = (omega arith, refl, 0xc000, refl, omega arith, omega arith, tt)

low_memory-IsBelow : IsBelow e820_memory_region 0 low_memory low_memory-Ordered low_memory
low_memory-IsBelow = (λ e h. (let k : 0xc000 ≡ e = cc in omega (arith, k)), tt)

abbrev first : BumpFrameAllocator E820MemoryRegion
first = record { memory_map = low_memory; next = 0 }

abbrev IsLeft : BumpFrameAllocator E820MemoryRegion → ℕ → Type 0
IsLeft = IsFree e820_memory_region 0 low_memory low_memory-Ordered

abbrev frames : FrameAllocator (BumpFrameAllocator E820MemoryRegion)
frames = bump_frames e820_memory_region 0 low_memory low_memory-Ordered

abbrev IsCounted : ℕ → BumpFrameAllocator E820MemoryRegion → Type 0
IsCounted = IsReady e820_memory_region 0 low_memory low_memory-Ordered

bump_frames-IsAllocator_example : IsAllocator frames IsLeft IsCounted
bump_frames-IsAllocator_example =
    bump_frames-IsAllocator e820_memory_region 0 low_memory low_memory-Ordered low_memory-IsBelow

-- A level-4 table at 1 MiB, and no table else.
abbrev no_pages : Memory
no_pages x = 0

free_low : (x : ℕ) → IsLeft first x → x < 0xc000
free_low x (n, e, le, there) =
    let (_, page, inside) =
      frame_after e820_memory_region low_memory 0 n (record { address = x }) low_memory-Ordered
        there in
    elim inside [
      | inl (_, _, (end, ends, lt)) ↦ (let k : 0xc000 ≡ end = cc in omega (arith, k, lt))
      | inr none_left ↦ absurd none_left
    ]

first_table :
    (depth : ℕ)
    → IsSound plain_bits
        (offset_mapping 0)
        depth
        0x100000
        IsLeft
        no_pages
        first
        (only_root 0x100000)
first_table depth = (
  only_root-IsTree plain_bits (offset_mapping 0) depth 0x100000 no_pages refl (λ j h. refl),
  only_root-IsApart plain_bits 0 depth 0x100000 IsLeft first
      (λ x free_x same. let low : x < 0xc000 = free_low x free_x in omega (arith, same)),
)

abbrev page_4kib : Page size_4kib
page_4kib = record { address = 0x7f0012345000 }

abbrev page_2mib : Page size_2mib
page_2mib = record { address = 0x7f0012200000 }

map_to_4kib-translate_example :
    (r : MapResult size_4kib) × (m' : Memory) × (a' : BumpFrameAllocator E820MemoryRegion)
    × (own' : Owners) × (map_to_4kib plain_bits
          (offset_mapping 0)
          frames
          0x100000
          (record { address = 9 * 2 ^ 12 })
          page_4kib
          (0x800 * 2 ^ 52 + 3)
          no_pages
          first
        ≡ ok (r, m', a'))
    × IsSound plain_bits (offset_mapping 0) 3 0x100000 IsLeft m' a' own'
    × IsCounted 5 a'
    × After size_4kib
        (translate_4kib plain_bits (offset_mapping 0) 0x100000)
        (IsLeft a')
        page_4kib
        (record { address = 9 * 2 ^ 12 })
        (0x800 * 2 ^ 52 + 3)
        no_pages
        m'
        r
map_to_4kib-translate_example =
    map_to_4kib-translate plain_bits (offset_mapping 0)
      (offset_mapping-IsMapping 0 refl (omega arith)) frames IsLeft IsCounted
      (bump_frames-IsAllocator e820_memory_region 0 low_memory low_memory-Ordered
        low_memory-IsBelow)
      0x100000 5 no_pages first (only_root 0x100000) page_4kib 9 0x800 3 refl (omega arith)
      (omega arith) (omega arith) refl (first_table 3) (refl, omega arith)

map_to_2mib-translate_example :
    (r : MapResult size_2mib) × (m' : Memory) × (a' : BumpFrameAllocator E820MemoryRegion)
    × (own' : Owners) × (map_to_2mib plain_bits
          (offset_mapping 0)
          frames
          0x100000
          (record { address = 9 * 2 ^ 21 })
          page_2mib
          (0x800 * 2 ^ 52 + 3)
          no_pages
          first
        ≡ ok (r, m', a'))
    × IsSound plain_bits (offset_mapping 0) 2 0x100000 IsLeft m' a' own'
    × IsCounted 5 a'
    × After size_2mib
        (translate_2mib plain_bits (offset_mapping 0) 0x100000)
        (IsLeft a')
        page_2mib
        (record { address = 9 * 2 ^ 21 })
        (bit_or (0x800 * 2 ^ 52 + 3) huge_page)
        no_pages
        m'
        r
map_to_2mib-translate_example =
    map_to_2mib-translate plain_bits (offset_mapping 0)
      (offset_mapping-IsMapping 0 refl (omega arith)) frames IsLeft IsCounted
      (bump_frames-IsAllocator e820_memory_region 0 low_memory low_memory-Ordered
        low_memory-IsBelow)
      0x100000 5 no_pages first (only_root 0x100000) page_2mib 9 0x800 3 refl (omega arith)
      (omega arith) (omega arith) refl (first_table 2) (refl, omega arith)

-- Tables at 4 KiB, 8 KiB, 12 KiB and 16 KiB, with one page mapped.
abbrev one_mapped : Memory
one_mapped x =
    if x == 0x1000
    then 0x2007
    else (if x == 0x2000
        then 0x3007
        else (if x == 0x3000 then 0x4007 else (if x == 0x4000 then 0x9003 else 0)))

abbrev four_tables : Owners
four_tables t =
    if t == 0x1000
    then some []
    else (if t == 0x2000
        then some (0 ∷ [])
        else (if t == 0x3000
            then some (0 ∷ 0 ∷ [])
            else (if t == 0x4000 then some (0 ∷ 0 ∷ 0 ∷ []) else none)))

abbrev IsTable : ℕ → List ℕ → Type 0
IsTable t p =
    ((t ≡ 0x1000) × (p ≡ []))
    ⊎ (((t ≡ 0x2000) × (p ≡ 0 ∷ []))
        ⊎ (((t ≡ 0x3000) × (p ≡ 0 ∷ 0 ∷ [])) ⊎ ((t ≡ 0x4000) × (p ≡ 0 ∷ 0 ∷ 0 ∷ []))))

which-IsTable : (t : ℕ) (p : List ℕ) → four_tables t ≡ some p → IsTable t p
which-IsTable t p o = elim (Bool-cases (t == 0x1000)) [
  | inl a ↦ inl (ground arith, (let k = rw a at o in cc))
  | inr a ↦ elim (Bool-cases (t == 0x2000)) [
    | inl b ↦ inr (inl (ground arith, (let k = rw (a, b) at o in cc)))
    | inr b ↦ elim (Bool-cases (t == 0x3000)) [
      | inl c ↦ inr (inr (inl (ground arith, (let k = rw (a, b, c) at o in cc))))
      | inr c ↦ elim (Bool-cases (t == 0x4000)) [
        | inl d ↦ inr (inr (inr (ground arith, (let k = rw (a, b, c, d) at o in cc))))
        | inr d ↦ absurd (let k = rw (a, b, c, d) at o in cc)
      ]
    ]
  ]
]

empty_slot : (x : ℕ) → x ≢ 0x1000 → x ≢ 0x2000 → x ≢ 0x3000 → x ≢ 0x4000 → one_mapped x ≡ 0
empty_slot x a b c d =
    rw (ne→== x 0x1000 a, ne→== x 0x2000 b, ne→== x 0x3000 c, ne→== x 0x4000 d) refl

-- A table whose entry 0 alone is in use.
one_entry :
    (t : ℕ) (p : List ℕ) (i : ℕ)
    → (t % 4096 ≡ 0)
    → (0 < t)
    → i < 512
    → IsEntry plain_bits (offset_mapping 0) four_tables (one_mapped (t + 8 * 0)) (p ++ 0 ∷ [])
    → IsEntry plain_bits (offset_mapping 0) four_tables (one_mapped (t + 8 * i)) (p ++ i ∷ [])
unfolding is_unused
one_entry t p i aligned positive small used = elim (ℕ_discrete i 0) [
  | yes e ↦ rw e used
  | no ne ↦
      let nothing : one_mapped (t + 8 * i) ≡ 0 =
        empty_slot (t + 8 * i) (λ h. omega arith) (λ h. omega arith) (λ h. omega arith)
          (λ h. omega arith) in
      inl (rw nothing refl)
]

one_mapped-IsTree : IsTree plain_bits (offset_mapping 0) 3 0x1000 one_mapped four_tables
unfolding is_unused physical_frame containing_address align_down entry_address offset_mapping
one_mapped-IsTree = record {
  top = refl;
  aligned = λ t p o. elim (which-IsTable t p o) [
    | inl (a, _) ↦ omega (arith, a)
    | inr (inl (a, _)) ↦ omega (arith, a)
    | inr (inr (inl (a, _))) ↦ omega (arith, a)
    | inr (inr (inr (a, _))) ↦ omega (arith, a)
  ];
  entry = λ t i p o lt small. elim (which-IsTable t p o) [
    | inl (a, e) ↦
        rw (a, e) (one_entry 0x1000 [] i refl (omega arith) small (inr (refl, 0x2000, refl, refl)))
    | inr (inl (a, e)) ↦
        rw (a, e)
          (one_entry 0x2000 (0 ∷ []) i refl (omega arith) small (inr (refl, 0x3000, refl, refl)))
    | inr (inr (inl (a, e))) ↦
        rw (a, e)
          (one_entry 0x3000 (0 ∷ 0 ∷ []) i refl (omega arith) small
            (inr (refl, 0x4000, refl, refl)))
    | inr (inr (inr (a, e))) ↦ absurd (omega (arith, lt, ap length e))
  ];
}

abbrev page_zero : Page size_4kib
page_zero = record { address = 0 }

one_mapped-translate :
    translate_4kib plain_bits (offset_mapping 0) 0x1000 page_zero one_mapped
    ≡ ok (translated (record { address = 0x9000 }) 3)
unfolding translate_4kib translate_at find_table get_pagetable l4_index l3_index l2_index l1_index
    slot is_unused is_present physical_frame containing_address align_down entry_address entry_flags
    offset_mapping
one_mapped-translate = refl

unmap_4kib-translate_example :
    (m' : Memory) × (unmap_4kib plain_bits (offset_mapping 0) 0x1000 page_zero one_mapped
      ≡ ok (unmapped (record { address = 0 }) page_zero, m'))
    × Removed plain_bits
        (offset_mapping 0)
        0x1000
        one_mapped
        four_tables
        size_4kib
        3
        (translate_4kib plain_bits (offset_mapping 0) 0x1000)
        page_zero
        m'
unmap_4kib-translate_example =
    unmap_4kib-translate plain_bits (offset_mapping 0) 0x1000 one_mapped four_tables page_zero
      (record { address = 0x9000 }) 3 one_mapped-IsTree refl one_mapped-translate
