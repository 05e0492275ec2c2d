-- ===== src/Tests/Huge.antt =====
-- `unmap` of a page of 2 MiB on small page tables.
use miniature_os.Base.{
  ℕ, ◌+◌, ◌*◌, ◌%◌, ◌<◌, ◌≡◌, ◌≢◌, ◌⊎◌, refl, arith, ok, none, some, List, [], ◌∷◌, ◌++◌, length,
  ap, inl, inr, Bool-cases, if◌then◌else◌, ◌==◌, ne→==,
}
use native.Mathlib.Decide.{ℕ_discrete}
use miniature_os.Memory.Address.{align_down}
use miniature_os.Memory.Frame.{Page, size_2mib, containing_address}
use miniature_os.Paging.Crates.{plain_bits}
use miniature_os.Paging.Entry.{
  is_unused, is_present, physical_frame, entry_address, entry_flags, l4_index, l3_index, l2_index,
}
use miniature_os.Paging.Table.{Memory, slot}
use miniature_os.Paging.Mapper.{
  translate_2mib, offset_mapping, indices_2mib, unmap_2mib, translated, translate_at, find_table,
  get_pagetable,
}
use miniature_os.Paging.Mapper.Tree.{Owners, IsTree, IsEntry}
use miniature_os.Paging.Mapper.Huge.{Outcome, unmap_2mib-translate}

-- Tables at 4 KiB, 8 KiB and 12 KiB, with the page at 0 mapped to the frame at 4 MiB.
abbrev huge_mapped : Memory
huge_mapped x =
    if x == 0x1000
    then 0x2007
    else (if x == 0x2000 then 0x3007 else (if x == 0x3000 then 0x400083 else 0))

abbrev three_tables : Owners
three_tables t =
    if t == 0x1000
    then some []
    else (if t == 0x2000 then some (0 ∷ []) else (if t == 0x3000 then some (0 ∷ 0 ∷ []) else none))

abbrev IsTable : ℕ → List ℕ → Type 0
IsTable t p =
    ((t ≡ 0x1000) × (p ≡ [])) ⊎ (((t ≡ 0x2000) × (p ≡ 0 ∷ [])) ⊎ ((t ≡ 0x3000) × (p ≡ 0 ∷ 0 ∷ [])))

which-IsTable : (t : ℕ) (p : List ℕ) → three_tables t ≡ some p → IsTable t p
which-IsTable t p o = elim (Bool-cases (t == 0x1000)) [
  | inl a ↦ inl (ground arith, (let k = rw a at o in cc))
  | inr a ↦ elim (Bool-cases (t == 0x2000)) [
    | inl b ↦ inr (inl (ground arith, (let k = rw (a, b) at o in cc)))
    | inr b ↦ elim (Bool-cases (t == 0x3000)) [
      | inl c ↦ inr (inr (ground arith, (let k = rw (a, b, c) at o in cc)))
      | inr c ↦ absurd (let k = rw (a, b, c) at o in cc)
    ]
  ]
]

empty_slot : (x : ℕ) → x ≢ 0x1000 → x ≢ 0x2000 → x ≢ 0x3000 → huge_mapped x ≡ 0
empty_slot x a b c = rw (ne→== x 0x1000 a, ne→== x 0x2000 b, ne→== x 0x3000 c) refl

-- A table whose entry 0 alone is in use.
one_entry :
    (t : ℕ) (p : List ℕ) (i : ℕ)
    → (t % 4096 ≡ 0)
    → i < 512
    → IsEntry plain_bits (offset_mapping 0) three_tables (huge_mapped (t + 8 * 0)) (p ++ 0 ∷ [])
    → IsEntry plain_bits (offset_mapping 0) three_tables (huge_mapped (t + 8 * i)) (p ++ i ∷ [])
unfolding is_unused
one_entry t p i aligned small used = elim (ℕ_discrete i 0) [
  | yes e ↦ rw e used
  | no ne ↦
      let nothing : huge_mapped (t + 8 * i) ≡ 0 =
        empty_slot (t + 8 * i) (λ h. omega arith) (λ h. omega arith) (λ h. omega arith) in
      inl (rw nothing refl)
]

huge_mapped-IsTree : IsTree plain_bits (offset_mapping 0) 2 0x1000 huge_mapped three_tables
unfolding is_unused physical_frame containing_address align_down entry_address offset_mapping
huge_mapped-IsTree = record {
  top = refl;
  aligned = λ t p o. elim (which-IsTable t p o) [
    | inl (a, _) ↦ omega (arith, a)
    | inr (inl (a, _)) ↦ omega (arith, a)
    | inr (inr (a, _)) ↦ omega (arith, a)
  ];
  entry = λ t i p o lt small. elim (which-IsTable t p o) [
    | inl (a, e) ↦ rw (a, e) (one_entry 0x1000 [] i refl small (inr (refl, 0x2000, refl, refl)))
    | inr (inl (a, e)) ↦
        rw (a, e) (one_entry 0x2000 (0 ∷ []) i refl small (inr (refl, 0x3000, refl, refl)))
    | inr (inr (a, e)) ↦ absurd (omega (arith, lt, ap length e))
  ];
}

abbrev page_zero : Page size_2mib
page_zero = record { address = 0 }

-- The page is mapped, so that the first case is the one that holds.
huge_mapped-translate :
    translate_2mib plain_bits (offset_mapping 0) 0x1000 page_zero huge_mapped
    ≡ ok (translated (record { address = 0x400000 }) 0x83)
unfolding translate_2mib translate_at find_table get_pagetable l4_index l3_index l2_index slot
    is_unused is_present physical_frame containing_address align_down entry_address entry_flags
    offset_mapping
huge_mapped-translate = refl

unmap_2mib-translate_example :
    Outcome plain_bits
      (offset_mapping 0)
      0x1000
      huge_mapped
      three_tables
      size_2mib
      2
      (translate_2mib plain_bits (offset_mapping 0) 0x1000)
      page_zero
      (find_table plain_bits
        (offset_mapping 0)
        (indices_2mib plain_bits (offset_mapping 0) 0)
        0x1000
        huge_mapped)
      (unmap_2mib plain_bits (offset_mapping 0) 0x1000 page_zero huge_mapped)
unmap_2mib-translate_example =
    unmap_2mib-translate plain_bits (offset_mapping 0) 0x1000 huge_mapped three_tables page_zero
      huge_mapped-IsTree refl
