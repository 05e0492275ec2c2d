-- ===== src/Gdt/Table.antt =====
-- Adding descriptors to the table.
use miniature_os.Base.{ℕ, zero, suc, ◌+◌, ◌*◌, ◌/◌, ◌%◌, ◌^◌, ◌≤◌, ◌<◌, ◌≡◌, refl, sym, ◌∙◌}
use miniature_os.Base.{arith, true, false, ok, panic, ltb, lt→ltb, ==→eq, Bool-cases, inl, inr}
use miniature_os.Base.{◌==◌, length, set, get_or, length-set, get_or-set_self, get_or-set_ne}
use miniature_os.Base.{u16_mod}
use miniature_os.Base.Bits.{bit_and_mask, bit_or_fields}
use miniature_os.Gdt.{PrivilegeLevel, ring0, ring1, ring2, ring3, ring_number, privilege_level}
use miniature_os.Gdt.{
  selector, SegmentDescriptor, user, system, low_value, descriptor_privilege_level,
}
use miniature_os.Gdt.{GlobalDescriptorTable, push, push_words, add_entry}

-- Eight entries, of which the first `size` are in use, the null entry among them.
pub record IsTable (t : GlobalDescriptorTable) : Type 0 where
  pub eight : length t.entries ≡ 8
  pub null : 1 ≤ t.size
  pub in_table : t.size ≤ 8

abbrev pub words : SegmentDescriptor → ℕ
words (user v) = 1
words (system low high) = 2

-- The descriptor stands at `idx` of the table.
abbrev pub Stands : GlobalDescriptorTable → ℕ → SegmentDescriptor → Type 0
Stands t idx (user v) = get_or t.entries idx 0 ≡ v
Stands t idx (system low high) =
    (get_or t.entries idx 0 ≡ low) × (get_or t.entries (idx + 1) 0 ≡ high)

level_lem :
    (n : ℕ)
    → n < 4
    → (level : PrivilegeLevel) × (privilege_level n ≡ ok level) × (ring_number level ≡ n)
unfolding privilege_level
level_lem zero h = (ring0, refl, refl)
level_lem (suc zero) h = (ring1, refl, refl)
level_lem (suc (suc zero)) h = (ring2, refl, refl)
level_lem (suc (suc (suc zero))) h = (ring3, refl, refl)
level_lem (suc (suc (suc (suc n)))) h = absurd (omega arith)

words_pos : (d : SegmentDescriptor) → 1 ≤ words d
words_pos (user v) = omega arith
words_pos (system low high) = omega arith

ring_lt : (level : PrivilegeLevel) → ring_number level < 2 ^ 3
ring_lt ring0 = omega arith
ring_lt ring1 = omega arith
ring_lt ring2 = omega arith
ring_lt ring3 = omega arith

selector_lem :
    (idx : ℕ) (level : PrivilegeLevel)
    → idx < 8
    → selector (idx % u16_mod) level ≡ idx * 8 + ring_number level
unfolding selector
selector_lem idx level h =
    let e : (idx % u16_mod) * 2 ^ 3 % u16_mod ≡ idx * 2 ^ 3 = omega arith in
    rw e (bit_or_fields 3 idx (ring_number level) (ring_lt level))

push_lem :
    (t : GlobalDescriptorTable) (v : ℕ)
    → IsTable t
    → t.size < 8
    → (after : GlobalDescriptorTable) × (push t v ≡ ok (t.size, after))
      × IsTable after
      × (after.size ≡ t.size + 1)
      × (get_or after.entries t.size 0 ≡ v)
      × ((i : ℕ) → i < t.size → get_or after.entries i 0 ≡ get_or t.entries i 0)
unfolding push
push_lem t v w room =
    let free : ltb t.size (length t.entries) ≡ true = lt→ltb _ _ (omega (arith, w.eight)) in
    (
      record { entries = set t.entries t.size v; size = t.size + 1 },
      rw free refl,
      record {
        eight = length-set t.entries t.size v ∙ w.eight;
        null = omega arith;
        in_table = omega arith;
      },
      refl,
      get_or-set_self t.entries t.size v 0 (omega (arith, w.eight)),
      λ i lt. get_or-set_ne t.entries t.size i v 0 (omega arith),
    )

push_words_lem :
    (t : GlobalDescriptorTable) (d : SegmentDescriptor)
    → IsTable t
    → t.size + words d ≤ 8
    → (after : GlobalDescriptorTable) × (push_words t d ≡ ok (t.size, after))
      × IsTable after
      × (after.size ≡ t.size + words d)
      × Stands after t.size d
      × ((i : ℕ) → i < t.size → get_or after.entries i 0 ≡ get_or t.entries i 0)
unfolding push_words
push_words_lem t (user v) w room = push_lem t v w (omega arith)
push_words_lem t (system low high) w room =
    let (mid, q1, w1, size1, here1, same1) = push_lem t low w (omega arith) in
    let (after, q2, w2, size2, here2, same2) = push_lem mid high w1 (omega (arith, size1)) in
    (
      after,
      rw (q1, q2) refl,
      w2,
      omega (arith, size1, size2),
      (same2 t.size (omega (arith, size1)) ∙ here1, rw (sym size1) here2),
      λ i lt. same2 i (omega (arith, size1)) ∙ same1 i lt,
    )

-- A descriptor for which the table has room is added behind the entries in use: its words stand at
-- the index of the selector that is returned, whose low bits are the privilege level of the
-- descriptor (bits 45 and 46 of its first word), the entries in use before are unchanged, and
-- the table is well-formed again.
pub add_entry_lem :
    (t : GlobalDescriptorTable) (d : SegmentDescriptor)
    → IsTable t
    → t.size + words d ≤ 8
    → (after : GlobalDescriptorTable) × (add_entry t d
        ≡ ok (t.size * 8 + low_value d / 2 ^ 45 % 4, after))
      × IsTable after
      × (after.size ≡ t.size + words d)
      × Stands after t.size d
      × ((i : ℕ) → i < t.size → get_or after.entries i 0 ≡ get_or t.entries i 0)
unfolding add_entry descriptor_privilege_level
add_entry_lem t d w room =
    let (after, q, w', size', here, same) = push_words_lem t d w room in
    let (level, known, number) = level_lem (low_value d / 2 ^ 45 % 2 ^ 2) (omega arith) in
    let idx_lt : t.size < 8 = omega (arith, words_pos d) in
    (
      after,
      rw (q, bit_and_mask 2 (low_value d / 2 ^ 45), known, selector_lem t.size level idx_lt, number)
          refl,
      w',
      size',
      here,
      same,
    )

push-full : (t : GlobalDescriptorTable) (v : ℕ) → IsTable t → t.size ≡ 8 → push t v ≡ panic
unfolding push
push-full t v w full =
    let none_free : ltb t.size (length t.entries) ≡ false = ground (arith, w.eight) in
    rw none_free refl

-- A descriptor for which the table has no room is refused by a panic, also one of two words when
-- one entry is free.
pub add_entry-full :
    (t : GlobalDescriptorTable) (d : SegmentDescriptor)
    → IsTable t
    → 8 < t.size + words d
    → add_entry t d ≡ panic
unfolding add_entry push_words
add_entry-full t (user v) w full = rw (push-full t v w (omega (arith, w.in_table))) refl
add_entry-full t (system low high) w full = elim (Bool-cases (t.size == 8)) [
  | inl eight ↦ rw (push-full t low w (==→eq _ _ eight)) refl
  | inr seven ↦
      let (mid, q, w', size', here, same) = push_lem t low w (ground (arith, w.in_table)) in
      rw (q, push-full mid high w' (ground (arith, size', w.in_table))) refl
]
