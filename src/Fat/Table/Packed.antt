-- ===== src/Fat/Table/Packed.antt =====
-- The entries of a table as the three formats lay them out on the disk, and `get_entry` on them.
use miniature_os.Base.{ℕ, zero, suc, ◌+◌, ◌*◌, ◌/◌, ◌%◌, ◌^◌, ◌≤◌, ◌<◌, List, [], ◌∷◌}
use miniature_os.Base.{true, ◌≡◌, refl, sym, ap, ◌∙◌, ◌⊎◌, inl, inr, arith}
use miniature_os.Base.Bits.{bit_and_mask}
use miniature_os.Base.{ok, lt→ltb, length, ==_self, ltb}
use miniature_os.Base.{from_le_bytes, u32_mod, u64_mod}
use miniature_os.Fat.Bpb.{FatType, fat12, fat16, fat32}
use miniature_os.Fat.Table.{ReadSeek, FileAllocationTable, entry_value, get_entry, read_at}
use miniature_os.Fat.Table.{fat12_value, parse_entry}

-- The `n` bytes at an offset of the disk's content.
abbrev pub bytes_at : (ℕ → ℕ) → ℕ → ℕ → List ℕ
bytes_at image o zero = []
bytes_at image o (suc n) = image o ∷ bytes_at image (suc o) n

-- A disk in an open state reads back its content, up to its size and at most a sector at a time.
abbrev pub Reads : {D : Type 0} → ReadSeek D → (D → Type 0) → (ℕ → ℕ) → ℕ → Type 0
Reads {D} lib IsOpen image size =
    (d : D) (o n : ℕ)
    → IsOpen d
    → o + n ≤ size
    → n ≤ 512
    → (e : D) × IsOpen e × (lib.read_bytes (lib.seek d o) n ≡ ok (bytes_at image o n, e))

-- Two entries of 12 bits in three bytes; 16 bits in two; 28 bits in four, under 4 free bits.
abbrev pub Encodes : FatType → (ℕ → ℕ) → ℕ → (ℕ → ℕ) → Type 0
Encodes fat12 image start entry =
    (k : ℕ)
    → (image (start + 3 * k) ≡ entry (2 * k) % 256)
      × (image (start + 3 * k + 1) ≡ entry (2 * k) / 256 + entry (2 * k + 1) % 16 * 16)
      × (image (start + 3 * k + 2) ≡ entry (2 * k + 1) / 16)
      × (entry (2 * k) < 2 ^ 12)
      × (entry (2 * k + 1) < 2 ^ 12)
Encodes fat16 image start entry =
    (c : ℕ)
    → (image (start + c * 2) ≡ entry c % 256)
      × (image (start + c * 2 + 1) ≡ entry c / 256)
      × (entry c < 2 ^ 16)
Encodes fat32 image start entry =
    (c : ℕ)
    → (free : ℕ) × (from_le_bytes (bytes_at image (start + c * 4) 4) ≡ free * 2 ^ 28 + entry c)
      × (entry c < 2 ^ 28)

even_value : (c value : ℕ) → c % 2 ≡ 0 → fat12_value c value ≡ value % 2 ^ 12
unfolding fat12_value
even_value c value h = rw (bit_and_mask 1 c, h, bit_and_mask 12 value)

odd_value : (c value : ℕ) → c % 2 ≡ 1 → fat12_value c value ≡ value / 2 ^ 4
unfolding fat12_value
odd_value c value h = rw (bit_and_mask 1 c, h)

parity : (c : ℕ) → (c % 2 ≡ 0) ⊎ (c % 2 ≡ 1)
parity c = ground arith

length-bytes_at : (image : ℕ → ℕ) (o n : ℕ) → length (bytes_at image o n) ≡ n
length-bytes_at image o zero = refl
length-bytes_at image o (suc n) = ap suc (length-bytes_at image (suc o) n)

-- Where the entry of a cluster ends in the table.
abbrev pub entry_end : FatType → ℕ → ℕ
entry_end fat12 c = c + c / 2 + 2
entry_end fat16 c = c * 2 + 2
entry_end fat32 c = c * 4 + 4

module _ (image : ℕ → ℕ) (start : ℕ) (entry : ℕ → ℕ) where
  fat16_bytes :
      (c : ℕ)
      → Encodes fat16 image start entry
      → from_le_bytes (bytes_at image (start + c * 2) 2) ≡ entry c
  fat16_bytes c enc =
      let (b0, b1, lt) = enc c in
      let e : suc (start + c * 2) ≡ start + c * 2 + 1 = omega arith in rw (e, b0, b1) (omega arith)

  even_entry :
      (k : ℕ)
      → Encodes fat12 image start entry
      → fat12_value (2 * k) (from_le_bytes (bytes_at image (start + 3 * k) 2)) ≡ entry (2 * k)
  even_entry k enc =
      let (b0, b1, b2, lt, lt') = enc k in
      let e : suc (start + 3 * k) ≡ start + 3 * k + 1 = omega arith in
      even_value (2 * k) _ (omega arith) ∙ rw (e, b0, b1) (omega arith)

  odd_entry :
      (k : ℕ)
      → Encodes fat12 image start entry
      → fat12_value (2 * k + 1) (from_le_bytes (bytes_at image (start + 3 * k + 1) 2))
        ≡ entry (2 * k + 1)
  odd_entry k enc =
      let (b0, b1, b2, lt, lt') = enc k in
      let e : suc (start + 3 * k + 1) ≡ start + 3 * k + 2 = omega arith in
      odd_value (2 * k + 1) _ (omega arith) ∙ rw (e, b1, b2) (omega arith)

  fat12_bytes :
      (c : ℕ)
      → Encodes fat12 image start entry
      → fat12_value c (from_le_bytes (bytes_at image (start + (c + c / 2)) 2)) ≡ entry c
  fat12_bytes c enc = elim (parity c) [
    | inl e ↦
        let at : c + c / 2 ≡ 3 * (c / 2) = omega arith in
        let twice : c ≡ 2 * (c / 2) = omega arith in
        ap (λ n. fat12_value c (from_le_bytes (bytes_at image (start + n) 2))) at
        ∙ ap (λ n. fat12_value n (from_le_bytes (bytes_at image (start + 3 * (c / 2)) 2))) twice
        ∙ even_entry (c / 2) enc
        ∙ ap entry (sym twice)
    | inr e ↦
        let at : start + (c + c / 2) ≡ start + 3 * (c / 2) + 1 = omega arith in
        let twice : c ≡ 2 * (c / 2) + 1 = omega arith in
        ap (λ n. fat12_value c (from_le_bytes (bytes_at image n 2))) at
        ∙ ap (λ n. fat12_value n (from_le_bytes (bytes_at image (start + 3 * (c / 2) + 1) 2))) twice
        ∙ odd_entry (c / 2) enc
        ∙ ap entry (sym twice)
  ]

module _ {D : Type 0} (lib : ReadSeek D) (IsOpen : D → Type 0) (image : ℕ → ℕ) (size : ℕ)
    (reads : Reads lib IsOpen image size) (fits : size ≤ u64_mod) where
  read_at_lem :
      (table : FileAllocationTable) (d : D) (offset len : ℕ)
      → table.start + offset + len ≤ size
      → 1 ≤ len
      → len ≤ 512
      → IsOpen d
      → (e : D) × IsOpen e
        × (read_at lib table d offset len
            ≡ ok (from_le_bytes (bytes_at image (table.start + offset) len), e))
  read_at_lem table d offset len h pos small open_d =
      let (e, open_e, q) = reads d (table.start + offset) len open_d h small in
      let fit : ltb (table.start + offset) u64_mod ≡ true = lt→ltb _ _ (omega arith) in
      (e, open_e, rw (fit, q, length-bytes_at image (table.start + offset) len, ==_self len))

  -- On each of the three formats, the number read for a cluster is the cluster's entry.
  entry_value_lem :
      (table : FileAllocationTable) (typ : FatType) (entry : ℕ → ℕ) (d : D) (c : ℕ)
      → Encodes typ image table.start entry
      → entry_end typ c ≤ u32_mod
      → table.start + entry_end typ c ≤ size
      → IsOpen d
      → (e : D) × IsOpen e × (entry_value lib table typ d c ≡ ok (entry c, e))
  unfolding entry_value
  entry_value_lem table fat16 entry d c enc h1 h2 open_d =
      let (e, open_e, q) =
        read_at_lem table d (c * 2) 2 (omega arith) (omega arith) (omega arith) open_d in
      let (b0, b1, lt) = enc c in
      let fit : ltb (c * 2) u32_mod ≡ true = lt→ltb _ _ (omega arith) in
      let value : from_le_bytes (bytes_at image (table.start + c * 2) 2) ≡ entry c =
        fat16_bytes image table.start entry c enc in
      (e, open_e, rw (fit, q, value))
  entry_value_lem table fat32 entry d c enc h1 h2 open_d =
      let (e, open_e, q) =
        read_at_lem table d (c * 4) 4 (omega arith) (omega arith) (omega arith) open_d in
      let (free, bytes, lt) = enc c in
      let fit : ltb (c * 4) u32_mod ≡ true = lt→ltb _ _ (omega arith) in
      let low : (free * 2 ^ 28 + entry c) % 2 ^ 28 ≡ entry c = omega arith in
      (e, open_e, rw (fit, q, bytes, bit_and_mask 28 (free * 2 ^ 28 + entry c), low))
  entry_value_lem table fat12 entry d c enc h1 h2 open_d =
      let (e, open_e, q) =
        read_at_lem table d (c + c / 2) 2 (omega arith) (omega arith) (omega arith) open_d in
      let fit : ltb (c + c / 2) u32_mod ≡ true = lt→ltb _ _ (omega arith) in
      (e, open_e, rw (fit, q, fat12_bytes image table.start entry c enc))

  -- `get_entry` reads the entry that the table holds for a cluster, whichever of the three formats
  -- it is in, as long as the entry lies in the disk and its offset fits in 32 bits.
  pub get_entry_lem :
      (table : FileAllocationTable) (entry : ℕ → ℕ) (d : D) (c : ℕ)
      → Encodes table.typ image table.start entry
      → entry_end table.typ c ≤ u32_mod
      → table.start + entry_end table.typ c ≤ size
      → IsOpen d
      → (e : D) × IsOpen e × (get_entry lib table d c ≡ ok (parse_entry (entry c) table.typ, e))
  unfolding get_entry
  get_entry_lem table entry d c enc h1 h2 open_d =
      let (e, open_e, q) = entry_value_lem table table.typ entry d c enc h1 h2 open_d in
      (e, open_e, rw (q))
