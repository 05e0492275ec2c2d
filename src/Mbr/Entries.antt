-- ===== src/Mbr/Entries.antt =====
-- Partition entries as the boot sector lays them out.
use miniature_os.Base.{ℕ, zero, suc, ◌+◌, ◌*◌, ◌/◌, ◌%◌, ◌<◌, ◌≡◌, refl, sym, ap}
use miniature_os.Base.{arith, some, List, [], ◌∷◌, ◌++◌, Bool, true, false, ok, leb, le→leb, ◌==◌}
use miniature_os.Base.{if◌then◌else◌, length, drop, get_elem?, from_le_bytes}
use miniature_os.Mbr.{PartitionTableEntry, get_partition_table_entry}

-- A number of four bytes, the lowest first.
abbrev pub le_bytes : ℕ → List ℕ
le_bytes n = (n % 256) ∷ (n / 256 % 256) ∷ (n / 65536 % 256) ∷ (n / 16777216) ∷ []

le_bytes_lem : (n : ℕ) → from_le_bytes (le_bytes n) ≡ n
le_bytes_lem n = omega arith

-- An entry in 16 bytes; those of the head, cylinder and sector numbers are not read.
abbrev pub encode : PartitionTableEntry → List ℕ → List ℕ
encode e rest =
    (if e.bootable then 0x80 else 0x00)
    ∷ 1
    ∷ 1
    ∷ 0
    ∷ e.partition_type
    ∷ 254
    ∷ 255
    ∷ 255
    ∷ (le_bytes e.logical_block_address ++ le_bytes e.sector_count ++ rest)

abbrev pub table : List PartitionTableEntry → List ℕ → List ℕ
table [] rest = rest
table (e ∷ es) rest = encode e (table es rest)

drop_add : (m n : ℕ) (xs : List ℕ) → drop (m + n) xs ≡ drop n (drop m xs)
drop_add zero n xs = let e : 0 + n ≡ n = omega arith in rw e refl
drop_add (suc m) n [] = let e : suc m + n ≡ suc (m + n) = omega arith in rw e (sym (drop_nil n))
  where
    drop_nil : (k : ℕ) → drop {A = ℕ} k [] ≡ []
    drop_nil zero = refl
    drop_nil (suc k) = refl
drop_add (suc m) n (x ∷ xs) =
    let e : suc m + n ≡ suc (m + n) = omega arith in rw e (drop_add m n xs)

length-table :
    (es : List PartitionTableEntry) (rest : List ℕ)
    → length (table es rest) ≡ length es * 16 + length rest
length-table [] rest = omega arith
length-table (e ∷ es) rest = omega (arith, length-table es rest)

drop-table :
    (es : List PartitionTableEntry) (rest : List ℕ) (i : ℕ) (e : PartitionTableEntry)
    → get_elem? es i ≡ some e
    → (tail : List ℕ) × (drop (i * 16) (table es rest) ≡ encode e tail)
drop-table [] rest i e h = cc
drop-table (x ∷ es) rest zero e h =
    let eq : x ≡ e = cc in (table es rest, ap (λ y. encode y (table es rest)) eq)
drop-table (x ∷ es) rest (suc i) e h =
    let (tail, q) = drop-table es rest i e h in
    let at : suc i * 16 ≡ 16 + i * 16 = omega arith in
    (tail, rw (at, drop_add 16 (i * 16) (encode x (table es rest))) q)

get_elem?-lt :
    (es : List PartitionTableEntry) (i : ℕ) (e : PartitionTableEntry)
    → get_elem? es i ≡ some e
    → i < length es
get_elem?-lt [] i e h = cc
get_elem?-lt (x ∷ es) zero e h = omega arith
get_elem?-lt (x ∷ es) (suc i) e h = omega (arith, get_elem?-lt es i e h)

boot_byte : (b : Bool) → ((if b then 0x80 else 0x00) == 0x80) ≡ b
boot_byte true = refl
boot_byte false = refl

-- From a table of any number of entries in their 16-byte layout, with anything behind it, each
-- entry is read back at its index: the boot flag, the type, the first block and the count.
pub get_partition_table_entry_lem :
    (es : List PartitionTableEntry) (rest : List ℕ) (i : ℕ) (e : PartitionTableEntry)
    → get_elem? es i ≡ some e
    → get_partition_table_entry (table es rest) i ≡ ok e
unfolding get_partition_table_entry
get_partition_table_entry_lem es rest i e h =
    let (tail, q) = drop-table es rest i e h in
    let lt = get_elem?-lt es i e h in
    let inside : leb (i * 16) (length (table es rest)) ≡ true =
      le→leb _ _ (omega (arith, length-table es rest)) in
    let long : leb 12 (length (encode e tail)) ≡ true = le→leb _ _ (omega arith) in
    let longer : leb 16 (length (encode e tail)) ≡ true = le→leb _ _ (omega arith) in
    rw
      (
        inside,
        q,
        long,
        longer,
        boot_byte e.bootable,
        le_bytes_lem e.logical_block_address,
        le_bytes_lem e.sector_count,
      )
      refl
