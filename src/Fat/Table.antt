-- ===== src/Fat/Table.antt =====
-- The file allocation table: `FatEntry`, `FileAllocationTable`, and the disk it is read from.
pub mod Packed
use miniature_os.Base.{ℕ, ◌+◌, ◌*◌, ◌/◌, ◌%◌, ◌^◌, List, Bool, true, false, ◌||◌, bit_and}
use miniature_os.Base.{Run, ok, panic, ◌>>=◌, add32, mul32, add64, mul64, ltb, ◌==◌}
use miniature_os.Base.{if◌then◌else◌, from_le_bytes, length}
use miniature_os.Fat.Bpb.{FatType, fat12, fat16, fat32}

-- The traits `Read` and `Seek`, as far as the table uses them: `seek(SeekFrom::Start(offset))`
-- and `read_bytes(len)`, on the state `D` of a disk.
pub record ReadSeek (D : Type 0) : Type 0 where
  pub seek : D → ℕ → D
  pub read_bytes : D → ℕ → Run (List ℕ × D)

unfoldable pub classification_threshold : FatType → ℕ
classification_threshold fat12 = 0xFF7
classification_threshold fat16 = 0xFFF7
classification_threshold fat32 = 0xFFFFFF7

pub data FatEntry : Type 0 where
  end_of_file : FatEntry
  cluster : ℕ → FatEntry
  bad_cluster reserved_cluster : FatEntry

-- `FatEntry::parse`.
unfoldable pub parse_entry : ℕ → FatType → FatEntry
parse_entry value typ =
    if value == 0 || value == 1
    then reserved_cluster
    else if ltb (classification_threshold typ) value
    then end_of_file
    else if value == classification_threshold typ
    then bad_cluster
    else cluster value

pub record FileAllocationTable : Type 0 where
  pub typ : FatType
  pub start : ℕ

-- `FileAllocationTable::new`.
unfoldable pub new_table : FatType → ℕ → ℕ → Run FileAllocationTable
new_table typ first_sector sector_size = do
  start ← mul64 first_sector sector_size
  ok (record { typ = typ; start = start })

-- `let buf: [u8; len] = buf.try_into().unwrap()`.
abbrev pub to_array : ℕ → List ℕ → Run (List ℕ)
to_array len bytes = if length bytes == len then ok bytes else panic

-- The entry of an even cluster is the low 12 bits of its two bytes, that of an odd one the high.
unfoldable pub fat12_value : ℕ → ℕ → ℕ
fat12_value c value = if bit_and c 1 == 1 then value / 2 ^ 4 else bit_and value 0xfff

module _ {D : Type 0} (lib : ReadSeek D) where
  open lib use {seek, read_bytes}

  -- The little-endian number of `len` bytes at `offset` into the table.
  abbrev pub read_at : FileAllocationTable → D → ℕ → ℕ → Run (ℕ × D)
  read_at table disk offset len = do
    at ← add64 table.start offset
    (bytes, after) ← read_bytes (seek disk at) len
    array ← to_array len bytes
    ok (from_le_bytes array, after)

  unfoldable pub entry_value : FileAllocationTable → FatType → D → ℕ → Run (ℕ × D)
  entry_value table fat12 disk c = do
    offset ← add32 c (c / 2)
    (value, after) ← read_at table disk offset 2
    ok (fat12_value c value, after)
  entry_value table fat16 disk c = do offset ← mul32 c 2; read_at table disk offset 2
  entry_value table fat32 disk c = do
    offset ← mul32 c 4
    (value, after) ← read_at table disk offset 4
    ok (bit_and value 0x0FFFFFFF, after)

  unfoldable pub get_entry : FileAllocationTable → D → ℕ → Run (FatEntry × D)
  get_entry table disk c = do
    (value, after) ← entry_value table table.typ disk c
    ok (parse_entry value table.typ, after)
