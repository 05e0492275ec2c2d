-- ===== src/Fat/Directory.antt =====
-- Directories: `FileAttributes`, `DirectoryEntry` and the entries of the root directory. A `char`
-- is its code point, a `str` the list of its characters.
pub mod Names
pub mod Slots
pub mod Long
pub mod Items
pub mod Find
use miniature_os.Base.{
  ℕ, zero, suc, ◌+◌, ◌-◌, ◌*◌, ◌/◌, ◌%◌, ◌^◌, List, [], ◌∷◌, ◌++◌, Option, none, some,
}
use miniature_os.Base.{Bool, true, false, not, ◌&&◌, ◌<<<◌, bit_and, bit_or}
use miniature_os.Base.{Run, ok, panic, out_of_fuel, ◌>>=◌, unwrap, ltb, leb, ◌==◌, if◌then◌else◌}
use miniature_os.Base.{length, get_elem?, set, take, drop, replicate, slice}
use miniature_os.Fat.Bpb.{le_field}

abbrev pub directory : ℕ
directory = 0x10

-- `READ_ONLY | HIDDEN | SYSTEM | VOLUME_ID`.
abbrev pub long_file_name : ℕ
long_file_name = 0xf

-- `FileAttributes::is_set`.
unfoldable pub is_set : ℕ → ℕ → Bool
is_set attributes flag = not (bit_and attributes flag == 0)

pub record NormalDirectoryEntry : Type 0 where
  pub filename : List ℕ
  pub attributes : ℕ
  pub first_cluster_number : ℕ
  pub size_in_bytes : ℕ

pub record LongNameDirectoryEntry : Type 0 where
  pub order : ℕ
  pub filename : List ℕ
  pub first_cluster_number : ℕ
  pub attributes : ℕ
  pub size_in_bytes : ℕ

pub data DirectoryEntry : Type 0 where
  unused end_of_dir : DirectoryEntry
  normal_dir_entry : NormalDirectoryEntry → DirectoryEntry
  long_name_dir_entry : LongNameDirectoryEntry → DirectoryEntry

abbrev pub entry_size : ℕ
entry_size = 0x20

-- The first cluster and the size, in the last twelve bytes of an entry.
unfoldable pub cluster_number : List ℕ → Run ℕ
cluster_number raw = do
  high ← le_field raw 20 22
  low ← le_field raw 26 28
  ok (bit_or (high <<< 16) low)

-- `chunks(2)` with `u16::from_le_bytes`.
unfoldable pub units : List ℕ → Run (List ℕ)
units [] = ok []
units (low ∷ []) = panic
units (low ∷ high ∷ bytes) = do rest ← units bytes; ok ((low + 256 * high) ∷ rest)

abbrev pub take_until_zero : List ℕ → List ℕ
take_until_zero [] = []
take_until_zero (c ∷ cs) = let rest = take_until_zero cs in if c == 0 then [] else c ∷ rest

-- `char::decode_utf16(..).filter_map(|c| c.ok())`: a high surrogate takes the low one behind it;
-- a surrogate without its other half is left out.
abbrev pub is_high : ℕ → Bool
is_high u = leb 0xd800 u && ltb u 0xdc00

abbrev pub is_low : ℕ → Bool
is_low u = leb 0xdc00 u && ltb u 0xe000

unfoldable pub decode_utf16 : List ℕ → List ℕ
decode_utf16 [] = []
decode_utf16 (u ∷ []) = if is_high u then [] else if is_low u then [] else u ∷ []
decode_utf16 (u ∷ v ∷ us) =
    let next = decode_utf16 (v ∷ us) in
    let after = decode_utf16 us in
    if is_high u
    then (if is_low v then (0x10000 + (u - 0xd800) * 2 ^ 10 + (v - 0xdc00)) ∷ after else next)
    else if is_low u
    then next
    else u ∷ next

-- `filename[name_idx] = c; name_idx += 1` for each character.
unfoldable pub put_chars : List ℕ → List ℕ → ℕ → Run (List ℕ × ℕ)
put_chars [] filename i = ok (filename, i)
put_chars (c ∷ cs) filename i =
    let rest = put_chars cs (set filename i c) (i + 1) in
    if ltb i (length filename) then rest else panic

-- The characters in one entry of a long name.
unfoldable pub name_part : List ℕ → Run (List ℕ)
name_part entry = do
  name1 ← slice entry 1 11
  name2 ← slice entry 14 26
  name3 ← slice entry 28 32
  units1 ← units name1
  units2 ← units name2
  units3 ← units name3
  ok (decode_utf16 (take_until_zero (units1 ++ units2 ++ units3)))

-- The loop over `raw.chunks(0x20)`, from chunk `i` on; without a chunk that is not part of the
-- long name, the assertion behind the loop fails. A chunk has at least one byte.
unfoldable pub parse_long : ℕ → List ℕ → ℕ → List ℕ → ℕ → Run (ℕ × DirectoryEntry)
parse_long zero raw i filename name_idx = if length raw == 0 then panic else out_of_fuel
parse_long (suc fuel) raw i filename name_idx = if length raw == 0 then panic else (do
  let entry = take 0x20 raw
  attributes ← unwrap (get_elem? entry 11)
  if attributes == long_file_name
      then (do
        part ← name_part entry
        (filename', name_idx') ← put_chars part filename name_idx
        parse_long fuel (drop 0x20 raw) (i + 1) filename' name_idx')
      else (do
        cluster ← cluster_number entry
        size ← le_field entry 28 32
        ok (
          (i + 1) * entry_size,
          long_name_dir_entry (record {
            order = 0;
            filename = filename;
            first_cluster_number = cluster;
            attributes = attributes;
            size_in_bytes = size;
          }),
        )))

-- `DirectoryEntry::parse`, which never reports an error: what the entry is and how long.
unfoldable pub parse : List ℕ → Run (ℕ × DirectoryEntry)
parse raw = do
  first ← unwrap (get_elem? raw 0)
  if first == 0
      then ok (entry_size, end_of_dir)
      else if first == 0xe5
      then ok (entry_size, unused)
      else (do
        attributes ← unwrap (get_elem? raw 11)
        if attributes == long_file_name
            then parse_long (length raw) raw 0 (replicate 255 0) 0
            else (do
              filename ← slice raw 0 11
              cluster ← cluster_number raw
              size ← le_field raw 28 32
              ok (
                entry_size,
                normal_dir_entry (record {
                  filename = filename;
                  attributes = attributes;
                  first_cluster_number = cluster;
                  size_in_bytes = size;
                }),
              )))

-- Whether two names have the same characters.
abbrev pub eq : List ℕ → List ℕ → Bool
eq [] [] = true
eq [] (d ∷ ds) = false
eq (c ∷ cs) [] = false
eq (c ∷ cs) (d ∷ ds) = c == d && eq cs ds

unfoldable pub eq_name : DirectoryEntry → List ℕ → Bool
eq_name unused name = false
eq_name end_of_dir name = false
eq_name (normal_dir_entry e) name = eq (take_until_zero e.filename) name
eq_name (long_name_dir_entry e) name = eq (take_until_zero e.filename) name

unfoldable pub is_dir : DirectoryEntry → Bool
is_dir unused = false
is_dir end_of_dir = false
is_dir (normal_dir_entry e) = is_set e.attributes directory
is_dir (long_name_dir_entry e) = is_set e.attributes directory

unfoldable pub first_cluster : DirectoryEntry → ℕ
first_cluster unused = 0
first_cluster end_of_dir = 0
first_cluster (normal_dir_entry e) = e.first_cluster_number
first_cluster (long_name_dir_entry e) = e.first_cluster_number

unfoldable pub file_size : DirectoryEntry → ℕ
file_size unused = 0
file_size end_of_dir = 0
file_size (normal_dir_entry e) = e.size_in_bytes
file_size (long_name_dir_entry e) = e.size_in_bytes

pub record RootDirIter : Type 0 where
  pub buf : List ℕ
  pub offset : ℕ

-- `RootDirIter::next_entry`: a slice that begins behind the end panics.
unfoldable pub next_entry : RootDirIter → Run (DirectoryEntry × RootDirIter)
next_entry it =
    if leb it.offset (length it.buf)
    then (do
      (size, entry) ← parse (drop it.offset it.buf)
      ok (entry, record it { offset = it.offset + size }))
    else panic

-- `RootDirIter::next`, which calls itself for an unused entry. Each entry has at least one byte.
unfoldable pub next : ℕ → RootDirIter → Run (Option DirectoryEntry × RootDirIter)
next zero it = out_of_fuel
next (suc fuel) it = do
  (entry, it') ← next_entry it
  elim entry [
    | end_of_dir ↦ ok (none, it')
    | unused ↦ next fuel it'
    | normal_dir_entry e ↦ ok (some (normal_dir_entry e), it')
    | long_name_dir_entry e ↦ ok (some (long_name_dir_entry e), it')
  ]

-- `entries.find(|e| e.eq_name(name))`.
unfoldable pub find : ℕ → List ℕ → RootDirIter → Run (Option DirectoryEntry)
find zero name it = out_of_fuel
find (suc fuel) name it = do
  (item, it') ← next (suc fuel) it
  elim item [
    | none ↦ ok none
    | some entry ↦ if eq_name entry name then ok (some entry) else find fuel name it'
  ]
