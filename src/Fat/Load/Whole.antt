-- ===== src/Fat/Load/Whole.antt =====
-- `try_load_file` from the name to the bytes in memory.
use miniature_os.Base.{ℕ, ◌+◌, ◌*◌, ◌/◌, ◌≤◌, ◌<◌, ◌≡◌, refl, arith}
use miniature_os.Base.{
  List, ◌∷◌, Option, none, some, true, false, ok, length, ◌==◌, ◌∙◌, ◌%◌, ap, bit_and,
}
use miniature_os.Base.{ltb, lt→ltb, u32_mod, u64_mod}
use miniature_os.Base.Bits.{bit_and_parts, bit_and_mask, bit_and-zero}
use miniature_os.Fat.Bpb.{
  BiosParameterBlock, FatType, fat_type, root_dir_size, first_root_dir_sector, first_fat_sector,
}
use miniature_os.Fat.Bpb.Layout.{IsSmall}
use miniature_os.Fat.Table.{ReadSeek, cluster, end_of_file, parse_entry, new_table}
use miniature_os.Fat.Table.Packed.{Reads, Encodes, bytes_at}
use miniature_os.Fat.File.{new_iter, size_in_sectors, done, error, file_not_found}
use miniature_os.Fat.File.Follow.{Leads, Exist, first_table, product_lt}
use miniature_os.Fat.Directory.{
  DirectoryEntry, normal_dir_entry, long_name_dir_entry, end_of_dir, unused, is_dir, is_set,
  first_cluster, file_size,
}
use miniature_os.Fat.Directory.Items.{Item, AreItems, items_bytes, lookup}
use miniature_os.Fat.Directory.Find.{find-lookup}
use miniature_os.Fat.Load.{
  Disk, FatFileSystem, Memory, is_fat32, read_root_dir, file_of, find_file_in_root_dir,
}
use miniature_os.Fat.Load.{try_load_file}
use miniature_os.Fat.Load.Clusters.{ReadsSectors, sectors_in, Inside, Loaded, load_clusters_lem}

-- Bit 4 of the attributes of an entry says that it is a directory.
abbrev pub directory_bit : DirectoryEntry → ℕ
directory_bit unused = 0
directory_bit end_of_dir = 0
directory_bit (normal_dir_entry e) = e.attributes / 16 % 2
directory_bit (long_name_dir_entry e) = e.attributes / 16 % 2

directory_mask : (a : ℕ) → bit_and a 16 ≡ a / 16 % 2 * 16
directory_mask a =
    let parts : a ≡ a / 16 * 16 + a % 16 = omega arith in
    ap (λ (t : ℕ). bit_and t 16) parts
    ∙ omega (
      arith,
      bit_and_parts 4 (a / 16) 1 (a % 16) 0 (omega arith) (omega arith),
      bit_and_mask 1 (a / 16),
      bit_and-zero (a % 16),
    )

is_set-directory : (a : ℕ) → is_set a 16 ≡ (a / 16 % 2 == 1)
unfolding is_set
is_set-directory a = rw (directory_mask a) (ground arith)

is_dir-directory_bit : (entry : DirectoryEntry) → is_dir entry ≡ (directory_bit entry == 1)
unfolding is_dir
is_dir-directory_bit unused = refl
is_dir-directory_bit end_of_dir = refl
is_dir-directory_bit (normal_dir_entry e) = is_set-directory e.attributes
is_dir-directory_bit (long_name_dir_entry e) = is_set-directory e.attributes

-- The first item of a name, if there is one, is a directory.
abbrev pub NoFile : Option DirectoryEntry → Type 0
NoFile none = Unit {0}
NoFile (some entry) = directory_bit entry ≡ 1

-- Behind a seek, a read of the root directory gives the disk's content, and the disk is open again.
abbrev pub ReadsRoot : {D : Type 0} → Disk D → (D → Type 0) → (ℕ → ℕ) → ℕ → Type 0
ReadsRoot {D} io IsOpen image sector =
    (d : D)
    → IsOpen d
    → (at : D) × (d' : D) × (io.seek_sectors d sector ≡ ok at)
      × (io.read at 16384 ≡ ok (bytes_at image (sector * 512) 16384, d'))
      × IsOpen d'

-- A file system in FAT12 or FAT16 format, whose root directory has exactly 512 entries (16384 bytes)
-- and holds the items `xs`, an end entry behind them, and then anything.
pub record IsRoot (b : BiosParameterBlock) (typ : FatType) (image : ℕ → ℕ) (sector : ℕ)
    (xs : List Item) (junk : List ℕ) : Type 0 where
  pub small : IsSmall b
  pub known : fat_type b ≡ ok typ
  pub not_fat32 : is_fat32 typ ≡ false
  pub size : root_dir_size b ≡ ok 16384
  pub first : first_root_dir_sector b ≡ ok sector
  pub items : AreItems xs
  pub content : bytes_at image (sector * 512) 16384 ≡ items_bytes xs (0 ∷ junk)

module _ {D : Type 0} (lib : ReadSeek D) (io : Disk D) (IsOpen : D → Type 0) (image : ℕ → ℕ)
    (b : BiosParameterBlock) (typ : FatType) (sector : ℕ) (xs : List Item) (junk : List ℕ)
    (root : IsRoot b typ image sector xs junk) (reads_root : ReadsRoot io IsOpen image sector)
    (disk : D) (open_disk : IsOpen disk) where
  abbrev fs : FatFileSystem D
  fs = record { disk = disk; bpb = b }

  find_file :
      (name : List ℕ) (fuel : ℕ)
      → length xs < fuel
      → (d' : D) × IsOpen d'
        × (find_file_in_root_dir lib io fuel fs name
            ≡ ok (file_of lib io (lookup name xs), record { disk = d'; bpb = b }))
  unfolding find_file_in_root_dir read_root_dir
  find_file name fuel h =
      let (at, d', seek, read, o) = reads_root disk open_disk in
      (
        d',
        o,
        rw
            (
              root.size,
              root.known,
              root.not_fat32,
              root.first,
              seek,
              read,
              root.content,
              find-lookup xs name junk fuel root.items h,
            )
            refl,
      )

  file_of-NoFile : (found : Option DirectoryEntry) → NoFile found → file_of lib io found ≡ none
  unfolding file_of
  file_of-NoFile none h = refl
  file_of-NoFile (some entry) h =
      let dir : is_dir entry ≡ true = is_dir-directory_bit entry ∙ rw h refl in rw dir refl

  -- On a FAT12 or FAT16 file system whose root directory has exactly 512 entries, whose items are as
  -- in the search, and an end entry behind them: if no item has the name, or the first item that has
  -- it is a directory (bit 4 of its attributes), `try_load_file` reports that the file is not found
  -- and leaves the memory as it was. One step more than there are items is enough.
  pub try_load_file-missing :
      (name : List ℕ) (fuel dest : ℕ) (m : Memory)
      → length xs < fuel
      → NoFile (lookup name xs)
      → try_load_file lib io fuel fs name dest m ≡ ok (error file_not_found, m)
  unfolding try_load_file
  try_load_file-missing name fuel dest m h missing =
      let (d', o, q) = find_file name fuel h in rw (q, file_of-NoFile (lookup name xs) missing) refl

  module _ (size : ℕ) (reads : Reads lib IsOpen image size) (fits : size ≤ u64_mod)
      (table_entry : ℕ → ℕ) (enc : Encodes typ image (first_table b typ).start table_entry)
      (sectors : ReadsSectors io IsOpen image size b.sectors_per_cluster)
      (cluster_fits : (1 ≤ b.sectors_per_cluster) × (b.sectors_per_cluster ≤ 8)) where
    -- On a FAT12 or FAT16 file system whose root directory has exactly 512 entries, with items as in
    -- the search and an end entry behind them, and whose clusters have at most eight sectors: let the
    -- first item of the name be a file (bit 4 of its attributes is 0), which is not longer than the
    -- clusters `cs` through which the table leads from its first one to an end of file, all of them
    -- on the disk. Then `try_load_file` reports the size of the file. The memory holds the clusters'
    -- bytes one behind the other from the destination on, and is otherwise as it was. One step more
    -- than the directory has items and the file has clusters is enough; the destination has room
    -- below 2^32, and nothing panics.
    pub try_load_file-Loaded :
        (name cs : List ℕ) (fuel dest : ℕ) (m : Memory) (entry : DirectoryEntry)
        → length xs < fuel
        → length cs < fuel
        → lookup name xs ≡ some entry
        → directory_bit entry ≡ 0
        → Leads
            (λ c. parse_entry (table_entry c) typ)
            (cluster (first_cluster entry))
            cs
            end_of_file
        → Exist b (first_table b typ) size cs
        → Inside b image size cs
        → file_size entry ≤ sectors_in b image cs * 512
        → dest + sectors_in b image cs * 512 < u32_mod
        → (m' : Memory) × (try_load_file lib io fuel fs name dest m
            ≡ ok (done (file_size entry), m'))
          × Loaded b image cs dest m m'
    unfolding try_load_file new_iter new_table size_in_sectors file_of
    try_load_file-Loaded name cs fuel dest m entry h h' found plain leads exist inside whole room =
        let (d', o, q) = find_file name fuel h in
        let start : ltb (first_fat_sector b * b.bytes_per_sector) u64_mod ≡ true =
          lt→ltb _ _ (product_lt b root.small) in
        let file : is_dir entry ≡ false = is_dir-directory_bit entry ∙ rw plain refl in
        let none_yet : dest + 0 * 512 ≡ dest = omega arith in
        let count : 0 + sectors_in b image cs ≡ sectors_in b image cs = omega arith in
        let (m', r, loaded) =
          load_clusters_lem lib io IsOpen image size reads fits b root.small (first_table b typ)
            table_entry enc sectors cluster_fits cs fuel dest 0 d' d'
            (cluster (first_cluster entry)) end_of_file m leads exist inside tt h' (omega arith) o
            o in
        let sum : ltb (file_size entry + 511) u32_mod ≡ true = lt→ltb _ _ (omega arith) in
        let enough : ltb (sectors_in b image cs) ((file_size entry + 511) / 512) ≡ false =
          ground arith in
        (
          m',
          rw (q, found, file, root.known, start, r, sum, count, enough) refl,
          rw none_yet at loaded,
        )
