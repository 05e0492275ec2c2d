-- ===== src/Tests/Files.antt =====
-- A FAT16 disk in memory with one file of two clusters in its root directory.
use miniature_os.Base.{ℕ, ◌+◌, ◌*◌, ◌<◌, ◌≡◌, refl, arith, List, [], ◌∷◌, ◌++◌, replicate, some}
use miniature_os.Base.{ok, ◌==◌, ltb, if◌then◌else◌}
use miniature_os.Fat.Bpb.{BiosParameterBlock, fat16, fat_type, first_root_dir_sector, root_dir_size}
use miniature_os.Fat.Bpb.{first_data_sector, fat_size, count_of_clusters, root_dir_sectors}
use miniature_os.Fat.Table.{ReadSeek, cluster, end_of_file, parse_entry, classification_threshold}
use miniature_os.Fat.Table.Packed.{Reads, Encodes, bytes_at}
use miniature_os.Fat.File.{done, error, file_not_found}
use miniature_os.Fat.File.Follow.{Leads, Exist, first_table}
use miniature_os.Fat.Directory.{
  find, parse, normal_dir_entry, first_cluster, file_size, decode_utf16,
}
use miniature_os.Fat.Directory.Slots.{Short, IsShort, short_bytes, short_entry, parse-short_bytes}
use miniature_os.Fat.Directory.Long.{Part, IsPart, part_name}
use miniature_os.Fat.Directory.Items.{Item, free, named, AreItems, items_bytes, lookup, item_entry}
use miniature_os.Fat.Directory.Find.{find-lookup}
use miniature_os.Fat.Load.{Disk, Memory, try_load_file}
use miniature_os.Fat.Load.Clusters.{ReadsSectors, Inside, Loaded}
use miniature_os.Disk.{DiskAddressPacket}
use miniature_os.Disk.Sectors.{Bios, filled}
use miniature_os.Disk.Files.{disk_io, IsVolume, disk_io-ReadsSectors}
use miniature_os.Fat.Load.Whole.{ReadsRoot, IsRoot, try_load_file-missing, try_load_file-Loaded}

-- The file's name is eleven times the letter A, its first cluster is 2, its size is 3000. Behind it
-- is a directory, whose name is eleven times the letter B.
abbrev image : ℕ → ℕ
image i =
    if i == 516
    then 3
    else if i == 517
    then 0
    else if ltb i 20992
    then 255
    else if ltb i 21003
    then 65
    else if i == 21003
    then 32
    else if i == 21018
    then 2
    else if i == 21020
    then 184
    else if i == 21021
    then 11
    else if ltb i 21024
    then 0
    else if ltb i 21035
    then 66
    else if i == 21035
    then 16
    else 0

abbrev letters : ℕ → List ℕ
letters n = replicate n 65

abbrev one_file : Short
one_file = record {
  first = 65;
  name = letters 10;
  attributes = 32;
  extra = replicate 8 0;
  cluster = 2;
  stamp = replicate 4 0;
  size = 3000;
}

one_file-IsShort : IsShort one_file
one_file-IsShort = record {
  in_use = ((λ e. omega (arith, e)), λ e. omega (arith, e));
  not_long = λ e. omega (arith, e);
  name_length = refl;
  extra_length = refl;
  stamp_length = refl;
  cluster_fits = omega arith;
  size_fits = omega arith;
}

parse-short_bytes_example :
    parse (short_bytes one_file ++ letters 3) ≡ ok (32, normal_dir_entry (short_entry one_file))
parse-short_bytes_example = parse-short_bytes one_file one_file-IsShort (letters 3)

abbrev one_directory : Short
one_directory = record {
  first = 66;
  name = replicate 10 66;
  attributes = 16;
  extra = replicate 8 0;
  cluster = 0;
  stamp = replicate 4 0;
  size = 0;
}

one_directory-IsShort : IsShort one_directory
one_directory-IsShort = record {
  in_use = ((λ e. omega (arith, e)), λ e. omega (arith, e));
  not_long = λ e. omega (arith, e);
  name_length = refl;
  extra_length = refl;
  stamp_length = refl;
  cluster_fits = omega arith;
  size_fits = omega arith;
}

abbrev items : List Item
items = named [] one_file ∷ named [] one_directory ∷ []

items-AreItems : AreItems items
items-AreItems =
    ((tt, one_file-IsShort, omega arith), ((tt, one_directory-IsShort, omega arith), tt))

-- The name of one letter B, in a part whose unused units are 0xFFFF.
abbrev one_part : Part
one_part = record {
  order = 0x41;
  units1 = 66 ∷ 0 ∷ replicate 3 0xffff;
  kind = 0 ∷ 0 ∷ [];
  units2 = replicate 6 0xffff;
  gap = 0 ∷ 0 ∷ [];
  units3 = replicate 2 0xffff;
}

one_part-IsPart : IsPart one_part
one_part-IsPart = record {
  in_use = ((λ e. omega (arith, e)), λ e. omega (arith, e));
  lengths = (refl, refl, refl);
  fields = (refl, refl);
  fit = (
    (omega arith, (omega arith, (omega arith, (omega arith, (omega arith, tt))))),
    (omega arith, (omega arith, (omega arith, (omega arith, (omega arith, (omega arith, tt)))))),
    (omega arith, (omega arith, tt)),
  );
}

abbrev three_items : List Item
three_items = free (replicate 31 0) ∷ named (one_part ∷ []) one_file ∷ named [] one_file ∷ []

one_letter : part_name one_part ≡ 66 ∷ []
unfolding decode_utf16
one_letter = refl

three_items-AreItems : AreItems three_items
three_items-AreItems = (
  refl,
  (
    ((one_part-IsPart, tt), one_file-IsShort, (rw one_letter (omega arith))),
    ((tt, one_file-IsShort, omega arith), tt),
  ),
)

find-lookup_example :
    find 4 (66 ∷ []) (record { buf = items_bytes three_items (0 ∷ letters 5); offset = 0 })
    ≡ ok (lookup (66 ∷ []) three_items)
find-lookup_example =
    find-lookup three_items (66 ∷ []) (letters 5) 4 three_items-AreItems (omega arith)

found_long : lookup (66 ∷ []) three_items ≡ some (item_entry (one_part ∷ []) one_file)
unfolding decode_utf16
found_long = refl

abbrev seeker : ReadSeek ℕ
seeker = record { seek = λ d o. o; read_bytes = λ d n. ok (bytes_at image d n, d) }

abbrev reader : Disk ℕ
reader = record {
  seek_sectors = λ d sector. ok (sector * 512);
  read = λ d n. ok (bytes_at image d n, d);
  read_sectors = λ d n len. ok (bytes_at image d (n * 512), d);
  sector_size = λ d. 512;
  sectors_per_cluster = λ d. ok 4;
}

abbrev IsAny : ℕ → Type 0
IsAny d = Unit {0}

seeker-Reads : Reads seeker IsAny image 65536
seeker-Reads d o n open_d inside small = (o, tt, refl)

reader-ReadsSectors : ReadsSectors reader IsAny image 65536 4
reader-ReadsSectors d sector n open_d inside some_sectors small =
    (sector * 512, sector * 512, refl, refl, refl, refl, refl, tt)

reader-ReadsRoot : ReadsRoot reader IsAny image 41
reader-ReadsRoot d open_d = (41 * 512, 41 * 512, refl, refl, tt)

abbrev block : BiosParameterBlock
block = record {
  bytes_per_sector = 512;
  sectors_per_cluster = 4;
  reserved_sector_count = 1;
  fat_count = 2;
  root_entry_count = 512;
  total_sectors_16 = 20000;
  total_sectors_32 = 0;
  fat16_size = 20;
  fat32_size = 0;
  root_cluster = 0;
}

abbrev behind : List ℕ
behind = bytes_at image 21057 16319

root : IsRoot block fat16 image 41 items behind
unfolding fat_type count_of_clusters first_data_sector fat_size root_dir_sectors root_dir_size
    first_root_dir_sector
root = record {
  small = record {
    sector = omega arith;
    sector_pos = omega arith;
    entries = omega arith;
    data_fits = omega arith;
  };
  known = refl;
  not_fat32 = refl;
  size = refl;
  first = refl;
  items = items-AreItems;
  content = refl;
}

-- The entries that the two bytes of each cluster make up.
abbrev table_entry : ℕ → ℕ
table_entry c = image (512 + c * 2) + 256 * image (512 + c * 2 + 1)

image_lt : (i : ℕ) → image i < 256
image_lt i = ground arith

table-Encodes : Encodes fat16 image 512 table_entry
table-Encodes c = (
  omega (arith, image_lt (512 + c * 2)),
  omega (arith, image_lt (512 + c * 2)),
  omega (arith, image_lt (512 + c * 2), image_lt (512 + c * 2 + 1)),
)

two_clusters : Leads (λ c. parse_entry (table_entry c) fat16) (cluster 2) (2 ∷ 3 ∷ []) end_of_file
unfolding parse_entry classification_threshold
two_clusters = (refl, (refl, refl))

two-Exist : Exist block (first_table block fat16) 65536 (2 ∷ 3 ∷ [])
unfolding fat_size
two-Exist = (
  omega arith,
  omega arith,
  omega arith,
  omega arith,
  (omega arith, omega arith, omega arith, omega arith, tt),
)

two-Inside : Inside block image 65536 (2 ∷ 3 ∷ [])
unfolding fat_size
two-Inside = (omega arith, (omega arith, tt))

start_cluster : first_cluster (item_entry [] one_file) ≡ 2
unfolding first_cluster
start_cluster = refl

size_known : file_size (item_entry [] one_file) ≡ 3000
unfolding file_size
size_known = refl

abbrev no_memory : Memory
no_memory x = 0

-- The name is that of the directory.
try_load_file-missing_example :
    try_load_file seeker reader 3
      (record { disk = 0; bpb = block })
      (replicate 11 66)
      0x100000
      no_memory
    ≡ ok (error file_not_found, no_memory)
try_load_file-missing_example =
    try_load_file-missing seeker reader IsAny image block fat16 41 items behind root
      reader-ReadsRoot 0 tt (replicate 11 66) 3 0x100000 no_memory (omega arith) refl

try_load_file-Loaded_example :
    (m' : Memory) × (try_load_file seeker reader 3
        (record { disk = 0; bpb = block })
        (letters 11)
        0x100000
        no_memory
      ≡ ok (done (file_size (item_entry [] one_file)), m'))
    × Loaded block image (2 ∷ 3 ∷ []) 0x100000 no_memory m'
try_load_file-Loaded_example =
    try_load_file-Loaded seeker reader IsAny image block fat16 41 items behind root reader-ReadsRoot
      0 tt 65536 seeker-Reads (omega arith) table_entry table-Encodes reader-ReadsSectors
      (omega arith, omega arith) (letters 11) (2 ∷ 3 ∷ []) 3 0x100000 no_memory
      (item_entry [] one_file) (omega arith) (omega arith) refl refl (rw start_cluster two_clusters)
      two-Exist two-Inside (rw size_known (omega arith)) (omega arith)

abbrev load : ℕ → DiskAddressPacket → Memory → Memory
load drive packet memory =
    filled image packet.start_lba (packet.segment * 16 + packet.offset) packet.sector_count memory

load-Bios : Bios load 0x80 image
load-Bios packet memory a size count = refl

disk_io-ReadsSectors_example :
    ReadsSectors
      (disk_io load 0x4000 0x9000)
      (IsVolume load 0x4000 0x9000 0x80 512 4)
      (λ i. image (512 + i))
      65536
      4
disk_io-ReadsSectors_example =
    disk_io-ReadsSectors load 0x4000 0x9000 image 0x80 512 65536 4 load-Bios refl (omega arith)
      (omega arith)
