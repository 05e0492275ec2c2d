-- ===== src/Tests/Disks.antt =====
-- A FAT16 disk with one file of two clusters, read through the BIOS.
use miniature_os.Base.{ℕ, ◌+◌, ◌*◌, ◌/◌, ◌<◌, ◌≡◌, refl, arith, List, [], ◌∷◌}
use miniature_os.Base.{ok, true, ◌==◌, if◌then◌else◌, u32_mod, false}
use miniature_os.Disk.{Memory, DiskAddressPacket, DiskAccess, read_sectors}
use miniature_os.Disk.Sectors.{Bios, filled, read_sectors_lem}
use miniature_os.Disk.Bytes.{disk_access, IsPartition, disk_access-Reads}
use miniature_os.Fat.Bpb.{BiosParameterBlock, fat16, fat_type}
use miniature_os.Fat.Bpb.{first_data_sector, first_cluster_sector, fat_size, count_of_clusters}
use miniature_os.Fat.Bpb.{root_dir_sectors}
use miniature_os.Fat.Bpb.Layout.{IsSmall, data_start, first_cluster_sector_lem}
use miniature_os.Fat.Table.{end_of_file, get_entry, parse_entry}
use miniature_os.Fat.Table.{classification_threshold}
use miniature_os.Fat.Table.Packed.{Reads, Encodes, get_entry_lem}
use miniature_os.Fat.File.{done, file_clusters}
use miniature_os.Fat.File.Follow.{Leads, Exist, cluster_at, file_clusters_lem, first_table}
use miniature_os.Mbr.{PartitionTableEntry, get_partition_table_entry}
use miniature_os.Mbr.Entries.{table, get_partition_table_entry_lem}

-- The table begins at byte 512: cluster 2 leads to 3, and every other entry is an end of file.
abbrev content : ℕ → ℕ
content i = if i == 516 then 3 else if i == 517 then 0 else 255

abbrev entry : ℕ → ℕ
entry c = if c == 2 then 3 else 0xFFFF

content-Encodes : Encodes fat16 content 512 entry
content-Encodes c = (ground arith, ground arith, ground arith)

abbrev load : ℕ → DiskAddressPacket → Memory → Memory
load drive packet memory =
    filled content packet.start_lba (packet.segment * 16 + packet.offset) packet.sector_count memory

load-Bios : Bios load 0x80 content
load-Bios packet memory a size count = refl

abbrev disk : DiskAccess
disk = record {
  disk_number = 0x80;
  base_offset = 0;
  offset = 1024;
  sector_size = 512;
  cluster_size = 2048;
}

abbrev memory : Memory
memory a = 0

abbrev bpb : BiosParameterBlock
bpb = record {
  bytes_per_sector = 512;
  sectors_per_cluster = 4;
  reserved_sector_count = 1;
  fat_count = 2;
  root_entry_count = 512;
  total_sectors_16 = 20000;
  total_sectors_32 = 0;
  fat16_size = 20;
  fat32_size = 0;
  root_cluster = 0;
}

bpb-IsSmall : IsSmall bpb
unfolding fat_size
bpb-IsSmall = record {
  sector = omega arith;
  sector_pos = omega arith;
  entries = omega arith;
  data_fits = omega arith;
}

bpb-fat16 : fat_type bpb ≡ ok fat16
unfolding fat_type count_of_clusters first_data_sector fat_size root_dir_sectors
bpb-fat16 = refl

-- The entries of the clusters 2 and 3.
third_cluster : Leads (λ c. parse_entry (entry c) fat16) (parse_entry 3 fat16) (3 ∷ []) end_of_file
unfolding parse_entry classification_threshold
third_cluster = (refl, refl)

both_there : Exist bpb (first_table bpb fat16) 65536 (2 ∷ 3 ∷ [])
unfolding fat_size
both_there = (
  omega arith,
  omega arith,
  omega arith,
  omega arith,
  (omega arith, omega arith, omega arith, omega arith, tt),
)

ten_fit : 10 * 4 + data_start bpb < u32_mod
unfolding fat_size
ten_fit = omega arith

read_sectors_lem_example :
    (after : Memory) × (read_sectors load disk 40 0x8000 20480 memory
      ≡ ok (record disk { offset = 0 + 1024 + 40 * 512 }, after))
    × ((a : ℕ) → after a ≡ filled content ((0 + 1024) / 512) 0x8000 40 memory a)
read_sectors_lem_example =
    read_sectors_lem load content disk load-Bios refl 40 0x8000 20480 memory refl (omega arith)
      (omega arith) (omega arith)

disk_access-Reads_example :
    Reads
      (disk_access load 0x8000)
      (IsPartition load 0x8000 0x80 512)
      (λ i. content (512 + i))
      65536
disk_access-Reads_example =
    disk_access-Reads load 0x8000 content 0x80 512 65536 load-Bios refl (omega arith) (omega arith)

-- The partition from the drive's first byte on.
abbrev whole : ℕ → ℕ
whole i = content (0 + i)

whole-Encodes : Encodes fat16 whole 512 entry
whole-Encodes c = (ground arith, ground arith, ground arith)

whole_disk : Reads (disk_access load 0x8000) (IsPartition load 0x8000 0x80 0) whole 65536
whole_disk =
    disk_access-Reads load 0x8000 content 0x80 0 65536 load-Bios refl (omega arith) (omega arith)

file_clusters_lem_example :
    file_clusters
      (disk_access load 0x8000)
      3
      (disk, memory)
      bpb
      (record { start_sector = 2; size = 3000 })
    ≡ ok (done (cluster_at bpb 2 ∷ cluster_at bpb 3 ∷ []))
file_clusters_lem_example =
    file_clusters_lem (disk_access load 0x8000) (IsPartition load 0x8000 0x80 0) whole 65536
      whole_disk (omega arith) bpb bpb-IsSmall fat16 bpb-fat16 entry whole-Encodes (2 ∷ 3 ∷ []) 3
      (disk, memory) (record { start_sector = 2; size = 3000 }) end_of_file (refl, third_cluster)
      both_there tt (omega arith) (refl, refl, refl)

get_entry_lem_example :
    (e : DiskAccess × Memory) × IsPartition load 0x8000 0x80 0 e
    × (get_entry (disk_access load 0x8000) (first_table bpb fat16) (disk, memory) 2
        ≡ ok (parse_entry (entry 2) fat16, e))
get_entry_lem_example =
    get_entry_lem (disk_access load 0x8000) (IsPartition load 0x8000 0x80 0) whole 65536 whole_disk
      (omega arith) (first_table bpb fat16) entry (disk, memory) 2 whole-Encodes (omega arith)
      (omega arith) (refl, refl, refl)

first_cluster_sector_lem_example : first_cluster_sector bpb 12 ≡ ok (data_start bpb + 10 * 4)
first_cluster_sector_lem_example = first_cluster_sector_lem bpb bpb-IsSmall 10 ten_fit

abbrev partitions : List PartitionTableEntry
partitions =
    record { bootable = false; partition_type = 0; logical_block_address = 0; sector_count = 0 }
    ∷ record {
      bootable = true;
      partition_type = 0x20;
      logical_block_address = 2048;
      sector_count = 500;
    }
    ∷ []

get_partition_table_entry_lem_example :
    get_partition_table_entry (table partitions []) 1
    ≡ ok (record {
      bootable = true;
      partition_type = 0x20;
      logical_block_address = 2048;
      sector_count = 500;
    })
get_partition_table_entry_lem_example = get_partition_table_entry_lem partitions [] 1 _ refl
