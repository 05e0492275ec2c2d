-- ===== src/Fat/Bpb.antt =====
-- `BiosParameterBlock`: the layout of the file system, read from its first sector.
pub mod Layout
use miniature_os.Base.{ℕ, ◌+◌, ◌-◌, ◌*◌, ◌/◌, ◌%◌, ◌^◌, List, Bool, not, ◌&&◌}
use miniature_os.Base.{Run, ok, panic, ◌>>=◌, add32, mul32, sub, ltb, ◌==◌, if◌then◌else◌}
use miniature_os.Base.{slice, from_le_bytes, get_elem?, unwrap, mul, u16_mod}

pub data FatType : Type 0 where
  fat12 fat16 fat32 : FatType

pub record BiosParameterBlock : Type 0 where
  pub bytes_per_sector : ℕ
  pub sectors_per_cluster : ℕ
  pub reserved_sector_count : ℕ
  pub fat_count : ℕ
  pub root_entry_count : ℕ
  pub total_sectors_16 : ℕ
  pub total_sectors_32 : ℕ
  pub fat16_size : ℕ
  pub fat32_size : ℕ
  pub root_cluster : ℕ

-- `from_le_bytes(raw[from..to])`.
abbrev pub le_field : List ℕ → ℕ → ℕ → Run ℕ
le_field raw from to = do bytes ← slice raw from to; ok (from_le_bytes bytes)

-- The two fields that only FAT32 has, by which of the total sector counts is set.
unfoldable pub fat32_fields : List ℕ → ℕ → ℕ → Run (ℕ × ℕ)
fat32_fields raw total_16 total_32 =
    if not (total_16 == 0) && total_32 == 0
    then ok (0, 0)
    else if not (total_32 == 0) && total_16 == 0
    then (do size ← le_field raw 36 40; root ← le_field raw 44 48; ok (size, root))
    else panic

-- `BiosParameterBlock::parse`, on the first sector.
unfoldable pub parse : List ℕ → Run BiosParameterBlock
parse raw = do
  bytes_per_sector ← le_field raw 11 13
  sectors_per_cluster ← unwrap (get_elem? raw 13)
  reserved_sector_count ← le_field raw 14 16
  fat_count ← unwrap (get_elem? raw 16)
  root_entry_count ← le_field raw 17 19
  fat16_size ← le_field raw 22 24
  total_sectors_16 ← le_field raw 19 21
  total_sectors_32 ← le_field raw 32 36
  (fat32_size, root_cluster) ← fat32_fields raw total_sectors_16 total_sectors_32
  ok (record {
    bytes_per_sector = bytes_per_sector;
    sectors_per_cluster = sectors_per_cluster;
    reserved_sector_count = reserved_sector_count;
    fat_count = fat_count;
    root_entry_count = root_entry_count;
    total_sectors_16 = total_sectors_16;
    total_sectors_32 = total_sectors_32;
    fat16_size = fat16_size;
    fat32_size = fat32_size;
    root_cluster = root_cluster;
  })

-- Division by zero panics.
abbrev div : ℕ → ℕ → Run ℕ
div a b = if b == 0 then panic else ok (a / b)

unfoldable pub root_dir_sectors : BiosParameterBlock → Run ℕ
root_dir_sectors b = do
  bytes ← mul32 b.root_entry_count 0x20
  last ← sub b.bytes_per_sector 1
  sum ← add32 bytes last
  div sum b.bytes_per_sector

-- The `debug_assert!` of the second branch is off in the profile of the second stage.
unfoldable pub fat_size : BiosParameterBlock → ℕ
fat_size b = if not (b.fat16_size == 0) && b.fat32_size == 0 then b.fat16_size else b.fat32_size

-- `reserved + fat_count * fat_size + root_dir_sectors`.
unfoldable pub first_data_sector : BiosParameterBlock → Run ℕ
first_data_sector b = do
  fats ← mul32 b.fat_count (fat_size b)
  before ← add32 b.reserved_sector_count fats
  root ← root_dir_sectors b
  add32 before root

unfoldable pub count_of_clusters : BiosParameterBlock → Run ℕ
count_of_clusters b = do
  let total = if not (b.total_sectors_16 == 0) then b.total_sectors_16 else b.total_sectors_32
  used ← first_data_sector b
  left ← sub total used
  div left b.sectors_per_cluster

unfoldable pub fat_type : BiosParameterBlock → Run FatType
fat_type b = do
  n ← count_of_clusters b
  ok (if ltb n 4085 then fat12 else if ltb n 65525 then fat16 else fat32)

unfoldable pub first_root_dir_sector : BiosParameterBlock → Run ℕ
first_root_dir_sector b = do first ← first_data_sector b; root ← root_dir_sectors b; sub first root

unfoldable pub root_dir_size : BiosParameterBlock → Run ℕ
root_dir_size b = mul u16_mod b.root_entry_count 0x20

abbrev pub first_fat_sector : BiosParameterBlock → ℕ
first_fat_sector b = b.reserved_sector_count

unfoldable pub first_cluster_sector : BiosParameterBlock → ℕ → Run ℕ
first_cluster_sector b cluster_number = do
  index ← sub cluster_number 2
  sectors ← mul32 index b.sectors_per_cluster
  first ← first_data_sector b
  add32 sectors first

unfoldable pub bytes_per_cluster : BiosParameterBlock → Run ℕ
bytes_per_cluster b = mul32 b.bytes_per_sector b.sectors_per_cluster
