-- ===== src/Mbr.antt =====
-- The partition table at the end of the boot sector (bootloader/x86_64/bios/common/src/mbr.rs and
-- bootloader/x86_64/bios/mbr/src/mbr.rs, which differ only in what they do on a short slice: both
-- stop, the second after printing a letter).
pub mod Entries
use miniature_os.Base.{ℕ, ◌+◌, ◌*◌, List, Bool, Option, Run, ok, panic, ◌>>=◌, ◌==◌, leb}
use miniature_os.Base.{if◌then◌else◌, length, drop, slice, get_elem?, unwrap, from_le_bytes}

pub record PartitionTableEntry : Type 0 where
  pub bootable : Bool
  pub partition_type : ℕ
  pub logical_block_address : ℕ
  pub sector_count : ℕ

-- `partition_table.get(offset..).unwrap()`.
abbrev pub from_offset : List ℕ → ℕ → Run (List ℕ)
from_offset bytes offset = if leb offset (length bytes) then ok (drop offset bytes) else panic

unfoldable pub get_partition_table_entry : List ℕ → ℕ → Run PartitionTableEntry
get_partition_table_entry partition_table index = do
  buffer ← from_offset partition_table (index * 16)
  bootable_raw ← unwrap (get_elem? buffer 0)
  partition_type ← unwrap (get_elem? buffer 4)
  lba ← slice buffer 8 12
  len ← slice buffer 12 16
  ok (record {
    bootable = bootable_raw == 0x80;
    partition_type = partition_type;
    logical_block_address = from_le_bytes lba;
    sector_count = from_le_bytes len;
  })
