-- ===== src/Fat/Bpb/Layout.antt =====
-- The regions of the file system follow one another: reserved sectors, tables, root directory,
-- clusters.
use miniature_os.Base.{ℕ, ◌+◌, ◌-◌, ◌*◌, ◌/◌, ◌<◌, ◌≡◌, refl, ap, arith, ok}
use miniature_os.Base.{lt→ltb, le→leb, u32_mod, u16_mod, ne→==}
use miniature_os.Fat.Bpb.{BiosParameterBlock, root_dir_sectors, fat_size, first_data_sector}
use miniature_os.Fat.Bpb.{first_cluster_sector}

-- The sectors of the root directory: its entries of 32 bytes, rounded up to whole sectors.
abbrev pub root_sectors : BiosParameterBlock → ℕ
root_sectors b = (b.root_entry_count * 0x20 + (b.bytes_per_sector - 1)) / b.bytes_per_sector

abbrev pub data_start : BiosParameterBlock → ℕ
data_start b = b.reserved_sector_count + b.fat_count * fat_size b + root_sectors b

-- The fields that are read have the widths of the format, and the regions before the clusters end
-- below 2^32 sectors.
pub record IsSmall (b : BiosParameterBlock) : Type 0 where
  pub sector : b.bytes_per_sector < u16_mod
  pub sector_pos : 0 < b.bytes_per_sector
  pub entries : b.root_entry_count < u16_mod
  pub data_fits : data_start b < u32_mod

module _ (b : BiosParameterBlock) (v : IsSmall b) where
  pub root_dir_sectors_lem : root_dir_sectors b ≡ ok (root_sectors b)
  unfolding root_dir_sectors
  root_dir_sectors_lem =
      rw
        (
          lt→ltb (b.root_entry_count * 0x20) u32_mod (omega (arith, v.entries)),
          le→leb 1 b.bytes_per_sector v.sector_pos,
          lt→ltb (b.root_entry_count * 0x20 + (b.bytes_per_sector - 1)) u32_mod
              (omega (arith, v.entries, v.sector)),
          ne→== b.bytes_per_sector 0 (omega (arith, v.sector_pos)),
        )
        refl

  pub first_data_sector_lem : first_data_sector b ≡ ok (data_start b)
  unfolding first_data_sector
  first_data_sector_lem =
      rw
        (
          lt→ltb (b.fat_count * fat_size b) u32_mod (omega (arith, v.data_fits)),
          lt→ltb (b.reserved_sector_count + b.fat_count * fat_size b) u32_mod
              (omega (arith, v.data_fits)),
          root_dir_sectors_lem,
          lt→ltb (data_start b) u32_mod v.data_fits,
        )
        refl

  -- Consecutive clusters lie side by side: cluster 2 begins at the first data sector, and cluster
  -- `n + 1` begins `sectors_per_cluster` sectors after cluster `n`, as long as that fits 32 bits.
  pub first_cluster_sector_lem :
      (n : ℕ)
      → n * b.sectors_per_cluster + data_start b < u32_mod
      → first_cluster_sector b (n + 2) ≡ ok (data_start b + n * b.sectors_per_cluster)
  unfolding first_cluster_sector
  first_cluster_sector_lem n fits =
      let back : n + 2 - 2 ≡ n = omega arith in
      rw
        (
          le→leb 2 (n + 2) (omega arith),
          back,
          lt→ltb (n * b.sectors_per_cluster) u32_mod (omega arith),
          first_data_sector_lem,
          lt→ltb (n * b.sectors_per_cluster + data_start b) u32_mod fits,
        )
        (ap ok (omega arith))
