-- ===== src/Disk/Files.antt =====
-- `DiskAccess` as the disk that files are loaded from.
use miniature_os.Base.{ℕ, ◌+◌, ◌*◌, ◌/◌, ◌%◌, ◌^◌, ◌≤◌, ◌<◌, ◌≡◌, refl, sym, ap, ◌∙◌, arith}
use miniature_os.Base.{true, false, ok, ◌>>=◌, ltb, lt→ltb, ◌==◌, ne→==, u64_mod}
use miniature_os.Disk.{
  Memory, DiskAddressPacket, DiskAccess, seek_sectors, read, read_sectors, sectors_per_cluster,
  bytes,
}
use miniature_os.Disk.Sectors.{Bios, filled, read_sectors_lem}
use miniature_os.Disk.Bytes.{IsPartition, bytes-filled}
use miniature_os.Fat.Table.Packed.{bytes_at}
use miniature_os.Fat.Load.{Disk}
use miniature_os.Fat.Load.Clusters.{ReadsSectors}
use miniature_os.Fat.Load.Whole.{ReadsRoot}

-- The buffers of `find_file_in_root_dir` and `try_load_file` stand at `root` and at `buffer`.
module _ (load : ℕ → DiskAddressPacket → Memory → Memory) (root buffer : ℕ) where
  abbrev pub disk_io : Disk (DiskAccess × Memory)
  disk_io = record {
    seek_sectors = λ (disk, memory) sector. do
      at ← seek_sectors disk sector
      ok (at, memory);
    read = λ (disk, memory) len. do
      (after, filled) ← read load disk root len memory
      ok (bytes filled root len, (after, filled));
    read_sectors = λ (disk, memory) n len. do
      (after, filled) ← read_sectors load disk n buffer len memory
      ok (bytes filled buffer (n * disk.sector_size), (after, filled));
    sector_size = λ (disk, memory). disk.sector_size;
    sectors_per_cluster = λ (disk, memory). sectors_per_cluster disk;
  }

  abbrev pub IsVolume : ℕ → ℕ → ℕ → DiskAccess × Memory → Type 0
  IsVolume drive base per_cluster (disk, memory) =
      IsPartition load buffer drive base (disk, memory) × (disk.cluster_size ≡ per_cluster * 512)

  module _ (image : ℕ → ℕ) (drive base size per_cluster : ℕ) (bios : Bios load drive image)
      (aligned : base % 512 ≡ 0) (fits : base + size < u64_mod) where
    abbrev content : ℕ → ℕ
    content i = image (base + i)

    -- Behind a seek to a sector of the partition, its sectors are read.
    read-IsVolume :
        (at len : ℕ) (disk : DiskAccess) (memory : Memory) (sector n : ℕ)
        → IsVolume drive base per_cluster (disk, memory)
        → (sector + n) * 512 ≤ size
        → len % 512 ≡ 0
        → n ≤ len / 512
        → at + n * 512 ≤ 2 ^ 20
        → (d : DiskAccess) × (d' : DiskAccess) × (m' : Memory) × (seek_sectors disk sector ≡ ok d)
          × (d.sector_size ≡ 512)
          × (d.cluster_size ≡ per_cluster * 512)
          × (read_sectors load d n at len memory ≡ ok (d', m'))
          × (bytes m' at (n * 512) ≡ bytes_at content (sector * 512) (n * 512))
          × (d'.sector_size ≡ 512)
          × IsVolume drive base per_cluster (d', m')
    unfolding seek_sectors
    read-IsVolume at len disk memory sector n ((number, offset, bytes_each), cluster) inside whole
          enough room =
        let d : DiskAccess = record disk { offset = sector * disk.sector_size } in
        let there : sector * disk.sector_size ≡ sector * 512 =
          ap (λ (t : ℕ). sector * t) bytes_each in
        let from : disk.base_offset + sector * disk.sector_size ≡ base + sector * 512 =
          omega (arith, offset, there) in
        let fits_seek : ltb (sector * disk.sector_size) u64_mod ≡ true =
          lt→ltb _ _ (omega (arith, there)) in
        let (m', q, same) =
          read_sectors_lem load image d (λ p m a e s. rw number (bios p m a e s)) bytes_each n at
            len memory whole enough (omega (arith, from)) room in
        let lba : (base + sector * 512) / 512 * 512 ≡ base + sector * 512 =
          omega (arith, aligned) in
        let start : at + 0 ≡ at = omega arith in
        let origin : sector * 512 + 0 ≡ sector * 512 = omega arith in
        (
          d,
          record d { offset = disk.base_offset + sector * disk.sector_size + n * 512 },
          m',
          rw fits_seek refl,
          bytes_each,
          cluster,
          q,
          ap (λ (a : ℕ). bytes m' a (n * 512)) (sym start)
              ∙ bytes-filled load at image content
                  ((disk.base_offset + sector * disk.sector_size) / 512) n (sector * 512) 0
                  (n * 512) memory m' same (λ i. ap image (omega (arith, from, lba))) (omega arith)
              ∙ ap (λ (o : ℕ). bytes_at content o (n * 512)) origin,
          bytes_each,
          ((number, offset, bytes_each), cluster),
        )

    -- Read through the BIOS, a partition of clusters of `per_cluster` sectors is a disk that files
    -- can be loaded from: behind a seek to a sector, up to eight sectors are those of the partition.
    -- The buffer of eight sectors lies below 1 MiB, the partition begins at a sector and ends
    -- before 2^64.
    pub disk_io-ReadsSectors :
        buffer + 4096 ≤ 2 ^ 20
        → ReadsSectors disk_io (IsVolume drive base per_cluster) content size per_cluster
    unfolding sectors_per_cluster
    disk_io-ReadsSectors room (disk, memory) sector n volume inside some_sectors small =
        let (d, d', m', seek, bytes_each, cluster, q, same, bytes', volume') =
          read-IsVolume buffer 4096 disk memory sector n volume inside refl (omega arith)
            (omega arith) in
        let nonzero : (d.sector_size == 0) ≡ false = ne→== _ _ (omega (arith, bytes_each)) in
        let per : d.cluster_size / d.sector_size ≡ per_cluster =
          ap (λ (t : ℕ). d.cluster_size / t) bytes_each ∙ omega (arith, cluster) in
        let product : n * d.sector_size ≡ n * 512 = ap (λ (t : ℕ). n * t) bytes_each in
        (
          (d, memory),
          (d', m'),
          rw seek refl,
          bytes_each,
          rw (nonzero, per) refl,
          rw (q, product, same) refl,
          bytes',
          volume',
        )

    -- The same for the root directory of 512 entries, read into its buffer below 1 MiB.
    pub disk_io-ReadsRoot :
        (sector : ℕ)
        → root + 16384 ≤ 2 ^ 20
        → (sector + 32) * 512 ≤ size
        → ReadsRoot disk_io (IsVolume drive base per_cluster) content sector
    unfolding read
    disk_io-ReadsRoot sector room inside (disk, memory) volume =
        let (d, d', m', seek, bytes_each, cluster, q, same, bytes', volume') =
          read-IsVolume root 16384 disk memory sector 32 volume inside refl (omega arith)
            (omega arith) in
        let nonzero : (d.sector_size == 0) ≡ false = ne→== _ _ (omega (arith, bytes_each)) in
        let whole : 16384 / d.sector_size ≡ 32 = ap (λ (t : ℕ). 16384 / t) bytes_each in
        ((d, memory), (d', m'), rw seek refl, rw (nonzero, whole, q, same) refl, volume')
