-- ===== src/Disk/Bytes.antt =====
-- `DiskAccess` as the disk that the file system reads from.
use miniature_os.Base.{
  ℕ, zero, suc, ◌+◌, ◌-◌, ◌*◌, ◌/◌, ◌%◌, ◌^◌, ◌≤◌, ◌<◌, ◌≡◌, refl, sym, ap, ◌∙◌,
}
use miniature_os.Base.{arith, ◌∷◌, true, false, ltb, leb, lt→ltb}
use miniature_os.Base.{le→leb, ◌==◌, ne→==, u32_mod, u64_mod}
use miniature_os.Fat.Table.{ReadSeek}
use miniature_os.Fat.Table.Packed.{Reads, bytes_at}
use miniature_os.Disk.{Memory, DiskAddressPacket, DiskAccess, seek_start, read, read_bytes, bytes}
use miniature_os.Disk.Sectors.{Bios, filled, read_sectors_lem}

module _ (load : ℕ → DiskAddressPacket → Memory → Memory) (buffer : ℕ) where
  -- `Seek` and `Read` of `DiskAccess`, whose static buffer stands at `buffer`.
  abbrev pub disk_access : ReadSeek (DiskAccess × Memory)
  disk_access = record {
    seek = λ (disk, memory) offset. (seek_start disk offset, memory);
    read_bytes = λ (disk, memory) len. read_bytes load buffer disk len memory;
  }

  -- A partition from byte `base` of a drive on.
  abbrev pub IsPartition : ℕ → ℕ → DiskAccess × Memory → Type 0
  IsPartition drive base (disk, memory) =
      (disk.disk_number ≡ drive) × (disk.base_offset ≡ base) × (disk.sector_size ≡ 512)

  -- The buffer holds the content from the sector of the offset on.
  pub bytes-filled :
      (image content : ℕ → ℕ) (lba sectors o k n : ℕ) (memory after : Memory)
      → ((a : ℕ) → after a ≡ filled image lba buffer sectors memory a)
      → ((i : ℕ) → image (lba * 512 + i) ≡ content (o + i))
      → k + n ≤ sectors * 512
      → bytes after (buffer + k) n ≡ bytes_at content (o + k) n
  bytes-filled image content lba sectors o k zero memory after same is fits = refl
  bytes-filled image content lba sectors o k (suc n) memory after same is fits =
      let low : leb buffer (buffer + k) ≡ true = le→leb _ _ (omega arith) in
      let high : ltb (buffer + k) (buffer + sectors * 512) ≡ true = lt→ltb _ _ (omega arith) in
      let at : lba * 512 + (buffer + k - buffer) ≡ lba * 512 + k = omega arith in
      let here : after (buffer + k) ≡ content (o + k) =
        same (buffer + k) ∙ rw (low, high, at) (is k) in
      let next : suc (buffer + k) ≡ buffer + suc k = omega arith in
      let next' : suc (o + k) ≡ o + suc k = omega arith in
      ap (λ b. b ∷ bytes after (suc (buffer + k)) n) here
      ∙ ap (λ bs. content (o + k) ∷ bs)
          (ap (λ a. bytes after a n) next
            ∙ bytes-filled image content lba sectors o (suc k) n memory after same is (omega arith)
            ∙ ap (λ a. bytes_at content a n) (sym next'))

  -- Read through the BIOS, a partition gives back its content: `read_bytes` of at most 512 bytes
  -- at any offset is those bytes of the drive, counted from the partition's first byte, and the
  -- disk is still that partition. The static buffer lies below 1 MiB, the partition begins at
  -- a sector, and ends before 2^64 with two sectors to spare.
  pub disk_access-Reads :
      (image : ℕ → ℕ) (drive base size : ℕ)
      → Bios load drive image
      → base % 512 ≡ 0
      → base + size + 1024 < u64_mod
      → buffer + 1024 ≤ 2 ^ 20
      → Reads disk_access (IsPartition drive base) (λ i. image (base + i)) size
  unfolding seek_start read read_bytes
  disk_access-Reads image drive base size bios aligned fits room (disk, memory) o n
        (number, offset, sector) inside small =
      let at : DiskAccess = record disk { offset = o } in
      let from : disk.base_offset + o ≡ base + o = ap (λ (t : ℕ). t + o) offset in
      let (after, q, same) =
        read_sectors_lem load image at (λ p m a e s. rw number (bios p m a e s)) sector 2 buffer
          1024 memory (omega arith) (omega arith) (omega (arith, from)) room in
      let lba : (base + o) / 512 * 512 ≡ base + (o - o % 512) = omega (arith, aligned) in
      let back : o - o % 512 + o % 512 ≡ o = omega arith in
      let some_bytes : (disk.sector_size == 0) ≡ false = ne→== _ _ (omega (arith, sector)) in
      let start : o % u32_mod % disk.sector_size ≡ o % 512 =
        ap (λ (t : ℕ). o % u32_mod % t) sector ∙ omega arith in
      let count : 1024 / disk.sector_size ≡ 2 = ap (λ (t : ℕ). 1024 / t) sector in
      let end_ok : ltb (o % 512 + n) u32_mod ≡ true = lt→ltb _ _ (omega arith) in
      let room_ok : leb (o % 512 + n) 1024 ≡ true = le→leb _ _ (omega arith) in
      let read_back : bytes after (buffer + o % 512) n ≡ bytes_at (λ i. image (base + i)) o n =
        bytes-filled image (λ i. image (base + i)) ((disk.base_offset + o) / 512) 2 (o - o % 512)
          (o % 512) n memory after same (λ i. ap image (omega (arith, from, lba))) (omega arith)
        ∙ ap (λ k. bytes_at (λ i. image (base + i)) k n) back in
      (
        (record at { offset = disk.base_offset + o + 2 * 512 }, after),
        (number, offset, sector),
        rw (some_bytes, start, end_ok, room_ok, count, q, read_back) refl,
      )
