-- ===== src/Disk/Sectors.antt =====
-- Reading in packets of at most 0x20 sectors.
use miniature_os.Base.{
  ℕ, zero, suc, ◌+◌, ◌-◌, ◌*◌, ◌/◌, ◌%◌, ◌^◌, ◌≤◌, ◌<◌, ◌≡◌, refl, sym, ap, ◌∙◌,
}
use miniature_os.Base.{inl, inr, arith, min, bit_and, true, false, ◌&&◌, Bool-cases, ok}
use miniature_os.Base.{ltb, leb, lt→ltb, le→leb, leb→le, ◌==◌, ne→==}
use miniature_os.Base.{if◌then◌else◌, u16_mod, u32_mod, u64_mod}
use miniature_os.Base.Bits.{bit_and_mask}
use miniature_os.Disk.{Memory, DiskAddressPacket, new_packet, DiskAccess, read_loop, read_sectors}

-- The memory after `n` sectors from `lba` of the disk's content are at `buffer`.
abbrev pub filled : (ℕ → ℕ) → ℕ → ℕ → ℕ → Memory → Memory
filled image lba buffer n memory a =
    if leb buffer a && ltb a (buffer + n * 512) then image (lba * 512 + (a - buffer)) else memory a

-- INT 13h, AH=42h: a packet of 16 bytes asks for at most 127 sectors, which are read to the
-- address segment:offset.
abbrev pub Bios : (ℕ → DiskAddressPacket → Memory → Memory) → ℕ → (ℕ → ℕ) → Type 0
Bios load drive image =
    (packet : DiskAddressPacket) (memory : Memory) (a : ℕ)
    → packet.size ≡ 16
    → packet.sector_count ≤ 127
    → load drive packet memory a
      ≡ filled image packet.start_lba (packet.segment * 16 + packet.offset) packet.sector_count
          memory a

filled_none :
    (image : ℕ → ℕ) (lba buffer : ℕ) (memory : Memory) (a : ℕ)
    → filled image lba buffer 0 memory a ≡ memory a
filled_none image lba buffer memory a = ground arith

-- Two transfers, the second right behind the first, are one.
filled_step :
    (image : ℕ → ℕ) (lba buffer c n : ℕ) (memory first : Memory) (a : ℕ)
    → first a ≡ filled image lba buffer c memory a
    → filled image (lba + c) (buffer + c * 512) n first a ≡ filled image lba buffer (c + n) memory a
filled_step image lba buffer c n memory first a h =
    let end : buffer + c * 512 + n * 512 ≡ buffer + (c + n) * 512 = omega arith in
    elim (Bool-cases (leb (buffer + c * 512) a)) [
      | inl above ↦
          let le : buffer + c * 512 ≤ a = leb→le _ _ above in
          let low : leb buffer a ≡ true = le→leb _ _ (omega arith) in
          let past : ltb a (buffer + c * 512) ≡ false = ground arith in
          let from : (lba + c) * 512 + (a - (buffer + c * 512)) ≡ lba * 512 + (a - buffer) =
            omega arith in
          let kept : first a ≡ memory a = h ∙ rw (low, past) in rw (end, above, low, from, kept)
      | inr below ↦
          let lt : a < buffer + c * 512 = ground arith in
          let inside : ltb a (buffer + c * 512) ≡ true = lt→ltb _ _ lt in
          let inside' : ltb a (buffer + (c + n) * 512) ≡ true = lt→ltb _ _ (omega arith) in
          rw (below, h, inside, inside')
    ]

-- The packet's segment and offset name the buffer.
packet_buffer : (buffer : ℕ) → buffer / 2 ^ 4 * 16 + bit_and buffer 0b1111 ≡ buffer
packet_buffer buffer = rw (bit_and_mask 4 buffer) (omega arith)

module _ (load : ℕ → DiskAddressPacket → Memory → Memory) (image : ℕ → ℕ) (disk : DiskAccess)
    (bios : Bios load disk.disk_number image) (plain : disk.sector_size ≡ 512) where
  abbrev packet_for : ℕ → ℕ → ℕ → DiskAddressPacket
  packet_for lba buffer c = record {
    size = 0x10;
    zero_byte = 0;
    sector_count = c;
    offset = bit_and buffer 0b1111;
    segment = buffer / 2 ^ 4;
    start_lba = lba;
  }

  packet_lem :
      (lba buffer c : ℕ) (memory : Memory) (a : ℕ)
      → c ≤ 127
      → load disk.disk_number (packet_for lba buffer c) memory a
        ≡ filled image lba buffer c memory a
  packet_lem lba buffer c memory a small =
      bios (packet_for lba buffer c) memory a refl small
      ∙ ap (λ b. filled image lba b c memory a) (packet_buffer buffer)

  read_loop_lem :
      (fuel n lba buffer : ℕ) (memory : Memory)
      → n ≤ fuel
      → lba + n < u64_mod
      → buffer + n * 512 ≤ 2 ^ 20
      → (after : Memory) × (read_loop load fuel disk n lba buffer memory ≡ ok after)
        × ((a : ℕ) → after a ≡ filled image lba buffer n memory a)
  unfolding read_loop new_packet
  read_loop_lem zero zero lba buffer memory enough lba_fits fits =
      (memory, refl, λ a. sym (filled_none image lba buffer memory a))
  read_loop_lem zero (suc n) lba buffer memory enough lba_fits fits = absurd (omega arith)
  read_loop_lem (suc fuel) zero lba buffer memory enough lba_fits fits =
      (memory, refl, λ a. sym (filled_none image lba buffer memory a))
  read_loop_lem (suc fuel) (suc n) lba buffer memory enough lba_fits fits =
      let c : ℕ = min (suc n) 0x20 in
      let first : Memory = load disk.disk_number (packet_for lba buffer c) memory in
      let (after, q, same) =
        read_loop_lem fuel (suc n - c) (lba + c) (buffer + c * 512) first (omega arith)
          (omega arith) (omega arith) in
      let segment : ltb (buffer / 2 ^ 4) u16_mod ≡ true = lt→ltb _ _ (omega arith) in
      let some_left : (suc n == 0) ≡ false = ne→== _ _ (omega arith) in
      let stride : c * disk.sector_size ≡ c * 512 = ap (λ (t : ℕ). c * t) plain in
      let left : leb c (suc n) ≡ true = le→leb _ _ (omega arith) in
      let lba_ok : ltb (lba + c) u64_mod ≡ true = lt→ltb _ _ (omega arith) in
      let bytes_ok : ltb (c * 512) u32_mod ≡ true = lt→ltb _ _ (omega arith) in
      let address_ok : ltb (buffer + c * 512) u32_mod ≡ true = lt→ltb _ _ (omega arith) in
      let whole : c + (suc n - c) ≡ suc n = omega arith in
      (
        after,
        rw (some_left, segment, stride, left, lba_ok, bytes_ok, address_ok) q,
        λ a.
            same a
            ∙ filled_step image lba buffer c (suc n - c) memory first a
                (packet_lem lba buffer c memory a (omega arith))
            ∙ ap (λ k. filled image lba buffer k memory a) whole,
      )

  -- Reading `n` sectors in packets is one transfer of `n` sectors: the sectors that begin at the
  -- one that holds byte `base_offset + offset` of the disk are at the buffer, and no other byte of
  -- the memory has changed. It holds for a buffer of whole sectors with room for them, which
  -- they fill below 1 MiB, on a disk of sectors of 512 bytes below 2^64. Nothing panics, and the
  -- new offset is `base_offset + offset` and the bytes read: the base offset is in it.
  pub read_sectors_lem :
      (n buffer len : ℕ) (memory : Memory)
      → len % 512 ≡ 0
      → n ≤ len / 512
      → disk.base_offset + disk.offset + n * 512 < u64_mod
      → buffer + n * 512 ≤ 2 ^ 20
      → (after : Memory) × (read_sectors load disk n buffer len memory
          ≡ ok (record disk { offset = disk.base_offset + disk.offset + n * 512 }, after))
        × ((a : ℕ)
            → after a ≡ filled image ((disk.base_offset + disk.offset) / 512) buffer n memory a)
  unfolding read_sectors
  read_sectors_lem n buffer len memory whole room end_fits fits =
      let from : ℕ = disk.base_offset + disk.offset in
      let (after, q, same) =
        read_loop_lem n n (from / 512) buffer memory (omega arith) (omega arith) fits in
      let some_bytes : (disk.sector_size == 0) ≡ false = ne→== _ _ (omega (arith, plain)) in
      let rest : len % disk.sector_size ≡ 0 = ap (λ (t : ℕ). len % t) plain ∙ whole in
      let over : (len % disk.sector_size == 0) ≡ true = rw rest refl in
      let count : len / disk.sector_size ≡ len / 512 = ap (λ (t : ℕ). len / t) plain in
      let lba : from / disk.sector_size ≡ from / 512 = ap (λ (t : ℕ). from / t) plain in
      let stride : n * disk.sector_size ≡ n * 512 = ap (λ (t : ℕ). n * t) plain in
      let room_ok : leb n (len / 512) ≡ true = le→leb _ _ room in
      let from_ok : ltb from u64_mod ≡ true = lt→ltb _ _ (omega arith) in
      let bytes_ok : ltb (n * 512) u32_mod ≡ true = lt→ltb _ _ (omega arith) in
      let end_ok : ltb (from + n * 512) u64_mod ≡ true = lt→ltb _ _ end_fits in
      (
        after,
        rw (some_bytes, over, count, room_ok, from_ok, lba, stride, bytes_ok, end_ok, q) refl,
        same,
      )
