-- ===== src/Disk.antt =====
-- The disk of the second stage (bootloader/x86_64/bios/stage2/src/disk.rs and dap.rs): `DiskAccess`
-- and the address packets it hands to the BIOS. The BIOS is a parameter: what `load` of a packet
-- does to the memory (a byte for each address).
pub mod Bytes
pub mod Sectors
pub mod Files
use miniature_os.Base.{ℕ, zero, suc, ◌+◌, ◌-◌, ◌*◌, ◌/◌, ◌%◌, ◌^◌, min, bit_and}
use miniature_os.Base.{Run, ok, panic, out_of_fuel, ◌>>=◌, ◌>>◌, assert, add32, add64, mul32, mul64}
use miniature_os.Base.{sub, ltb, leb, ◌==◌, if◌then◌else◌, List, [], ◌∷◌, u16_mod, u32_mod}

-- The addresses are those of the 32-bit second stage.
abbrev pub Memory : Type 0
Memory = ℕ → ℕ

pub record DiskAddressPacket : Type 0 where
  pub size : ℕ
  pub zero_byte : ℕ
  pub sector_count : ℕ
  pub offset : ℕ
  pub segment : ℕ
  pub start_lba : ℕ

-- `DiskAddressPacket::new`.
unfoldable pub new_packet : ℕ → ℕ → ℕ → Run DiskAddressPacket
new_packet buffer_address sector_count start_lba =
    if ltb (buffer_address / 2 ^ 4) u16_mod
    then ok (record {
      size = 0x10;
      zero_byte = 0;
      sector_count = sector_count;
      offset = bit_and buffer_address 0b1111;
      segment = buffer_address / 2 ^ 4;
      start_lba = start_lba;
    })
    else panic

pub record DiskAccess : Type 0 where
  pub disk_number : ℕ
  pub base_offset : ℕ
  pub offset : ℕ
  pub sector_size : ℕ
  pub cluster_size : ℕ

-- `DiskAccess::new`.
unfoldable pub new_disk : ℕ → ℕ → ℕ → Run DiskAccess
new_disk disk_number base_lba offset = do
  base ← mul64 base_lba 512
  start ← mul64 offset 512
  ok (record {
    disk_number = disk_number;
    base_offset = base;
    offset = start;
    sector_size = 512;
    cluster_size = 0;
  })

abbrev pub div : ℕ → ℕ → Run ℕ
div a b = if b == 0 then panic else ok (a / b)

abbrev pub rem : ℕ → ℕ → Run ℕ
rem a b = if b == 0 then panic else ok (a % b)

unfoldable pub sectors_per_cluster : DiskAccess → Run ℕ
sectors_per_cluster disk = div disk.cluster_size disk.sector_size

-- `seek(SeekFrom::Start(offset))`.
unfoldable pub seek_start : DiskAccess → ℕ → DiskAccess
seek_start disk offset = record disk { offset = offset }

-- `seek(SeekFrom::StartInSectors(offset))`.
unfoldable pub seek_sectors : DiskAccess → ℕ → Run DiskAccess
seek_sectors disk offset = do at ← mul64 offset disk.sector_size; ok (record disk { offset = at })

-- The `n` bytes of the memory at an address.
abbrev pub bytes : Memory → ℕ → ℕ → List ℕ
bytes memory a zero = []
bytes memory a (suc n) = memory a ∷ bytes memory (suc a) n

module _ (load : ℕ → DiskAddressPacket → Memory → Memory) where
  -- The loop of `read_sectors`: packets of at most 0x20 sectors, one after the other.
  unfoldable pub read_loop : ℕ → DiskAccess → ℕ → ℕ → ℕ → Memory → Run Memory
  read_loop zero disk remaining start_lba buffer_address memory =
      if remaining == 0 then ok memory else out_of_fuel
  read_loop (suc fuel) disk remaining start_lba buffer_address memory =
      if remaining == 0 then ok memory else (do
        let count = min remaining 0x20
        packet ← new_packet buffer_address count start_lba
        left ← sub remaining count
        lba ← add64 start_lba count
        bytes ← mul32 count disk.sector_size
        address ← add32 buffer_address bytes
        read_loop fuel disk left lba address (load disk.disk_number packet memory))

  -- `read_sectors` into a buffer of `len` bytes at `buffer`. The loop takes a step for each 0x20
  -- sectors, so that as many steps as there are sectors are enough.
  unfoldable pub read_sectors : DiskAccess → ℕ → ℕ → ℕ → Memory → Run (DiskAccess × Memory)
  read_sectors disk sectors_amount buffer len memory = do
    over ← rem len disk.sector_size
    _ ← assert (over == 0)
    whole ← div len disk.sector_size
    _ ← assert (leb sectors_amount whole)
    from ← add64 disk.base_offset disk.offset
    start_lba ← div from disk.sector_size
    bytes ← mul32 sectors_amount disk.sector_size
    end_addr ← add64 from bytes
    after ← read_loop sectors_amount disk sectors_amount start_lba buffer memory
    ok (record disk { offset = end_addr }, after)

  -- `read`: the whole buffer.
  unfoldable pub read : DiskAccess → ℕ → ℕ → Memory → Run (DiskAccess × Memory)
  read disk buffer len memory = do
    whole ← div len disk.sector_size
    read_sectors disk whole buffer len memory

  -- `read_bytes`, through a static buffer of two sectors of 512 bytes at `buffer`.
  unfoldable pub read_bytes : ℕ → DiskAccess → ℕ → Memory → Run (List ℕ × (DiskAccess × Memory))
  read_bytes buffer disk len memory = do
    start ← rem (disk.offset % u32_mod) disk.sector_size
    end ← add32 start len
    _ ← assert (leb end 1024)
    (after, filled) ← read disk buffer 1024 memory
    ok (bytes filled (buffer + start) len, (after, filled))
