-- ===== src/Stage4/Elf.antt =====
-- `KernelLoader` (bootloader/x86_64/bios/stage4/src/elf.rs): it maps the segments of the kernel, whose
-- file lies in memory, and applies its relocations. What the ELF parser hands to it, the headers
-- and relocations, are its arguments.
pub mod Frames
pub mod Zeros
pub mod Segment
use miniature_os.Base.{ℕ, zero, suc, ◌+◌, ◌-◌, List, [], ◌∷◌, Option, Bool, true, false, not, ◌&&◌}
use miniature_os.Base.{
  Run, ok, panic, ◌>>=◌, ◌>>◌, unwrap, sub, add64, ltb, leb, ◌==◌, if◌then◌else◌,
}
use miniature_os.Base.{bit_or, bit_and, slice, to_le_bytes, length, get_or}
use miniature_os.Memory.Address.{align_up}
use miniature_os.Memory.Frame.{
  PhysicalFrame, Page, PageSize, size_4kib, containing_address, range_collect, frame_end,
  frame_distance, add_frames,
}
use miniature_os.Paging.Crates.{BitCrates}
use miniature_os.Paging.Entry.{present, writable, no_execute, bit_9}
use miniature_os.Paging.Table.{Memory}
use miniature_os.Paging.Mapper.{
  FrameAllocator, map_to_4kib, unmap_4kib, translate_4kib, UnmapResult, unmapped, Translation,
  translated, not_mapped,
}
use miniature_os.Stage4.Stack.{expect_mapped}

-- A loadable header, as the parser shows it.
pub record Header : Type 0 where
  pub offset : ℕ
  pub virtual_addr : ℕ
  pub file_size : ℕ
  pub mem_size : ℕ
  pub is_execute : Bool
  pub is_write : Bool

-- The types of relocations that the code tells apart.
pub data RelocationType : Type 0 where
  amd64_relative amd64_other x86 : RelocationType

pub record RelocationEntry : Type 0 where
  pub rtype : RelocationType
  pub offset : ℕ
  pub addend : Option ℕ

-- `virtual_base`, and `info.kernel.start`.
pub record KernelLoader : Type 0 where
  pub virtual_base : ℕ
  pub kernel_start : ℕ

-- The frames that hold the kernel are read and written by bytes.
abbrev pub Bytes : Type 0
Bytes = ℕ → ℕ

-- The page tables, the bytes and the frame allocator.
pub record Machine (A : Type 0) : Type 0 where
  pub tables : Memory
  pub bytes : Bytes
  pub allocator : A

-- `ptr::copy_nonoverlapping` from memory and from a slice, and `ptr::write_bytes` with zeros.
abbrev pub copy : Bytes → ℕ → ℕ → ℕ → Bytes
copy b from to count x = if leb to x && ltb x (to + count) then b (from + (x - to)) else b x

abbrev pub store_bytes : Bytes → ℕ → List ℕ → Bytes
store_bytes b to values x =
    if leb to x && ltb x (to + length values) then get_or values (x - to) 0 else b x

abbrev pub write_zeros : Bytes → ℕ → ℕ → Bytes
write_zeros b to count x = if leb to x && ltb x (to + count) then 0 else b x

abbrev pub copied : ℕ
copied = bit_9

abbrev pub segment_flags : Header → ℕ
segment_flags header =
    let flags = if header.is_execute then present else bit_or present no_execute in
    if header.is_write then bit_or flags writable else flags

-- `expect` on the results of `translate` and `unmap`.
abbrev pub expect_translated : Translation size_4kib → Run (PhysicalFrame size_4kib × ℕ)
expect_translated (translated frame flags) = ok (frame, flags)
expect_translated not_mapped = panic

abbrev pub expect_unmapped : UnmapResult size_4kib → Run (Unit {0})
expect_unmapped (unmapped frame page) = ok tt
expect_unmapped _ = panic

module _ (lib : BitCrates) (frame_to_virtual : PhysicalFrame size_4kib → Run ℕ) {A : Type 0}
    (fa : FrameAllocator A) (pml4t : ℕ) (loader : KernelLoader) where
  -- One page of the write of a relocated value, of which some bytes are written.
  unfoldable pub relocate_page : ℕ → List ℕ → Page size_4kib → ℕ → Memory → Bytes → Run (ℕ × Bytes)
  relocate_page virtual_address value_bytes page bytes_written m b = do
    translation ← translate_4kib lib frame_to_virtual pml4t page m
    (frame, flags) ← expect_translated translation
    offset ← if ltb page.address virtual_address then sub virtual_address page.address else ok 0
    value_end ← add64 virtual_address (length value_bytes)
    page_end ← frame_end size_4kib page
    bytes_to_write ←
        if ltb page_end value_end
        then sub page_end virtual_address
        else sub (length value_bytes) bytes_written
    written ← add64 bytes_written bytes_to_write
    write_slice ← slice value_bytes bytes_written written
    address ← add64 frame.address offset
    ok (written, store_bytes b address write_slice)

  unfoldable pub relocate_pages :
      ℕ → List ℕ → List (Page size_4kib) → ℕ → Memory → Bytes → Run Bytes
  relocate_pages virtual_address value_bytes [] bytes_written m b = ok b
  relocate_pages virtual_address value_bytes (page ∷ pages) bytes_written m b = do
    (written, b') ← relocate_page virtual_address value_bytes page bytes_written m b
    relocate_pages virtual_address value_bytes pages written m b'

  -- The fuel is for the range of at most two pages.
  unfoldable pub handle_relative_relocation : ℕ → RelocationEntry → Machine A → Run (Machine A)
  handle_relative_relocation fuel entry machine = do
    addend ← unwrap entry.addend
    value ← add64 loader.virtual_base addend
    let value_bytes = to_le_bytes 8 value
    virtual_address ← add64 loader.virtual_base entry.offset
    start_page ← containing_address size_4kib virtual_address
    behind ← add64 virtual_address (length value_bytes)
    end_page ← containing_address size_4kib behind
    pages ← range_collect size_4kib fuel (record { start = start_page; end = end_page })
    b ← relocate_pages virtual_address value_bytes pages 0 machine.tables machine.bytes
    ok (record machine { bytes = b })

  unfoldable pub relocate : ℕ → RelocationEntry → Machine A → Run (Machine A)
  relocate fuel entry machine = elim entry.rtype [
    | amd64_relative ↦ handle_relative_relocation fuel entry machine
    | amd64_other ↦ panic
    | x86 ↦ panic
  ]

  -- The page gets a frame of its own with the same contents, if it does not have one yet.
  unfoldable pub make_mutable :
      Page size_4kib → Machine A → Run (PhysicalFrame size_4kib × Machine A)
  make_mutable page machine = do
    translation ← translate_4kib lib frame_to_virtual pml4t page machine.tables
    (frame, flags) ← expect_translated translation
    if lib.contains flags copied then ok (frame, machine) else (do
      (got, a) ← fa.allocate_frame machine.allocator
      new_frame ← unwrap got
      let b = copy machine.bytes frame.address new_frame.address 4096
      (removed, m) ← unmap_4kib lib frame_to_virtual pml4t page machine.tables
      expect_unmapped removed
      (result, m', a') ←
          map_to_4kib lib frame_to_virtual fa pml4t new_frame page (bit_or flags copied) m a
      expect_mapped result
      ok (new_frame, record { tables = m'; bytes = b; allocator = a' }))

  -- The loop over the frames of the file; `start_page` is for `start_frame`.
  unfoldable pub map_frames :
      PhysicalFrame size_4kib
      → Page size_4kib
      → ℕ
      → List (PhysicalFrame size_4kib)
      → Memory
      → A
      → Run (Memory × A)
  map_frames start_frame start_page flags [] m a = ok (m, a)
  map_frames start_frame start_page flags (frame ∷ frames) m a = do
    frame_offset ← frame_distance size_4kib frame start_frame
    page ← add_frames size_4kib start_page frame_offset
    (result, m', a') ← map_to_4kib lib frame_to_virtual fa pml4t frame page flags m a
    expect_mapped result
    map_frames start_frame start_page flags frames m' a'

  -- The part of the last page of the file that is behind the file.
  unfoldable pub zero_rest : Header → ℕ → ℕ → Machine A → Run (Machine A)
  zero_rest header virtual_start zero_start machine = do
    let data_bytes_before_zero = bit_and zero_start (4096 - 1)
    if data_bytes_before_zero == 0 then ok machine else (do
      file_end ← add64 virtual_start header.file_size
      last_byte ← sub file_end 1
      last_page ← containing_address size_4kib last_byte
      (last_frame, machine') ← make_mutable last_page machine
      let b =
          write_zeros machine'.bytes (last_frame.address + data_bytes_before_zero)
            (4096 - data_bytes_before_zero)
      ok (record machine' { bytes = b }))

  -- The loop over the pages that hold nothing of the file.
  unfoldable pub map_zeros : ℕ → List (Page size_4kib) → Machine A → Run (Machine A)
  map_zeros flags [] machine = ok machine
  map_zeros flags (page ∷ pages) machine = do
    (got, a) ← fa.allocate_frame machine.allocator
    frame ← unwrap got
    let b = write_zeros machine.bytes frame.address 4096
    (result, m, a') ← map_to_4kib lib frame_to_virtual fa pml4t frame page flags machine.tables a
    expect_mapped result
    map_zeros flags pages (record { tables = m; bytes = b; allocator = a' })

  unfoldable pub map_bss : ℕ → Header → ℕ → Machine A → Run (Machine A)
  map_bss fuel header virtual_start machine = do
    zero_start ← add64 virtual_start header.file_size
    zero_end ← add64 virtual_start header.mem_size
    machine' ← zero_rest header virtual_start zero_start machine
    above ← align_up zero_start 4096
    start_page ← containing_address size_4kib above
    last_zero ← sub zero_end 1
    end_page ← containing_address size_4kib last_zero
    pages ← range_collect size_4kib fuel (record { start = start_page; end = end_page })
    map_zeros (segment_flags header) pages machine'

  unfoldable pub allocate_segment : ℕ → Header → Machine A → Run (Machine A)
  allocate_segment fuel header machine = do
    physical_start ← add64 loader.kernel_start header.offset
    start_frame ← containing_address size_4kib physical_start
    file_end ← add64 physical_start header.file_size
    last_byte ← sub file_end 1
    end_frame ← containing_address size_4kib last_byte
    virtual_start ← add64 loader.virtual_base header.virtual_addr
    start_page ← containing_address size_4kib virtual_start
    frames ← range_collect size_4kib fuel (record { start = start_frame; end = end_frame })
    (m, a) ←
        map_frames start_frame start_page (segment_flags header) frames machine.tables
          machine.allocator
    let machine' = record machine { tables = m; allocator = a }
    if ltb header.file_size header.mem_size
        then map_bss fuel header virtual_start machine'
        else ok machine'

  unfoldable pub allocate : ℕ → List Header → Machine A → Run (Machine A)
  allocate fuel [] machine = ok machine
  allocate fuel (header ∷ headers) machine = do
    machine' ← allocate_segment fuel header machine
    allocate fuel headers machine'
