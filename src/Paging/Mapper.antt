-- ===== src/Paging/Mapper.antt =====
-- x86_64/src/paging/mapped_page_table.rs and offset_page_table.rs: the walk through the table
-- levels, and the operations of the traits `Mapper` and `Translator` for both page sizes. An
-- `OffsetPageTable` passes each call on to its `MappedPageTable`.
pub mod Tree
pub mod Grow
pub mod Extend
pub mod Supply
pub mod Fresh
pub mod Step
pub mod Make
pub mod Leaf
pub mod Map
pub mod Pages
pub mod Translate
pub mod Enough
pub mod Remove
pub mod Unmap
pub mod Huge
use miniature_os.Base.{ℕ, ◌+◌, Option, none, some, List, [], ◌∷◌, Bool, not, ◌&&◌}
use miniature_os.Base.{Run, ok, panic, ◌>>=◌, ◌>>◌, ◌==◌, if◌then◌else◌, add64, unwrap, bit_or}
use miniature_os.Memory.Frame.{
  PhysicalFrame, Page, PageSize, size_4kib, size_2mib, containing_address,
}
use miniature_os.Paging.Crates.{BitCrates}
use miniature_os.Paging.Entry.{present, writable, user_accessible, huge_page}
use miniature_os.Paging.Entry.{is_present, is_unused, set_address, add_flags}
use miniature_os.Paging.Entry.{entry_address, physical_frame, entry_flags}
use miniature_os.Paging.Entry.{l4_index, l3_index, l2_index, l1_index}
use miniature_os.Paging.Table.{Memory, store, slot, initialize_empty_at_address}

-- The trait `FrameAllocator<Size4KiB>`, on a state of type `A`.
pub record FrameAllocator (A : Type 0) : Type 0 where
  pub allocate_frame : A → Run (Option (PhysicalFrame size_4kib) × A)

-- `Result<TlbFlusher, MappingError>`; the flusher names the page.
pub data MapResult (S : PageSize) : Type 0 where
  mapped : Page S → MapResult S
  frame_allocation_failed page_already_mapped : MapResult S

-- `Result<(PhysicalFrame, TlbFlusher), UnmappingError>`.
pub data UnmapResult (S : PageSize) : Type 0 where
  unmapped : PhysicalFrame S → Page S → UnmapResult S
  page_not_mapped : UnmapResult S

-- `Result<(PhysicalFrame, PageTableEntryFlags), TranslationError>`.
pub data Translation (S : PageSize) : Type 0 where
  translated : PhysicalFrame S → ℕ → Translation S
  not_mapped : Translation S

-- `PhysicalOffset`.
unfoldable pub offset_mapping : ℕ → PhysicalFrame size_4kib → Run ℕ
offset_mapping offset f = add64 offset f.address

abbrev pub parent_flags : ℕ
parent_flags = bit_or (bit_or present writable) user_accessible

-- `frame_to_virtual` is the trait `PageTableFrameMapping`.
module _ (lib : BitCrates) (frame_to_virtual : PhysicalFrame size_4kib → Run ℕ) where
  -- The indices at which a page is found, from the level-4 table down; the last is that of the
  -- entry that maps the page.
  abbrev pub indices_4kib : ℕ → List ℕ
  indices_4kib a = l4_index lib a ∷ l3_index lib a ∷ l2_index lib a ∷ []

  abbrev pub indices_2mib : ℕ → List ℕ
  indices_2mib a = l4_index lib a ∷ l3_index lib a ∷ []

  -- `PageTableWalker::get_pagetable` on the entry at an address.
  unfoldable pub get_pagetable : Memory → ℕ → Run (Option ℕ)
  get_pagetable m at =
      if is_unused (m at)
      then ok none
      else (do frame ← physical_frame lib (m at); table ← frame_to_virtual frame; ok (some table))

  -- The successive `get_pagetable` calls through the levels.
  unfoldable pub find_table : List ℕ → ℕ → Memory → Run (Option ℕ)
  find_table [] base m = ok (some base)
  find_table (i ∷ is) base m = do
    at ← slot base i
    next ← get_pagetable m at
    elim next [ none ↦ ok none | some table ↦ find_table is table m ]

  unfoldable pub translate_at : (S : PageSize) → List ℕ → ℕ → ℕ → Memory → Run (Translation S)
  translate_at S upper last pml4t m = do
    found ← find_table upper pml4t m
    elim found [
      | none ↦ ok not_mapped
      | some table ↦ do
        at ← slot table last
        if is_present (m at)
            then (do
              frame ← containing_address S (entry_address lib (m at))
              ok (translated frame (entry_flags lib (m at))))
            else ok not_mapped
    ]

  -- `Translator<Size4KiB>` and `Translator<Size2MiB>`.
  unfoldable pub translate_4kib : ℕ → Page size_4kib → Memory → Run (Translation size_4kib)
  translate_4kib pml4t page m =
      translate_at size_4kib (indices_4kib page.address) (l1_index lib page.address) pml4t m

  unfoldable pub translate_2mib : ℕ → Page size_2mib → Memory → Run (Translation size_2mib)
  translate_2mib pml4t page m =
      translate_at size_2mib (indices_2mib page.address) (l2_index lib page.address) pml4t m

  -- `unmap` at the entry of the page: the entry is reset before its address is read for the
  -- result.
  unfoldable pub unmap_entry : (S : PageSize) → ℕ → Page S → Memory → Run (UnmapResult S × Memory)
  unmap_entry S at page m =
      if not (lib.contains (entry_flags lib (m at)) present) then ok (page_not_mapped, m) else (do
        let m' = store m at 0
        frame ← containing_address S (entry_address lib (m' at))
        ok (unmapped frame page, m'))

  -- A missing table is an `unwrap` of `None`.
  unfoldable pub unmap_at :
      (S : PageSize) → List ℕ → ℕ → ℕ → Page S → Memory → Run (UnmapResult S × Memory)
  unmap_at S upper last pml4t page m = do
    found ← find_table upper pml4t m
    table ← unwrap found
    at ← slot table last
    unmap_entry S at page m

  unfoldable pub unmap_4kib : ℕ → Page size_4kib → Memory → Run (UnmapResult size_4kib × Memory)
  unmap_4kib pml4t page m =
      unmap_at size_4kib (indices_4kib page.address) (l1_index lib page.address) pml4t page m

  unfoldable pub unmap_2mib : ℕ → Page size_2mib → Memory → Run (UnmapResult size_2mib × Memory)
  unmap_2mib pml4t page m =
      unmap_at size_2mib (indices_2mib page.address) (l2_index lib page.address) pml4t page m

  module _ {A : Type 0} (fa : FrameAllocator A) where
    -- `PageTableWalker::get_or_allocate_pagetable` on the entry at an address.
    unfoldable pub get_or_allocate_pagetable : ℕ → ℕ → Memory → A → Run (Option ℕ × Memory × A)
    get_or_allocate_pagetable at flags m a =
        if is_unused (m at)
        then (do
          (got, a') ← fa.allocate_frame a
          elim got [
            | none ↦ ok (none, m, a')
            | some frame ↦ do
              let m' = store m at (set_address frame.address flags)
              table ← frame_to_virtual frame
              m'' ← initialize_empty_at_address table m'
              ok (some table, m'', a')
          ])
        else (do
          let missing = not (flags == 0) && not (lib.contains (entry_flags lib (m at)) flags)
          let m' = if missing then store m at (add_flags (m at) flags) else m
          frame ← physical_frame lib (m' at)
          table ← frame_to_virtual frame
          ok (some table, m', a))

    -- The successive `get_or_allocate_pagetable` calls through the levels.
    unfoldable pub make_table : List ℕ → ℕ → Memory → A → Run (Option ℕ × Memory × A)
    make_table [] base m a = ok (some base, m, a)
    make_table (i ∷ is) base m a = do
      at ← slot base i
      (next, m', a') ← get_or_allocate_pagetable at parent_flags m a
      elim next [ none ↦ ok (none, m', a') | some table ↦ make_table is table m' a' ]

    unfoldable pub map_at :
        (S : PageSize)
        → List ℕ
        → ℕ
        → ℕ
        → PhysicalFrame S
        → Page S
        → ℕ
        → Memory
        → A
        → Run (MapResult S × Memory × A)
    map_at S upper last pml4t frame page flags m a = do
      (found, m', a') ← make_table upper pml4t m a
      elim found [
        | none ↦ ok (frame_allocation_failed, m', a')
        | some table ↦ do
          at ← slot table last
          if is_present (m' at)
              then ok (page_already_mapped, m', a')
              else ok (mapped page, store m' at (set_address frame.address flags), a')
      ]

    -- `Mapper<Size4KiB>::map_to` and `Mapper<Size2MiB>::map_to`.
    unfoldable pub map_to_4kib :
        ℕ
        → PhysicalFrame size_4kib
        → Page size_4kib
        → ℕ
        → Memory
        → A
        → Run (MapResult size_4kib × Memory × A)
    map_to_4kib pml4t frame page flags m a =
        map_at size_4kib (indices_4kib page.address) (l1_index lib page.address) pml4t frame page
          flags m a

    unfoldable pub map_to_2mib :
        ℕ
        → PhysicalFrame size_2mib
        → Page size_2mib
        → ℕ
        → Memory
        → A
        → Run (MapResult size_2mib × Memory × A)
    map_to_2mib pml4t frame page flags m a =
        map_at size_2mib (indices_2mib page.address) (l2_index lib page.address) pml4t frame page
          (bit_or flags huge_page) m a

    -- `Mapper::identity_map`, for frames of 4 KiB.
    unfoldable pub identity_map :
        ℕ → PhysicalFrame size_4kib → ℕ → Memory → A → Run (MapResult size_4kib × Memory × A)
    identity_map pml4t frame flags m a = do
      page ← containing_address size_4kib frame.address
      map_to_4kib pml4t frame page flags m a
