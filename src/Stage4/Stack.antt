-- ===== src/Stage4/Stack.antt =====
-- `allocate_and_map_stack` and `identity_map_context_switch_function` of
-- bootloader/x86_64/bios/stage4/src/main.rs, over the mapper.
pub mod Guarded
use miniature_os.Base.{ℕ, ◌-◌, List, [], ◌∷◌, Option, Bool, not, Run, ok, panic, ◌>>=◌, ◌>>◌}
use miniature_os.Base.{assert, unwrap, sub, bit_or, ◌==◌}
use miniature_os.Memory.Frame.{
  PhysicalFrame, Page, PageSize, size_4kib, containing_address, range_collect,
}
use miniature_os.Paging.Crates.{BitCrates}
use miniature_os.Paging.Entry.{present, writable, no_execute}
use miniature_os.Paging.Table.{Memory}
use miniature_os.Paging.Mapper.{FrameAllocator, MapResult, mapped, map_to_4kib, identity_map}

-- `KERNEL_STACK_TOP` and `KERNEL_STACK_SIZE`.
abbrev pub kernel_stack_top : ℕ
kernel_stack_top = 0xffffffff00000000

abbrev pub kernel_stack_size : ℕ
kernel_stack_size = 0x20000

-- `expect` on the result of `map_to`.
abbrev pub expect_mapped : {S : PageSize} → MapResult S → Run (Unit {0})
expect_mapped (mapped page) = ok tt
expect_mapped _ = panic

abbrev pub stack_flags : ℕ
stack_flags = bit_or (bit_or present writable) no_execute

module _ (lib : BitCrates) (frame_to_virtual : PhysicalFrame size_4kib → Run ℕ) {A : Type 0}
    (fa : FrameAllocator A) (pml4t : ℕ) where
  -- The loop over the pages of the stack.
  unfoldable pub map_stack_pages : List (Page size_4kib) → Memory → A → Run (Memory × A)
  map_stack_pages [] m a = ok (m, a)
  map_stack_pages (page ∷ pages) m a = do
    (got, a') ← fa.allocate_frame a
    frame ← unwrap got
    (result, m', a'') ← map_to_4kib lib frame_to_virtual fa pml4t frame page stack_flags m a'
    expect_mapped result
    map_stack_pages pages m' a''

  unfoldable pub map_guard_page : Page size_4kib → Memory → A → Run (Memory × A)
  map_guard_page start_page m a = do
    below ← sub start_page.address 4096
    guard_page ← containing_address size_4kib below
    assert (not (guard_page.address == start_page.address))
    (got, a') ← fa.allocate_frame a
    frame ← unwrap got
    (result, m', a'') ← map_to_4kib lib frame_to_virtual fa pml4t frame guard_page 0 m a'
    expect_mapped result
    ok (m', a'')

  -- Also gives the address at which the stack begins. The fuel is for the range of pages.
  unfoldable pub allocate_and_map_stack : ℕ → Memory → A → Run (ℕ × Memory × A)
  allocate_and_map_stack fuel m a = do
    end_page ← containing_address size_4kib kernel_stack_top
    bottom ← sub kernel_stack_top kernel_stack_size
    start_page ← containing_address size_4kib bottom
    pages ← range_collect size_4kib fuel (record { start = start_page; end = end_page })
    (m', a') ← map_stack_pages pages m a
    (m'', a'') ← map_guard_page start_page m' a'
    ok (end_page.address, m'', a'')

  -- `context_switch` is the address of that function.
  unfoldable pub identity_map_context_switch_function : ℕ → Memory → A → Run (Memory × A)
  identity_map_context_switch_function context_switch m a = do
    frame ← containing_address size_4kib context_switch
    (result, m', a') ← identity_map lib frame_to_virtual fa pml4t frame present m a
    expect_mapped result
    ok (m', a')
