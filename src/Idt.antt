-- ===== src/Idt.antt =====
-- The interrupt descriptor table (x86_64/src/idt.rs), and the one that the kernel builds
-- (kernel/src/interrupts/mod.rs).
pub mod Gates
pub mod Kernel
use miniature_os.Base.{ℕ, ◌+◌, ◌%◌, List, [], ◌∷◌, Bool, true, not}
use miniature_os.Base.{Run, ok, panic, ◌>>=◌, ltb, ◌==◌, if◌then◌else◌}
use miniature_os.Base.{u16_mod, u32_mod, ◌<<<◌, ◌>>>◌}
use miniature_os.Paging.Crates.{BitCrates}
use miniature_os.Gdt.{PrivilegeLevel, ring0, ring_number, selector}

-- `InterruptDescriptorOptions::default`.
abbrev pub default_options : ℕ
default_options = 0xe <<< 8

pub record InterruptDescriptor : Type 0 where
  pub pointer_low : ℕ
  pub segment_selector : ℕ
  pub options : ℕ
  pub pointer_middle : ℕ
  pub pointer_high : ℕ
  pub reserved : ℕ

unfoldable pub missing : InterruptDescriptor
missing = record {
  pointer_low = 0;
  segment_selector = selector 0 ring0;
  options = default_options;
  pointer_middle = 0;
  pointer_high = 0;
  reserved = 0;
}

-- The fields of the table are its entries, in the order of their vectors.
abbrev pub InterruptDescriptorTable : Type 0
InterruptDescriptorTable = ℕ → InterruptDescriptor

abbrev pub default_table : InterruptDescriptorTable
default_table vector = missing

abbrev pub set_entry : ℕ → InterruptDescriptor → InterruptDescriptorTable → InterruptDescriptorTable
set_entry at descriptor table vector = if vector == at then descriptor else table vector

-- The vectors of the fields that the kernel sets to a handler alone; the last two are the first of
-- `interrupts`. The double fault, whose field is apart from theirs, comes last in `idt`.
abbrev pub handled : List ℕ
handled = 0 ∷ 1 ∷ 2 ∷ 3 ∷ 6 ∷ 7 ∷ 10 ∷ 11 ∷ 12 ∷ 14 ∷ 17 ∷ 32 ∷ 33 ∷ []

abbrev pub double_fault : ℕ
double_fault = 8

-- `DOUBLE_FAULT_IST_IDX`.
abbrev pub double_fault_ist_idx : ℕ
double_fault_ist_idx = 0

module _ (lib : BitCrates) where
  unfoldable pub set_present : Bool → ℕ → ℕ
  set_present present options = lib.set_bit options 15 present

  unfoldable pub disable_interrupts : Bool → ℕ → ℕ
  disable_interrupts disable options = lib.set_bit options 8 (not disable)

  unfoldable pub set_privilege_level : PrivilegeLevel → ℕ → ℕ
  set_privilege_level level options = lib.set_bits options 13 15 (ring_number level)

  -- `set_bits` panics when the value does not fit.
  unfoldable pub set_interrupt_stack_index : ℕ → ℕ → Run ℕ
  set_interrupt_stack_index index options =
      if ltb (index + 1) 8 then ok (lib.set_bits options 0 3 (index + 1)) else panic

  -- `cs` is what `CS::read` returns.
  unfoldable pub set_handler_function : ℕ → ℕ → InterruptDescriptor → InterruptDescriptor
  set_handler_function cs handler descriptor = record descriptor {
    pointer_low = handler % u16_mod;
    pointer_middle = (handler >>> 16) % u16_mod;
    pointer_high = (handler >>> 32) % u32_mod;
    segment_selector = cs;
    options = set_present true descriptor.options;
  }

  -- The addresses of the handlers are in `handlers`, by vector.
  unfoldable pub set_handlers :
      ℕ → (ℕ → ℕ) → List ℕ → InterruptDescriptorTable → InterruptDescriptorTable
  set_handlers cs handlers [] table = table
  set_handlers cs handlers (vector ∷ vectors) table =
      set_handlers cs handlers vectors
        (set_entry vector (set_handler_function cs (handlers vector) (table vector)) table)

  unfoldable pub idt : ℕ → (ℕ → ℕ) → Run InterruptDescriptorTable
  idt cs handlers = do
    let table = set_handlers cs handlers handled default_table
    let descriptor = set_handler_function cs (handlers double_fault) (table double_fault)
    options ← set_interrupt_stack_index double_fault_ist_idx descriptor.options
    ok (set_entry double_fault (record descriptor { options = options }) table)
