-- ===== src/Tests/Tables.antt =====
-- Descriptor tables at concrete inputs.
use miniature_os.Base.{
  ℕ, ◌+◌, ◌-◌, ◌*◌, ◌/◌, ◌%◌, ◌^◌, ◌<◌, ◌≡◌, refl, arith, ok, panic, get_or, false, ◌≢◌, ◌∷◌,
  replicate,
}
use miniature_os.Paging.Crates.{plain_bits}
use miniature_os.Gdt.{SegmentDescriptor, system, new_tss_segment, GlobalDescriptorTable, add_entry}
use miniature_os.Gdt.{low_value, tss_size, tss_available}
use miniature_os.Gdt.{ring3}
use miniature_os.Idt.{
  InterruptDescriptorTable, missing, set_handler_function, disable_interrupts, set_privilege_level,
  set_interrupt_stack_index, handled, double_fault, idt,
}
use miniature_os.Idt.Gates.{IsGate, IsAbsent, set_handler_function-IsGate}
use miniature_os.Idt.Kernel.{IsIn, idt-gates}
use miniature_os.Gdt.Fields.{
  base_field, limit_field, access_field, flags_field, new_tss_segment_lem,
}
use miniature_os.Gdt.Table.{IsTable, Stands, words, add_entry_lem, add_entry-full}

-- The table of the kernel with its code and data segments.
abbrev gdt : GlobalDescriptorTable
gdt = record { entries = 0 ∷ 0x00af9b000000ffff ∷ 0x00af93000000ffff ∷ replicate 5 0; size = 3 }

abbrev last_free : GlobalDescriptorTable
last_free = record { entries = replicate 8 0; size = 7 }

abbrev tss : SegmentDescriptor
tss = system 0x0000890010000067 0x12

new_tss_segment_lem_example :
    (low : ℕ) × (high : ℕ) × (new_tss_segment plain_bits 0x123456789abc ≡ system low high)
    × (base_field low + high * 2 ^ 32 ≡ 0x123456789abc)
    × (limit_field low ≡ tss_size - 1)
    × (access_field low ≡ 0x80 + tss_available)
    × (flags_field low ≡ 0)
new_tss_segment_lem_example = new_tss_segment_lem plain_bits 0x123456789abc (omega arith)

add_entry_lem_example :
    (after : GlobalDescriptorTable) × (add_entry gdt tss
      ≡ ok (3 * 8 + low_value tss / 2 ^ 45 % 4, after))
    × IsTable after
    × (after.size ≡ 3 + words tss)
    × Stands after 3 tss
    × ((i : ℕ) → i < 3 → get_or after.entries i 0 ≡ get_or gdt.entries i 0)
add_entry_lem_example =
    add_entry_lem gdt tss (record { eight = refl; null = omega arith; in_table = omega arith })
      (omega arith)

add_entry-full_example : add_entry last_free tss ≡ panic
add_entry-full_example =
    add_entry-full last_free tss
      (record { eight = refl; null = omega arith; in_table = omega arith }) (omega arith)

abbrev handlers : ℕ → ℕ
handlers vector = 0xffffffff80010000 + vector % 256 * 16

set_handler_function-IsGate_example :
    (o : ℕ) × (set_interrupt_stack_index plain_bits 2 (
        set_privilege_level plain_bits ring3 (
          disable_interrupts plain_bits false
            (set_handler_function plain_bits 16 0xffffffff80012340 missing).options))
      ≡ ok o)
    × IsGate
        (record (set_handler_function plain_bits 16 0xffffffff80012340 missing) { options = o })
        0xffffffff80012340
        16
        3
        0xf
        3
set_handler_function-IsGate_example =
    set_handler_function-IsGate plain_bits 0xffffffff80012340 16 2 false ring3 (omega arith)
      (omega arith) (omega arith)

idt-gates_example :
    (t : InterruptDescriptorTable) × (idt plain_bits 16 handlers ≡ ok t)
    × IsGate (t double_fault) (handlers double_fault) 16 1 0xe 0
    × ((v : ℕ) → IsIn v handled → IsGate (t v) (handlers v) 16 0 0xe 0)
    × ((v : ℕ) → v ≢ double_fault → ¬ IsIn v handled → IsAbsent (t v))
idt-gates_example = idt-gates plain_bits 16 handlers (λ v. omega arith) (omega arith)
