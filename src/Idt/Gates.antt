-- ===== src/Idt/Gates.antt =====
-- The gates of the interrupt descriptor table, read as the processor reads them.
use miniature_os.Base.{
  ℕ, ◌+◌, ◌*◌, ◌/◌, ◌%◌, ◌^◌, ◌≤◌, ◌<◌, ◌≡◌, refl, arith, Bool, true, false, if◌then◌else◌,
}
use miniature_os.Base.{ok, u16_mod, u64_mod, lt→ltb}
use miniature_os.Paging.Crates.{BitCrates}
use miniature_os.Gdt.{PrivilegeLevel, ring0, ring1, ring2, ring3, ring_number}
use miniature_os.Idt.{
  InterruptDescriptor, missing, set_handler_function, set_present, disable_interrupts,
  set_privilege_level, set_interrupt_stack_index, default_options,
}

-- The two words of an entry in memory.
abbrev pub low_word : InterruptDescriptor → ℕ
low_word d =
    d.pointer_low + d.segment_selector * 2 ^ 16 + d.options * 2 ^ 32 + d.pointer_middle * 2 ^ 48

abbrev pub high_word : InterruptDescriptor → ℕ
high_word d = d.pointer_high + d.reserved * 2 ^ 32

-- The fields of a gate by the bits of its words.
abbrev pub IsGate : InterruptDescriptor → ℕ → ℕ → ℕ → ℕ → ℕ → Type 0
IsGate d handler cs ist kind level =
    (low_word d % 2 ^ 16 + low_word d / 2 ^ 48 * 2 ^ 16 + high_word d % 2 ^ 32 * 2 ^ 32 ≡ handler)
    × (low_word d / 2 ^ 16 % 2 ^ 16 ≡ cs)
    × (low_word d / 2 ^ 32 % 2 ^ 8 ≡ ist)
    × (low_word d / 2 ^ 40 % 2 ^ 5 ≡ kind)
    × (low_word d / 2 ^ 45 % 2 ^ 2 ≡ level)
    × (low_word d / 2 ^ 47 % 2 ≡ 1)

abbrev pub IsAbsent : InterruptDescriptor → Type 0
IsAbsent d = low_word d / 2 ^ 47 % 2 ≡ 0

ring_small : (level : PrivilegeLevel) → ring_number level < 4
ring_small ring0 = omega arith
ring_small ring1 = omega arith
ring_small ring2 = omega arith
ring_small ring3 = omega arith

pub fields-IsGate :
    (d : InterruptDescriptor) (handler cs ist kind level : ℕ)
    → handler < u64_mod
    → cs < u16_mod
    → ist < 2 ^ 8
    → kind < 2 ^ 5
    → level < 4
    → d.pointer_low ≡ handler % 2 ^ 16
    → d.pointer_middle ≡ handler / 2 ^ 16 % 2 ^ 16
    → d.pointer_high ≡ handler / 2 ^ 32 % 2 ^ 32
    → d.segment_selector ≡ cs
    → d.reserved ≡ 0
    → d.options ≡ ist + kind * 2 ^ 8 + level * 2 ^ 13 + 2 ^ 15
    → IsGate d handler cs ist kind level
fields-IsGate d handler cs ist kind level h1 h2 h3 h4 h5 e1 e2 e3 e4 e5 e6 = (
  omega (arith, e1, e2, e3, e4, e5, e6),
  omega (arith, e1, e2, e4, e6),
  omega (arith, e1, e2, e4, e6),
  omega (arith, e1, e2, e4, e6),
  omega (arith, e1, e2, e4, e6),
  omega (arith, e1, e2, e4, e6),
)

module _ (lib : BitCrates) where
  open lib use {set_bits_range, set_bit_on, set_bit_off}

  gate_kind : Bool → ℕ
  gate_kind disable = if disable then 0xe else 0xf

  pub present_options : set_present lib true default_options ≡ 0x8e00
  unfolding set_present
  present_options = omega (arith, set_bit_on default_options 15)

  disabled :
      (b : Bool) (o : ℕ) → o ≡ 0x8e00 → disable_interrupts lib b o ≡ gate_kind b * 2 ^ 8 + 2 ^ 15
  unfolding disable_interrupts gate_kind
  disabled true o e = omega (arith, e, set_bit_off o 8)
  disabled false o e = omega (arith, e, set_bit_on o 8)

  leveled :
      (level : PrivilegeLevel) (o kind : ℕ)
      → kind < 2 ^ 5
      → o ≡ kind * 2 ^ 8 + 2 ^ 15
      → set_privilege_level lib level o ≡ kind * 2 ^ 8 + ring_number level * 2 ^ 13 + 2 ^ 15
  unfolding set_privilege_level
  leveled level o kind small e =
      omega
        (arith, e, ring_small level, set_bits_range o 13 15 (ring_number level) (ring_small level))

  pub indexed :
      (index o rest : ℕ)
      → index ≤ 6
      → o ≡ rest * 2 ^ 8
      → set_interrupt_stack_index lib index o ≡ ok (index + 1 + rest * 2 ^ 8)
  unfolding set_interrupt_stack_index
  indexed index o rest h e =
      let fits : lib.set_bits o 0 3 (index + 1) ≡ index + 1 + rest * 2 ^ 8 =
        omega (arith, e, set_bits_range o 0 3 (index + 1) (omega arith)) in
      rw (lt→ltb (index + 1) 8 (omega arith), fits) refl

  -- For a handler, a code segment and a stack index of at most 6, the entry made by
  -- `set_handler_function` on a missing entry, with interrupts disabled or not, a privilege level
  -- and the stack index set, is a gate that the processor reads as it was meant: a
  -- present interrupt gate (0xe) or trap gate (0xf) of that level, that enters the handler in that
  -- code segment, on the stack with the number one above the index.
  pub set_handler_function-IsGate :
      (handler cs index : ℕ) (disable : Bool) (level : PrivilegeLevel)
      → handler < u64_mod
      → cs < u16_mod
      → index ≤ 6
      → (o : ℕ) × (set_interrupt_stack_index lib index (
            set_privilege_level lib level (
              disable_interrupts lib disable (set_handler_function lib cs handler missing).options))
          ≡ ok o)
        × IsGate
            (record (set_handler_function lib cs handler missing) { options = o })
            handler
            cs
            (index + 1)
            (if disable then 0xe else 0xf)
            (ring_number level)
  unfolding set_handler_function missing gate_kind
  set_handler_function-IsGate handler cs index disable level h1 h2 h3 =
      let kind : ℕ = gate_kind disable in
      let small : kind < 2 ^ 5 = ground arith in
      let e1 = disabled disable _ present_options in
      let e2 = leveled level _ kind small e1 in
      let e3 = indexed index _ (kind + ring_number level * 2 ^ 5 + 2 ^ 7) h3 (omega (arith, e2)) in
      (
        index + 1 + (kind + ring_number level * 2 ^ 5 + 2 ^ 7) * 2 ^ 8,
        e3,
        fields-IsGate _ handler cs (index + 1) kind (ring_number level) h1 h2 (omega arith) small
            (ring_small level) refl refl refl refl refl (omega arith),
      )
