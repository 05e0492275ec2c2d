-- ===== src/Idt/Kernel.antt =====
-- The interrupt descriptor table that the kernel builds.
use miniature_os.Base.{
  ℕ, suc, ◌+◌, ◌*◌, ◌^◌, ◌≤◌, ◌<◌, ◌≡◌, ◌≢◌, ◌⊎◌, inl, inr, refl, ap, ◌∙◌, arith, true,
}
use miniature_os.Base.{ok, List, [], ◌∷◌, u16_mod, u64_mod}
use miniature_os.Paging.Crates.{BitCrates}
use miniature_os.Gdt.{selector}
use miniature_os.Idt.{
  InterruptDescriptor, InterruptDescriptorTable, missing, set_handler_function, set_present,
  set_handlers, set_entry, handled, double_fault, idt, default_table, double_fault_ist_idx,
}
use miniature_os.Idt.Gates.{IsGate, IsAbsent, fields-IsGate, present_options, indexed}

abbrev pub IsIn : ℕ → List ℕ → Type 0
IsIn v [] = ⊥
IsIn v (x ∷ xs) = (v ≡ x) ⊎ IsIn v xs

-- The vectors of a list grow, from `low` on.
abbrev IsIncreasing : ℕ → List ℕ → Type 0
IsIncreasing low [] = Unit
IsIncreasing low (x ∷ xs) = (low ≤ x) × IsIncreasing (suc x) xs

in-IsIncreasing : (low v : ℕ) (xs : List ℕ) → IsIncreasing low xs → IsIn v xs → low ≤ v
in-IsIncreasing low v [] grows here = absurd here
in-IsIncreasing low v (x ∷ xs) (le, grows) (inl e) = omega (arith, le, e)
in-IsIncreasing low v (x ∷ xs) (le, grows) (inr later) =
    let more = in-IsIncreasing (suc x) v xs grows later in omega (arith, le, more)

set_entry_here :
    (v : ℕ) (d : InterruptDescriptor) (t : InterruptDescriptorTable) → set_entry v d t v ≡ d
set_entry_here v d t = ground arith

set_entry_beside :
    (v at : ℕ) (d : InterruptDescriptor) (t : InterruptDescriptorTable)
    → v ≢ at
    → set_entry at d t v ≡ t v
set_entry_beside v at d t ne = ground arith

module _ (lib : BitCrates) (cs : ℕ) (handlers : ℕ → ℕ) where
  abbrev entry : ℕ → InterruptDescriptor
  entry v = set_handler_function lib cs (handlers v) missing

  set_handlers-beside :
      (v : ℕ) (xs : List ℕ) (t : InterruptDescriptorTable)
      → ¬ IsIn v xs
      → set_handlers lib cs handlers xs t v ≡ t v
  unfolding set_handlers
  set_handlers-beside v [] t out = refl
  set_handlers-beside v (x ∷ xs) t out =
      set_handlers-beside v xs _ (λ later. out (inr later))
      ∙ set_entry_beside v x _ t (λ e. out (inl e))

  set_handlers-there :
      (low v : ℕ) (xs : List ℕ) (t : InterruptDescriptorTable)
      → IsIncreasing low xs
      → ((w : ℕ) → low ≤ w → t w ≡ missing)
      → IsIn v xs
      → set_handlers lib cs handlers xs t v ≡ entry v
  unfolding set_handlers
  set_handlers-there low v [] t grows empty here = absurd here
  set_handlers-there low v (x ∷ xs) t (le, grows) empty (inl e) =
      set_handlers-beside v xs _
        (λ later. (let more = in-IsIncreasing (suc x) v xs grows later in omega (arith, e, more)))
      ∙ rw e (set_entry_here x _ t ∙ ap (set_handler_function lib cs (handlers x)) (empty x le))
  set_handlers-there low v (x ∷ xs) t (le, grows) empty (inr later) =
      set_handlers-there (suc x) v xs _ grows
        (λ w above. set_entry_beside w x _ t (omega arith) ∙ empty w (omega arith)) later

  handled-IsIncreasing : IsIncreasing 0 handled
  handled-IsIncreasing = (
    omega arith,
    (
      omega arith,
      (
        omega arith,
        (
          omega arith,
          (
            omega arith,
            (
              omega arith,
              (
                omega arith,
                (
                  omega arith,
                  (omega arith, (omega arith, (omega arith, (omega arith, (omega arith, tt))))),
                ),
              ),
            ),
          ),
        ),
      ),
    ),
  )

  no_double_fault : ¬ IsIn double_fault handled
  no_double_fault here = ground arith

  missing-IsAbsent : IsAbsent missing
  unfolding missing selector
  missing-IsAbsent = refl

  -- With handlers at 64-bit addresses and a code segment, the table of the kernel is built, and
  -- the processor finds in it: for the double fault a gate to its handler on the first stack of
  -- the interrupt stack table; for each other vector that the kernel handles an interrupt gate
  -- of ring 0 to its handler that keeps the stack; and for all others nothing.
  pub idt-gates :
      ((v : ℕ) → handlers v < u64_mod)
      → cs < u16_mod
      → (t : InterruptDescriptorTable) × (idt lib cs handlers ≡ ok t)
        × IsGate (t double_fault) (handlers double_fault) cs 1 0xe 0
        × ((v : ℕ) → IsIn v handled → IsGate (t v) (handlers v) cs 0 0xe 0)
        × ((v : ℕ) → v ≢ double_fault → ¬ IsIn v handled → IsAbsent (t v))
  unfolding idt set_handler_function missing
  idt-gates small code =
      let table = set_handlers lib cs handlers handled default_table in
      let before : table double_fault ≡ missing =
        set_handlers-beside double_fault handled default_table no_double_fault in
      let start : set_present lib true (table double_fault).options ≡ 0x8e00 =
        rw before (present_options lib) in
      let index = indexed lib double_fault_ist_idx _ 0x8e (omega arith) start in
      let descriptor = set_handler_function lib cs (handlers double_fault) (table double_fault) in
      let final = record descriptor { options = 1 + 0x8e * 2 ^ 8 } in
      let last = set_entry double_fault final table in
      (
        last,
        rw index refl,
        fields-IsGate final (handlers double_fault) cs 1 0xe 0 (small double_fault) code
            (omega arith) (omega arith) (omega arith) refl refl refl refl
            (ap (λ (d : InterruptDescriptor). d.reserved) before) refl,
        (λ v here.
            let ne : v ≢ double_fault = λ e. no_double_fault (rw e at here) in
            let same : last v ≡ entry v =
              set_entry_beside v double_fault final table ne
              ∙ set_handlers-there 0 v handled default_table handled-IsIncreasing (λ w le. refl)
                  here in
            rw same (
              fields-IsGate (entry v) (handlers v) cs 0 0xe 0 (small v) code (omega arith)
                (omega arith) (omega arith) refl refl refl refl refl
                (omega (arith, present_options lib)))),
        λ v ne out.
            let same : last v ≡ missing =
              set_entry_beside v double_fault final table ne
              ∙ set_handlers-beside v handled default_table out in
            rw same missing-IsAbsent,
      )
