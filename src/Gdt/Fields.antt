-- ===== src/Gdt/Fields.antt =====
-- The fields of a segment descriptor, read as the processor reads them.
use miniature_os.Base.{ℕ, ◌+◌, ◌-◌, ◌*◌, ◌/◌, ◌%◌, ◌^◌, ◌<◌, ◌≡◌, refl, arith}
use miniature_os.Base.{u64_mod}
use miniature_os.Paging.Crates.{BitCrates}
use miniature_os.Gdt.{system, new_tss_segment, present}
use miniature_os.Gdt.{tss_size, tss_available}

abbrev pub limit_field : ℕ → ℕ
limit_field low = low % 2 ^ 16 + low / 2 ^ 48 % 2 ^ 4 * 2 ^ 16

abbrev pub base_field : ℕ → ℕ
base_field low = low / 2 ^ 16 % 2 ^ 24 + low / 2 ^ 56 * 2 ^ 24

-- Access byte and flags: the bits 40 to 47 and 52 to 55.
abbrev pub access_field : ℕ → ℕ
access_field low = low / 2 ^ 40 % 2 ^ 8

abbrev pub flags_field : ℕ → ℕ
flags_field low = low / 2 ^ 52 % 2 ^ 4

module _ (lib : BitCrates) where
  open lib use {get_bits, get_bits_range, set_bits, set_bits_range}

  -- The descriptor of a TSS names it: the base in its three fields is the address of the TSS, the
  -- limit is the size of a TSS less one, and it is present, of ring 0, of the type of an available
  -- TSS, with a limit in bytes.
  pub new_tss_segment_lem :
      (ptr : ℕ)
      → ptr < u64_mod
      → (low : ℕ) × (high : ℕ) × (new_tss_segment lib ptr ≡ system low high)
        × (base_field low + high * 2 ^ 32 ≡ ptr)
        × (limit_field low ≡ tss_size - 1)
        × (access_field low ≡ 0x80 + tss_available)
        × (flags_field low ≡ 0)
  unfolding new_tss_segment
  new_tss_segment_lem ptr h =
      let x = get_bits ptr 0 24 in
      let y = get_bits ptr 24 32 in
      let z = get_bits ptr 32 64 in
      let xe : x ≡ ptr % 2 ^ 24 = omega (arith, get_bits_range ptr 0 24) in
      let ye : y ≡ ptr / 2 ^ 24 % 2 ^ 8 = omega (arith, get_bits_range ptr 24 32) in
      let ze : z ≡ ptr / 2 ^ 32 = omega (arith, get_bits_range ptr 32 64) in
      let v1 = set_bits present 16 40 x in
      let e1 : v1 ≡ 2 ^ 47 + x * 2 ^ 16 =
        omega (arith, set_bits_range present 16 40 x (omega (arith, xe))) in
      let v2 = set_bits v1 56 64 y in
      let e2 : v2 ≡ y * 2 ^ 56 + 2 ^ 47 + x * 2 ^ 16 =
        omega (arith, e1, xe, set_bits_range v1 56 64 y (omega (arith, ye))) in
      let v3 = set_bits v2 0 16 (tss_size - 1) in
      let e3 : v3 ≡ y * 2 ^ 56 + 2 ^ 47 + x * 2 ^ 16 + (tss_size - 1) =
        omega (arith, e2, set_bits_range v2 0 16 (tss_size - 1) (omega arith)) in
      let v4 = set_bits v3 40 44 tss_available in
      let e4 : v4 ≡ y * 2 ^ 56 + 2 ^ 47 + tss_available * 2 ^ 40 + x * 2 ^ 16 + (tss_size - 1) =
        omega (arith, e3, xe, set_bits_range v3 40 44 tss_available (omega arith)) in
      let high = set_bits 0 0 32 z in
      let e5 : high ≡ z = omega (arith, set_bits_range 0 0 32 z (omega (arith, ze))) in
      let base : base_field v4 ≡ x + y * 2 ^ 24 = omega (arith, e4, xe) in
      (
        v4,
        high,
        refl,
        omega (arith, base, e5, xe, ye, ze),
        omega (arith, e4, xe),
        omega (arith, e4, xe),
        omega (arith, e4, xe),
      )
