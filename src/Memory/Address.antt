-- ===== src/Memory/Address.antt =====
-- `PhysicalAddress` and `VirtualAddress`: both are a `u64`, with the same operations.
use miniature_os.Base.{ℕ, ◌+◌, ◌-◌, ◌*◌, ◌/◌, ◌%◌, ◌^◌, ◌<◌, ◌≤◌, ◌≡◌, ap, arith}
use miniature_os.Base.{Bool, Run, ok, ◌>>=◌, add64, sub, not64, u64_mod, ◌==◌, bit_and}
use miniature_os.Base.{lt→ltb, le→leb}
use miniature_os.Base.Pow.{clear_low, pow_pos}
use native.Mathlib.Nat.{div-add-mod', mod-lt, mul-mod_left}

abbrev pub PhysicalAddress : Type 0
PhysicalAddress = ℕ

abbrev pub VirtualAddress : Type 0
VirtualAddress = ℕ

-- `self.0 & (align - 1) == 0`.
pub is_aligned : VirtualAddress → ℕ → Run Bool
is_aligned address align = do mask ← sub align 1; ok (bit_and address mask == 0)

-- `self.0 & !(align - 1)`.
unfoldable pub align_down : ℕ → ℕ → Run ℕ
align_down address align = do mask ← sub align 1; ok (bit_and address (not64 mask))

-- `(self.0 + align - 1) & !(align - 1)`.
unfoldable pub align_up : ℕ → ℕ → Run ℕ
align_up address align = do
  sum ← add64 address align
  top ← sub sum 1
  mask ← sub align 1
  ok (bit_and top (not64 mask))

-- `Sub` between addresses, and of an offset: a checked subtraction.
unfoldable pub sub_address : ℕ → ℕ → Run ℕ
sub_address a b = sub a b

-- For a power of two `align`, the largest multiple of it up to the address; no panic.
pub align_down_lem :
    (k address : ℕ)
    → k < 64
    → address < u64_mod
    → align_down address (2 ^ k) ≡ ok (address / 2 ^ k * 2 ^ k)
unfolding align_down
align_down_lem k address h lt =
    rw (le→leb 1 (2 ^ k) (pow_pos k)) (ap ok (clear_low 64 k address (omega arith) lt))

-- For a power of two `align` that the address can be moved up by in 64 bits, the result is the
-- multiple of `align` that is at least the address and less than `align` above it.
pub align_up_lem :
    (k address : ℕ)
    → k < 64
    → address + 2 ^ k < u64_mod
    → (r : ℕ) × (align_up address (2 ^ k) ≡ ok r)
      × (r % 2 ^ k ≡ 0)
      × (address ≤ r)
      × (r < address + 2 ^ k)
unfolding align_up
align_up_lem k address h lt = (
  top / 2 ^ k * 2 ^ k,
  rw
      (
        lt→ltb (address + 2 ^ k) u64_mod lt,
        le→leb 1 (address + 2 ^ k) (omega (arith, pos)),
        le→leb 1 (2 ^ k) pos,
      )
      (ap ok (clear_low 64 k top (omega arith) (omega arith))),
  mul-mod_left (top / 2 ^ k) (2 ^ k),
  omega (arith, pos, div-add-mod' top (2 ^ k), mod-lt top pos),
  omega (arith, pos, div-add-mod' top (2 ^ k)),
)
  where
    pos : 1 ≤ 2 ^ k
    pos = pow_pos k

    top : ℕ
    top = address + 2 ^ k - 1
