-- ===== src/Base/Bits/Step.antt =====
-- One equation for the lowest digit of each native bit operation.
use Prim.Native.Nat.{ℕ, zero, suc, ◌+◌, ◌*◌, ◌/◌, ◌%◌, ◌≤◌, ◌<◌, min, max, differ, digits, bitwise}
use Prim.Native.Nat.{bit_and, bit_or, bit_xor, bit_and-bitwise, bit_or-bitwise, bit_xor-bitwise}
use mathlib.Core.Path.{◌≡◌, refl}
use native.Mathlib.Nat.{le_refl}
use native.Mathlib.Omega.{arith}

-- The recursion takes as many rounds as it is given digits; more make no difference.
module _ (rest : ℕ → ℕ) (digit : ℕ → ℕ → ℕ) where
  rounds_enough : (i j x y : ℕ) → x ≤ i → x ≤ j → digits rest digit i x y ≡ digits rest digit j x y
  rounds_enough (suc i) (suc j) (suc x) y hi hj =
      rw (rounds_enough i j (suc x / 2) (y / 2) (omega arith) (omega arith))
  rounds_enough zero zero zero y hi hj = refl
  rounds_enough (suc i) (suc j) zero y hi hj = refl
  rounds_enough zero (suc j) zero y hi hj = refl
  rounds_enough (suc i) zero zero y hi hj = refl
  rounds_enough zero j (suc x) y hi hj = absurd (omega arith)
  rounds_enough (suc i) zero (suc x) y hi hj = absurd (omega arith)

  lowest_digit :
      (x y : ℕ)
      → bitwise rest digit (suc x) y
        ≡ bitwise rest digit (suc x / 2) (y / 2) * 2 + digit (suc x % 2) (y % 2)
  lowest_digit x y =
      let same = rounds_enough x (suc x / 2) (suc x / 2) (y / 2) (omega arith) (le_refl _) in
      omega (arith, same)

differ-digits : (x y : ℕ) → x < 2 → y < 2 → differ x y ≡ (x + y) % 2
differ-digits zero zero p q = refl
differ-digits zero (suc zero) p q = refl
differ-digits (suc zero) zero p q = refl
differ-digits (suc zero) (suc zero) p q = refl
differ-digits zero (suc (suc y)) p q = absurd (omega arith)
differ-digits (suc zero) (suc (suc y)) p q = absurd (omega arith)
differ-digits (suc (suc x)) y p q = absurd (omega arith)

pub bit_and_step : (x y : ℕ) → bit_and x y ≡ bit_and (x / 2) (y / 2) * 2 + min (x % 2) (y % 2)
bit_and_step (suc x) y = simp bit_and-bitwise (lowest_digit (λ d. 0) min x y)
bit_and_step zero y = simp bit_and-bitwise (omega arith)

pub bit_xor_step : (x y : ℕ) → bit_xor x y ≡ bit_xor (x / 2) (y / 2) * 2 + (x + y) % 2
bit_xor_step zero y = simp bit_xor-bitwise (omega arith)
bit_xor_step (suc x) y = simp bit_xor-bitwise (
    omega (
      arith,
      lowest_digit (λ d. d) differ x y,
      differ-digits (suc x % 2) (y % 2) (omega arith) (omega arith),
    ))

pub bit_or_step : (x y : ℕ) → bit_or x y ≡ bit_or (x / 2) (y / 2) * 2 + max (x % 2) (y % 2)
bit_or_step (suc x) y = simp bit_or-bitwise (lowest_digit (λ d. d) max x y)
bit_or_step zero y = simp bit_or-bitwise (omega arith)
