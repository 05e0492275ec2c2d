-- ===== src/Buddy/Lowbit.antt =====
-- The lowest bit of a word, and the largest power of two in it.
use native.Mathlib.Nat.{pow-suc, mul-mod_left, mul-le-mul, le_refl}
use miniature_os.Base.{
  ℕ, zero, suc, ◌+◌, ◌-◌, ◌*◌, ◌^◌, ◌/◌, ◌%◌, ◌≤◌, ◌<◌, ◌≡◌, refl, ap, ◌∙◌, arith, bit_and,
}
use miniature_os.Base.{true, false, ok, not64, ltb, leb, lt→ltb, le→leb, ◌==◌, ne→==, u64_mod}
use miniature_os.Base.Bits.{bit_and_parts, bit_and_neg}
use miniature_os.Base.Pow.{pow_pos, pow_sub}
use native.Mathlib.Decide.{ℕ_discrete, dec_lt}
use miniature_os.Buddy.Region.{bits_loop, leading_zeros, previous_power_of_two, lowbit}

-- A positive number is an odd multiple of a power of two.
odd_part : (fuel x : ℕ) → 0 < x → x < fuel → (k : ℕ) × (q : ℕ) × (x ≡ (2 * q + 1) * 2 ^ k)
odd_part zero x pos h = absurd (omega arith)
odd_part (suc fuel) x pos h = elim (ℕ_discrete (x % 2) 0) [
  | no odd ↦ (0, x / 2, omega arith)
  | yes even ↦
      let (k, q, e) = odd_part fuel (x / 2) (omega arith) (omega arith) in
      (suc k, q, omega (arith, e, ap (λ (t : ℕ). (2 * q + 1) * t) (pow-suc 2 k)))
]

one_bit : (fuel : ℕ) → bits_loop (suc fuel) 1 ≡ 1
unfolding bits_loop
one_bit zero = refl
one_bit (suc fuel) = refl

-- The length in bits.
bits_loop_lem :
    (fuel n : ℕ)
    → 0 < n
    → n < 2 ^ fuel
    → (k : ℕ) × (bits_loop fuel n ≡ suc k) × (2 ^ k ≤ n) × (n < 2 ^ suc k) × (k < fuel)
unfolding bits_loop
bits_loop_lem zero n pos h = absurd (omega arith)
bits_loop_lem (suc fuel) n pos h = elim (ℕ_discrete n 1) [
  | yes one ↦ rw one (0, one_bit fuel, omega arith, omega arith, omega arith)
  | no more ↦
      let (k, e, low, high, lt) =
        bits_loop_lem fuel (n / 2) (omega arith) (omega (arith, pow-suc 2 fuel)) in
      let some_left : (n == 0) ≡ false = ne→== n 0 (omega arith) in
      (
        suc k,
        rw (some_left, e) (omega arith),
        omega (arith, pow-suc 2 k),
        omega (arith, pow-suc 2 (suc k)),
        omega arith,
      )
]

pub previous_power_of_two_lem :
    (n : ℕ)
    → 0 < n
    → n < u64_mod
    → (k : ℕ) × (previous_power_of_two n ≡ ok (2 ^ k)) × (2 ^ k ≤ n) × (k < 64)
unfolding previous_power_of_two leading_zeros
previous_power_of_two_lem n pos h =
    let (k, e, low, high, lt) = bits_loop_lem 64 n pos h in
    let count : 64 - (64 - suc k) ≡ suc k = omega arith in
    let one_more : leb 1 (suc k) ≡ true = le→leb _ _ (omega arith) in
    let back : suc k - 1 ≡ k = omega arith in (k, rw (e, count, one_more, back) refl, low, lt)

times_le : (a b k : ℕ) → a ≤ b → a * 2 ^ k ≤ b * 2 ^ k
times_le a b k h = mul-le-mul h (le_refl (2 ^ k))

low_zero : (a k : ℕ) → a * 2 ^ k ≡ a * 2 ^ k + 0
low_zero a k = omega arith

pow_lt : (k n : ℕ) → 2 ^ k < 2 ^ n → k < n
pow_lt k n h = elim (dec_lt k n) [
  | yes lt ↦ lt
  | no ge ↦
      let more : 1 * 2 ^ n ≤ 2 ^ (k - n) * 2 ^ n = mul-le-mul (pow_pos (k - n)) (le_refl (2 ^ n)) in
      absurd (omega (arith, pow_sub k n (omega arith), more))
]

-- The lowest bit of a positive word is a power of two that divides it.
pub lowbit_lem :
    (x : ℕ) → 0 < x → x < u64_mod → (k : ℕ) × (lowbit x ≡ ok (2 ^ k)) × (x % 2 ^ k ≡ 0) × (k < 64)
unfolding lowbit
lowbit_lem x pos h =
    let (k, q, e) = odd_part (suc x) x pos (omega arith) in
    let small : k < 64 = pow_lt k 64 (omega (arith, e, times_le 1 (2 * q + 1) k (omega arith))) in
    let next : 64 - k ≡ suc (63 - k) = omega arith in
    let split : 2 ^ 64 ≡ 2 * 2 ^ (63 - k) * 2 ^ k =
      pow_sub 64 k (omega arith)
      ∙ ap (λ (i : ℕ). 2 ^ i * 2 ^ k) next
      ∙ ap (λ (t : ℕ). t * 2 ^ k) (omega (arith, pow-suc 2 (63 - k))) in
    let y : ℕ = 2 * 2 ^ (63 - k) - (2 * q + 1) in
    let odd_lt : 2 * q + 1 < 2 * 2 ^ (63 - k) = elim (dec_lt (2 * q + 1) (2 * 2 ^ (63 - k))) [
      | yes lt ↦ lt
      | no ge ↦
          absurd (omega (arith, e, split, times_le (2 * 2 ^ (63 - k)) (2 * q + 1) k (omega arith)))
    ] in
    let sum : 2 * 2 ^ (63 - k) ≡ y + (2 * q + 1) = omega arith in
    let negated : not64 x + 1 ≡ y * 2 ^ k =
      omega (arith, e, split, ap (λ (t : ℕ). t * 2 ^ k) sum) in
    let fits : ltb (not64 x + 1) u64_mod ≡ true = lt→ltb _ _ (omega arith) in
    let positive : ltb 0 x ≡ true = lt→ltb _ _ pos in
    let both : bit_and x (not64 x + 1) ≡ 2 ^ k =
      ap (λ (t : ℕ). bit_and t (not64 x + 1)) (e ∙ low_zero (2 * q + 1) k)
      ∙ ap (bit_and ((2 * q + 1) * 2 ^ k + 0)) (negated ∙ low_zero y k)
      ∙ bit_and_parts k (2 * q + 1) y 0 0 (pow_pos k) (pow_pos k)
      ∙ ap (λ (t : ℕ). t * 2 ^ k + 0) (bit_and_neg (63 - k) q odd_lt)
      ∙ omega arith in
    (k, rw (positive, fits, both) refl, rw e (mul-mod_left (2 * q + 1) (2 ^ k)), small)
