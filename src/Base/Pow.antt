-- ===== src/Base/Pow.antt =====
-- Powers of two, and masks that clear low bits.
use Prim.Native.Nat.{ℕ, zero, suc, ◌+◌, ◌-◌, ◌*◌, ◌/◌, ◌%◌, ◌^◌, ◌≤◌, ◌<◌, bit_and}
use mathlib.Core.Path.{◌≡◌, ap, sym, ◌∙◌}
use native.Mathlib.Omega.{arith}
use native.Mathlib.Nat.{pow-suc, one-le-pow, div-add-mod', div-lt_iff_lt-mul, mod-eq_of_lt}
use miniature_os.Base.Bits.{bit_and_parts, bit_and_mask, bit_and-zero}

pub pow_pos : (k : ℕ) → 1 ≤ 2 ^ k
pow_pos k = one-le-pow k 2 (omega arith)

pub pow_add : (m k : ℕ) → 2 ^ (m + k) ≡ 2 ^ m * 2 ^ k
pow_add m zero = let e : m + 0 ≡ m = omega arith in rw e (omega arith)
pow_add m (suc k) =
    let e : m + suc k ≡ suc (m + k) = omega arith in
    rw e (
      omega (
        arith,
        pow-suc 2 (m + k),
        pow-suc 2 k,
        ap (λ (t : ℕ). t * 2) (pow_add m k),
        ap (λ (t : ℕ). 2 ^ m * t) (pow-suc 2 k),
      ))

pub pow_sub : (n k : ℕ) → k ≤ n → 2 ^ n ≡ 2 ^ (n - k) * 2 ^ k
pow_sub n k h = let e : n ≡ n - k + k = omega arith in ap (λ j. 2 ^ j) e ∙ pow_add (n - k) k

-- `x & !(2^k - 1)` on a word of `n` bits clears the low `k` bits.
pub clear_low :
    (n k x : ℕ) → k ≤ n → x < 2 ^ n → bit_and x (2 ^ n - 1 - (2 ^ k - 1)) ≡ x / 2 ^ k * 2 ^ k
clear_low n k x h lt =
    ap (bit_and x) mask
    ∙ ap (λ y. bit_and y (high * 2 ^ k + 0)) (sym (div-add-mod' x (2 ^ k)))
    ∙ bit_and_parts k (x / 2 ^ k) high (x % 2 ^ k) 0 (omega (arith, pow_pos k)) (pow_pos k)
    ∙ omega (
      arith,
      bit_and-zero (x % 2 ^ k),
      ap (λ (t : ℕ). t * 2 ^ k) (bit_and_mask (n - k) (x / 2 ^ k) ∙ mod-eq_of_lt small),
    )
  where
    high : ℕ
    high = 2 ^ (n - k) - 1

    split : 2 ^ n ≡ 2 ^ (n - k) * 2 ^ k
    split = pow_sub n k h

    whole : 2 ^ (n - k) ≡ high + 1
    whole = omega (arith, pow_pos (n - k))

    mask : 2 ^ n - 1 - (2 ^ k - 1) ≡ high * 2 ^ k + 0
    mask = omega (arith, split, pow_pos k, pow_pos (n - k), ap (λ (t : ℕ). t * 2 ^ k) whole)

    small : x / 2 ^ k < 2 ^ (n - k)
    small = (div-lt_iff_lt-mul (pow_pos k)).1 (rw (← split) lt)
