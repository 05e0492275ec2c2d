-- ===== src/Base/Bits.antt =====
-- `&`, `|` and `^` at variables: a shifted part and a low part go their own ways.
mod Step
use Prim.Native.Nat.{ℕ, zero, suc, ◌+◌, ◌-◌, ◌*◌, ◌/◌, ◌%◌, ◌^◌, ◌≤◌, ◌<◌, min, max}
use Prim.Native.Nat.{bit_and, bit_or, bit_xor, bit_and-bitwise, bit_or-bitwise}
use mathlib.Core.Path.{◌≡◌, refl, ap, ◌∙◌}
use mathlib.Core.Logic.{◌⊎◌, inl, inr}
use mathlib.Core.WellFounded
use native.Mathlib.Omega.{arith}
use native.Mathlib.Nat.{pow-suc, one-le-pow}
use miniature_os.Base.Order.{lt_wf}
use Step.{bit_or_step, bit_and_step, bit_xor_step}

-- The halves of a number with a part above bit `k + 1`.
pow_step : (x k : ℕ) → x * 2 ^ suc k ≡ 2 * (x * 2 ^ k)
pow_step x k = omega (arith, ap (λ (t : ℕ). x * t) (pow-suc 2 k))

module _ (k x y a b : ℕ) (ha : a < 2 ^ suc k) (hb : b < 2 ^ suc k) where
  half_left : (x * 2 ^ suc k + a) / 2 ≡ x * 2 ^ k + a / 2
  half_left = omega (arith, pow_step x k)

  half_right : (y * 2 ^ suc k + b) / 2 ≡ y * 2 ^ k + b / 2
  half_right = omega (arith, pow_step y k)

  low_left : (x * 2 ^ suc k + a) % 2 ≡ a % 2
  low_left = omega (arith, pow_step x k)

  low_right : (y * 2 ^ suc k + b) % 2 ≡ b % 2
  low_right = omega (arith, pow_step y k)

pub bit_or_parts :
    (k x y a b : ℕ)
    → a < 2 ^ k
    → b < 2 ^ k
    → bit_or (x * 2 ^ k + a) (y * 2 ^ k + b) ≡ bit_or x y * 2 ^ k + bit_or a b
bit_or_parts zero x y zero zero ha hb = ground arith
bit_or_parts zero x y (suc a) b ha hb = absurd (omega arith)
bit_or_parts zero x y zero (suc b) ha hb = absurd (omega arith)
bit_or_parts (suc k) x y a b ha hb = ground (
  arith,
  bit_or_step (x * 2 ^ suc k + a) (y * 2 ^ suc k + b),
  half_left k x y a b ha hb,
  half_right k x y a b ha hb,
  low_left k x y a b ha hb,
  low_right k x y a b ha hb,
  pow-suc 2 k,
  bit_or_parts k x y (a / 2) (b / 2) (omega (arith, pow-suc 2 k)) (omega (arith, pow-suc 2 k)),
  bit_or_step a b,
  pow_step (bit_or x y) k,
)

pub bit_and_parts :
    (k x y a b : ℕ)
    → a < 2 ^ k
    → b < 2 ^ k
    → bit_and (x * 2 ^ k + a) (y * 2 ^ k + b) ≡ bit_and x y * 2 ^ k + bit_and a b
bit_and_parts zero x y zero zero ha hb = ground arith
bit_and_parts zero x y (suc a) b ha hb = absurd (omega arith)
bit_and_parts zero x y zero (suc b) ha hb = absurd (omega arith)
bit_and_parts (suc k) x y a b ha hb = ground (
  arith,
  bit_and_step (x * 2 ^ suc k + a) (y * 2 ^ suc k + b),
  half_left k x y a b ha hb,
  half_right k x y a b ha hb,
  low_left k x y a b ha hb,
  low_right k x y a b ha hb,
  bit_and_parts k x y (a / 2) (b / 2) (omega (arith, pow-suc 2 k)) (omega (arith, pow-suc 2 k)),
  bit_and_step a b,
  pow_step (bit_and x y) k,
)

pub bit_xor_parts :
    (k x y a b : ℕ)
    → a < 2 ^ k
    → b < 2 ^ k
    → bit_xor (x * 2 ^ k + a) (y * 2 ^ k + b) ≡ bit_xor x y * 2 ^ k + bit_xor a b
bit_xor_parts zero x y zero zero ha hb = ground arith
bit_xor_parts zero x y (suc a) b ha hb = absurd (omega arith)
bit_xor_parts zero x y zero (suc b) ha hb = absurd (omega arith)
bit_xor_parts (suc k) x y a b ha hb = ground (
  arith,
  bit_xor_step (x * 2 ^ suc k + a) (y * 2 ^ suc k + b),
  half_left k x y a b ha hb,
  half_right k x y a b ha hb,
  low_left k x y a b ha hb,
  low_right k x y a b ha hb,
  bit_xor_parts k x y (a / 2) (b / 2) (omega (arith, pow-suc 2 k)) (omega (arith, pow-suc 2 k)),
  bit_xor_step a b,
  pow_step (bit_xor x y) k,
)

-- What holds of zero, and of a positive number if it holds of its half, holds of all numbers.
by_halves : (P : ℕ → Type 0) → P 0 → ((n : ℕ) → P (suc n / 2) → P (suc n)) → (a : ℕ) → P a
by_halves P base half a = WellFounded.induction lt_wf {C = P} a from_below
  where
    from_below : (n : ℕ) → ((m : ℕ) → m < n → P m) → P n
    from_below zero below = base
    from_below (suc n) below = half n (below (suc n / 2) (omega arith))

pub bit_or-zero : (a : ℕ) → bit_or a 0 ≡ a
bit_or-zero =
    by_halves (λ n. bit_or n 0 ≡ n) refl (λ n half. omega (arith, bit_or_step (suc n) 0, half))

pub bit_and-zero : (a : ℕ) → bit_and a 0 ≡ 0
bit_and-zero =
    by_halves (λ n. bit_and n 0 ≡ 0) refl (λ n half. omega (arith, bit_and_step (suc n) 0, half))

pub bit_xor-zero : (a : ℕ) → bit_xor a 0 ≡ a
bit_xor-zero =
    by_halves (λ n. bit_xor n 0 ≡ n) refl (λ n half. omega (arith, bit_xor_step (suc n) 0, half))

pub zero-bit_and : (a : ℕ) → bit_and 0 a ≡ 0
zero-bit_and a = bit_and-bitwise 0 a

pub zero-bit_or : (a : ℕ) → bit_or 0 a ≡ a
zero-bit_or a = bit_or-bitwise 0 a

pub bit_and_self : (a : ℕ) → bit_and a a ≡ a
bit_and_self =
    by_halves (λ n. bit_and n n ≡ n) refl
      (λ n half. omega (arith, bit_and_step (suc n) (suc n), half))

-- `|` of a field above bit `k` and one below it is their sum.
pub bit_or_fields : (k x b : ℕ) → b < 2 ^ k → bit_or (x * 2 ^ k) b ≡ x * 2 ^ k + b
bit_or_fields k x b h =
    ground (arith, bit_or_parts k x 0 0 b, bit_or-zero x, zero-bit_or b, one-le-pow k 2)

pub bit_or-lt : (k a b : ℕ) → a < 2 ^ k → b < 2 ^ k → bit_or a b < 2 ^ k
bit_or-lt zero zero zero ha hb = omega arith
bit_or-lt zero (suc a) b ha hb = absurd (omega arith)
bit_or-lt zero zero (suc b) ha hb = absurd (omega arith)
bit_or-lt (suc k) a b ha hb = omega (
  arith,
  bit_or_step a b,
  pow-suc 2 k,
  bit_or-lt k (a / 2) (b / 2) (omega (arith, pow-suc 2 k)) (omega (arith, pow-suc 2 k)),
)

pub bit_and-le : (a b : ℕ) → bit_and a b ≤ a
bit_and-le =
    by_halves (λ n. (b : ℕ) → bit_and n b ≤ n) (λ b. omega (arith, zero-bit_and b))
      (λ n half b. omega (arith, bit_and_step (suc n) b, half (b / 2)))

-- A mask of `k` low ones keeps the remainder by `2 ^ k`.
low_ones : (k b : ℕ) → b < 2 ^ k → bit_and b (2 ^ k - 1) ≡ b
low_ones zero zero h = refl
low_ones zero (suc b) h = absurd (omega arith)
low_ones (suc k) b h = ground (
  arith,
  bit_and_step b (2 ^ suc k - 1),
  pow-suc 2 k,
  one-le-pow k 2,
  low_ones k (b / 2) (omega (arith, pow-suc 2 k)),
)

pub bit_and_mask : (k a : ℕ) → bit_and a (2 ^ k - 1) ≡ a % 2 ^ k
bit_and_mask k a = ground (
  arith,
  one-le-pow k 2,
  bit_and_parts k (a / 2 ^ k) 0 (a % 2 ^ k) (2 ^ k - 1),
  bit_and-zero (a / 2 ^ k),
  low_ones k (a % 2 ^ k),
)

-- A low bit that is set stays set.
pub bit_or_odd : (a b : ℕ) → b % 2 ≡ 1 → 1 ≤ bit_or a b
bit_or_odd a b h = omega (arith, bit_or_step a b)

pub bit_or_even : (a b : ℕ) → b % 2 ≡ 0 → bit_or a b % 2 ≡ a % 2
bit_or_even a b h = omega (arith, bit_or_step a b)

pub bit_and_odd : (a b : ℕ) → b % 2 ≡ 1 → bit_and a b % 2 ≡ a % 2
bit_and_odd a b h = omega (arith, bit_and_step a b)

-- The complement of a number has none of its bits.
pub bit_and_compl : (k a : ℕ) → a < 2 ^ k → bit_and a (2 ^ k - 1 - a) ≡ 0
bit_and_compl zero a h = let e : a ≡ 0 = omega arith in rw e refl
bit_and_compl (suc k) a h =
    let b : ℕ = 2 ^ suc k - 1 - a in
    let half : b / 2 ≡ 2 ^ k - 1 - a / 2 = omega (arith, pow-suc 2 k) in
    let rest : bit_and (a / 2) (b / 2) ≡ 0 =
      ap (bit_and (a / 2)) half ∙ bit_and_compl k (a / 2) (omega (arith, pow-suc 2 k)) in
    omega (arith, bit_and_step a b, rest, pow-suc 2 k)

-- A number with its lowest bit set and its negation have only that bit in common.
pub bit_and_neg :
    (k q : ℕ) → 2 * q + 1 < 2 * 2 ^ k → bit_and (2 * q + 1) (2 * 2 ^ k - (2 * q + 1)) ≡ 1
bit_and_neg k q h =
    let b : ℕ = 2 * 2 ^ k - (2 * q + 1) in
    let left : (2 * q + 1) / 2 ≡ q = omega arith in
    let right : b / 2 ≡ 2 ^ k - 1 - q = omega arith in
    let rest : bit_and ((2 * q + 1) / 2) (b / 2) ≡ 0 =
      ap (λ (x : ℕ). bit_and x (b / 2)) left
      ∙ ap (bit_and q) right
      ∙ bit_and_compl k q (omega arith) in
    omega (arith, bit_and_step (2 * q + 1) b, rest)
