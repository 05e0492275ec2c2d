-- ===== src/Buddy/Blocks.antt =====
-- A block is its two halves.
use miniature_os.Base.{refl, ap, ℕ, suc, ◌+◌, ◌*◌, ◌/◌, ◌%◌, ◌^◌, ◌≡◌, ◌∙◌, arith}
use native.Mathlib.Nat.{one-le-pow, pow-suc, div-add-mod', mul-mod_left, add-mod_right}
use native.Mathlib.Decide.{ℕ_discrete}
use miniature_os.Base.Bits.{bit_xor_parts, bit_xor-zero}
use miniature_os.Base.{ℕ, zero, suc, false, ◌<◌, min, ◌∙◌, ◌⊎◌, inl, inr, ◌==◌, bit_xor}
use miniature_os.Buddy.{tz_loop, trailing_zeros}
use miniature_os.Buddy.Cover.{in_block, IsBlock}

pub in_block_halves : (c x a : ℕ) → in_block (suc c) x a ≡ in_block c x a + in_block c (x + 2 ^ c) a
unfolding in_block
in_block_halves c x a = ground (arith, pow-suc 2 c)

pub mod_lower : (c x : ℕ) → x % 2 ^ suc c ≡ 0 → x % 2 ^ c ≡ 0
mod_lower c x h =
    let q : ℕ = x / 2 ^ suc c in
    let whole : x ≡ (q * 2) * 2 ^ c =
      omega (arith, div-add-mod' x (2 ^ suc c), ap (λ (t : ℕ). q * t) (pow-suc 2 c)) in
    rw whole (mul-mod_left (q * 2) (2 ^ c))

pub IsBlock-lower : (c x : ℕ) → IsBlock (suc c) x → IsBlock c x
IsBlock-lower c x (h, e) = (mod_lower c x h, omega (arith, pow-suc 2 c))

pub IsBlock-upper : (c x : ℕ) → IsBlock (suc c) x → IsBlock c (x + 2 ^ c)
IsBlock-upper c x (h, e) = (add-mod_right x (2 ^ c) ∙ mod_lower c x h, omega (arith, pow-suc 2 c))

tz_loop_pow : (fuel c : ℕ) → c < fuel → tz_loop fuel (2 ^ c) ≡ c
unfolding tz_loop
tz_loop_pow zero c h = absurd (omega arith)
tz_loop_pow (suc fuel) zero h = refl
tz_loop_pow (suc fuel) (suc c) h =
    let half : 2 ^ suc c / 2 ≡ 2 ^ c = omega (arith, pow-suc 2 c) in
    let even : (2 ^ suc c % 2 == 1) ≡ false = ground (arith, pow-suc 2 c) in
    rw (even, half, tz_loop_pow fuel c (omega arith)) (omega arith)

pub trailing_zeros_pow : (c : ℕ) → c < 64 → trailing_zeros (2 ^ c) ≡ c
unfolding trailing_zeros
trailing_zeros_pow c h = tz_loop_pow 64 c h

-- `^ 1` moves to the neighbour in a pair.
xor_one : (q : ℕ) → (bit_xor (q * 2) 1 ≡ q * 2 + 1) × (bit_xor (q * 2 + 1) 1 ≡ q * 2)
xor_one q = (
  ground (arith, bit_xor_parts 1 q 0 0 1, bit_xor-zero q),
  ground (arith, bit_xor_parts 1 q 0 1 1, bit_xor-zero q),
)

toggle : (c q : ℕ) → bit_xor (q * 2 ^ c) (2 ^ c) ≡ bit_xor q 1 * 2 ^ c
toggle c q = ground (arith, bit_xor_parts c q 1 0 0, one-le-pow c 2)

-- The buddy of an aligned block is the other half of an aligned block of the next class.
pub buddy_cases :
    (c x : ℕ)
    → x % 2 ^ c ≡ 0
    → ((bit_xor x (2 ^ c) ≡ x + 2 ^ c) × (x % 2 ^ suc c ≡ 0))
      ⊎ ((x ≡ bit_xor x (2 ^ c) + 2 ^ c) × (bit_xor x (2 ^ c) % 2 ^ suc c ≡ 0))
buddy_cases c x h = elim (ℕ_discrete (q % 2) 0) [
  | yes e ↦
      let two : q ≡ q / 2 * 2 = omega arith in
      inl (
        toggled
            ∙ ap (λ k. k * 2 ^ c) (ap (λ k. bit_xor k 1) two ∙ (xor_one (q / 2)).0)
            ∙ omega (arith, ap (λ (t : ℕ). t * 2 ^ c) two),
        multiple x (q / 2) (omega (arith, ap (λ (t : ℕ). t * 2 ^ c) two)),
      )
  | no e ↦
      let two : q ≡ q / 2 * 2 + 1 = omega arith in
      let low : bit_xor x (2 ^ c) ≡ q / 2 * 2 * 2 ^ c =
        toggled ∙ ap (λ k. k * 2 ^ c) (ap (λ k. bit_xor k 1) two ∙ (xor_one (q / 2)).1) in
      inr (
        omega (arith, low, ap (λ (t : ℕ). t * 2 ^ c) two),
        multiple (bit_xor x (2 ^ c)) (q / 2) low,
      )
]
  where
    q : ℕ
    q = x / 2 ^ c

    whole : x ≡ q * 2 ^ c
    whole = omega (arith, div-add-mod' x (2 ^ c))

    toggled : bit_xor x (2 ^ c) ≡ bit_xor q 1 * 2 ^ c
    toggled = ap (λ k. bit_xor k (2 ^ c)) whole ∙ toggle c q

    multiple : (y p : ℕ) → y ≡ p * 2 * 2 ^ c → y % 2 ^ suc c ≡ 0
    multiple y p e =
        let e' : y ≡ p * 2 ^ suc c = omega (arith, ap (λ (t : ℕ). p * t) (pow-suc 2 c)) in
        rw e' (mul-mod_left p (2 ^ suc c))

-- A block and its buddy make up the block at the lower of the two, of the next class.
pub merged :
    (c x : ℕ)
    → IsBlock c x
    → IsBlock c (bit_xor x (2 ^ c))
    → IsBlock (suc c) (min x (bit_xor x (2 ^ c)))
      × ((a : ℕ)
          → in_block (suc c) (min x (bit_xor x (2 ^ c))) a
            ≡ in_block c x a + in_block c (bit_xor x (2 ^ c)) a)
merged c x b b' = elim (buddy_cases c x b.0) [
  | inl (e, m) ↦
      let low : min x (bit_xor x (2 ^ c)) ≡ x = omega arith in
      rw low ((m, omega (arith, pow-suc 2 c)), λ a. rw e (in_block_halves c x a))
  | inr (e, m) ↦
      let y = bit_xor x (2 ^ c) in
      let low : min x y ≡ y = omega arith in
      let halves : (a : ℕ) → in_block (suc c) y a ≡ in_block c x a + in_block c y a =
        λ a. omega (arith, in_block_halves c y a, ap (λ k. in_block c k a) e) in
      rw low ((m, omega (arith, pow-suc 2 c)), halves)
]
