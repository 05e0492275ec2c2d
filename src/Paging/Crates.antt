-- ===== src/Paging/Crates.antt =====
-- What the code uses of the crates `bit_field` and `bitflags`, with their documented behaviour:
-- a range of bits of a word, and sets of flags as bits of a word.
use miniature_os.Base.{
  ℕ, ◌-◌, ◌/◌, ◌%◌, ◌^◌, ◌≡◌, ◌+◌, ◌*◌, ◌<◌, refl, arith, Bool, true, false, if◌then◌else◌, ◌==◌,
  bit_and,
}

pub record BitCrates : Type 0 where
  -- `BitField::get_bits(lo..hi)`.
  pub get_bits : ℕ → ℕ → ℕ → ℕ
  pub get_bits_range : (v lo hi : ℕ) → get_bits v lo hi ≡ v / 2 ^ lo % 2 ^ (hi - lo)
  -- `BitField::set_bits(lo..hi, x)`, for an `x` that fits.
  pub set_bits : ℕ → ℕ → ℕ → ℕ → ℕ
  pub set_bits_range :
      (v lo hi x : ℕ)
      → x < 2 ^ (hi - lo)
      → set_bits v lo hi x ≡ v / 2 ^ hi * 2 ^ hi + x * 2 ^ lo + v % 2 ^ lo
  -- `BitField::set_bit`.
  pub set_bit : ℕ → ℕ → Bool → ℕ
  pub set_bit_on : (v i : ℕ) → set_bit v i true ≡ v / 2 ^ (i + 1) * 2 ^ (i + 1) + 2 ^ i + v % 2 ^ i
  pub set_bit_off : (v i : ℕ) → set_bit v i false ≡ v / 2 ^ (i + 1) * 2 ^ (i + 1) + v % 2 ^ i
  -- `Flags::from_bits_truncate`, for the flag type whose named flags are the bits of `all`.
  pub from_bits_truncate : ℕ → ℕ → ℕ
  pub from_bits_known : (all v : ℕ) → from_bits_truncate all v ≡ bit_and v all
  -- `Flags::contains`: all flags of the second set are in the first.
  pub contains : ℕ → ℕ → Bool
  pub contains_all : (a b : ℕ) → contains a b ≡ (bit_and a b == b)

abbrev pub plain_bits : BitCrates
plain_bits = record {
  get_bits = λ v lo hi. v / 2 ^ lo % 2 ^ (hi - lo);
  get_bits_range = λ v lo hi. refl;
  set_bits = λ v lo hi x. v / 2 ^ hi * 2 ^ hi + x * 2 ^ lo + v % 2 ^ lo;
  set_bits_range = λ v lo hi x h. refl;
  set_bit = λ v i b. v / 2 ^ (i + 1) * 2 ^ (i + 1) + (if b then 2 ^ i else 0) + v % 2 ^ i;
  set_bit_on = λ v i. refl;
  set_bit_off = λ v i. omega arith;
  from_bits_truncate = λ all v. bit_and v all;
  from_bits_known = λ all v. refl;
  contains = λ a b. bit_and a b == b;
  contains_all = λ a b. refl;
}
