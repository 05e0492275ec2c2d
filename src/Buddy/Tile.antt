-- ===== src/Buddy/Tile.antt =====
-- `add_region` cuts a region into blocks that cover it exactly.
use native.Mathlib.Nat.{pow-le-pow_right}
use native.Mathlib.Decide.{dec_lt}
use miniature_os.Base.{
  ℕ, zero, suc, ◌+◌, ◌-◌, ◌*◌, ◌^◌, ◌/◌, ◌%◌, ◌≤◌, ◌<◌, ◌≡◌, refl, ap, ◌∙◌, arith, min,
}
use miniature_os.Base.{
  true, false, Run, ok, ◌&&◌, ltb, leb, lt→ltb, le→leb, leb→le, Bool-cases, inl, inr, u64_mod,
  if◌then◌else◌,
}
use miniature_os.Base.Pow.{pow_sub, pow_pos}
use native.Mathlib.Nat.{mul-mod_left, div-add-mod'}
use miniature_os.Buddy.{Buddies, push_new, trailing_zeros}
use miniature_os.Buddy.Cover.{FreeLists, cover, in_block, IsBlock}
use miniature_os.Buddy.Rep.{Holds}
use miniature_os.Buddy.Blocks.{trailing_zeros_pow}
use miniature_os.Buddy.Lists
use miniature_os.Buddy.Alloc.{cover_push}
use miniature_os.Buddy.Region.{lowbit, previous_power_of_two, region_loop, add_region}
use miniature_os.Buddy.Lowbit.{lowbit_lem, previous_power_of_two_lem}

-- 1 if the address lies in the region, else 0.
unfoldable pub in_region : ℕ → ℕ → ℕ → ℕ
in_region start end a = if leb start a && ltb a end then 1 else 0

min_pow : (a b : ℕ) → min (2 ^ a) (2 ^ b) ≡ 2 ^ min a b
min_pow a b = elim (Bool-cases (leb a b)) [
  | inl le ↦
      let ordered : a ≤ b = leb→le _ _ le in
      let small : min a b ≡ a = omega arith in
      let powers : 2 ^ a ≤ 2 ^ b = pow-le-pow_right (omega arith) ordered in rw small (omega arith)
  | inr gt ↦
      let le : b ≤ a = ground arith in
      let small : min a b ≡ b = omega arith in
      let powers : 2 ^ b ≤ 2 ^ a = pow-le-pow_right (omega arith) le in rw small (omega arith)
]

mod_smaller : (c k x : ℕ) → c ≤ k → x % 2 ^ k ≡ 0 → x % 2 ^ c ≡ 0
mod_smaller c k x h e =
    let q : ℕ = x / 2 ^ k in
    let whole : x ≡ (q * 2 ^ (k - c)) * 2 ^ c =
      omega (arith, div-add-mod' x (2 ^ k), ap (λ (t : ℕ). q * t) (pow_sub k c h)) in
    rw whole (mul-mod_left (q * 2 ^ (k - c)) (2 ^ c))

in_region_cut :
    (c x end a : ℕ)
    → x + 2 ^ c ≤ end
    → in_region x end a ≡ in_block c x a + in_region (x + 2 ^ c) end a
unfolding in_region in_block
in_region_cut c x end a h = ground arith

-- What the loop adds to the free memory.
pub record Added (start end : ℕ) (fl : FreeLists) (r : Run Buddies) : Type 0 where
  pub state : Buddies
  pub free : FreeLists
  pub returns : r ≡ ok state
  pub holds : Holds state free
  pub added : (a : ℕ) → cover a free ≡ cover a fl + in_region start end a

-- One round: a block of some class at the start goes on its list.
record Cut (fuel start end : ℕ) (s : Buddies) (fl : FreeLists) : Type 0 where
  class : ℕ
  state : Buddies
  free : FreeLists
  fits : start + 2 ^ class ≤ end
  goes_on : region_loop (suc fuel) start end s ≡ region_loop fuel (start + 2 ^ class) end state
  holds : Holds state free
  grown : (a : ℕ) → cover a free ≡ cover a fl + in_block class start a

round :
    (fuel start end low power size c : ℕ) (s t : Buddies)
    → start < end
    → lowbit start ≡ ok low
    → previous_power_of_two (end - start) ≡ ok power
    → min (min low power) (2 ^ 19) ≡ size
    → trailing_zeros size ≡ c
    → push_new s c start size ≡ ok t
    → start + size < u64_mod
    → region_loop (suc fuel) start end s ≡ region_loop fuel (start + size) end t
unfolding region_loop
round fuel start end low power size c s t lt low_is power_is size_is class_is pushed fits =
    let inside : ltb start end ≡ true = lt→ltb _ _ lt in
    let ordered : leb start end ≡ true = le→leb _ _ (omega arith) in
    let next : ltb (start + size) u64_mod ≡ true = lt→ltb _ _ fits in
    rw (inside, low_is, ordered, power_is, size_is, class_is, pushed, next) refl

cut :
    (fuel start end : ℕ) {s : Buddies} {fl : FreeLists}
    → Holds s fl
    → 0 < start
    → start < end
    → end < u64_mod
    → ((a : ℕ) → cover a fl + in_region start end a ≤ 1)
    → Cut fuel start end s fl
cut fuel start end {s} {fl} v pos lt small room =
    let (k, low, aligned, k_lt) = lowbit_lem start pos (omega arith) in
    let (j, power, j_le, j_lt) =
      previous_power_of_two_lem (end - start) (omega arith) (omega arith) in
    let c : ℕ = min (min k j) 19 in
    let size : min (min (2 ^ k) (2 ^ j)) (2 ^ 19) ≡ 2 ^ c =
      ap (λ (t : ℕ). min t (2 ^ 19)) (min_pow k j) ∙ min_pow (min k j) 19 in
    let below : 2 ^ c ≤ 2 ^ j = pow-le-pow_right (omega arith) (omega arith) in
    let block : IsBlock c start = (mod_smaller c k start (omega arith) aligned, omega arith) in
    let (t, pushed, v') =
      Lists.push_new-Holds v c (omega arith) start pos block
        (λ a. omega (arith, room a, in_region_cut c start end a (omega arith))) in
    record {
      class = c;
      state = t;
      free = _;
      fits = omega arith;
      goes_on =
          round fuel start end (2 ^ k) (2 ^ j) (2 ^ c) c s t lt low power size
            (trailing_zeros_pow c (omega arith)) pushed (omega arith);
      holds = v';
      grown = λ a. cover_push v c (omega arith) a start;
    }

region_loop-Added :
    (fuel start end : ℕ) {s : Buddies} {fl : FreeLists}
    → Holds s fl
    → 0 < start
    → end < u64_mod
    → end < start + fuel
    → ((a : ℕ) → cover a fl + in_region start end a ≤ 1)
    → Added start end fl (region_loop fuel start end s)
unfolding region_loop in_region
region_loop-Added zero start end v pos small enough room =
    let done : ltb start end ≡ false = ground arith in
    record { state = _; free = _; returns = rw done refl; holds = v; added = λ a. ground arith }
region_loop-Added (suc fuel) start end v pos small enough room = elim (dec_lt start end) [
  | no ge ↦
      let done : ltb start end ≡ false = ground arith in
      record { state = _; free = _; returns = rw done refl; holds = v; added = λ a. ground arith }
  | yes lt ↦
      let one = cut fuel start end v pos lt small room in
      let cut_at : (a : ℕ)
          → in_region start end a
            ≡ in_block one.class start a + in_region (start + 2 ^ one.class) end a =
        λ a. in_region_cut one.class start end a one.fits in
      let rest =
        region_loop-Added fuel (start + 2 ^ one.class) end one.holds (omega arith) small
          (omega (arith, pow_pos one.class)) (λ a. omega (arith, room a, one.grown a, cut_at a)) in
      record {
        state = rest.state;
        free = rest.free;
        returns = one.goes_on ∙ rest.returns;
        holds = rest.holds;
        added = λ a. omega (arith, rest.added a, one.grown a, cut_at a);
      }
]

-- From valid lists, a region from a positive address on, which is apart from the free memory and ends below 2^64, both
-- ends at multiples of 16, the size of a chunk header: `add_region` never panics, and one
-- step more than there are bytes is enough. It cuts the region into aligned blocks of size
-- classes below 20, so that exactly the region's addresses are free in addition, in valid lists.
pub add_region-Added :
    (fuel start end : ℕ) {s : Buddies} {fl : FreeLists}
    → Holds s fl
    → 0 < start
    → start ≤ end
    → end < u64_mod
    → start % 16 ≡ 0
    → end % 16 ≡ 0
    → end < start + fuel
    → ((a : ℕ) → cover a fl + in_region start end a ≤ 1)
    → Added start end fl (add_region fuel start end s)
unfolding add_region
add_region-Added fuel start end v pos le small even even' enough room =
    let ordered : leb start end ≡ true = le→leb _ _ le in
    let r = region_loop-Added fuel start end v pos small enough room in
    record {
      state = r.state;
      free = r.free;
      returns = rw ordered r.returns;
      holds = r.holds;
      added = r.added;
    }
