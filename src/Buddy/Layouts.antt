-- ===== src/Buddy/Layouts.antt =====
-- The size class that `alloc` computes for a layout.
use miniature_os.Base.{ℕ, zero, suc, ◌+◌, ◌^◌, ◌≤◌, ◌<◌, ◌≡◌, refl, ap, ◌∙◌, ◌⊎◌, inl, inr, arith}
use miniature_os.Base.{Bool-cases, leb, leb→le, le→leb, true, false, max, ok}
use native.Mathlib.Decide.{dec_lt}
use native.Mathlib.Nat.{pow-le-pow_right, one-le-pow, pow-suc}
use miniature_os.Buddy.{Buddies, Layout, max_order, next_power_loop, next_power_of_two}
use miniature_os.Buddy.{align_layout_size, alloc, min_size}
use miniature_os.Buddy.Cover.{FreeLists}
use miniature_os.Buddy.Rep.{Holds}
use miniature_os.Buddy.Alloc.{Allocated, Exhausted, alloc_class-Holds}
use miniature_os.Buddy.Blocks.{trailing_zeros_pow}

pow_le : (a b : ℕ) → a ≤ b → 2 ^ a ≤ 2 ^ b
pow_le a b h = pow-le-pow_right (omega arith) h

max_pow : (a b : ℕ) → max (2 ^ a) (2 ^ b) ≡ 2 ^ max a b
max_pow a b = elim (Bool-cases (leb a b)) [
  | inl le ↦
      let big : max a b ≡ b = omega (arith, leb→le _ _ le) in
      rw big (omega (arith, pow_le a b (leb→le _ _ le)))
  | inr gt ↦
      let le : b ≤ a = ground arith in
      let big : max a b ≡ a = omega arith in rw big (omega (arith, pow_le b a le))
]

pow_le_cancel : (a b : ℕ) → 2 ^ a ≤ 2 ^ b → a ≤ b
pow_le_cancel a b h = elim (dec_lt b a) [
  | yes lt ↦ absurd (omega (arith, h, pow_le (suc b) a lt, pow-suc 2 b, one-le-pow b 2))
  | no ge ↦ omega arith
]

-- The first power from 2^k on that is at least `n`, if there is one among the first rounds; the
-- `extra` rounds are not needed.
next_power_loop_lem :
    (extra rounds k n : ℕ)
    → n ≤ 2 ^ (k + rounds)
    → (j : ℕ) × (next_power_loop (suc (extra + rounds)) k n ≡ ok (2 ^ j))
      × (n ≤ 2 ^ j)
      × (j ≤ k + rounds)
      × ((i : ℕ) → k ≤ i → n ≤ 2 ^ i → j ≤ i)
unfolding next_power_loop
next_power_loop_lem extra zero k n h =
    let e : k + 0 ≡ k = omega arith in
    let le : n ≤ 2 ^ k = omega (arith, h, ap (λ (i : ℕ). 2 ^ i) e) in
    let fits : leb n (2 ^ k) ≡ true = le→leb _ _ le in
    (k, rw fits refl, le, omega arith, λ i from _. from)
next_power_loop_lem extra (suc more) k n h = elim (Bool-cases (leb n (2 ^ k))) [
  | inl fits ↦ (k, rw fits refl, leb→le _ _ fits, omega arith, λ i from _. from)
  | inr small ↦
      let e : k + suc more ≡ k + 1 + more = omega arith in
      let (j, q, le, bound, least) =
        next_power_loop_lem extra more (k + 1) n (omega (arith, h, ap (λ (i : ℕ). 2 ^ i) e)) in
      let plus : extra + suc more ≡ suc (extra + more) = omega arith in
      (
        j,
        rw (small, plus) q,
        le,
        omega arith,
        λ i from fits. least i (later i from fits (leb→gt _ _ small)) fits,
      )
]
  where
    leb→gt : (a b : ℕ) → leb a b ≡ false → b < a
    leb→gt a b small = ground arith

    later : (i : ℕ) → k ≤ i → n ≤ 2 ^ i → 2 ^ k < n → k + 1 ≤ i
    later i from fits small = elim (dec_lt k i) [
      | yes lt ↦ omega arith
      | no ge ↦
          let same : i ≡ k = omega arith in
          absurd (omega (arith, small, fits, ap (λ (t : ℕ). 2 ^ t) same))
    ]

-- A chunk of 2^c bytes holds the layout: its size, its alignment, and a chunk header.
abbrev pub Serves : Layout → ℕ → Type 0
Serves l c = (l.size ≤ 2 ^ c) × (l.align ≤ 2 ^ c) × (min_size ≤ 2 ^ c)

pub layout_class :
    (l : Layout) (m : ℕ)
    → l.align ≡ 2 ^ m
    → m < max_order
    → l.size ≤ 2 ^ 19
    → (c : ℕ) × (align_layout_size l ≡ ok (2 ^ c))
      × (c < max_order)
      × Serves l c
      × ((k : ℕ) → Serves l k → c ≤ k)
unfolding align_layout_size next_power_of_two
layout_class l m align_pow m_lt size_le =
    let (j, q, le, bound, least) = next_power_loop_lem 44 19 0 l.size size_le in
    let c : ℕ = max j (max m 4) in
    let align_max : max l.align 16 ≡ 2 ^ max m 4 =
      ap (λ (t : ℕ). max t 16) align_pow ∙ max_pow m 4 in
    (
      c,
      rw (q, align_max, max_pow j (max m 4)) refl,
      omega arith,
      (
        omega (arith, le, pow_le j c (omega arith)),
        omega (arith, align_pow, pow_le m c (omega arith)),
        pow_le 4 c (omega arith),
      ),
      λ k (size_fits, align_fits, header_fits). omega (
        arith,
        least k (omega arith) size_fits,
        pow_le_cancel m k (omega (arith, align_pow, align_fits)),
        pow_le_cancel 4 k header_fits,
      ),
    )

-- A layout whose size is at most 2^19 and whose alignment is a power of two below 2^20 has a least
-- size class `c`, below 20, whose chunks hold its size, its alignment and a chunk header. From lists
-- of disjoint free blocks with their size in their headers, `alloc` never panics on it: it takes one
-- aligned block of exactly that class, with its size in its header, out of the free memory and keeps
-- the lists valid, or returns nothing, with the free memory as before, when each of the classes
-- from `c` to 19 is empty.
pub alloc-Holds :
    {s : Buddies} {fl : FreeLists} (l : Layout) (m : ℕ)
    → Holds s fl
    → l.align ≡ 2 ^ m
    → m < max_order
    → l.size ≤ 2 ^ 19
    → (c : ℕ) × (c < max_order)
      × Serves l c
      × ((k : ℕ) → Serves l k → c ≤ k)
      × (Allocated c fl (alloc l s) ⊎ Exhausted c fl (alloc l s))
unfolding alloc
alloc-Holds {s} {fl} l m v align_pow m_lt size_le =
    let (c, q, lt, serves, least) = layout_class l m align_pow m_lt size_le in
    (c, lt, serves, least, rw (q, trailing_zeros_pow c (omega arith)) (alloc_class-Holds c v lt))
