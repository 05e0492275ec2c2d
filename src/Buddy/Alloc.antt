-- ===== src/Buddy/Alloc.antt =====
-- What `alloc` does: it hands out an aligned free block, and the rest of memory stays free.
use miniature_os.Base.{ℕ, zero, suc, ◌+◌, ◌^◌, ◌<◌, ◌≤◌, ◌≡◌, refl, arith}
use miniature_os.Base.{List, [], ◌∷◌, ok}
use miniature_os.Base.{true, set, length, if◌then◌else◌, ltb, ◌==◌, ==_self}
use miniature_os.Base.{get_or-set_self, get_or-set_ne, lt→ltb, u64_mod}
use native.Mathlib.Decide.{dec_lt, ℕ_discrete}
use miniature_os.Base.{ap, sym, ◌∙◌, ◌-◌, ◌≤◌, ◌⊎◌, inl, inr, Option, none, some, Run}
use native.Mathlib.Nat.{one-le-pow, pow-suc}
use miniature_os.Buddy.{find_class, alloc_class}
use miniature_os.Buddy.{Buddies, max_order, split_chunk, split}
use miniature_os.Buddy.Cover.{FreeLists, class_of, cover, in_block, hits, IsBlock}
use miniature_os.Buddy.Blocks.{in_block_halves, IsBlock-lower, IsBlock-upper}
use miniature_os.Buddy.Rep.{Holds}
use miniature_os.Buddy.Lists

module _ {s : Buddies} {fl : FreeLists} (v : Holds s fl) (c : ℕ) (i : c < max_order) where
  pub class_of-set : (ys : List ℕ) → class_of (set fl c ys) c ≡ ys
  class_of-set ys = get_or-set_self fl c ys [] (omega (arith, v.classes))

  pub cover_push : (a x : ℕ) → cover a (set fl c (x ∷ class_of fl c)) ≡ cover a fl + in_block c x a
  unfolding hits
  cover_push a x = omega (arith, Lists.cover-set v c i a (x ∷ class_of fl c))

  pub cover_pop :
      (a x : ℕ) (xs : List ℕ)
      → class_of fl c ≡ x ∷ xs
      → cover a (set fl c xs) + in_block c x a ≡ cover a fl
  unfolding hits
  cover_pop a x xs e = let h = rw e at (Lists.cover-set v c i a xs) in omega arith

module _ {s : Buddies} {fl : FreeLists} (v : Holds s fl) (c : ℕ) (i : c < max_order) where
  -- A list grows by what is put into it, and the others stay.
  length-push :
      (x j : ℕ)
      → length (class_of (set fl c (x ∷ class_of fl c)) j)
        ≤ length (class_of fl j) + (if j == c then 1 else 0)
  length-push x j = elim (ℕ_discrete c j) [
    | yes e ↦ rw (← e, class_of-set v c i (x ∷ class_of fl c), ==_self c) (omega arith)
    | no ne ↦ rw (get_or-set_ne fl c j (x ∷ class_of fl c) [] ne) (omega arith)
  ]

  length-pop :
      (x : ℕ) (xs : List ℕ) (j : ℕ)
      → class_of fl c ≡ x ∷ xs
      → length (class_of (set fl c xs) j) ≤ length (class_of fl j)
  length-pop x xs j e = elim (ℕ_discrete c j) [
    | yes same ↦ rw (← same, class_of-set v c i xs) (omega (arith, ap length e))
    | no ne ↦ rw (get_or-set_ne fl c j xs [] ne) (omega arith)
  ]

module _ {s : Buddies} {fl : FreeLists} (v : Holds s fl) (c : ℕ) (i : c < max_order) where
  split_chunk-Holds :
      (x : ℕ)
      → 0 < x
      → IsBlock (suc c) x
      → ((a : ℕ) → cover a fl + in_block (suc c) x a ≤ 1)
      → (t : Buddies) × (gl : FreeLists) × (y : ℕ) × (ys : List ℕ) × (split_chunk c x s ≡ ok t)
        × Holds t gl
        × (class_of gl c ≡ y ∷ ys)
        × ((a : ℕ) → cover a gl ≡ cover a fl + in_block (suc c) x a)
        × ((j : ℕ) → length (class_of gl j) ≤ length (class_of fl j) + (if j == c then 2 else 0))
  unfolding split_chunk
  split_chunk-Holds x pos block room =
      let (s1, r1, v1) =
        Lists.push_new-Holds v c i x pos (IsBlock-lower c x block)
          (λ a. omega (arith, room a, in_block_halves c x a)) in
      let fits = lt→ltb (x + 2 ^ c) u64_mod (omega (arith, block.1, pow-suc 2 c, one-le-pow c 2)) in
      let high = IsBlock-upper c x block in
      let (s2, r2, v2) =
        Lists.push_new-Holds v1 c i (x + 2 ^ c) (omega arith) high
          (λ a. omega (arith, room a, in_block_halves c x a, cover_push v c i a x)) in
      (
        s2,
        _,
        x + 2 ^ c,
        _,
        rw (r1, fits, r2) refl,
        v2,
        class_of-set v1 c i _,
        λ a.
            omega
              (arith, in_block_halves c x a, cover_push v c i a x, cover_push v1 c i a (x + 2 ^ c)),
        λ j. ground (arith, length-push v c i x j, length-push v1 c i (x + 2 ^ c) j),
      )

-- A class below the one that is split may get two chunks; no other class gets any.
abbrev room_below : ℕ → ℕ → ℕ
room_below top j = if ltb j top then 2 else 0

-- The splitting loop leaves a chunk in its last class, and all memory free.
split-Holds :
    (rounds c : ℕ) {s : Buddies} {fl : FreeLists} (x : ℕ) (xs : List ℕ)
    → Holds s fl
    → c + rounds < max_order
    → class_of fl (c + rounds) ≡ x ∷ xs
    → (t : Buddies) × (gl : FreeLists) × (y : ℕ) × (ys : List ℕ) × (split rounds c s ≡ ok (true, t))
      × Holds t gl
      × (class_of gl c ≡ y ∷ ys)
      × ((a : ℕ) → cover a gl ≡ cover a fl)
      × ((j : ℕ) → length (class_of gl j) ≤ length (class_of fl j) + room_below (c + rounds) j)
unfolding split
split-Holds zero c {s} {fl} x xs v i e =
    let plain : c + 0 ≡ c = omega arith in
    (s, fl, x, xs, refl, v, rw plain at e, (λ a. refl), λ j. omega arith)
split-Holds (suc rounds) c {fl} x xs v i e =
    let (s1, r1, v1, pos, block, _) = Lists.pop_front-Holds v (c + suc rounds) i x xs e in
    let (s2, gl, y, ys, r2, v2, e2, cov2, grown2) =
      split_chunk-Holds v1 (c + rounds) (omega arith) x pos (rw shift at block)
        (λ a. omega (arith, v.disjoint a, popped a)) in
    let (t, hl, z, zs, r3, v3, e3, cov3, grown3) = split-Holds rounds c y ys v2 (omega arith) e2 in
    (
      t,
      hl,
      z,
      zs,
      rw (r1, r2) r3,
      v3,
      e3,
      (λ a. omega (arith, cov3 a, cov2 a, popped a)),
      λ j. ground (arith, grown3 j, grown2 j, length-pop v (c + suc rounds) i x xs j e),
    )
  where
    shift : c + suc rounds ≡ suc (c + rounds)
    shift = omega arith

    popped :
        (a : ℕ)
        → cover a (set fl (c + suc rounds) xs) + in_block (suc (c + rounds)) x a ≡ cover a fl
    popped a =
        ap (λ k. cover a (set fl (c + suc rounds) xs) + in_block k x a) (sym shift)
        ∙ cover_pop v (c + suc rounds) i a x xs e

-- The search finds the first class with a chunk, or all classes that it passed are empty.
find_class-Holds :
    (rounds k : ℕ) {s : Buddies} {fl : FreeLists}
    → Holds s fl
    → k + rounds ≡ max_order
    → ((j : ℕ) × (x : ℕ) × (xs : List ℕ) × (find_class rounds k s ≡ some j)
        × (k ≤ j)
        × (j < max_order)
        × (class_of fl j ≡ x ∷ xs))
      ⊎ ((find_class rounds k s ≡ none) × ((j : ℕ) → k ≤ j → j < max_order → class_of fl j ≡ []))
unfolding find_class
find_class-Holds zero k v e = inr (refl, λ j p q. absurd (omega arith))
find_class-Holds (suc rounds) k {s} {fl} v e = elim (Lists.class_is_empty v k (omega arith)) [
  | inl h ↦ elim (find_class-Holds rounds (k + 1) v (omega arith)) [
    | inl (j, x, xs, r, p, q, l) ↦
        inl (j, x, xs, rw (Lists.read_head v k (omega arith), h.0, find_class) r, omega arith, q, l)
    | inr (r, all) ↦ inr (
      rw (Lists.read_head v k (omega arith), h.0, find_class) r,
      λ j p q. elim (dec_lt k j) [
        | yes lt ↦ all j (omega arith) q
        | no nlt ↦ let same : j ≡ k = omega arith in rw same h.1
      ],
    )
  ]
  | inr (h, (x, xs, l)) ↦
      inl (
        k,
        x,
        xs,
        rw (Lists.read_head v k (omega arith), h, find_class),
        omega arith,
        omega arith,
        l,
      )
]

-- `alloc` returned a block of class `c`, with its size in its header, and exactly that memory is no
-- longer free; no list is longer by more than two chunks, and that of class 19 is not longer.
pub record Allocated (c : ℕ) (fl : FreeLists) (r : Run (Option ℕ × Buddies)) : Type 0 where
  pub state : Buddies
  pub free : FreeLists
  pub chunk : ℕ
  pub returns : r ≡ ok (some chunk, state)
  pub holds : Holds state free
  pub pos : 0 < chunk
  pub block : IsBlock c chunk
  pub header : (state.heap chunk).size ≡ 2 ^ c
  pub taken : (a : ℕ) → cover a free + in_block c chunk a ≡ cover a fl
  pub lengths : (j : ℕ) → length (class_of free j) ≤ length (class_of fl j) + 2
  pub top : length (class_of free 19) ≤ length (class_of fl 19)

-- `alloc` returned nothing, since no class from `c` on has a chunk.
pub record Exhausted (c : ℕ) (fl : FreeLists) (r : Run (Option ℕ × Buddies)) : Type 0 where
  pub state : Buddies
  pub returns : r ≡ ok (none, state)
  pub holds : Holds state (set fl c [])
  pub empty : (j : ℕ) → c ≤ j → j < max_order → class_of fl j ≡ []

-- From lists of disjoint free blocks with their size in their headers, a request for class `c < 20`
-- never panics: it takes one aligned block of that class, with its size in its header, out of the
-- free memory and keeps the lists valid, or returns nothing when every class that could serve it is
-- empty. No list gets longer by more than two chunks, and that of class 19 gets no longer.
pub alloc_class-Holds :
    {s : Buddies} {fl : FreeLists} (c : ℕ)
    → Holds s fl
    → c < max_order
    → Allocated c fl (alloc_class c s) ⊎ Exhausted c fl (alloc_class c s)
unfolding alloc_class
alloc_class-Holds {s} {fl} c v i = elim (find_class-Holds (max_order - c) c v (omega arith)) [
  | inl (j, x, xs, r, p, q, e) ↦
      let reach : c + (j - c) ≡ j = omega arith in
      let (t, gl, y, ys, r2, v2, e2, cov2, grown) =
        split-Holds (j - c) c x xs v (omega arith) (rw reach e) in
      let (u, r3, v3, pos, block, header) = Lists.pop_front-Holds v2 c i y ys e2 in
      inl (record {
        state = u;
        free = set gl c ys;
        chunk = y;
        returns = rw (r, r2, alloc_class) r3;
        holds = v3;
        pos = pos;
        block = block;
        header = header;
        taken = λ a. cover_pop v2 c i a y ys e2 ∙ cov2 a;
        lengths = λ k. ground (arith, grown k, length-pop v2 c i y ys k e2);
        top = ground (arith, grown 19, length-pop v2 c i y ys 19 e2);
      })
  | inr (r, all) ↦
      let (t, r2, v2) = Lists.pop_front-empty v c i (all c (omega arith) i) in
      inr (record { state = t; returns = rw (r, alloc_class) r2; holds = v2; empty = all })
]
