-- ===== src/Buddy/Dealloc.antt =====
-- What `dealloc` does with the memory that it is given.
use miniature_os.Base.{ℕ, zero, suc, ◌+◌, ◌-◌, ◌*◌, ◌^◌, ◌<◌, ◌≤◌, ◌≡◌, ◌≢◌, refl, ◌∙◌, arith}
use miniature_os.Base.{none, some, List, [], ◌∷◌, ok, Run, min, bit_xor, ap}
use miniature_os.Base.{◌⊎◌, inl, inr, length, set}
use miniature_os.Base.{get_or-set_ne, mul64, lt→ltb, u64_mod}
use native.Mathlib.Nat.{pow-suc}
use native.Mathlib.Decide.{ℕ_discrete}
use miniature_os.Buddy.{Buddies, max_order, merge, dealloc}
use miniature_os.Buddy.Chain.{count, erase, found, length-erase, erase_absent}
use miniature_os.Buddy.Cover
use miniature_os.Buddy.Cover.{FreeLists, class_of, cover, in_block, hits, IsBlock}
use miniature_os.Buddy.Blocks.{merged, trailing_zeros_pow}
use miniature_os.Buddy.Rep.{Holds}
use miniature_os.Buddy.Lists
use miniature_os.Buddy.Alloc.{class_of-set, cover_push}

-- The block of class `c` at `x` is free again, merged or not.
pub record Freed (c x : ℕ) (fl : FreeLists) (r : Run Buddies) : Type 0 where
  pub state : Buddies
  pub free : FreeLists
  pub returns : r ≡ ok state
  pub holds : Holds state free
  pub given : (a : ℕ) → cover a free ≡ cover a fl + in_block c x a

-- The loop ran out of size classes: the block was merged up to class 20, for which there is no
-- list, and those 2^20 bytes are in no list any more.
pub record Lost (c x : ℕ) (fl : FreeLists) (r : Run Buddies) : Type 0 where
  pub state : Buddies
  pub free : FreeLists
  pub top : ℕ
  pub returns : r ≡ ok state
  pub holds : Holds state free
  pub lost : (a : ℕ) → cover a free + in_block 20 top a ≡ cover a fl + in_block c x a
  pub top_class : class_of fl 19 ≢ []

module _ {s : Buddies} {fl : FreeLists} (v : Holds s fl) (c : ℕ) (i : c < max_order) where
  cover-erase :
      (a b : ℕ)
      → 0 < count b (class_of fl c)
      → cover a (set fl c (erase b (class_of fl c))) + in_block c b a ≡ cover a fl
  cover-erase a b here = omega (
    arith,
    Lists.cover-set v c i a (erase b (class_of fl c)),
    Cover.hits-erase c a b (class_of fl c) here,
  )

  shorter :
      (fuel b : ℕ)
      → ((j : ℕ) → length (class_of fl j) < fuel)
      → (j : ℕ) → length (class_of (set fl c (erase b (class_of fl c))) j) < fuel
  shorter fuel b enough j = elim (ℕ_discrete c j) [
    | yes e ↦
        rw (← e, class_of-set v c i (erase b (class_of fl c)))
          (omega (arith, length-erase b (class_of fl c), enough c))
    | no ne ↦ rw (get_or-set_ne fl c j (erase b (class_of fl c)) [] ne) (enough j)
  ]

  -- Without its buddy in the list of its class, the block itself is listed.
  merge_stops :
      (fuel rounds x : ℕ)
      → 0 < x
      → IsBlock c x
      → ((a : ℕ) → cover a fl + in_block c x a ≤ 1)
      → length (class_of fl c) < fuel
      → count (bit_xor x (2 ^ c)) (class_of fl c) ≡ 0
      → Freed c x fl (merge fuel (suc rounds) c x (2 ^ c) s)
  unfolding merge
  merge_stops fuel rounds x pos block room enough alone =
      let buddy = bit_xor x (2 ^ c) in
      let rest = erase buddy (class_of fl c) in
      let (s1, r1, v1) = Lists.remove-Holds v c i fuel buddy enough in
      let same : (a : ℕ) → cover a (set fl c rest) ≡ cover a fl = λ a. omega (
        arith,
        Lists.cover-set v c i a rest,
        ap (hits c a) (erase_absent buddy (class_of fl c) alone),
      ) in
      let (s2, r2, v2) =
        Lists.push_new-Holds v1 c i x pos block (λ a. omega (arith, same a, room a)) in
      let missing : found buddy (class_of fl c) ≡ none = ground arith in
      record {
        state = s2;
        free = _;
        returns = rw (r1, missing) r2;
        holds = v2;
        given = λ a. omega (arith, cover_push v1 c i a x, same a);
      }

-- One merge: the buddy leaves its list, and the loop goes on with the joint block.
record Joined (fuel rounds c x : ℕ) (s : Buddies) (fl : FreeLists) : Type 0 where
  state : Buddies
  free : FreeLists
  start : ℕ
  goes_on :
      merge fuel (suc rounds) c x (2 ^ c) s ≡ merge fuel rounds (suc c) start (2 ^ suc c) state
  holds : Holds state free
  pos : 0 < start
  block : IsBlock (suc c) start
  moved : (a : ℕ) → cover a free + in_block (suc c) start a ≡ cover a fl + in_block c x a
  enough : (j : ℕ) → length (class_of free j) < fuel
  others : (j : ℕ) → c ≢ j → class_of free j ≡ class_of fl j

module _ {s : Buddies} {fl : FreeLists} (v : Holds s fl) (c : ℕ) (i : c < max_order) where
  merge_joins :
      (fuel rounds x : ℕ)
      → 0 < x
      → IsBlock c x
      → ((j : ℕ) → length (class_of fl j) < fuel)
      → 0 < count (bit_xor x (2 ^ c)) (class_of fl c)
      → Joined fuel rounds c x s fl
  unfolding merge
  merge_joins fuel rounds x pos block enough here =
      let buddy = bit_xor x (2 ^ c) in
      let (s1, r1, v1) = Lists.remove-Holds v c i fuel buddy (enough c) in
      let (pos', block') = Lists.listed v c i buddy here in
      let (joint, both) = merged c x block block' in
      let present : found buddy (class_of fl c) ≡ some buddy = ground arith in
      let double : mul64 (2 ^ c) 2 ≡ ok (2 ^ suc c) =
        rw (lt→ltb (2 ^ c * 2) u64_mod (omega (arith, joint.1, pow-suc 2 c)))
          (ap ok (omega (arith, pow-suc 2 c))) in
      record {
        state = s1;
        free = set fl c (erase buddy (class_of fl c));
        start = min x buddy;
        goes_on = rw (r1, present, double) refl;
        holds = v1;
        pos = omega arith;
        block = joint;
        moved = λ a. omega (arith, cover-erase v c i a buddy here, both a);
        enough = shorter v c i fuel buddy enough;
        others = λ j ne. get_or-set_ne fl c j (erase buddy (class_of fl c)) [] ne;
      }

-- What the rest of the loop does with the joint block, the whole loop does with the block.
resume :
    {s : Buddies} {fl : FreeLists} (fuel rounds c x : ℕ) (j : Joined fuel rounds c x s fl)
    → c < 19
    → Freed (suc c) j.start j.free (merge fuel rounds (suc c) j.start (2 ^ suc c) j.state)
      ⊎ Lost (suc c) j.start j.free (merge fuel rounds (suc c) j.start (2 ^ suc c) j.state)
    → Freed c x fl (merge fuel (suc rounds) c x (2 ^ c) s)
      ⊎ Lost c x fl (merge fuel (suc rounds) c x (2 ^ c) s)
resume fuel rounds c x j i (inl r) = inl (record {
  state = r.state;
  free = r.free;
  returns = j.goes_on ∙ r.returns;
  holds = r.holds;
  given = λ a. r.given a ∙ j.moved a;
})
resume fuel rounds c x j i (inr r) = inr (record {
  state = r.state;
  free = r.free;
  top = r.top;
  returns = j.goes_on ∙ r.returns;
  holds = r.holds;
  lost = λ a. r.lost a ∙ j.moved a;
  top_class = λ e. r.top_class (j.others 19 (omega arith) ∙ e);
})

count_nil : (a : ℕ) (xs : List ℕ) → 0 < count a xs → xs ≢ []
count_nil a [] h e = absurd (omega arith)
count_nil a (x ∷ xs) h e = cc

-- At the top class there is no list to go on with.
drop_top :
    {s : Buddies} {fl : FreeLists} (fuel c x : ℕ)
    → c ≡ 19
    → Joined fuel 0 c x s fl
    → 0 < count (bit_xor x (2 ^ c)) (class_of fl c)
    → Lost c x fl (merge fuel 1 c x (2 ^ c) s)
unfolding merge
drop_top {fl} fuel c x e j here = record {
  state = j.state;
  free = j.free;
  top = j.start;
  returns = j.goes_on;
  holds = j.holds;
  lost = λ a. omega (arith, j.moved a, ap (λ k. in_block (suc k) j.start a) e);
  top_class = rw (← e) (count_nil (bit_xor x (2 ^ c)) (class_of fl c) here);
}

merge-Freed :
    (rounds c : ℕ) {s : Buddies} {fl : FreeLists} (fuel x : ℕ)
    → Holds s fl
    → c + suc rounds ≡ max_order
    → 0 < x
    → IsBlock c x
    → ((a : ℕ) → cover a fl + in_block c x a ≤ 1)
    → ((j : ℕ) → length (class_of fl j) < fuel)
    → Freed c x fl (merge fuel (suc rounds) c x (2 ^ c) s)
      ⊎ Lost c x fl (merge fuel (suc rounds) c x (2 ^ c) s)
merge-Freed zero c {fl} fuel x v e pos block room enough =
    elim (ℕ_discrete (count (bit_xor x (2 ^ c)) (class_of fl c)) 0) [
      | yes alone ↦ inl (merge_stops v c (omega arith) fuel 0 x pos block room (enough c) alone)
      | no here ↦ inr (
          drop_top fuel c x (omega arith)
            (merge_joins v c (omega arith) fuel 0 x pos block enough (omega arith)) (omega arith))
    ]
merge-Freed (suc rounds) c {fl} fuel x v e pos block room enough =
    elim (ℕ_discrete (count (bit_xor x (2 ^ c)) (class_of fl c)) 0) [
      | yes alone ↦
          inl (merge_stops v c (omega arith) fuel (suc rounds) x pos block room (enough c) alone)
      | no here ↦
          let j =
            merge_joins v c (omega arith) fuel (suc rounds) x pos block enough (omega arith) in
          resume fuel (suc rounds) c x j (omega arith) (
            merge-Freed rounds (suc c) fuel j.start j.holds (omega arith) j.pos j.block
              (λ a. omega (arith, j.moved a, room a)) j.enough)
    ]

-- From lists of disjoint free blocks with their size in their headers, given the chunk at `x`, whose
-- header says 2^c bytes (c < 20), which is an aligned block apart from the free memory, `dealloc`
-- never panics, with fuel for the longest list. Either exactly that memory is free in addition
-- afterwards, in valid lists, or class 19 had a chunk, the block was merged with it, and the joint
-- megabyte is in no list at all.
pub dealloc-Freed :
    {s : Buddies} {fl : FreeLists} (fuel c x : ℕ)
    → Holds s fl
    → c < max_order
    → (s.heap x).size ≡ 2 ^ c
    → 0 < x
    → IsBlock c x
    → ((a : ℕ) → cover a fl + in_block c x a ≤ 1)
    → ((j : ℕ) → length (class_of fl j) < fuel)
    → Freed c x fl (dealloc fuel x s) ⊎ Lost c x fl (dealloc fuel x s)
unfolding dealloc
dealloc-Freed fuel c x v i header pos block room enough =
    let rounds : max_order - c ≡ suc (19 - c) = omega arith in
    rw (header, trailing_zeros_pow c (omega arith), rounds)
      (merge-Freed (19 - c) c fuel x v (omega arith) pos block room enough)
