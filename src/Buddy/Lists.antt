-- ===== src/Buddy/Lists.antt =====
-- The allocator's steps on one size class, on memory and on free lists at once.
use miniature_os.Base.{ℕ, suc, ◌+◌, ◌<◌, ◌≤◌, ◌≡◌, refl, ◌∙◌, arith}
use miniature_os.Base.{none, some, List, [], ◌∷◌, ok, get_elem?}
use miniature_os.Base.{length, get_or, set, length-set, get_elem?-eq-get_or, ◌^◌}
use miniature_os.Base.{get_or-set_self, get_or-set_ne}
use miniature_os.Buddy.{Heap, Buddies, LinkedList, max_order, new_at_address}
use native.Mathlib.Decide.{ℕ_discrete}
use miniature_os.Base.{◌⊎◌, inl, inr, true, false}
use miniature_os.Buddy.{list_pop_front, list_is_empty}
use miniature_os.Buddy.{push_front, pop_front, remove, push_new}
use miniature_os.Buddy.Chain
use miniature_os.Buddy.Chain.{Chain, count, erase, found}
use miniature_os.Buddy.Cover
use miniature_os.Buddy.Cover.{
  FreeLists, class_of, count_all, cover, Blocks, in_block, hits, IsBlock, AllBlock,
}
use miniature_os.Buddy.Rep.{Holds, Reps-set, Reps-class_of, length-Reps, class_le}

module _ {s : Buddies} {fl : FreeLists} (v : Holds s fl) (c : ℕ) (i : c < max_order) where
  in_range : c < length fl
  in_range = omega (arith, v.classes)

  zero_add : 0 + c ≡ c
  zero_add = omega arith

  head_read : get_elem? s.buddies c ≡ some (get_or s.buddies c none)
  head_read =
      get_elem?-eq-get_or s.buddies c none
        (omega (arith, v.classes, length-Reps s.heap s.buddies fl v.reps))

  old : Chain s.heap (get_or s.buddies c none) (class_of fl c)
  old = Reps-class_of s.heap s.buddies fl c in_range v.reps

  single : (a : ℕ) → count_all a fl ≤ 1
  single a = omega (arith, Cover.count_all-le-cover 0 a fl, v.disjoint a)

  single_class : (a : ℕ) → count a (class_of fl c) ≤ 1
  single_class a = omega (arith, single a, Cover.count_all-set a fl c [] in_range)

  pub cover-set :
      (a : ℕ) (ys : List ℕ)
      → cover a (set fl c ys) + hits c a (class_of fl c) ≡ cover a fl + hits c a ys
  cover-set a ys = rw zero_add at (Cover.cover-set 0 a fl c ys in_range)

  Holds-set :
      (g : Heap) (head : LinkedList) (ys : List ℕ)
      → ((a : ℕ) → count a (class_of fl c) < count_all a fl → g a ≡ s.heap a)
      → Chain g head ys
      → AllBlock c ys
      → ((a : ℕ) → cover a fl + hits c a ys ≤ suc (hits c a (class_of fl c)))
      → ((a : ℕ) → 0 < count_all a fl → (g a).size ≡ (s.heap a).size)
      → ((a : ℕ) → 0 < count a ys → (g a).size ≡ 2 ^ c)
      → Holds (record { heap = g; buddies = set s.buddies c head }) (set fl c ys)
  Holds-set g head ys same chain blocks room kept sized = record {
    reps = Reps-set s.heap g s.buddies fl c head ys same in_range chain v.reps;
    classes = length-set fl c ys ∙ v.classes;
    blocks = Cover.Blocks-set 0 fl c ys v.blocks (rw zero_add blocks);
    disjoint = λ a. omega (arith, room a, cover-set a ys);
    sizes = λ j x listed. elim (ℕ_discrete c j) [
      | yes e ↦
          let here : 0 < count x ys =
            rw (get_or-set_self fl c ys [] in_range) at (rw (← e) at listed) in
          rw (← e) (sized x here)
      | no ne ↦
          let there : 0 < count x (class_of fl j) = rw (get_or-set_ne fl c j ys [] ne) at listed in
          kept x (omega (arith, class_le x fl j)) ∙ v.sizes j x there
    ];
  }

  all_blocks : AllBlock c (class_of fl c)
  all_blocks = rw zero_add at (Cover.Blocks-class_of 0 fl c v.blocks)

  -- A free block goes to the front of its class.
  pub push_new-Holds :
      (b : ℕ)
      → 0 < b
      → IsBlock c b
      → ((a : ℕ) → cover a fl + in_block c b a ≤ 1)
      → (t : Buddies) × (push_new s c b (2 ^ c) ≡ ok t) × Holds t (set fl c (b ∷ class_of fl c))
  unfolding push_new push_front hits
  push_new-Holds b pos block room =
      let h0 : Heap = new_at_address s.heap b (2 ^ c) in
      let unused : count_all b fl ≡ 0 =
        omega (arith, room b, Cover.in_block_self c b, Cover.count_all-le-cover 0 b fl) in
      let unlisted : count b (class_of fl c) ≡ 0 =
        omega (arith, unused, Cover.count_all-set b fl c [] in_range) in
      let chain0 : Chain h0 (get_or s.buddies c none) (class_of fl c) =
        Chain.frame s.heap h0 (get_or s.buddies c none) (class_of fl c) (λ a p. ground arith) old in
      let (g, head, r, chain, same) =
        Chain.list_push_front-Chain h0 (get_or s.buddies c none) (class_of fl c) b pos unlisted
          chain0 in
      let headers = Chain.list_push_front-size h0 g (get_or s.buddies c none) head b r in
      (
        record { heap = g; buddies = set s.buddies c head },
        rw (head_read, r) refl,
        Holds-set g head (b ∷ class_of fl c) (λ a p. ground (arith, same a)) chain
            (block, all_blocks) (λ a. omega (arith, room a)) (λ a p. ground (arith, headers a))
            (λ a p. ground (arith, headers a, v.sizes c a)),
      )

  -- The first chunk of a class leaves it.
  pub pop_front-Holds :
      (x : ℕ) (xs : List ℕ)
      → class_of fl c ≡ x ∷ xs
      → (t : Buddies) × (pop_front s c ≡ ok (some x, t))
        × Holds t (set fl c xs)
        × (0 < x)
        × IsBlock c x
        × ((t.heap x).size ≡ 2 ^ c)
  unfolding pop_front hits
  pop_front-Holds x xs e =
      let chain0 = rw e at old in
      let here : 0 < count x (class_of fl c) = rw e (ground arith) in
      let once : count x (x ∷ xs) ≤ 1 = rw e at (single_class x) in
      let (g, head, r, chain, same) =
        Chain.list_pop_front-Chain s.heap (get_or s.buddies c none) x xs (ground arith) chain0 in
      let blocks0 = rw e at all_blocks in
      let headers = Chain.list_pop_front-size s.heap g (get_or s.buddies c none) head (some x) r in
      (
        record { heap = g; buddies = set s.buddies c head },
        rw (head_read, r) refl,
        Holds-set g head xs (λ a p. same a (λ q. ground (arith, single x))) chain blocks0.1
            (λ a. rw e (omega (arith, v.disjoint a))) (λ a p. headers a)
            (λ a p. headers a ∙ v.sizes c a (rw e (omega arith))),
        chain0.1,
        blocks0.0,
        headers x ∙ v.sizes c x here,
      )

  -- The chunk at `b` leaves its class if it is there.
  pub remove-Holds :
      (fuel b : ℕ)
      → length (class_of fl c) < fuel
      → (t : Buddies) × (remove fuel s c b ≡ ok (found b (class_of fl c), t))
        × Holds t (set fl c (erase b (class_of fl c)))
  unfolding remove
  remove-Holds fuel b enough =
      let (g, head, r, chain, same) =
        Chain.list_remove-Chain fuel b s.heap (get_or s.buddies c none) (class_of fl c) old
          single_class enough in
      let headers =
        Chain.list_remove-size fuel b s.heap g (get_or s.buddies c none) head
          (found b (class_of fl c)) r in
      let still_listed : (a : ℕ)
          → 0 < count a (erase b (class_of fl c))
          → 0 < count a (class_of fl c) =
        λ a p. omega (arith, Chain.count-erase-le b a (class_of fl c)) in
      (
        record { heap = g; buddies = set s.buddies c head },
        rw (head_read, r) refl,
        Holds-set g head (erase b (class_of fl c)) (λ a p. same a (omega (arith, single a))) chain
            (Cover.AllBlock-erase c b (class_of fl c) all_blocks)
            (λ a. omega (arith, v.disjoint a, Cover.hits-erase-le c a b (class_of fl c)))
            (λ a p. headers a) (λ a p. headers a ∙ v.sizes c a (still_listed a p)),
      )

  -- Popping an empty class changes no free list.
  pub pop_front-empty :
      class_of fl c ≡ [] → (t : Buddies) × (pop_front s c ≡ ok (none, t)) × Holds t (set fl c [])
  unfolding pop_front list_pop_front hits
  pop_front-empty e =
      let chain0 : get_or s.buddies c none ≡ none = rw e at old in
      (
        record { heap = s.heap; buddies = set s.buddies c none },
        rw (head_read, chain0) refl,
        Holds-set s.heap none [] (λ a p. refl) refl tt (λ a. omega (arith, v.disjoint a))
            (λ a p. refl) (λ a p. absurd (omega arith)),
      )

  -- The test of the code, on the free lists.
  pub class_is_empty :
      (list_is_empty (get_or s.buddies c none) ≡ true) × (class_of fl c ≡ [])
      ⊎ (list_is_empty (get_or s.buddies c none) ≡ false)
        × ((x : ℕ) × (xs : List ℕ) × (class_of fl c ≡ x ∷ xs))
  class_is_empty = go (class_of fl c) refl old
    where
      go :
          (ys : List ℕ)
          → class_of fl c ≡ ys
          → Chain s.heap (get_or s.buddies c none) ys
          → (list_is_empty (get_or s.buddies c none) ≡ true) × (class_of fl c ≡ [])
            ⊎ (list_is_empty (get_or s.buddies c none) ≡ false)
              × ((x : ℕ) × (xs : List ℕ) × (class_of fl c ≡ x ∷ xs))
      go [] e chain = inl (rw chain, e)
      go (x ∷ xs) e chain = inr (rw chain.0, (x, xs, e))

  pub read_head : get_elem? s.buddies c ≡ some (get_or s.buddies c none)
  read_head = head_read

  -- A chunk that is listed is a block, and no null pointer.
  pub listed : (b : ℕ) → 0 < count b (class_of fl c) → (0 < b) × IsBlock c b
  listed b here = go (class_of fl c) (get_or s.buddies c none) old all_blocks here
    where
      go :
          (xs : List ℕ) (head : LinkedList)
          → Chain s.heap head xs
          → AllBlock c xs
          → 0 < count b xs
          → (0 < b) × IsBlock c b
      go [] head chain blocks n = absurd (omega arith)
      go (x ∷ xs) head chain blocks n = elim (ℕ_discrete x b) [
        | yes e ↦ rw (← e) (chain.1, blocks.0)
        | no ne ↦ go xs (s.heap x).next chain.2 blocks.1 (ground arith)
      ]
