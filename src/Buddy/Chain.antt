-- ===== src/Buddy/Chain.antt =====
-- The linked lists of free chunks against lists of addresses.
use miniature_os.Base.{ℕ, zero, suc, ◌+◌, ◌<◌, ◌≤◌, ◌≤◌, ◌≡◌, ◌≢◌, ◌∙◌, refl, arith, inl, inr}
use miniature_os.Base.{Option, none, some, List, [], ◌∷◌}
use miniature_os.Base.{length, ◌==◌, if◌then◌else◌, Bool-cases, Run, ok}
use miniature_os.Buddy.{Heap, write, LinkedList, unlink}
use miniature_os.Buddy.{list_push_front, list_pop_front, remove_loop, list_remove}

-- From `head` the `next` pointers lead through the addresses `xs`, and end.
abbrev pub Chain : Heap → LinkedList → List ℕ → Type 0
Chain h head [] = head ≡ none
Chain h head (x ∷ xs) = (head ≡ some x) × (0 < x) × Chain h (h x).next xs

abbrev pub count : ℕ → List ℕ → ℕ
count a [] = 0
count a (x ∷ xs) = (if x == a then 1 else 0) + count a xs

-- Drops the first occurrence.
unfoldable pub erase : ℕ → List ℕ → List ℕ
erase a [] = []
erase a (x ∷ xs) = if x == a then xs else x ∷ erase a xs

pub count-erase_self :
    (a : ℕ) (xs : List ℕ) → 0 < count a xs → suc (count a (erase a xs)) ≡ count a xs
unfolding erase
count-erase_self a [] h = absurd (omega arith)
count-erase_self a (x ∷ xs) h = ground (arith, count-erase_self a xs)

pub count-erase_ne : (a b : ℕ) (xs : List ℕ) → a ≢ b → count b (erase a xs) ≡ count b xs
unfolding erase
count-erase_ne a b [] h = refl
count-erase_ne a b (x ∷ xs) h = ground (arith, count-erase_ne a b xs)

pub count-erase-le : (a b : ℕ) (xs : List ℕ) → count b (erase a xs) ≤ count b xs
unfolding erase
count-erase-le a b [] = omega arith
count-erase-le a b (x ∷ xs) = ground (arith, count-erase-le a b xs)

pub erase_absent : (a : ℕ) (xs : List ℕ) → count a xs ≡ 0 → erase a xs ≡ xs
unfolding erase
erase_absent a [] h = refl
erase_absent a (x ∷ xs) h = ground (arith, erase_absent a xs)

-- A list does not notice a change of memory away from its own chunks.
pub frame :
    (h g : Heap) (head : LinkedList) (xs : List ℕ)
    → ((a : ℕ) → 0 < count a xs → g a ≡ h a)
    → Chain h head xs
    → Chain g head xs
frame h g head [] same c = c
frame h g head (x ∷ xs) same (e, p, c) =
    let here : g x ≡ h x = same x (ground arith) in
    (e, p, rw here (frame h g (h x).next xs (λ a i. same a (ground arith)) c))

abbrev pub Pushed : Heap → ℕ → List ℕ → LinkedList → Run (Heap × LinkedList) → Type 0
Pushed h b xs head r =
    (g : Heap) × (head' : LinkedList) × (r ≡ ok (g, head'))
    × Chain g head' (b ∷ xs)
    × ((a : ℕ) → a ≢ b → g a ≡ h a)

pub list_push_front-Chain :
    (h : Heap) (head : LinkedList) (xs : List ℕ) (b : ℕ)
    → 0 < b
    → count b xs ≡ 0
    → Chain h head xs
    → Pushed h b xs head (list_push_front h head b)
unfolding list_push_front
list_push_front-Chain h head xs b pos out c =
    let g : Heap = write h b (record { next = head; size = (h b).size }) in
    let here : (g b).next ≡ head = ground arith in
    (
      g,
      some b,
      ground arith,
      (refl, pos, rw here (frame h g head xs (λ a i. ground arith) c)),
      λ a ne. ground arith,
    )

pub list_pop_front-Chain :
    (h : Heap) (head : LinkedList) (x : ℕ) (xs : List ℕ)
    → count x xs ≡ 0
    → Chain h head (x ∷ xs)
    → (g : Heap) × (head' : LinkedList) × (list_pop_front h head ≡ (some x, g, head'))
      × Chain g head' xs
      × ((a : ℕ) → a ≢ x → g a ≡ h a)
unfolding list_pop_front
list_pop_front-Chain h head x xs out (e, p, c) =
    let g : Heap = write h x (record { next = none; size = (h x).size }) in
    (g, (h x).next, rw e, frame h g (h x).next xs (λ a i. ground arith) c, λ a ne. ground arith)

abbrev pub found : ℕ → List ℕ → Option ℕ
found a xs = if 0 == count a xs then none else some a

remove_after :
    (fuel start : ℕ) (h : Heap) (head : LinkedList) (q : ℕ) (cur : LinkedList) (xs : List ℕ)
    → (h q).next ≡ cur
    → Chain h cur xs
    → count q xs ≡ 0
    → ((a : ℕ) → count a xs ≤ 1)
    → length xs < fuel
    → (g : Heap) × (remove_loop fuel start h head (some q) cur ≡ ok (found start xs, g, head))
      × Chain g (g q).next (erase start xs)
      × ((a : ℕ) → a ≢ q → count a xs ≡ 0 → g a ≡ h a)
unfolding remove_loop erase
remove_after zero start h head q cur xs n c out single enough = absurd (omega arith)
remove_after (suc fuel) start h head q cur [] n c out single enough =
    (h, rw c, n ∙ c, λ a ne i. refl)
remove_after (suc fuel) start h head q cur (x ∷ xs) n (e, p, c) out single enough =
    elim (Bool-cases (x == start)) [
      | inl hit ↦
          let g : Heap = write h q (record { next = (h x).next; size = (h q).size }) in
          let here : (g q).next ≡ (h x).next = ground arith in
          (
            g,
            rw (e, hit) (ground arith),
            rw (hit, here) (frame h g (h x).next xs (λ a i. ground arith) c),
            λ a ne i. ground arith,
          )
      | inr miss ↦
          let (g, r, c', same) =
            remove_after fuel start h head x (h x).next xs refl c (ground (arith, single x))
              (λ a. ground (arith, single a)) (omega arith) in
          let before : g q ≡ h q = same q (ground arith) (ground arith) in
          (
            g,
            rw (e, miss) (r ∙ ground arith),
            rw (miss, before, n, e) (refl, p, c'),
            λ a ne i. same a (ground arith) (ground arith),
          )
    ]

-- On a list in memory that holds no chunk twice, `LinkedList::remove` with fuel for the whole list
-- finds the chunk at `start` exactly if it is in the list, and leaves the list without it; memory
-- that is no chunk of the list is unchanged.
pub list_remove-Chain :
    (fuel start : ℕ) (h : Heap) (head : LinkedList) (xs : List ℕ)
    → Chain h head xs
    → ((a : ℕ) → count a xs ≤ 1)
    → length xs < fuel
    → (g : Heap) × (head' : LinkedList) × (list_remove fuel h head start
        ≡ ok (found start xs, g, head'))
      × Chain g head' (erase start xs)
      × ((a : ℕ) → count a xs ≡ 0 → g a ≡ h a)
unfolding list_remove erase
list_remove-Chain zero start h head xs c single enough = absurd (omega arith)
list_remove-Chain (suc fuel) start h head [] c single enough = (h, none, rw c, refl, λ a i. refl)
list_remove-Chain (suc fuel) start h head (x ∷ xs) (e, p, c) single enough =
    elim (Bool-cases (x == start)) [
      | inl hit ↦ (h, (h x).next, rw (e, hit) (ground arith), rw hit c, λ a i. refl)
      | inr miss ↦
          let (g, r, c', same) =
            remove_after fuel start h (some x) x (h x).next xs refl c (ground (arith, single x))
              (λ a. ground (arith, single a)) (omega arith) in
          (
            g,
            some x,
            rw (e, miss) (r ∙ ground arith),
            rw miss (refl, p, c'),
            λ a i. same a (ground arith) (ground arith),
          )
    ]

pub length-erase : (a : ℕ) (xs : List ℕ) → length (erase a xs) ≤ length xs
unfolding erase
length-erase a [] = omega arith
length-erase a (x ∷ xs) = ground (arith, length-erase a xs)

-- The operations on a list keep the sizes in the headers.
pub list_push_front-size :
    (h g : Heap) (head head' : LinkedList) (b : ℕ)
    → list_push_front h head b ≡ ok (g, head')
    → (a : ℕ) → (g a).size ≡ (h a).size
unfolding list_push_front
list_push_front-size h g head head' b r a = ground arith

pub list_pop_front-size :
    (h g : Heap) (head head' : LinkedList) (popped : Option ℕ)
    → list_pop_front h head ≡ (popped, g, head')
    → (a : ℕ) → (g a).size ≡ (h a).size
unfolding list_pop_front
list_pop_front-size h g none head' popped r a = ground arith
list_pop_front-size h g (some x) head' popped r a = ground arith

unlink-size :
    (h : Heap) (head : LinkedList) (last : Option ℕ) (cur a : ℕ)
    → ((unlink h head last cur).0 a).size ≡ (h a).size
unlink-size h head none cur a = refl
unlink-size h head (some q) cur a = ground arith

remove_loop-size :
    (fuel start : ℕ) (h g : Heap) (head head' : LinkedList) (last cur out : Option ℕ)
    → remove_loop fuel start h head last cur ≡ ok (out, g, head')
    → (a : ℕ) → (g a).size ≡ (h a).size
unfolding remove_loop
remove_loop-size zero start h g head head' last cur out r a = cc
remove_loop-size (suc fuel) start h g head head' last none out r a = ground arith
remove_loop-size (suc fuel) start h g head head' last (some p) out r a =
    elim (Bool-cases (p == start)) [
      | inl hit ↦
          let q = rw hit at r in
          let e : (unlink h head last p).0 ≡ g = cc in rw (← e) (unlink-size h head last p a)
      | inr miss ↦
          remove_loop-size fuel start h g head head' (some p) (h p).next out (rw miss at r) a
    ]

pub list_remove-size :
    (fuel start : ℕ) (h g : Heap) (head head' : LinkedList) (out : Option ℕ)
    → list_remove fuel h head start ≡ ok (out, g, head')
    → (a : ℕ) → (g a).size ≡ (h a).size
unfolding list_remove
list_remove-size fuel start h g head head' out r a =
    remove_loop-size fuel start h g head head' none head out r a
