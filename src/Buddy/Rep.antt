-- ===== src/Buddy/Rep.antt =====
-- The allocator's lists in memory against lists of free blocks.
use miniature_os.Base.{ℕ, zero, suc, ◌^◌, ◌<◌, ◌≤◌, ◌≡◌, refl, arith}
use miniature_os.Base.{none, List, [], ◌∷◌}
use miniature_os.Base.{length, get_or, set}
use miniature_os.Base.{ap, ◌∙◌}
use miniature_os.Buddy.{Chunk, Heap, Buddies, LinkedList, max_order}
use miniature_os.Buddy.Chain
use miniature_os.Buddy.Chain.{Chain, count}
use miniature_os.Buddy.Cover.{FreeLists, class_of, count_all, cover, Blocks}

abbrev pub Reps : Heap → List LinkedList → FreeLists → Type 0
Reps h [] [] = Unit {0}
Reps h [] (_ ∷ _) = ⊥
Reps h (_ ∷ _) [] = ⊥
Reps h (head ∷ hs) (xs ∷ fl) = Chain h head xs × Reps h hs fl

-- The memory of `s` holds the free lists `fl`: 20 classes of valid blocks that do not overlap, with
-- the size of its class in the header of each block.
pub record Holds (s : Buddies) (fl : FreeLists) : Type 0 where
  pub reps : Reps s.heap s.buddies fl
  pub classes : length fl ≡ max_order
  pub blocks : Blocks 0 fl
  pub disjoint : (a : ℕ) → cover a fl ≤ 1
  pub sizes : (c x : ℕ) → 0 < count x (class_of fl c) → (s.heap x).size ≡ 2 ^ c

pub length-Reps :
    (h : Heap) (hs : List LinkedList) (fl : FreeLists) → Reps h hs fl → length hs ≡ length fl
length-Reps h [] [] r = refl
length-Reps h [] (_ ∷ _) r = absurd r
length-Reps h (_ ∷ _) [] r = absurd r
length-Reps h (head ∷ hs) (xs ∷ fl) r = omega (arith, length-Reps h hs fl r.1)

Reps-frame :
    (h g : Heap) (hs : List LinkedList) (fl : FreeLists)
    → ((a : ℕ) → 0 < count_all a fl → g a ≡ h a)
    → Reps h hs fl
    → Reps g hs fl
Reps-frame h g [] [] same r = tt
Reps-frame h g [] (_ ∷ _) same r = r
Reps-frame h g (_ ∷ _) [] same r = r
Reps-frame h g (head ∷ hs) (xs ∷ fl) same r = (
  Chain.frame h g head xs (λ a i. same a (omega arith)) r.0,
  Reps-frame h g hs fl (λ a i. same a (omega arith)) r.1,
)

pub Reps-class_of :
    (h : Heap) (hs : List LinkedList) (fl : FreeLists) (c : ℕ)
    → c < length fl
    → Reps h hs fl
    → Chain h (get_or hs c none) (class_of fl c)
Reps-class_of h [] [] c i r = refl
Reps-class_of h [] (_ ∷ _) c i r = absurd r
Reps-class_of h (_ ∷ _) [] c i r = absurd r
Reps-class_of h (head ∷ hs) (xs ∷ fl) zero i r = r.0
Reps-class_of h (head ∷ hs) (xs ∷ fl) (suc c) i r = Reps-class_of h hs fl c (omega arith) r.1

pub class_le : (a : ℕ) (fl : FreeLists) (c : ℕ) → count a (class_of fl c) ≤ count_all a fl
class_le a [] c = omega arith
class_le a (xs ∷ fl) zero = omega arith
class_le a (xs ∷ fl) (suc c) = omega (arith, class_le a fl c)

-- One list is replaced, and the memory of the others is left alone.
pub Reps-set :
    (h g : Heap) (hs : List LinkedList) (fl : FreeLists) (c : ℕ) (head : LinkedList) (ys : List ℕ)
    → ((a : ℕ) → count a (class_of fl c) < count_all a fl → g a ≡ h a)
    → c < length fl
    → Chain g head ys
    → Reps h hs fl
    → Reps g (set hs c head) (set fl c ys)
Reps-set h g [] [] c head ys same i new r = absurd (omega arith)
Reps-set h g [] (_ ∷ _) c head ys same i new r = absurd r
Reps-set h g (_ ∷ _) [] c head ys same i new r = absurd r
Reps-set h g (old ∷ hs) (xs ∷ fl) zero head ys same i new r =
    (new, Reps-frame h g hs fl (λ a p. same a (omega arith)) r.1)
Reps-set h g (old ∷ hs) (xs ∷ fl) (suc c) head ys same i new r = (
  Chain.frame h g old xs (λ a p. same a (omega (arith, class_le a fl c))) r.0,
  Reps-set h g hs fl c head ys (λ a p. same a (omega arith)) (omega arith) new r.1,
)

-- The lists stay valid when memory changes away from their chunks.
pub Holds-frame :
    {s : Buddies} {fl : FreeLists} (g : Heap)
    → Holds s fl
    → ((a : ℕ) → 0 < count_all a fl → g a ≡ s.heap a)
    → Holds (record s { heap = g }) fl
Holds-frame {s} {fl} g v same = record {
  reps = Reps-frame s.heap g s.buddies fl same v.reps;
  classes = v.classes;
  blocks = v.blocks;
  disjoint = v.disjoint;
  sizes = λ c x here.
      let kept : g x ≡ s.heap x = same x (omega (arith, here, class_le x fl c)) in
      ap (λ (k : Chunk). k.size) kept ∙ v.sizes c x here;
}
