-- ===== src/Buddy/Cover.antt =====
-- What free lists stand for: the blocks of memory that they hold, counted address by address.
use miniature_os.Base.{ℕ, zero, suc, ◌+◌, ◌^◌, ◌%◌, ◌<◌, ◌≤◌, ◌≡◌, arith}
use miniature_os.Base.{List, [], ◌∷◌, ◌&&◌}
use miniature_os.Base.{length, get_or, set, ltb, leb, if◌then◌else◌, u64_mod}
use native.Mathlib.Nat.{one-le-pow}
use miniature_os.Buddy.Chain.{count, erase}

-- The addresses of the free chunks of each size class.
abbrev pub FreeLists : Type 0
FreeLists = List (List ℕ)

abbrev pub class_of : FreeLists → ℕ → List ℕ
class_of fl c = get_or fl c []

-- 1 if the block of class `c` at `x` holds the address `a`, else 0.
unfoldable pub in_block : ℕ → ℕ → ℕ → ℕ
in_block c x a = if leb x a && ltb a (x + 2 ^ c) then 1 else 0

unfoldable pub hits : ℕ → ℕ → List ℕ → ℕ
hits c a [] = 0
hits c a (x ∷ xs) = in_block c x a + hits c a xs

unfoldable pub cover_from : ℕ → ℕ → FreeLists → ℕ
cover_from k a [] = 0
cover_from k a (xs ∷ fl) = hits k a xs + cover_from (suc k) a fl

-- How many free blocks hold the address `a`.
abbrev pub cover : ℕ → FreeLists → ℕ
cover a fl = cover_from 0 a fl

abbrev pub count_all : ℕ → FreeLists → ℕ
count_all a [] = 0
count_all a (xs ∷ fl) = count a xs + count_all a fl

-- A block of class `c` is aligned to its size and ends in the address space.
abbrev pub IsBlock : ℕ → ℕ → Type 0
IsBlock c x = (x % 2 ^ c ≡ 0) × (x + 2 ^ c ≤ u64_mod)

abbrev pub AllBlock : ℕ → List ℕ → Type 0
AllBlock c [] = Unit {0}
AllBlock c (x ∷ xs) = IsBlock c x × AllBlock c xs

abbrev pub Blocks : ℕ → FreeLists → Type 0
Blocks k [] = Unit {0}
Blocks k (xs ∷ fl) = AllBlock k xs × Blocks (suc k) fl

pub in_block_self : (c x : ℕ) → in_block c x x ≡ 1
unfolding in_block
in_block_self c x = ground (arith, one-le-pow c 2)

pub count-le-hits : (c a : ℕ) (xs : List ℕ) → count a xs ≤ hits c a xs
unfolding hits
count-le-hits c a [] = omega arith
count-le-hits c a (x ∷ xs) =
    ground (arith, count-le-hits c a xs, in_block_self c x, in_block_self c a)

pub count_all-le-cover : (k a : ℕ) (fl : FreeLists) → count_all a fl ≤ cover_from k a fl
unfolding cover_from
count_all-le-cover k a [] = omega arith
count_all-le-cover k a (xs ∷ fl) =
    omega (arith, count-le-hits k a xs, count_all-le-cover (suc k) a fl)

pub count_all-set :
    (a : ℕ) (fl : FreeLists) (c : ℕ) (ys : List ℕ)
    → c < length fl
    → count_all a (set fl c ys) + count a (class_of fl c) ≡ count_all a fl + count a ys
count_all-set a [] c ys h = absurd (omega arith)
count_all-set a (xs ∷ fl) zero ys h = omega arith
count_all-set a (xs ∷ fl) (suc c) ys h = omega (arith, count_all-set a fl c ys (omega arith))

pub cover-set :
    (k a : ℕ) (fl : FreeLists) (c : ℕ) (ys : List ℕ)
    → c < length fl
    → cover_from k a (set fl c ys) + hits (k + c) a (class_of fl c)
      ≡ cover_from k a fl + hits (k + c) a ys
unfolding cover_from
cover-set k a [] c ys h = absurd (omega arith)
cover-set k a (xs ∷ fl) zero ys h = let e : k + 0 ≡ k = omega arith in rw e (omega arith)
cover-set k a (xs ∷ fl) (suc c) ys h =
    let e : k + suc c ≡ suc k + c = omega arith in
    rw e (omega (arith, cover-set (suc k) a fl c ys (omega arith)))

pub hits-erase :
    (c a b : ℕ) (xs : List ℕ)
    → 0 < count b xs
    → hits c a (erase b xs) + in_block c b a ≡ hits c a xs
unfolding hits erase
hits-erase c a b [] h = absurd (omega arith)
hits-erase c a b (x ∷ xs) h = ground (arith, hits-erase c a b xs)

pub hits-erase-le : (c a b : ℕ) (xs : List ℕ) → hits c a (erase b xs) ≤ hits c a xs
unfolding hits erase
hits-erase-le c a b [] = omega arith
hits-erase-le c a b (x ∷ xs) = ground (arith, hits-erase-le c a b xs)

pub AllBlock-erase : (c b : ℕ) (xs : List ℕ) → AllBlock c xs → AllBlock c (erase b xs)
unfolding erase
AllBlock-erase c b [] h = tt
AllBlock-erase c b (x ∷ xs) h = ground (arith, AllBlock-erase c b xs h.1)

pub Blocks-class_of :
    (k : ℕ) (fl : FreeLists) (c : ℕ) → Blocks k fl → AllBlock (k + c) (class_of fl c)
Blocks-class_of k [] c h = tt
Blocks-class_of k (xs ∷ fl) zero h = let e : k + 0 ≡ k = omega arith in rw e h.0
Blocks-class_of k (xs ∷ fl) (suc c) h =
    let e : k + suc c ≡ suc k + c = omega arith in rw e (Blocks-class_of (suc k) fl c h.1)

pub Blocks-set :
    (k : ℕ) (fl : FreeLists) (c : ℕ) (ys : List ℕ)
    → Blocks k fl
    → AllBlock (k + c) ys
    → Blocks k (set fl c ys)
Blocks-set k [] c ys h g = tt
Blocks-set k (xs ∷ fl) zero ys h g = (let e : k + 0 ≡ k = omega arith in rw e at g, h.1)
Blocks-set k (xs ∷ fl) (suc c) ys h g =
    let e : k + suc c ≡ suc k + c = omega arith in (h.0, Blocks-set (suc k) fl c ys h.1 (rw e at g))
