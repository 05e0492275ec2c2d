-- ===== src/IntrusiveList/Links.antt =====
-- Lists of nodes in the heap, and what the two ends of a list do to them.
use miniature_os.Base.{ℕ, ◌≡◌, ◌≢◌, refl, sym, ◌∙◌, arith}
use miniature_os.Base.{List, [], ◌∷◌, ◌++◌, Option, none, some}
use miniature_os.IntrusiveList.{Heap, get_next, get_prev, set_next, set_prev}

-- `p` is none of the nodes.
abbrev pub NotIn : ℕ → List ℕ → Type 0
NotIn p [] = Unit {0}
NotIn p (q ∷ qs) = (p ≢ q) × NotIn p qs

abbrev pub Distinct : List ℕ → Type 0
Distinct [] = Unit {0}
Distinct (p ∷ ps) = NotIn p ps × Distinct ps

-- Each node leads to the next one, and that one back.
abbrev pub Linked : Heap → List ℕ → Type 0
Linked h [] = Unit {0}
Linked h (p ∷ []) = Unit {0}
Linked h (p ∷ q ∷ ps) = (get_next h p ≡ some q) × (get_prev h q ≡ some p) × Linked h (q ∷ ps)

abbrev pub first : List ℕ → Option ℕ
first [] = none
first (p ∷ ps) = some p

abbrev pub last : List ℕ → Option ℕ
last [] = none
last (p ∷ []) = some p
last (p ∷ q ∷ ps) = last (q ∷ ps)

abbrev pub Keeps : (Heap → ℕ → Option ℕ) → Heap → Heap → List ℕ → Type 0
Keeps field h h' [] = Unit {0}
Keeps field h h' (p ∷ ps) = (field h' p ≡ field h p) × Keeps field h h' ps

pub next_set_next : (h : Heap) (p : ℕ) (v : Option ℕ) → get_next (set_next h p v) p ≡ v
unfolding set_next
next_set_next h p v = ground arith

pub next_set_prev : (h : Heap) (p q : ℕ) (v : Option ℕ) → get_next (set_prev h p v) q ≡ get_next h q
unfolding set_prev
next_set_prev h p q v = ground arith

pub prev_set_prev : (h : Heap) (p : ℕ) (v : Option ℕ) → get_prev (set_prev h p v) p ≡ v
unfolding set_prev
prev_set_prev h p v = ground arith

pub prev_set_next : (h : Heap) (p q : ℕ) (v : Option ℕ) → get_prev (set_next h p v) q ≡ get_prev h q
unfolding set_next
prev_set_next h p q v = ground arith

pub next_set_ne :
    (h : Heap) (p q : ℕ) (v : Option ℕ) → p ≢ q → get_next (set_next h p v) q ≡ get_next h q
unfolding set_next
next_set_ne h p q v ne = ground arith

pub prev_set_ne :
    (h : Heap) (p q : ℕ) (v : Option ℕ) → p ≢ q → get_prev (set_prev h p v) q ≡ get_prev h q
unfolding set_prev
prev_set_ne h p q v ne = ground arith

-- A list whose pointers are kept is still linked.
pub Linked-Keeps :
    (h h' : Heap) (p : ℕ) (ps : List ℕ)
    → Keeps get_next h h' (p ∷ ps)
    → Keeps get_prev h h' ps
    → Linked h (p ∷ ps)
    → Linked h' (p ∷ ps)
Linked-Keeps h h' p [] n v l = tt
Linked-Keeps h h' p (q ∷ ps) (n, ns) (v, vs) (np, vq, l) =
    (n ∙ np, v ∙ vq, Linked-Keeps h h' q ps ns vs l)

pub Keeps-next :
    (h : Heap) (p : ℕ) (v : Option ℕ) (qs : List ℕ)
    → NotIn p qs
    → Keeps get_next h (set_next h p v) qs
Keeps-next h p v [] out = tt
Keeps-next h p v (q ∷ qs) (ne, out) = (next_set_ne h p q v ne, Keeps-next h p v qs out)

pub Keeps-prev :
    (h : Heap) (p : ℕ) (v : Option ℕ) (qs : List ℕ)
    → NotIn p qs
    → Keeps get_prev h (set_prev h p v) qs
Keeps-prev h p v [] out = tt
Keeps-prev h p v (q ∷ qs) (ne, out) = (prev_set_ne h p q v ne, Keeps-prev h p v qs out)

pub Keeps-next_prev :
    (h : Heap) (p : ℕ) (v : Option ℕ) (qs : List ℕ) → Keeps get_next h (set_prev h p v) qs
Keeps-next_prev h p v [] = tt
Keeps-next_prev h p v (q ∷ qs) = (next_set_prev h p q v, Keeps-next_prev h p v qs)

pub Keeps-prev_next :
    (h : Heap) (p : ℕ) (v : Option ℕ) (qs : List ℕ) → Keeps get_prev h (set_next h p v) qs
Keeps-prev_next h p v [] = tt
Keeps-prev_next h p v (q ∷ qs) = (prev_set_next h p q v, Keeps-prev_next h p v qs)

pub Keeps-trans :
    (field : Heap → ℕ → Option ℕ) (h h' h'' : Heap) (qs : List ℕ)
    → Keeps field h h' qs
    → Keeps field h' h'' qs
    → Keeps field h h'' qs
Keeps-trans field h h' h'' [] k k' = tt
Keeps-trans field h h' h'' (q ∷ qs) (e, k) (e', k') = (e' ∙ e, Keeps-trans field h h' h'' qs k k')

-- A node behind the last one.
pub Linked-snoc :
    (h h' : Heap) (ps : List ℕ) (t x : ℕ)
    → Keeps get_next h h' ps
    → Keeps get_prev h h' (ps ++ t ∷ [])
    → get_next h' t ≡ some x
    → get_prev h' x ≡ some t
    → Linked h (ps ++ t ∷ [])
    → Linked h' (ps ++ t ∷ x ∷ [])
Linked-snoc h h' [] t x ns vs n v l = (n, v, tt)
Linked-snoc h h' (p ∷ []) t x (np, ns) (vp, (vt, vs)) n v (a, b, l) = (np ∙ a, vt ∙ b, (n, v, tt))
Linked-snoc h h' (p ∷ q ∷ ps) t x (np, ns) (vp, (vq, vs)) n v (a, b, l) =
    (np ∙ a, vq ∙ b, Linked-snoc h h' (q ∷ ps) t x ns (vq, vs) n v l)

-- The list without its last node.
pub Linked-init :
    (h h' : Heap) (ps : List ℕ) (t x : ℕ)
    → Keeps get_next h h' ps
    → Keeps get_prev h h' (ps ++ t ∷ [])
    → Linked h (ps ++ t ∷ x ∷ [])
    → Linked h' (ps ++ t ∷ [])
Linked-init h h' [] t x ns vs l = tt
Linked-init h h' (p ∷ []) t x (np, ns) (vp, (vt, vs)) (a, b, l) = (np ∙ a, vt ∙ b, tt)
Linked-init h h' (p ∷ q ∷ ps) t x (np, ns) (vp, (vq, vs)) (a, b, l) =
    (np ∙ a, vq ∙ b, Linked-init h h' (q ∷ ps) t x ns (vq, vs) l)

-- The last node leads back to the one before it.
pub Linked-back :
    (h : Heap) (ps : List ℕ) (t x : ℕ) → Linked h (ps ++ t ∷ x ∷ []) → get_prev h x ≡ some t
Linked-back h [] t x (n, v, l) = v
Linked-back h (p ∷ []) t x (a, b, l) = l.1
Linked-back h (p ∷ q ∷ ps) t x (a, b, l) = Linked-back h (q ∷ ps) t x l

pub last-snoc : (ps : List ℕ) (x : ℕ) → last (ps ++ x ∷ []) ≡ some x
last-snoc [] x = refl
last-snoc (p ∷ []) x = refl
last-snoc (p ∷ q ∷ ps) x = last-snoc (q ∷ ps) x

pub NotIn-snoc : (p : ℕ) (qs : List ℕ) (x : ℕ) → NotIn p qs → p ≢ x → NotIn p (qs ++ x ∷ [])
NotIn-snoc p [] x out ne = (ne, tt)
NotIn-snoc p (q ∷ qs) x (n, out) ne = (n, NotIn-snoc p qs x out ne)

pub Distinct-snoc : (ps : List ℕ) (x : ℕ) → Distinct ps → NotIn x ps → Distinct (ps ++ x ∷ [])
Distinct-snoc [] x d out = (tt, tt)
Distinct-snoc (p ∷ ps) x (n, d) (ne, out) =
    (NotIn-snoc p ps x n (λ e. ne (sym e)), Distinct-snoc ps x d out)

-- What a list with a last node is without it.
pub NotIn-init : (p : ℕ) (qs : List ℕ) (x : ℕ) → NotIn p (qs ++ x ∷ []) → NotIn p qs × (p ≢ x)
NotIn-init p [] x (ne, out) = (tt, ne)
NotIn-init p (q ∷ qs) x (n, out) = let (o, ne) = NotIn-init p qs x out in ((n, o), ne)

pub Distinct-init : (qs : List ℕ) (x : ℕ) → Distinct (qs ++ x ∷ []) → Distinct qs × NotIn x qs
Distinct-init [] x d = (tt, tt)
Distinct-init (q ∷ qs) x (n, d) =
    let (d', out) = Distinct-init qs x d in
    let (n', ne) = NotIn-init q qs x n in ((n', d'), ((λ e. ne (sym e)), out))
