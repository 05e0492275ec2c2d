-- ===== src/IntrusiveList/Deque.antt =====
-- The list as a double-ended queue of nodes, and where `pop_front` breaks it.
use miniature_os.Base.{ℕ, ◌+◌, ◌-◌, ◌≤◌, ◌<◌, ◌≡◌, ◌≢◌, ◌⊎◌, inl, inr, refl, sym, ap, ◌∙◌, arith}
use miniature_os.Base.{List, [], ◌∷◌, ◌++◌, Option, none, some, true, false, length, length-append}
use mathlib.Core.Path.{subst}
use miniature_os.Base.{Run, ok, ◌>>=◌, ◌==◌, ne→==, ==_self, ltb, leb, lt→ltb, le→leb, u64_mod}
use miniature_os.IntrusiveList.{
  IntrusiveLinkedList, State, get_next, get_prev, set_next, set_prev, push_front, push_back,
  pop_front, pop_back, is_empty,
}
use miniature_os.IntrusiveList.Links.{
  NotIn, Distinct, Linked, first, last, next_set_next, next_set_prev, prev_set_prev, Linked-Keeps,
  Keeps-next, Keeps-prev, Keeps-next_prev, Keeps-prev_next, Keeps-trans, Linked-snoc, Linked-init,
  Linked-back, last-snoc, Distinct-snoc, Distinct-init,
}

-- The list has the nodes `ps`, in this order.
pub record IsList (s : State) (ps : List ℕ) : Type 0 where
  pub head : s.0.head ≡ first ps
  pub tail : s.0.tail ≡ last ps
  pub len : s.0.len ≡ length ps
  pub linked : Linked s.1 ps
  pub distinct : Distinct ps

abbrev list_of : Option ℕ → Option ℕ → ℕ → IntrusiveLinkedList
list_of head tail len = record { head = head; tail = tail; len = len }

push_front_lem :
    (x : ℕ) (ps : List ℕ) (s : State)
    → IsList s ps
    → NotIn x ps
    → length ps + 1 < u64_mod
    → (s' : State) × (push_front x s ≡ ok s') × IsList s' (x ∷ ps)
unfolding push_front
push_front_lem x [] (l, h) is out small =
    let fits : ltb (l.len + 1) u64_mod ≡ true = lt→ltb _ _ (omega (arith, is.len)) in
    (
      (list_of (some x) (some x) (l.len + 1), h),
      rw (is.head, fits) refl,
      record {
        head = refl;
        tail = refl;
        len = omega (arith, is.len);
        linked = tt;
        distinct = (tt, tt);
      },
    )
push_front_lem x (p ∷ ps) (l, h) is out small =
    let fits : ltb (l.len + 1) u64_mod ≡ true = lt→ltb _ _ (omega (arith, is.len)) in
    let h1 = set_next h x (some p) in
    let h2 = set_prev h1 p (some x) in
    (
      (list_of (some x) l.tail (l.len + 1), h2),
      rw (is.head, fits) refl,
      record {
        head = refl;
        tail = is.tail;
        len = omega (arith, is.len);
        linked = (
          next_set_prev h1 p x (some x) ∙ next_set_next h x (some p),
          prev_set_prev h1 p (some x),
          Linked-Keeps h h2 p ps
              (Keeps-trans get_next h h1 h2 (p ∷ ps) (Keeps-next h x (some p) (p ∷ ps) out)
                (Keeps-next_prev h1 p (some x) (p ∷ ps)))
              (Keeps-trans get_prev h h1 h2 ps (Keeps-prev_next h x (some p) ps)
                (Keeps-prev h1 p (some x) ps is.distinct.0))
              is.linked,
        );
        distinct = (out, is.distinct);
      },
    )

-- A list is empty, or has a last node.
view : (ps : List ℕ) → (ps ≡ []) ⊎ ((qs : List ℕ) × (x : ℕ) × (ps ≡ qs ++ x ∷ []))
view [] = inl refl
view (p ∷ ps) = elim (view ps) [
  | inl e ↦ inr ([], p, ap (λ (r : List ℕ). p ∷ r) e)
  | inr (qs, x, e) ↦ inr (p ∷ qs, x, ap (λ (r : List ℕ). p ∷ r) e)
]

first-append : (qs : List ℕ) (x y : ℕ) → first (qs ++ x ∷ y ∷ []) ≡ first (qs ++ x ∷ [])
first-append [] x y = refl
first-append (q ∷ qs) x y = refl

two-append : (qs : List ℕ) (t x : ℕ) → (qs ++ t ∷ []) ++ x ∷ [] ≡ qs ++ t ∷ x ∷ []
two-append [] t x = refl
two-append (q ∷ qs) t x = ap (λ (r : List ℕ). q ∷ r) (two-append qs t x)

abbrev init : List ℕ → List ℕ
init [] = []
init (p ∷ []) = []
init (p ∷ q ∷ ps) = p ∷ init (q ∷ ps)

init-two : (qs : List ℕ) (t x : ℕ) → init (qs ++ t ∷ x ∷ []) ≡ qs ++ t ∷ []
init-two [] t x = refl
init-two (p ∷ []) t x = refl
init-two (p ∷ q ∷ qs) t x = ap (λ (r : List ℕ). p ∷ r) (init-two (q ∷ qs) t x)

last-two : (qs : List ℕ) (t x : ℕ) → last (qs ++ t ∷ x ∷ []) ≡ some x
last-two [] t x = refl
last-two (p ∷ []) t x = refl
last-two (p ∷ q ∷ qs) t x = last-two (q ∷ qs) t x

push_back_more :
    (x t : ℕ) (qs : List ℕ) (s : State)
    → IsList s (qs ++ t ∷ [])
    → NotIn x (qs ++ t ∷ [])
    → length (qs ++ t ∷ []) + 1 < u64_mod
    → (s' : State) × (push_back x s ≡ ok s') × IsList s' ((qs ++ t ∷ []) ++ x ∷ [])
unfolding push_back
push_back_more x t qs (l, h) is out small =
    let fits : ltb (l.len + 1) u64_mod ≡ true = lt→ltb _ _ (omega (arith, is.len)) in
    let ends : l.tail ≡ some t = is.tail ∙ last-snoc qs t in
    let h1 = set_next h t (some x) in
    let h2 = set_prev h1 x (some t) in
    let (distinct_qs, out_t) = Distinct-init qs t is.distinct in
    (
      (list_of l.head (some x) (l.len + 1), h2),
      rw (ends, fits) refl,
      rw (two-append qs t x) (record {
        head = is.head ∙ sym (first-append qs t x);
        tail = sym (last-two qs t x);
        len = omega (arith, is.len, length-append qs (t ∷ []), length-append qs (t ∷ x ∷ []));
        linked =
            Linked-snoc h h2 qs t x
              (Keeps-trans get_next h h1 h2 qs (Keeps-next h t (some x) qs out_t)
                (Keeps-next_prev h1 x (some t) qs))
              (Keeps-trans get_prev h h1 h2 (qs ++ t ∷ [])
                (Keeps-prev_next h t (some x) (qs ++ t ∷ []))
                (Keeps-prev h1 x (some t) (qs ++ t ∷ []) out))
              (next_set_prev h1 x t (some t) ∙ next_set_next h t (some x))
              (prev_set_prev h1 x (some t)) is.linked;
        distinct = rw (sym (two-append qs t x)) (Distinct-snoc (qs ++ t ∷ []) x is.distinct out);
      }),
    )

abbrev PushedBack : ℕ → State → List ℕ → Type 0
PushedBack x s ps =
    IsList s ps
    → NotIn x ps
    → length ps + 1 < u64_mod
    → (s' : State) × (push_back x s ≡ ok s') × IsList s' (ps ++ x ∷ [])

push_back_none : (x : ℕ) (s : State) → PushedBack x s []
unfolding push_back
push_back_none x (l, h) is out small =
    let fits : ltb (l.len + 1) u64_mod ≡ true = lt→ltb _ _ (omega (arith, is.len)) in
    (
      (list_of (some x) (some x) (l.len + 1), h),
      rw (is.tail, fits) refl,
      record {
        head = refl;
        tail = refl;
        len = omega (arith, is.len);
        linked = tt;
        distinct = (tt, tt);
      },
    )

push_back_lem : (x : ℕ) (ps : List ℕ) (s : State) → PushedBack x s ps
push_back_lem x ps s = elim (view ps) [
  | inl e ↦ subst (PushedBack x s) (sym e) (push_back_none x s)
  | inr (qs, t, e) ↦ subst (PushedBack x s) (sym e) (push_back_more x t qs s)
]

-- What a call that gives a node has to do.
abbrev Popped : (State → Run (Option ℕ × State)) → State → Option ℕ → List ℕ → Type 0
Popped pop s r ps = (s' : State) × (pop s ≡ ok (r, s')) × IsList s' ps

pop_back_two :
    (qs : List ℕ) (t x : ℕ) (s : State)
    → IsList s (qs ++ t ∷ x ∷ [])
    → Popped pop_back s (some x) (qs ++ t ∷ [])
unfolding pop_back
pop_back_two qs t x (l, h) is =
    let ends : l.tail ≡ some x = is.tail ∙ last-two qs t x in
    let back : get_prev h x ≡ some t = Linked-back h qs t x is.linked in
    let all : Distinct ((qs ++ t ∷ []) ++ x ∷ []) = rw (two-append qs t x) is.distinct in
    let (distinct_t, out_x) = Distinct-init (qs ++ t ∷ []) x all in
    let (distinct_qs, out_t) = Distinct-init qs t distinct_t in
    let some_len : leb 1 l.len ≡ true =
      le→leb _ _ (omega (arith, is.len, length-append qs (t ∷ x ∷ []))) in
    let (f, begins, ne) = beginning qs t x out_x in
    let apart : (f == x) ≡ false = ne→== f x ne in
    let h1 = set_next h t none in
    (
      (list_of l.head (some t) (l.len - 1), h1),
      rw (ends, is.head, begins, some_len, apart, back) refl,
      record {
        head = is.head ∙ first-append qs t x;
        tail = sym (last-snoc qs t);
        len = omega (arith, is.len, length-append qs (t ∷ x ∷ []), length-append qs (t ∷ []));
        linked =
            Linked-init h h1 qs t x (Keeps-next h t none qs out_t)
              (Keeps-prev_next h t none (qs ++ t ∷ [])) is.linked;
        distinct = distinct_t;
      },
    )
  where
    beginning :
        (qs : List ℕ) (t x : ℕ)
        → NotIn x (qs ++ t ∷ [])
        → (f : ℕ) × (first (qs ++ t ∷ x ∷ []) ≡ some f) × (f ≢ x)
    beginning [] t x (ne, out) = (t, refl, λ e. ne (sym e))
    beginning (q ∷ qs) t x (ne, out) = (q, refl, λ e. ne (sym e))

abbrev PoppedBack : State → List ℕ → Type 0
PoppedBack s ps = IsList s ps → Popped pop_back s (last ps) (init ps)

pop_back_none : (s : State) → PoppedBack s []
unfolding pop_back
pop_back_none (l, h) is = ((l, h), simp (is.tail), is)

pop_back_one : (x : ℕ) (s : State) → PoppedBack s (x ∷ [])
unfolding pop_back
pop_back_one x (l, h) is =
    let some_len : leb 1 l.len ≡ true = le→leb _ _ (omega (arith, is.len)) in
    (
      (list_of none none (l.len - 1), h),
      rw (is.tail, is.head, some_len, ==_self x) refl,
      record { head = refl; tail = refl; len = omega (arith, is.len); linked = tt; distinct = tt },
    )

pop_back_more : (qs : List ℕ) (t x : ℕ) (s : State) → PoppedBack s (qs ++ t ∷ x ∷ [])
pop_back_more qs t x s is = rw (last-two qs t x, init-two qs t x) (pop_back_two qs t x s is)

pop_back_lem : (ps : List ℕ) (s : State) → PoppedBack s ps
pop_back_lem ps s = elim (view ps) [
  | inl e ↦ subst (PoppedBack s) (sym e) (pop_back_none s)
  | inr (qs, x, e) ↦ elim (view qs) [
    | inl e' ↦
        subst (PoppedBack s) (sym (e ∙ ap (λ (r : List ℕ). r ++ x ∷ []) e')) (pop_back_one x s)
    | inr (rs, t, e') ↦
        subst (PoppedBack s) (sym (e ∙ ap (λ (r : List ℕ). r ++ x ∷ []) e' ∙ two-append rs t x))
          (pop_back_more rs t x s)
  ]
]

abbrev rest : List ℕ → List ℕ
rest [] = []
rest (p ∷ ps) = ps

-- With two nodes at most, the first is taken off.
pop_front_lem :
    (ps : List ℕ) (s : State)
    → length ps ≤ 2
    → IsList s ps
    → Popped pop_front s (first ps) (rest ps)
unfolding pop_front
pop_front_lem [] (l, h) short is = ((l, h), simp (is.head), is)
pop_front_lem (p ∷ []) (l, h) short is =
    let some_len : leb 1 l.len ≡ true = le→leb _ _ (omega (arith, is.len)) in
    (
      (list_of none none (l.len - 1), h),
      rw (is.head, is.tail, some_len, ==_self p) refl,
      record { head = refl; tail = refl; len = omega (arith, is.len); linked = tt; distinct = tt },
    )
pop_front_lem (p ∷ q ∷ []) (l, h) short is =
    let some_len : leb 1 l.len ≡ true = le→leb _ _ (omega (arith, is.len)) in
    let apart : (p == q) ≡ false = ne→== p q is.distinct.0.0 in
    (
      (list_of (some q) (some q) (l.len - 1), set_next h q none),
      rw (is.head, is.tail, some_len, apart, is.linked.0) refl,
      record {
        head = refl;
        tail = refl;
        len = omega (arith, is.len);
        linked = tt;
        distinct = (tt, tt);
      },
    )
pop_front_lem (p ∷ q ∷ r ∷ ps) s short is = absurd (omega arith)

-- With three nodes or more, `pop_front` gives the first node and cuts the list behind the second: a
-- second call gives the second node, and then the list says that it is empty, while its
-- length counts the nodes that are left.
pub pop_front_twice :
    (p q r : ℕ) (ps : List ℕ) (s : State)
    → IsList s (p ∷ q ∷ r ∷ ps)
    → (s1 s2 : State) × (pop_front s ≡ ok (some p, s1))
      × (pop_front s1 ≡ ok (some q, s2))
      × (is_empty s2.0 ≡ true)
      × (s2.0.len ≡ length (r ∷ ps))
unfolding pop_front is_empty
pop_front_twice p q r ps (l, h) is =
    let (t, ends, other) = last_one r ps in
    let e_tail : l.tail ≡ some t = is.tail ∙ ends in
    let some_len : leb 1 l.len ≡ true = le→leb _ _ (omega (arith, is.len)) in
    let more_len : leb 1 (l.len - 1) ≡ true = le→leb _ _ (omega (arith, is.len)) in
    let p_apart : (p == t) ≡ false = ne→== p t (other p is.distinct.0.1) in
    let q_apart : (q == t) ≡ false = ne→== q t (other q is.distinct.1.0) in
    let h1 = set_next h q none in
    (
      (list_of (some q) (some t) (l.len - 1), h1),
      (list_of none (some t) (l.len - 1 - 1), h1),
      rw (is.head, e_tail, some_len, p_apart, is.linked.0) refl,
      rw (more_len, q_apart, next_set_next h q none) refl,
      refl,
      omega (arith, is.len),
    )
  where
    last_one :
        (r : ℕ) (ps : List ℕ)
        → (t : ℕ) × (last (r ∷ ps) ≡ some t) × ((x : ℕ) → NotIn x (r ∷ ps) → x ≢ t)
    last_one r [] = (r, refl, λ x out. out.0)
    last_one r (q ∷ ps) = let (t, e, other) = last_one q ps in (t, e, λ x out. other x out.1)

-- What a program does with a list.
pub data Op : Type 0 where
  add_front add_back : ℕ → Op
  take_front take_back : Op

-- The same on the sequence of the nodes.
abbrev pub on_sequence : Op → List ℕ → Option ℕ × List ℕ
on_sequence (add_front x) ps = (none, x ∷ ps)
on_sequence (add_back x) ps = (none, ps ++ x ∷ [])
on_sequence take_front ps = (first ps, rest ps)
on_sequence take_back ps = (last ps, init ps)

abbrev pub on_list : Op → State → Run (Option ℕ × State)
on_list (add_front x) s = do s' ← push_front x s; ok (none, s')
on_list (add_back x) s = do s' ← push_back x s; ok (none, s')
on_list take_front s = pop_front s
on_list take_back s = pop_back s

-- An operation adds a node that is not in the list, of which there are fewer than 2^64, and takes
-- one from the front only with two nodes at most.
abbrev pub Allowed : Op → List ℕ → Type 0
Allowed (add_front x) ps = NotIn x ps × (length ps + 1 < u64_mod)
Allowed (add_back x) ps = NotIn x ps × (length ps + 1 < u64_mod)
Allowed take_front ps = length ps ≤ 2
Allowed take_back ps = Unit {0}

abbrev pub AllAllowed : List Op → List ℕ → Type 0
AllAllowed [] ps = Unit {0}
AllAllowed (op ∷ ops) ps = Allowed op ps × AllAllowed ops (on_sequence op ps).1

abbrev pub all_on_sequence : List Op → List ℕ → List (Option ℕ) × List ℕ
all_on_sequence [] ps = ([], ps)
all_on_sequence (op ∷ ops) ps = (
  (on_sequence op ps).0 ∷ (all_on_sequence ops (on_sequence op ps).1).0,
  (all_on_sequence ops (on_sequence op ps).1).1,
)

abbrev pub all_on_list : List Op → State → Run (List (Option ℕ) × State)
all_on_list [] s = ok ([], s)
all_on_list (op ∷ ops) s = do
  (r, s') ← on_list op s
  (rs, s'') ← all_on_list ops s'
  ok (r ∷ rs, s'')

on_list_lem :
    (op : Op) (ps : List ℕ) (s : State)
    → IsList s ps
    → Allowed op ps
    → (s' : State) × (on_list op s ≡ ok ((on_sequence op ps).0, s'))
      × IsList s' (on_sequence op ps).1
on_list_lem (add_front x) ps s is (out, small) =
    let (s', e, is') = push_front_lem x ps s is out small in (s', rw e refl, is')
on_list_lem (add_back x) ps s is (out, small) =
    let (s', e, is') = push_back_lem x ps s is out small in (s', rw e refl, is')
on_list_lem take_front ps s is short = pop_front_lem ps s short is
on_list_lem take_back ps s is ready = pop_back_lem ps s is

-- Any sequence of operations gives, on a list with the nodes `ps` in memory, the nodes that the
-- operations give on the sequence `ps` itself, and leaves a list with the nodes that are left
-- there, if each node that is added is not in the list at that time, lengths stay below 2^64, and
-- nodes are taken from the front only while there are two at most. The pointers of the nodes
-- that are added, and those outwards at both ends, may hold anything.
pub all_on_list-sequence :
    (ops : List Op) (ps : List ℕ) (s : State)
    → IsList s ps
    → AllAllowed ops ps
    → (s' : State) × (all_on_list ops s ≡ ok ((all_on_sequence ops ps).0, s'))
      × IsList s' (all_on_sequence ops ps).1
all_on_list-sequence [] ps s is allowed = (s, refl, is)
all_on_list-sequence (op ∷ ops) ps s is (allowed, later) =
    let (s1, e, is1) = on_list_lem op ps s is allowed in
    let (s', e', is') = all_on_list-sequence ops (on_sequence op ps).1 s1 is1 later in
    (s', rw (e, e') refl, is')
