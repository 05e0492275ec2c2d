-- ===== src/Paging/Mapper/Make.antt =====
-- `make_table`: the table of an entry is there afterwards, and the tables mean what they meant.
use mathlib.Core.List.{append-nil, append_assoc}
use miniature_os.Base.{ℕ, zero, suc, ◌+◌, ◌≤◌, ◌≡◌, refl, sym, ap, ◌∙◌, inl, inr, arith}
use miniature_os.Base.{
  List, [], ◌∷◌, ◌++◌, Option, none, some, true, Run, ok, length, length-append,
}
use miniature_os.Base.{ltb, lt→ltb}
use miniature_os.Memory.Frame.{PhysicalFrame, size_4kib}
use miniature_os.Paging.Crates.{BitCrates}
use miniature_os.Paging.Table.{Memory, slot}
use miniature_os.Paging.Mapper.{FrameAllocator, find_table}
use miniature_os.Paging.Mapper.{make_table}
use miniature_os.Paging.Mapper.Tree.{Owners, IsPath, IsTree}
use miniature_os.Paging.Mapper.Supply.{IsMapping, IsAllocator}
use miniature_os.Paging.Mapper.Step.{Kept, IsApart, step}

module _ (lib : BitCrates) (frame_to_virtual : PhysicalFrame size_4kib → Run ℕ)
    (maps : IsMapping frame_to_virtual) {A : Type 0} (fa : FrameAllocator A)
    (IsFree : A → ℕ → Type 0) (IsReady : ℕ → A → Type 0) (supply : IsAllocator fa IsFree IsReady)
    (depth root : ℕ) (k : ℕ) where
  abbrev IsKept : Owners → Memory → List ℕ → Option ℕ → Memory → A → Type 0
  IsKept = Kept lib frame_to_virtual depth root IsFree (IsReady k)

  abbrev Outcome : List ℕ → List ℕ → ℕ → Memory → A → Owners → Type 0
  Outcome is p base m a own =
      (r : Option ℕ) × (m' : Memory) × (a' : A) × (make_table lib frame_to_virtual fa is base m a
        ≡ ok (r, m', a'))
      × IsKept own m (p ++ is) r m' a'
      × ((c : ℕ) → r ≡ some c → find_table lib frame_to_virtual is base m' ≡ ok (some c))

  fewer_calls : (j : ℕ) (a : A) → IsReady (j + k) a → IsReady k a
  fewer_calls zero a h = let e : zero + k ≡ k = omega arith in rw e at h
  fewer_calls (suc j) a h =
      let e : suc j + k ≡ suc (j + k) = omega arith in
      fewer_calls j a (supply.fewer (j + k) a (rw e at h))

  pub make :
      (is p : List ℕ) (base : ℕ) (m : Memory) (a : A) (own : Owners)
      → IsTree lib frame_to_virtual depth root m own
      → IsApart lib frame_to_virtual depth root IsFree own a
      → IsReady (length is + k) a
      → own base ≡ some p
      → IsPath is
      → length p + length is ≤ depth
      → Outcome is p base m a own
  unfolding make_table find_table slot
  make [] p base m a own v apart ready o path short = (
    some base,
    m,
    a,
    refl,
    record {
      owners = own;
      tree = v;
      extends = λ u q ou. ou;
      apart = apart;
      ready = fewer_calls 0 a ready;
      same = λ is last way small len. refl;
      links = λ u j c q ou lt small e. e;
      reached = inr (base, refl, o ∙ ap some (sym (append-nil p)));
    },
    λ c e. ap ok e,
  )
  make (i ∷ is) p base m a own v apart ready o (small, path) short =
      let e : suc (length is) + k ≡ suc (length is + k) = omega arith in
      let inside : ltb i 512 ≡ true = lt→ltb _ _ small in
      let (r, m1, a1, got, kept, leads) =
        step lib frame_to_virtual maps fa IsFree IsReady supply depth root (length is + k) m a own v
          apart base i p o (omega arith) small (rw e at ready) in
      elim kept.reached [
        | inl (nothing, spent) ↦ (
          none,
          m1,
          a1,
          rw (inside, got, nothing) refl,
          record {
            owners = kept.owners;
            tree = kept.tree;
            extends = kept.extends;
            apart = kept.apart;
            ready = fewer_calls (length is) a1 kept.ready;
            same = kept.same;
            links = kept.links;
            reached = inl (refl, spent);
          },
          λ c q. cc,
        )
        | inr (t, some_t, ot) ↦
            let (r2, m2, a2, got2, kept2, leads2) =
              make is (p ++ i ∷ []) t m1 a1 kept.owners kept.tree kept.apart kept.ready ot path
                (omega (arith, length-append p (i ∷ []))) in
            let link =
              kept2.links base i t p (kept.extends base p o) (omega arith) small (leads t some_t) in
            (
              r2,
              m2,
              a2,
              rw (inside, got, some_t) got2,
              record {
                owners = kept2.owners;
                tree = kept2.tree;
                extends = λ u q ou. kept2.extends u q (kept.extends u q ou);
                apart = kept2.apart;
                ready = kept2.ready;
                same =
                    λ way last h1 h2 h3. kept2.same way last h1 h2 h3 ∙ kept.same way last h1 h2 h3;
                links = λ u j c q ou lt small_j x.
                    kept2.links u j c q (kept.extends u q ou) lt small_j
                      (kept.links u j c q ou lt small_j x);
                reached = rw (sym (append_assoc p (i ∷ []) is)) kept2.reached;
              },
              λ c q. rw (inside, link) (leads2 c q),
            )
      ]
