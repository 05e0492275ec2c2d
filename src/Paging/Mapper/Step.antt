-- ===== src/Paging/Mapper/Step.antt =====
-- `get_or_allocate_pagetable`: one more level of the way to an entry, with all else kept.
use native.Mathlib.Decide.{ℕ_discrete}
use miniature_os.Base.{
  ℕ, suc, ◌+◌, ◌*◌, ◌%◌, ◌<◌, ◌≡◌, ◌≢◌, refl, sym, ap, ◌∙◌, ◌⊎◌, inl, inr, arith,
}
use miniature_os.Base.{
  List, [], ◌∷◌, ◌++◌, Option, none, some, true, false, not, Run, ok, ◌>>=◌, >>=-assoc, length,
}
use miniature_os.Base.{◌==◌, ==_self, ne→==, Bool-cases}
use miniature_os.Memory.Frame.{PhysicalFrame, size_4kib}
use miniature_os.Paging.Crates.{BitCrates}
use miniature_os.Paging.Entry.{is_unused, physical_frame, add_flags, set_address, entry_flags}
use miniature_os.Paging.Table.{Memory, store, initialize_empty_lem}
use miniature_os.Paging.Mapper.{
  FrameAllocator, parent_flags, get_pagetable, get_or_allocate_pagetable,
}
use miniature_os.Paging.Mapper.Tree.{Owners, IsPath, IsTree, entry_at, entry_table}
use miniature_os.Paging.Mapper.Tree.{get_pagetable-unused, get_pagetable-used}
use miniature_os.Paging.Mapper.Grow.{add_owner, IsEmptyTable, Grows, entry_at-Grows}
use miniature_os.Paging.Mapper.Extend.{
  add_flags_used, same_table-IsTree, same_table-Grows, new_table-IsTree, new_table-Grows,
}
use miniature_os.Paging.Mapper.Supply.{IsMapping, Handed, IsAllocator}
use miniature_os.Paging.Mapper.Fresh.{
  initialize_other, entry_table-set_address, entry_table-add_flags,
}

module _ (lib : BitCrates) (frame_to_virtual : PhysicalFrame size_4kib → Run ℕ)
    (depth root : ℕ) where
  -- Every entry of the last level is what it was.
  abbrev pub IsSame : Memory → Memory → Type 0
  IsSame m m' =
      (is : List ℕ) (last : ℕ)
      → IsPath is
      → last < 512
      → length is ≡ depth
      → entry_at lib frame_to_virtual is last root m' ≡ entry_at lib frame_to_virtual is last root m

  abbrev pub Extends : Owners → Owners → Type 0
  Extends own own' = (u : ℕ) (q : List ℕ) → own u ≡ some q → own' u ≡ some q

  -- What an entry of a table in use leads to, it leads to afterwards.
  abbrev pub IsLinked : Owners → Memory → Memory → Type 0
  IsLinked own m m' =
      (u j c : ℕ) (q : List ℕ)
      → own u ≡ some q
      → length q < depth
      → j < 512
      → get_pagetable lib frame_to_virtual m (u + 8 * j) ≡ ok (some c)
      → get_pagetable lib frame_to_virtual m' (u + 8 * j) ≡ ok (some c)

  module _ {A : Type 0} (IsFree : A → ℕ → Type 0) where
    -- No table in use lies in a free frame.
    abbrev pub IsApart : Owners → A → Type 0
    IsApart own a =
        (f : PhysicalFrame size_4kib) (t : ℕ)
        → IsFree a f.address
        → frame_to_virtual f ≡ ok t
        → own t ≡ none

    -- The tables and the allocator after a step; the step leads to a table at `path`, if to any.
    pub record Kept (IsReady : A → Type 0) (own : Owners) (m : Memory) (path : List ℕ)
        (r : Option ℕ) (m' : Memory) (a' : A) : Type 0 where
      pub owners : Owners
      pub tree : IsTree lib frame_to_virtual depth root m' owners
      pub extends : Extends own owners
      pub apart : IsApart owners a'
      pub ready : IsReady a'
      pub same : IsSame m m'
      pub links : IsLinked own m m'
      pub reached :
          ((r ≡ none) × ((x : ℕ) → ¬ IsFree a' x))
          ⊎ ((t : ℕ) × (r ≡ some t) × (owners t ≡ some path))

module _ (lib : BitCrates) (frame_to_virtual : PhysicalFrame size_4kib → Run ℕ)
    (maps : IsMapping frame_to_virtual) {A : Type 0} (fa : FrameAllocator A)
    (IsFree : A → ℕ → Type 0) (IsReady : ℕ → A → Type 0) (supply : IsAllocator fa IsFree IsReady)
    (depth root : ℕ) (k : ℕ) (m : Memory) (a : A) (own : Owners)
    (v : IsTree lib frame_to_virtual depth root m own)
    (apart : IsApart lib frame_to_virtual depth root IsFree own a) where
  abbrev IsKept : List ℕ → Option ℕ → Memory → A → Type 0
  IsKept = Kept lib frame_to_virtual depth root IsFree (IsReady k) own m

  grown :
      (m' : Memory)
      → Grows lib frame_to_virtual depth own m m'
      → IsSame lib frame_to_virtual depth root m m'
  grown m' g is last path small len =
      entry_at-Grows lib frame_to_virtual depth root m m' own v g is [] last root v.top path small
        (omega arith)

  linked :
      (m' : Memory)
      → Grows lib frame_to_virtual depth own m m'
      → IsLinked lib frame_to_virtual depth root own m m'
  linked m' g u j c q ou lt small_j e = elim (g.inner u j q ou lt small_j) [
    | inl same ↦ same ∙ e
    | inr (unused, x, y, z) ↦ absurd (
        let both : ok none ≡ ok (some c) =
          sym (get_pagetable-unused lib frame_to_virtual m (u + 8 * j) unused) ∙ e in
        cc)
  ]

  -- The allocator has no frame.
  IsKept-none :
      (path : List ℕ) (a' : A) → IsReady k a' → Handed fa IsFree a none a' → IsKept path none m a'
  IsKept-none path a' ready spent = record {
    owners = own;
    tree = v;
    extends = λ u q o. o;
    apart = λ f t free e. absurd (spent f.address free);
    ready = ready;
    same = λ is last path small len. refl;
    links = λ u j c q ou lt small_j e. e;
    reached = inl (refl, spent);
  }

  module _ (base i : ℕ) (p : List ℕ) (o : own base ≡ some p) (short : length p < depth)
      (small : i < 512) where
    abbrev at : ℕ
    at = base + 8 * i

    abbrev child : List ℕ
    child = p ++ i ∷ []

    -- The entry refers to a table and keeps doing so.
    IsKept-old :
        (t : ℕ) (m' : Memory)
        → IsReady k a
        → is_unused (m at) ≡ false
        → entry_table lib frame_to_virtual (m at) ≡ ok t
        → own t ≡ some child
        → is_unused (m' at) ≡ false
        → entry_table lib frame_to_virtual (m' at) ≡ ok t
        → ((x : ℕ) → x ≢ at → m' x ≡ m x)
        → IsKept child (some t) m' a
    IsKept-old t m' ready used to ot used' to' other =
        let grows =
          same_table-Grows lib frame_to_virtual depth root m m' own v base i p o short small t used
            to ot used' to' other in
        record {
          owners = own;
          tree =
              same_table-IsTree lib frame_to_virtual depth root m m' own v base i p o short small t
                used to ot used' to' other;
          extends = λ u q ou. ou;
          apart = apart;
          ready = ready;
          same = grown m' grows;
          links = linked m' grows;
          reached = inr (t, refl, ot);
        }

    -- The entry was unused and refers to a new table.
    IsKept-new :
        (f : PhysicalFrame size_4kib) (t : ℕ) (m' : Memory) (a' : A)
        → IsReady k a'
        → Handed fa IsFree a (some f) a'
        → frame_to_virtual f ≡ ok t
        → t % 4096 ≡ 0
        → is_unused (m at) ≡ true
        → is_unused (m' at) ≡ false
        → entry_table lib frame_to_virtual (m' at) ≡ ok t
        → IsEmptyTable m' t
        → ((u j : ℕ)
            → u % 4096 ≡ 0
            → u ≢ t
            → j < 512
            → u + 8 * j ≢ at
            → m' (u + 8 * j) ≡ m (u + 8 * j))
        → IsKept child (some t) m' a'
    IsKept-new f t m' a' ready (exists, free, taken, fewer) e ta unused used' to' empty other =
        let fresh : own t ≡ none = apart f t free e in
        let grows =
          new_table-Grows lib frame_to_virtual depth root m m' own v base i p o short small t unused
            fresh ta used' to' empty other in
        record {
          owners = add_owner own t child;
          tree =
              new_table-IsTree lib frame_to_virtual depth root m m' own v base i p o short small t
                unused fresh ta used' to' empty other;
          extends = λ u q ou. keep u q ou fresh;
          apart = λ g u free' eu. elim (ℕ_discrete u t) [
            | yes same ↦ absurd (taken (rw (maps.injective f g t e (eu ∙ ap ok same)) free'))
            | no ne ↦
                let differ : (u == t) ≡ false = ne→== u t ne in
                rw differ (apart g u (fewer g.address free') eu)
          ];
          ready = ready;
          same = grown m' grows;
          links = linked m' grows;
          reached = inr (t, refl, let is_t : (t == t) ≡ true = ==_self t in rw is_t refl);
        }
      where
        keep :
            (u : ℕ) (q : List ℕ) → own u ≡ some q → own t ≡ none → add_owner own t child u ≡ some q
        keep u q ou fresh = elim (ℕ_discrete u t) [
          | yes e ↦ absurd (let both : none ≡ some q = sym fresh ∙ ap own (sym e) ∙ ou in cc)
          | no ne ↦ let differ : (u == t) ≡ false = ne→== u t ne in rw differ ou
        ]

    abbrev Outcome : Type 0
    Outcome =
        (r : Option ℕ) × (m' : Memory) × (a' : A) × (get_or_allocate_pagetable lib frame_to_virtual
            fa at parent_flags m a
          ≡ ok (r, m', a'))
        × IsKept child r m' a'
        × ((c : ℕ) → r ≡ some c → get_pagetable lib frame_to_virtual m' at ≡ ok (some c))

    from_old :
        (t : ℕ)
        → IsReady k a
        → is_unused (m at) ≡ false
        → entry_table lib frame_to_virtual (m at) ≡ ok t
        → own t ≡ some child
        → Outcome
    unfolding get_or_allocate_pagetable
    from_old t ready used to ot =
        elim (Bool-cases (not (lib.contains (entry_flags lib (m at)) parent_flags))) [
          | inr enough ↦ (
            some t,
            m,
            a,
            rw (used, enough)
                (sym (>>=-assoc (physical_frame lib (m at)) frame_to_virtual _)
                  ∙ ap (λ (q : Run ℕ). q >>= λ u. ok (some u, m, a)) to),
            IsKept-old t m ready used to ot used to (λ x ne. refl),
            λ c e. get_pagetable-used lib frame_to_virtual m at t used to ∙ ap ok e,
          )
          | inl missing ↦
              let m' : Memory = store m at (add_flags (m at) parent_flags) in
              let here : m' at ≡ add_flags (m at) parent_flags = rw (==_self at) refl in
              let to' : entry_table lib frame_to_virtual (m' at) ≡ ok t =
                ap (entry_table lib frame_to_virtual) here
                ∙ entry_table-add_flags lib frame_to_virtual maps (m at)
                ∙ to in
              let used' : is_unused (m' at) ≡ false = ap is_unused here ∙ add_flags_used (m at) in
              (
                some t,
                m',
                a,
                rw (used, missing)
                    (sym (>>=-assoc (physical_frame lib (m' at)) frame_to_virtual _)
                      ∙ ap (λ (q : Run ℕ). q >>= λ u. ok (some u, m', a)) to'),
                IsKept-old t m' ready used to ot used' to'
                    (λ x ne. let differ : (x == at) ≡ false = ne→== x at ne in rw differ refl),
                λ c e. get_pagetable-used lib frame_to_virtual m' at t used' to' ∙ ap ok e,
              )
        ]

    from_new :
        (f : PhysicalFrame size_4kib) (a' : A)
        → fa.allocate_frame a ≡ ok (some f, a')
        → IsReady k a'
        → Handed fa IsFree a (some f) a'
        → is_unused (m at) ≡ true
        → Outcome
    unfolding get_or_allocate_pagetable
    from_new f a' got ready handed unused =
        let (t, e, ta) = maps.total f handed.0 in
        let m1 : Memory = store m at (set_address f.address parent_flags) in
        let (m', done, empty, below, above) = initialize_empty_lem t m1 ta in
        let (to, used) = entry_table-set_address lib frame_to_virtual maps f t handed.0 e in
        let differ : base ≢ t = (λ same.
          absurd (
            let both : none ≡ some p = sym (apart f t handed.1 e) ∙ ap own (sym same) ∙ o in cc)) in
        let here : m' at ≡ set_address f.address parent_flags =
          initialize_other t base i m1 m' ta (v.aligned base p o) differ small below above
          ∙ rw (==_self at) refl in
        let used' : is_unused (m' at) ≡ false = ap is_unused here ∙ used in
        let to' = ap (entry_table lib frame_to_virtual) here ∙ to in
        (
          some t,
          m',
          a',
          rw (unused, got, e, done) refl,
          IsKept-new f t m' a' ready handed e ta unused used' to' empty (λ u j ua ne small_j far.
              initialize_other t u j m1 m' ta ua ne small_j below above
              ∙ (let miss : (u + 8 * j == at) ≡ false = ne→== (u + 8 * j) at far in rw miss refl)),
          λ c q. get_pagetable-used lib frame_to_virtual m' at t used' to' ∙ ap ok q,
        )

    pub step : IsReady (suc k) a → Outcome
    unfolding get_or_allocate_pagetable
    step ready = elim (v.entry base i p o short small) [
      | inr (used, t, to, ot) ↦ from_old t (supply.fewer k a ready) used to ot
      | inl unused ↦
          let (r, a', got, ready', handed) = supply.call k a ready in
          answer r a' got ready' handed unused
    ]
      where
        answer :
            (r : Option (PhysicalFrame size_4kib)) (a' : A)
            → fa.allocate_frame a ≡ ok (r, a')
            → IsReady k a'
            → Handed fa IsFree a r a'
            → is_unused (m at) ≡ true
            → Outcome
        answer none a' got ready' handed unused =
            (none, m, a', rw (unused, got) refl, IsKept-none child a' ready' handed, λ c e. cc)
        answer (some f) a' got ready' handed unused = from_new f a' got ready' handed unused
