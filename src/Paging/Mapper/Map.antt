-- ===== src/Paging/Mapper/Map.antt =====
-- `map_to` on tables that form a tree: its three outcomes, and what `translate` says afterwards.
use miniature_os.Base.{ℕ, ◌+◌, ◌*◌, ◌<◌, ◌≡◌, refl, sym, ap, ◌∙◌, inl, inr, arith}
use miniature_os.Base.{List, [], some, true, false, Run, ok, length}
use miniature_os.Base.{ltb, lt→ltb, Bool-cases}
use miniature_os.Memory.Frame.{PhysicalFrame, Page, PageSize, size_4kib}
use miniature_os.Paging.Crates.{BitCrates}
use miniature_os.Paging.Entry.{is_present, set_address}
use miniature_os.Paging.Table.{Memory, store, slot}
use miniature_os.Paging.Mapper.{FrameAllocator, MapResult, mapped, frame_allocation_failed}
use miniature_os.Paging.Mapper.{page_already_mapped, find_table, map_at}
use miniature_os.Paging.Mapper.Tree.{Owners, IsPath, IsTree, entry_at, walk}
use miniature_os.Paging.Mapper.Supply.{IsMapping, IsAllocator}
use miniature_os.Paging.Mapper.Step.{IsSame, IsApart, Extends}
use miniature_os.Paging.Mapper.Make.{make}
use miniature_os.Paging.Mapper.Leaf.{store-IsTree, entry_at-store, entry_at-store_ne}

module _ (lib : BitCrates) (frame_to_virtual : PhysicalFrame size_4kib → Run ℕ) (depth root : ℕ)
    {A : Type 0} (IsFree : A → ℕ → Type 0) where
  -- The tables form a tree, and none of them lies in a free frame.
  abbrev pub IsSound : Memory → A → Owners → Type 0
  IsSound m a own =
      IsTree lib frame_to_virtual depth root m own
      × IsApart lib frame_to_virtual depth root IsFree own a

  -- What `map_to` does to the entry of the page and to all others.
  abbrev pub Effect :
      (S : PageSize) → List ℕ → ℕ → Page S → ℕ → Memory → Memory → A → MapResult S → Type 0
  Effect S upper last page value m m' a' frame_allocation_failed =
      ((x : ℕ) → ¬ IsFree a' x) × IsSame lib frame_to_virtual depth root m m'
  Effect S upper last page value m m' a' page_already_mapped =
      (is_present (entry_at lib frame_to_virtual upper last root m) ≡ true)
      × IsSame lib frame_to_virtual depth root m m'
  Effect S upper last page value m m' a' (mapped of) =
      (of ≡ page)
      × (is_present (entry_at lib frame_to_virtual upper last root m) ≡ false)
      × (entry_at lib frame_to_virtual upper last root m' ≡ value)
      × ((is : List ℕ) (j : ℕ)
          → IsPath is
          → j < 512
          → length is ≡ depth
          → ¬ ((is ≡ upper) × (j ≡ last))
          → entry_at lib frame_to_virtual is j root m' ≡ entry_at lib frame_to_virtual is j root m)

module _ (lib : BitCrates) (frame_to_virtual : PhysicalFrame size_4kib → Run ℕ)
    (maps : IsMapping frame_to_virtual) {A : Type 0} (fa : FrameAllocator A)
    (IsFree : A → ℕ → Type 0) (IsReady : ℕ → A → Type 0) (supply : IsAllocator fa IsFree IsReady)
    (S : PageSize) (depth root : ℕ) (k : ℕ) (upper : List ℕ) (last : ℕ) (frame : PhysicalFrame S)
    (page : Page S) (flags : ℕ) (m : Memory) (a : A) (own : Owners) where
  abbrev Outcome : Type 0
  Outcome =
      (r : MapResult S) × (m' : Memory) × (a' : A) × (own' : Owners) × (map_at lib frame_to_virtual
          fa S upper last root frame page flags m a
        ≡ ok (r, m', a'))
      × IsSound lib frame_to_virtual depth root IsFree m' a' own'
      × Extends lib frame_to_virtual depth root own own'
      × IsReady k a'
      × Effect lib frame_to_virtual depth root IsFree S upper last page
          (set_address frame.address flags) m m' a' r

  pub map_at_lem :
      IsSound lib frame_to_virtual depth root IsFree m a own
      → IsReady (depth + k) a
      → IsPath upper
      → last < 512
      → length upper ≡ depth
      → Outcome
  unfolding map_at slot
  map_at_lem (v, apart) ready path small full =
      let inside : ltb last 512 ≡ true = lt→ltb _ _ small in
      let (r, m1, a1, got, kept, leads) =
        make lib frame_to_virtual maps fa IsFree IsReady supply depth root k upper [] root m a own v
          apart (rw (sym full) at ready) v.top path (omega arith) in
      let sound : IsSound lib frame_to_virtual depth root IsFree m1 a1 kept.owners =
        (kept.tree, kept.apart) in
      let before : entry_at lib frame_to_virtual upper last root m1
          ≡ entry_at lib frame_to_virtual upper last root m =
        kept.same upper last path small full in
      elim kept.reached [
        | inl (nothing, spent) ↦ (
          frame_allocation_failed,
          m1,
          a1,
          kept.owners,
          rw (got, nothing) refl,
          sound,
          kept.extends,
          kept.ready,
          (spent, kept.same),
        )
        | inr (t, some_t, ot) ↦
            let found = leads t some_t in
            let here : entry_at lib frame_to_virtual upper last root m1 ≡ m1 (t + 8 * last) =
              read_found m1 kept.owners kept.tree t found path full in
            elim (Bool-cases (is_present (m1 (t + 8 * last)))) [
              | inl there ↦ (
                page_already_mapped,
                m1,
                a1,
                kept.owners,
                rw (got, some_t, inside, there) refl,
                sound,
                kept.extends,
                kept.ready,
                (ap is_present (sym before ∙ here) ∙ there, kept.same),
              )
              | inr absent ↦ (
                mapped page,
                store m1 (t + 8 * last) (set_address frame.address flags),
                a1,
                kept.owners,
                rw (got, some_t, inside, absent) refl,
                (
                  store-IsTree lib frame_to_virtual depth root m1 kept.owners kept.tree t last upper
                      ot full small (set_address frame.address flags),
                  kept.apart,
                ),
                kept.extends,
                kept.ready,
                (
                  refl,
                  ap is_present (sym before ∙ here) ∙ absent,
                  entry_at-store lib frame_to_virtual depth root m1 kept.owners kept.tree t last
                      upper ot full small (set_address frame.address flags) path found,
                  λ is j path_is small_j len ne.
                      entry_at-store_ne lib frame_to_virtual depth root m1 kept.owners kept.tree t
                        last upper ot full small (set_address frame.address flags) is j path_is
                        small_j len ne
                      ∙ kept.same is j path_is small_j len,
                ),
              )
            ]
      ]
    where
      read_found :
          (m1 : Memory) (own1 : Owners)
          → IsTree lib frame_to_virtual depth root m1 own1
          → (t : ℕ) → find_table lib frame_to_virtual upper root m1 ≡ ok (some t)
          → IsPath upper
          → length upper ≡ depth
          → entry_at lib frame_to_virtual upper last root m1 ≡ m1 (t + 8 * last)
      read_found m1 own1 v1 t found path full =
          elim (walk lib frame_to_virtual depth root m1 own1 v1 upper [] last root v1.top path
            (omega arith)) [
              | inl (e, z) ↦ absurd (let q = sym found ∙ e in cc)
              | inr (u, e, ou, z) ↦
                  let q = sym e ∙ found in
                  let eu : u ≡ t = cc in z ∙ ap (λ (x : ℕ). m1 (x + 8 * last)) eu
            ]
