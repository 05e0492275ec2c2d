-- ===== src/Paging/Mapper/Leaf.antt =====
-- A store to an entry of the last level changes what that entry holds, and nothing else.
use miniature_os.Base.{ℕ, ◌+◌, ◌*◌, ◌≤◌, ◌<◌, ◌≡◌, ◌≢◌, refl, sym, ap, ◌∙◌, ◌⊎◌, inl, inr, arith}
use miniature_os.Base.{List, [], ◌∷◌, ◌++◌, none, some, true, false, Run, ok, length, length-append}
use miniature_os.Base.{◌==◌, ==_self, ne→==, ltb, lt→ltb}
use miniature_os.Memory.Frame.{PhysicalFrame, size_4kib}
use miniature_os.Paging.Crates.{BitCrates}
use miniature_os.Paging.Table.{Memory, store, slot}
use miniature_os.Paging.Mapper.{find_table}
use miniature_os.Paging.Mapper.Tree.{Owners, IsPath, IsTree, entry_at, walk}
use miniature_os.Paging.Mapper.Tree.{get_pagetable-unused, get_pagetable-used, get_pagetable-same}
use miniature_os.Paging.Mapper.Grow.{slots_apart}

module _ (lib : BitCrates) (frame_to_virtual : PhysicalFrame size_4kib → Run ℕ) (depth root : ℕ)
    (m : Memory) (own : Owners) (v : IsTree lib frame_to_virtual depth root m own) (t last : ℕ)
    (upper : List ℕ) (o : own t ≡ some upper) (full : length upper ≡ depth) (small : last < 512)
    (value : ℕ) where
  abbrev m' : Memory
  m' = store m (t + 8 * last) value

  elsewhere : (x : ℕ) → x ≢ t + 8 * last → m' x ≡ m x
  elsewhere x ne =
      let differ : (x == t + 8 * last) ≡ false = ne→== x (t + 8 * last) ne in rw differ refl

  -- Only one path and index lead to the address.
  only_entry :
      (u j : ℕ) (q : List ℕ)
      → own u ≡ some q
      → j < 512
      → u + 8 * j ≡ t + 8 * last
      → (q ≡ upper) × (j ≡ last)
  only_entry u j q ou small_j e =
      let (eu, ej) =
        slots_apart u t j last (v.aligned u q ou) (v.aligned t upper o) small_j small e in
      let path : some q ≡ some upper = sym ou ∙ ap own eu ∙ o in (cc, ej)

  inner_same :
      (u j : ℕ) (q : List ℕ)
      → own u ≡ some q
      → length q < depth
      → j < 512
      → m' (u + 8 * j) ≡ m (u + 8 * j)
  inner_same u j q ou lt small_j =
      elsewhere (u + 8 * j)
        (λ e. omega (arith, full, lt, ap length (only_entry u j q ou small_j e).0))

  pub store-IsTree : IsTree lib frame_to_virtual depth root m' own
  store-IsTree = record {
    top = v.top;
    aligned = v.aligned;
    entry =
        λ u j q ou lt small_j. rw (inner_same u j q ou lt small_j) (v.entry u j q ou lt small_j);
  }

  find_table-store :
      (is p : List ℕ) (base : ℕ)
      → own base ≡ some p
      → IsPath is
      → length p + length is ≤ depth
      → find_table lib frame_to_virtual is base m' ≡ find_table lib frame_to_virtual is base m
  unfolding find_table slot
  find_table-store [] p base ob path short = refl
  find_table-store (i ∷ is) p base ob (small_i, path) short =
      let inside : ltb i 512 ≡ true = lt→ltb _ _ small_i in
      let same =
        get_pagetable-same lib frame_to_virtual m m' (base + 8 * i)
          (inner_same base i p ob (omega arith) small_i) in
      elim (v.entry base i p ob (omega arith) small_i) [
        | inl unused ↦
            rw (inside, same, get_pagetable-unused lib frame_to_virtual m (base + 8 * i) unused)
              refl
        | inr (used, c, e, oc) ↦
            rw (inside, same, get_pagetable-used lib frame_to_virtual m (base + 8 * i) c used e)
              (find_table-store is (p ++ i ∷ []) c oc path
                (omega (arith, length-append p (i ∷ []))))
      ]

  -- How an entry of the last level reads before and after the store.
  abbrev IsRead : List ℕ → ℕ → Type 0
  IsRead is j =
      ((entry_at lib frame_to_virtual is j root m' ≡ 0)
        × (entry_at lib frame_to_virtual is j root m ≡ 0)
        × (find_table lib frame_to_virtual is root m ≡ ok none))
      ⊎ ((u : ℕ) × (own u ≡ some is)
          × (find_table lib frame_to_virtual is root m ≡ ok (some u))
          × (entry_at lib frame_to_virtual is j root m' ≡ m' (u + 8 * j))
          × (entry_at lib frame_to_virtual is j root m ≡ m (u + 8 * j)))

  IsRead-both : (is : List ℕ) (j : ℕ) → IsPath is → length is ≡ depth → IsRead is j
  IsRead-both is j path len =
      let before =
        walk lib frame_to_virtual depth root m own v is [] j root v.top path (omega arith) in
      let after =
        walk lib frame_to_virtual depth root m' own store-IsTree is [] j root v.top path
          (omega arith) in
      let same = find_table-store is [] root v.top path (omega arith) in
      elim before [
        | inl (e, z) ↦ elim after [
          | inl (e', z') ↦ inl (z', z, e)
          | inr (u, e', x, y) ↦ absurd (let k = sym e' ∙ same ∙ e in cc)
        ]
        | inr (u, e, ou, z) ↦ elim after [
          | inl (e', x) ↦ absurd (let k = sym e' ∙ same ∙ e in cc)
          | inr (u', e', ou', z') ↦
              let k = sym e' ∙ same ∙ e in let eu : u' ≡ u = cc in inr (u, ou, e, rw eu at z', z)
        ]
      ]

  pub entry_at-store :
      IsPath upper
      → find_table lib frame_to_virtual upper root m ≡ ok (some t)
      → entry_at lib frame_to_virtual upper last root m' ≡ value
  entry_at-store path found = elim (IsRead-both upper last path full) [
    | inl (z', z, e) ↦ absurd (let k = sym found ∙ e in cc)
    | inr (u, ou, e, z', z) ↦
        let k = sym e ∙ found in let eu : u ≡ t = cc in z' ∙ rw (eu, ==_self (t + 8 * last)) refl
  ]

  pub entry_at-store_ne :
      (is : List ℕ) (j : ℕ)
      → IsPath is
      → j < 512
      → length is ≡ depth
      → ¬ ((is ≡ upper) × (j ≡ last))
      → entry_at lib frame_to_virtual is j root m' ≡ entry_at lib frame_to_virtual is j root m
  entry_at-store_ne is j path small_j len ne = elim (IsRead-both is j path len) [
    | inl (z', z, e) ↦ z' ∙ sym z
    | inr (u, ou, e, z', z) ↦
        z' ∙ elsewhere (u + 8 * j) (λ same. ne (only_entry u j is ou small_j same)) ∙ sym z
  ]
