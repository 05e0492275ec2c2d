-- ===== src/Paging/Mapper/Tree.antt =====
-- Page tables as a tree: which paths of indices lead to which tables, and the entry that a path
-- and a last index stand for.
use mathlib.Core.List.{append-nil, append_assoc}
use miniature_os.Base.{ℕ, ◌+◌, ◌*◌, ◌%◌, ◌≤◌, ◌<◌, ◌≡◌, refl, sym, ap, ◌∙◌, ◌⊎◌, inl, inr, arith}
use miniature_os.Base.{
  List, [], ◌∷◌, ◌++◌, Option, none, some, true, false, Run, ok, panic, out_of_fuel, ◌>>=◌,
  >>=-assoc, length, length-append,
}
use miniature_os.Base.{ltb, lt→ltb, if◌then◌else◌}
use miniature_os.Memory.Frame.{PhysicalFrame, PageSize, size_4kib, containing_address}
use miniature_os.Paging.Crates.{BitCrates}
use miniature_os.Paging.Entry.{is_unused, is_present, physical_frame, entry_address, entry_flags}
use miniature_os.Paging.Table.{Memory, slot}
use miniature_os.Paging.Mapper.{get_pagetable, find_table, translate_at, Translation, translated}
use miniature_os.Paging.Mapper.{not_mapped}

-- The tables in use, each with the indices that lead to it.
abbrev pub Owners : Type 0
Owners = ℕ → Option (List ℕ)

-- All indices of a path are those of a table.
abbrev pub IsPath : List ℕ → Type 0
IsPath [] = Unit {0}
IsPath (i ∷ is) = (i < 512) × IsPath is

-- What the table behind an entry gives, if there is one.
abbrev pub follow : Run (Option ℕ) → (ℕ → ℕ) → ℕ
follow (ok (some t)) k = k t
follow (ok none) k = 0
follow panic k = 0
follow out_of_fuel k = 0

module _ (lib : BitCrates) (frame_to_virtual : PhysicalFrame size_4kib → Run ℕ) where
  -- The table that an entry refers to.
  abbrev pub entry_table : ℕ → Run ℕ
  entry_table e = do frame ← physical_frame lib e; frame_to_virtual frame

  -- The entry at the end of a path of indices: 0 where a table on the way is missing. As a
  -- function of path and last index, this is what the tables mean.
  unfoldable pub entry_at : List ℕ → ℕ → ℕ → Memory → ℕ
  entry_at [] last base m = m (base + 8 * last)
  entry_at (i ∷ is) last base m =
      follow (get_pagetable lib frame_to_virtual m (base + 8 * i)) (λ t. entry_at is last t m)

  -- What `translate` makes of an entry.
  abbrev pub reading : (S : PageSize) → ℕ → Run (Translation S)
  reading S e =
      if is_present e
      then (do
        frame ← containing_address S (entry_address lib e)
        ok (translated frame (entry_flags lib e)))
      else ok not_mapped

  -- An entry above the last level is unused or refers to the table one index further.
  abbrev pub IsEntry : Owners → ℕ → List ℕ → Type 0
  IsEntry own e path =
      (is_unused e ≡ true)
      ⊎ ((is_unused e ≡ false) × (t : ℕ) × (entry_table e ≡ ok t) × (own t ≡ some path))

  -- From the table at `root`, tables of `depth` levels below it form a tree.
  pub record IsTree (depth root : ℕ) (m : Memory) (own : Owners) : Type 0 where
    pub top : own root ≡ some []
    pub aligned : (t : ℕ) (p : List ℕ) → own t ≡ some p → t % 4096 ≡ 0
    pub entry :
        (t i : ℕ) (p : List ℕ)
        → own t ≡ some p
        → length p < depth
        → i < 512
        → IsEntry own (m (t + 8 * i)) (p ++ i ∷ [])

  pub get_pagetable-unused :
      (m : Memory) (x : ℕ)
      → is_unused (m x) ≡ true
      → get_pagetable lib frame_to_virtual m x ≡ ok none
  unfolding get_pagetable
  get_pagetable-unused m x h = rw h refl

  pub get_pagetable-used :
      (m : Memory) (x t : ℕ)
      → is_unused (m x) ≡ false
      → entry_table (m x) ≡ ok t
      → get_pagetable lib frame_to_virtual m x ≡ ok (some t)
  unfolding get_pagetable
  get_pagetable-used m x t h e = rw h (
      sym (>>=-assoc (physical_frame lib (m x)) frame_to_virtual (λ u. ok (some u)))
      ∙ ap (λ (r : Run ℕ). r >>= λ u. ok (some u)) e)

  pub get_pagetable-same :
      (m m' : Memory) (x : ℕ)
      → m' x ≡ m x
      → get_pagetable lib frame_to_virtual m' x ≡ get_pagetable lib frame_to_virtual m x
  unfolding get_pagetable
  get_pagetable-same m m' x e = rw e refl

  -- A walk from a table ends at the table of the longer path, or at an unused entry.
  abbrev pub Walked : Owners → List ℕ → List ℕ → ℕ → ℕ → Memory → Type 0
  Walked own p is last base m =
      ((find_table lib frame_to_virtual is base m ≡ ok none) × (entry_at is last base m ≡ 0))
      ⊎ ((t : ℕ) × (find_table lib frame_to_virtual is base m ≡ ok (some t))
          × (own t ≡ some (p ++ is))
          × (entry_at is last base m ≡ m (t + 8 * last)))

  module _ (depth root : ℕ) (m : Memory) (own : Owners) (v : IsTree depth root m own) where
    pub walk :
        (is p : List ℕ) (last base : ℕ)
        → own base ≡ some p
        → IsPath is
        → length p + length is ≤ depth
        → Walked own p is last base m
    unfolding find_table entry_at slot
    walk [] p last base o path short = inr (base, refl, o ∙ ap some (sym (append-nil p)), refl)
    walk (i ∷ is) p last base o (small, path) short =
        let inside : ltb i 512 ≡ true = lt→ltb _ _ small in
        elim (v.entry base i p o (omega arith) small) [
          | inl unused ↦
              let q = get_pagetable-unused m (base + 8 * i) unused in
              inl (rw (inside, q) refl, rw q refl)
          | inr (used, t, e, o') ↦
              let q = get_pagetable-used m (base + 8 * i) t used e in
              elim (walk is (p ++ i ∷ []) last t o' path
                (omega (arith, length-append p (i ∷ [])))) [
                  | inl (r, z) ↦ inl (rw (inside, q) r, rw q z)
                  | inr (u, r, ou, z) ↦
                      inr (u, rw (inside, q) r, ou ∙ ap some (append_assoc p (i ∷ []) is), rw q z)
                ]
        ]

    -- `translate` reads the entry at the end of the page's path.
    pub translate_at_lem :
        (S : PageSize) (is : List ℕ) (last : ℕ)
        → IsPath is
        → last < 512
        → length is ≤ depth
        → translate_at lib frame_to_virtual S is last root m ≡ reading S (entry_at is last root m)
    unfolding translate_at slot is_present
    translate_at_lem S is last path small short =
        let inside : ltb last 512 ≡ true = lt→ltb _ _ small in
        elim (walk is [] last root v.top path (omega arith)) [
          | inl (r, z) ↦ rw (r, z) refl
          | inr (t, r, o, z) ↦ rw (r, inside, z) refl
        ]
