-- ===== src/Paging/Mapper/Grow.antt =====
-- Tables that are added for the way to an entry leave the meaning of all tables as it was.
use miniature_os.Base.{ℕ, ◌+◌, ◌*◌, ◌%◌, ◌<◌, ◌≡◌, refl, ◌⊎◌, inl, inr, arith}
use miniature_os.Base.{List, [], ◌∷◌, ◌++◌, some, true, Run, ok, length, length-append}
use miniature_os.Base.{◌==◌, if◌then◌else◌}
use miniature_os.Memory.Frame.{PhysicalFrame, size_4kib}
use miniature_os.Paging.Crates.{BitCrates}
use miniature_os.Paging.Entry.{is_unused}
use miniature_os.Paging.Table.{Memory}
use miniature_os.Paging.Mapper.{get_pagetable}
use miniature_os.Paging.Mapper.Tree.{Owners, IsPath, IsTree, entry_at}
use miniature_os.Paging.Mapper.Tree.{get_pagetable-unused, get_pagetable-used}

-- One more table.
abbrev pub add_owner : Owners → ℕ → List ℕ → Owners
add_owner own t p u = if u == t then some p else own u

abbrev pub IsEmptyTable : Memory → ℕ → Type 0
IsEmptyTable m t = (j : ℕ) → j < 512 → m (t + 8 * j) ≡ 0

-- Entries of different tables, or different entries, have different addresses.
pub slots_apart :
    (t u i j : ℕ)
    → t % 4096 ≡ 0
    → u % 4096 ≡ 0
    → i < 512
    → j < 512
    → t + 8 * i ≡ u + 8 * j
    → (t ≡ u) × (i ≡ j)
slots_apart t u i j ht hu hi hj e = (omega arith, omega arith)

module _ (lib : BitCrates) (frame_to_virtual : PhysicalFrame size_4kib → Run ℕ) where
  -- Between two memories the tables in use have the same entries at the last level, and lead to
  -- the same tables, except that an unused entry may get an empty table.
  pub record Grows (depth : ℕ) (own : Owners) (m m' : Memory) : Type 0 where
    pub last_level :
        (t i : ℕ) (p : List ℕ)
        → own t ≡ some p
        → length p ≡ depth
        → i < 512
        → m' (t + 8 * i) ≡ m (t + 8 * i)
    pub inner :
        (t i : ℕ) (p : List ℕ)
        → own t ≡ some p
        → length p < depth
        → i < 512
        → (get_pagetable lib frame_to_virtual m' (t + 8 * i)
            ≡ get_pagetable lib frame_to_virtual m (t + 8 * i))
          ⊎ ((is_unused (m (t + 8 * i)) ≡ true)
              × (c : ℕ) × (get_pagetable lib frame_to_virtual m' (t + 8 * i) ≡ ok (some c))
              × IsEmptyTable m' c)

  entry_at-empty :
      (is : List ℕ) (last t : ℕ) (m : Memory)
      → IsPath is
      → last < 512
      → IsEmptyTable m t
      → entry_at lib frame_to_virtual is last t m ≡ 0
  unfolding entry_at is_unused
  entry_at-empty [] last t m path small empty = empty last small
  entry_at-empty (i ∷ is) last t m (h, path) small empty =
      let unused : is_unused (m (t + 8 * i)) ≡ true = rw (empty i h) refl in
      rw (get_pagetable-unused lib frame_to_virtual m (t + 8 * i) unused) refl

  module _ (depth root : ℕ) (m m' : Memory) (own : Owners)
      (v : IsTree lib frame_to_virtual depth root m own) (g : Grows depth own m m') where
    pub entry_at-Grows :
        (is p : List ℕ) (last base : ℕ)
        → own base ≡ some p
        → IsPath is
        → last < 512
        → length p + length is ≡ depth
        → entry_at lib frame_to_virtual is last base m'
          ≡ entry_at lib frame_to_virtual is last base m
    unfolding entry_at
    entry_at-Grows [] p last base o path small len = g.last_level base last p o (omega arith) small
    entry_at-Grows (i ∷ is) p last base o (h, path) small len =
        elim (g.inner base i p o (omega arith) h) [
          | inl same ↦ elim (v.entry base i p o (omega arith) h) [
            | inl unused ↦
                let q = get_pagetable-unused lib frame_to_virtual m (base + 8 * i) unused in
                rw (same, q) refl
            | inr (used, t, e, o') ↦
                let q = get_pagetable-used lib frame_to_virtual m (base + 8 * i) t used e in
                rw (same, q)
                  (entry_at-Grows is (p ++ i ∷ []) last t o' path small
                    (omega (arith, length-append p (i ∷ []))))
          ]
          | inr (unused, c, q', empty) ↦
              let q = get_pagetable-unused lib frame_to_virtual m (base + 8 * i) unused in
              rw (q, q') (entry_at-empty is last c m' path small empty)
        ]
