-- ===== src/Paging/Mapper/Extend.antt =====
-- One entry above the last level changes: it gets flags, or an empty table.
use miniature_os.Base.{
  ℕ, ◌+◌, ◌*◌, ◌/◌, ◌%◌, ◌^◌, ◌<◌, ◌≡◌, ◌≢◌, refl, sym, ap, ◌∙◌, inl, inr, arith,
}
use miniature_os.Base.{List, [], ◌∷◌, ◌++◌, none, some, true, false, Run, ok, length}
use miniature_os.Base.{◌==◌, ==_self, ne→==, bit_or}
use miniature_os.Base.Bits.{bit_or_parts, bit_or-zero, bit_or-lt, bit_or_odd}
use native.Mathlib.Decide.{ℕ_discrete}
use miniature_os.Memory.Frame.{PhysicalFrame, size_4kib}
use miniature_os.Paging.Crates.{BitCrates}
use miniature_os.Paging.Entry.{is_unused, entry_address, add_flags}
use miniature_os.Paging.Table.{Memory}
use miniature_os.Paging.Mapper.{parent_flags}
use miniature_os.Paging.Mapper.Tree.{Owners, IsTree, IsEntry, entry_table}
use miniature_os.Paging.Mapper.Tree.{get_pagetable-used, get_pagetable-same}
use miniature_os.Paging.Mapper.Grow.{add_owner, IsEmptyTable, slots_apart, Grows}

-- Flags that are added leave the address of an entry alone.
pub add_flags_address :
    (lib : BitCrates) (e : ℕ) → entry_address lib (add_flags e parent_flags) ≡ entry_address lib e
unfolding entry_address add_flags
add_flags_address lib e =
    let low : bit_or (e % 2 ^ 12) 7 < 2 ^ 12 =
      bit_or-lt 12 (e % 2 ^ 12) 7 (omega arith) (omega arith) in
    let split : bit_or e 7 ≡ e / 2 ^ 12 * 2 ^ 12 + bit_or (e % 2 ^ 12) 7 =
      ap (λ x. bit_or x (0 * 2 ^ 12 + 7))
        (let q : e ≡ e / 2 ^ 12 * 2 ^ 12 + e % 2 ^ 12 = omega arith in q)
      ∙ bit_or_parts 12 (e / 2 ^ 12) 0 (e % 2 ^ 12) 7 (omega arith) (omega arith)
      ∙ omega (arith, bit_or-zero (e / 2 ^ 12)) in
    omega (arith, split, lib.get_bits_range (bit_or e 7) 12 48, lib.get_bits_range e 12 48)

pub add_flags_used : (e : ℕ) → is_unused (add_flags e parent_flags) ≡ false
unfolding is_unused add_flags
add_flags_used e = ground (arith, bit_or_odd e 7)

module _ (lib : BitCrates) (frame_to_virtual : PhysicalFrame size_4kib → Run ℕ) (depth root : ℕ)
    (m m' : Memory) (own : Owners) (v : IsTree lib frame_to_virtual depth root m own) (base i : ℕ)
    (p : List ℕ) (o : own base ≡ some p) (short : length p < depth) (small : i < 512) where
  abbrev at : ℕ
  at = base + 8 * i

  abbrev child : List ℕ
  child = p ++ i ∷ []

  base_aligned : base % 4096 ≡ 0
  base_aligned = v.aligned base p o

  -- Of the entries of tables in use, only the one of `base` is at its address.
  at_only :
      (u j : ℕ) (q : List ℕ)
      → own u ≡ some q
      → j < 512
      → u + 8 * j ≡ at
      → (q ≡ p) × (q ++ j ∷ [] ≡ child)
  at_only u j q ou small_j e =
      let (eu, ej) = slots_apart u base j i (v.aligned u q ou) base_aligned small_j small e in
      let eq : some q ≡ some p = sym ou ∙ ap own eu ∙ o in
      let path : q ≡ p = cc in (path, rw (path, ej) refl)

  last_apart : (u j : ℕ) (q : List ℕ) → own u ≡ some q → length q ≡ depth → j < 512 → u + 8 * j ≢ at
  last_apart u j q ou len small_j e = omega (arith, ap length (at_only u j q ou small_j e).0)

  -- The entry refers to the same table as before.
  module _ (t : ℕ) (used : is_unused (m at) ≡ false)
      (to : entry_table lib frame_to_virtual (m at) ≡ ok t) (owned : own t ≡ some child)
      (used' : is_unused (m' at) ≡ false) (to' : entry_table lib frame_to_virtual (m' at) ≡ ok t)
      (other : (x : ℕ) → x ≢ at → m' x ≡ m x) where
    pub same_table-IsTree : IsTree lib frame_to_virtual depth root m' own
    same_table-IsTree = record {
      top = v.top;
      aligned = v.aligned;
      entry = λ u j q ou lt small_j. elim (ℕ_discrete (u + 8 * j) at) [
        | yes here ↦ rw (here, (at_only u j q ou small_j here).1) (inr (used', t, to', owned))
        | no apart ↦ rw (other (u + 8 * j) apart) (v.entry u j q ou lt small_j)
      ];
    }

    pub same_table-Grows : Grows lib frame_to_virtual depth own m m'
    same_table-Grows = record {
      last_level = λ u j q ou len small_j. other (u + 8 * j) (last_apart u j q ou len small_j);
      inner = λ u j q ou lt small_j. inl (elim (ℕ_discrete (u + 8 * j) at) [
        | yes here ↦ rw here (
            get_pagetable-used lib frame_to_virtual m' at t used' to'
            ∙ sym (get_pagetable-used lib frame_to_virtual m at t used to))
        | no apart ↦
            get_pagetable-same lib frame_to_virtual m m' (u + 8 * j) (other (u + 8 * j) apart)
      ]);
    }

  -- An unused entry gets an empty table that was not in use.
  module _ (t : ℕ) (unused : is_unused (m at) ≡ true) (fresh : own t ≡ none)
      (t_aligned : t % 4096 ≡ 0) (used' : is_unused (m' at) ≡ false)
      (to' : entry_table lib frame_to_virtual (m' at) ≡ ok t) (empty : IsEmptyTable m' t)
      (other : (u j : ℕ)
        → u % 4096 ≡ 0
        → u ≢ t
        → j < 512
        → u + 8 * j ≢ at
        → m' (u + 8 * j) ≡ m (u + 8 * j)) where
    owner_apart : (u : ℕ) (q : List ℕ) → own u ≡ some q → u ≢ t
    owner_apart u q ou e = let both : none ≡ some q = sym fresh ∙ ap own (sym e) ∙ ou in cc

    keeps_owner : (u : ℕ) (q : List ℕ) → own u ≡ some q → add_owner own t child u ≡ some q
    keeps_owner u q ou =
        let apart : (u == t) ≡ false = ne→== u t (owner_apart u q ou) in rw apart ou

    pub keeps_IsEntry :
        (e : ℕ) (q : List ℕ)
        → IsEntry lib frame_to_virtual own e q
        → IsEntry lib frame_to_virtual (add_owner own t child) e q
    keeps_IsEntry e q (inl a) = inl a
    keeps_IsEntry e q (inr (a, u, to, ou)) = inr (a, u, to, keeps_owner u q ou)

    pub new_table-IsTree : IsTree lib frame_to_virtual depth root m' (add_owner own t child)
    unfolding is_unused
    new_table-IsTree = record {
      top = keeps_owner root [] v.top;
      aligned = λ u q ou. elim (ℕ_discrete u t) [
        | yes e ↦ rw e t_aligned
        | no ne ↦ v.aligned u q (before u q ne ou)
      ];
      entry = λ u j q ou lt small_j. elim (ℕ_discrete u t) [
        | yes e ↦ inl (rw (e, empty j small_j) refl)
        | no ne ↦ old u j q (before u q ne ou) lt small_j
      ];
    }
      where
        before : (u : ℕ) (q : List ℕ) → u ≢ t → add_owner own t child u ≡ some q → own u ≡ some q
        before u q ne ou = let apart : (u == t) ≡ false = ne→== u t ne in rw apart at ou

        old :
            (u j : ℕ) (q : List ℕ)
            → own u ≡ some q
            → length q < depth
            → j < 512
            → IsEntry lib frame_to_virtual (add_owner own t child) (m' (u + 8 * j)) (q ++ j ∷ [])
        old u j q ou lt small_j = elim (ℕ_discrete (u + 8 * j) at) [
          | yes here ↦
              let is_t : (t == t) ≡ true = ==_self t in
              rw (here, (at_only u j q ou small_j here).1) (inr (used', t, to', rw is_t refl))
          | no apart ↦
              rw (other u j (v.aligned u q ou) (owner_apart u q ou) small_j apart)
                (keeps_IsEntry (m (u + 8 * j)) (q ++ j ∷ []) (v.entry u j q ou lt small_j))
        ]

    pub new_table-Grows : Grows lib frame_to_virtual depth own m m'
    new_table-Grows = record {
      last_level = λ u j q ou len small_j.
          other u j (v.aligned u q ou) (owner_apart u q ou) small_j
            (last_apart u j q ou len small_j);
      inner = λ u j q ou lt small_j. elim (ℕ_discrete (u + 8 * j) at) [
        | yes here ↦
            rw here
              (inr (unused, t, get_pagetable-used lib frame_to_virtual m' at t used' to', empty))
        | no apart ↦ inl (
            get_pagetable-same lib frame_to_virtual m m' (u + 8 * j)
              (other u j (v.aligned u q ou) (owner_apart u q ou) small_j apart))
      ];
    }
