-- ===== src/Stage4/MemoryMap/Free.antt =====
-- Which addresses the map gives as free.
use miniature_os.Base.{ℕ, ◌+◌, ◌≤◌, ◌<◌, ◌≡◌, ◌⊎◌, inl, inr, refl, sym, ◌∙◌, arith}
use miniature_os.Base.{none, some, true, false}
use miniature_os.Base.{ok, lt→ltb}
use miniature_os.Base.{length, get_or, set, length-set, get_or-set_self, get_or-set_ne}
use native.Mathlib.Decide.{ℕ_discrete}
use miniature_os.Memory.Region.{e820_memory_region, PhysicalMemoryRegion, is_free}
use miniature_os.Stage4.MemoryMap.{Regions, put}
open e820_memory_region use {is_usable}

-- The address lies in the region, and the region is free.
abbrev pub FreeIn : PhysicalMemoryRegion → ℕ → Type 0
FreeIn p x = (is_free p.typ ≡ true) × (p.start ≤ x) × (x < p.start + p.size)

-- The map has a free region with the address.
abbrev pub FreeAt : Regions → ℕ → Type 0
FreeAt places x =
    (i : ℕ) × (p : PhysicalMemoryRegion) × (get_or places i none ≡ some p) × FreeIn p x

-- No place from `idx` on has a free region.
abbrev pub Clean : Regions → ℕ → Type 0
Clean places idx =
    (i : ℕ) (p : PhysicalMemoryRegion)
    → idx ≤ i
    → get_or places i none ≡ some p
    → is_free p.typ ≡ false

-- Writes below `idx` that make the addresses `New` free.
pub record Written (idx : ℕ) (before after : Regions) (New : ℕ → Type 0) : Type 0 where
  pub same_length : length after ≡ length before
  pub clean : Clean after idx
  pub free : (x : ℕ) → FreeAt after x → FreeAt before x ⊎ New x
  pub kept : (x : ℕ) → FreeAt before x ⊎ New x → FreeAt after x

pub Written-map :
    {idx : ℕ} {before after : Regions} {New Same : ℕ → Type 0}
    → ((x : ℕ) → New x → Same x)
    → ((x : ℕ) → Same x → New x)
    → Written idx before after New
    → Written idx before after Same
Written-map to from w = record {
  same_length = w.same_length;
  clean = w.clean;
  free = λ x f. elim (w.free x f) [ inl old ↦ inl old | inr new ↦ inr (to x new) ];
  kept = λ x f. elim f [ inl old ↦ w.kept x (inl old) | inr new ↦ w.kept x (inr (from x new)) ];
}

pub Written-trans :
    {i j : ℕ} {before middle after : Regions} {New Newer : ℕ → Type 0}
    → Written i before middle New
    → Written j middle after Newer
    → Written j before after (λ x. New x ⊎ Newer x)
Written-trans w w' = record {
  same_length = w'.same_length ∙ w.same_length;
  clean = w'.clean;
  free = λ x f. elim (w'.free x f) [
    | inr newer ↦ inr (inr newer)
    | inl f' ↦ elim (w.free x f') [ inl old ↦ inl old | inr new ↦ inr (inl new) ]
  ];
  kept = λ x f. elim f [
    | inl old ↦ w'.kept x (inl (w.kept x (inl old)))
    | inr (inl new) ↦ w'.kept x (inl (w.kept x (inr new)))
    | inr (inr newer) ↦ w'.kept x (inr newer)
  ];
}

-- A write at the first clean place.
module _ (places : Regions) (idx : ℕ) (p : PhysicalMemoryRegion) (inside : idx < length places)
    (clean : Clean places idx) where
  abbrev pub after : Regions
  after = set places idx (some p)

  at_idx : get_or after idx none ≡ some p
  at_idx = get_or-set_self places idx (some p) none inside

  pub put_ok : put places idx p ≡ ok after
  unfolding put
  put_ok = rw (lt→ltb _ _ inside) refl

  pub put-Written : Written (idx + 1) places after (FreeIn p)
  put-Written = record {
    same_length = length-set places idx (some p);
    clean = λ i q le e.
        clean i q (omega arith) (sym (get_or-set_ne places idx i (some p) none (omega arith)) ∙ e);
    free = λ x (i, q, e, f). elim (ℕ_discrete idx i) [
      | yes same ↦ inr (let k : p ≡ q = let h = at_idx in let g = rw (← same) at e in cc in rw k f)
      | no differ ↦ inl (i, q, sym (get_or-set_ne places idx i (some p) none differ) ∙ e, f)
    ];
    kept = λ x f. elim f [
      | inr new ↦ (idx, p, at_idx, new)
      | inl (i, q, e, free) ↦ elim (ℕ_discrete idx i) [
        | yes same ↦ absurd (let k = clean i q (omega arith) e in let k' = free.0 in cc)
        | no differ ↦ (i, q, get_or-set_ne places idx i (some p) none differ ∙ e, free)
      ]
    ];
  }

  -- A write that the next one may overwrite.
  pub put-Written_locked : is_free p.typ ≡ false → Written idx places after (λ x. ⊥)
  put-Written_locked locked = record {
    same_length = put-Written.same_length;
    clean = λ i q le e. elim (ℕ_discrete idx i) [
      | yes same ↦
          (let h = at_idx in let g = rw (← same) at e in let k : p ≡ q = cc in rw (← k) locked)
      | no differ ↦ put-Written.clean i q (omega arith) e
    ];
    free = λ x f. elim (put-Written.free x f) [
      | inl old ↦ inl old
      | inr new ↦ absurd (let k = new.0 in cc)
    ];
    kept = λ x f. elim f [ inl old ↦ put-Written.kept x (inl old) | inr new ↦ absurd new ];
  }
