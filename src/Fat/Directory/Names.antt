-- ===== src/Fat/Directory/Names.antt =====
-- The characters of long names: how they are decoded, and how they stand in the array.
use mathlib.Core.List.{append_assoc, append-nil}
use miniature_os.Base.{ℕ, zero, suc, ◌+◌, ◌≡◌, ◌≢◌, refl, sym, ap, ◌∙◌, arith}
use miniature_os.Base.{List, [], ◌∷◌, ◌++◌, true, false, Bool-cases, inl, inr, ok}
use miniature_os.Base.{length, set, replicate, length-append, ltb, lt→ltb, ◌==◌, ne→==}
use miniature_os.Fat.Directory.{take_until_zero, decode_utf16, put_chars, is_high, is_low}

-- None of the characters is 0.
abbrev pub IsText : List ℕ → Type 0
IsText [] = Unit {0}
IsText (c ∷ cs) = (c ≢ 0) × IsText cs

pub take_until_zero-IsText : (us : List ℕ) → IsText (take_until_zero us)
take_until_zero-IsText [] = tt
take_until_zero-IsText (u ∷ us) = elim (Bool-cases (u == 0)) [
  | inl z ↦ rw z tt
  | inr nz ↦ rw nz ((λ e. let k : (0 == 0) ≡ false = rw e at nz in cc), take_until_zero-IsText us)
]

-- Text that zeros follow is read up to them.
pub take_until_zero-append :
    (cs : List ℕ) (k : ℕ) → IsText cs → take_until_zero (cs ++ replicate k 0) ≡ cs
take_until_zero-append [] zero text = refl
take_until_zero-append [] (suc k) text = refl
take_until_zero-append (c ∷ cs) k (nz, text) =
    rw (ne→== c 0 nz) (ap (λ ds. c ∷ ds) (take_until_zero-append cs k text))

pub IsText-append : (cs ds : List ℕ) → IsText cs → IsText ds → IsText (cs ++ ds)
IsText-append [] ds a b = b
IsText-append (c ∷ cs) ds (h, a) b = (h, IsText-append cs ds a b)

-- Decoding makes no character 0 of others.
pub decode_utf16-IsText : (us : List ℕ) → IsText us → IsText (decode_utf16 us)
unfolding decode_utf16
decode_utf16-IsText [] text = tt
decode_utf16-IsText (u ∷ []) (h, text) = elim (Bool-cases (is_high u)) [
  | inl high ↦ rw high tt
  | inr not_high ↦ elim (Bool-cases (is_low u)) [
    | inl low ↦ rw (not_high, low) tt
    | inr not_low ↦ rw (not_high, not_low) (h, tt)
  ]
]
decode_utf16-IsText (u ∷ v ∷ us) (h, (g, text)) =
    let next = decode_utf16-IsText (v ∷ us) (g, text) in
    elim (Bool-cases (is_high u)) [
      | inl high ↦ elim (Bool-cases (is_low v)) [
        | inl low ↦ rw (high, low) ((λ e. omega arith), decode_utf16-IsText us text)
        | inr not_low ↦ rw (high, not_low) next
      ]
      | inr not_high ↦ elim (Bool-cases (is_low u)) [
        | inl low ↦ rw (not_high, low) next
        | inr not_low ↦ rw (not_high, not_low) (h, next)
      ]
    ]

set-append : (cs : List ℕ) (d c : ℕ) (ds : List ℕ) → set (cs ++ d ∷ ds) (length cs) c ≡ cs ++ c ∷ ds
set-append [] d c ds = refl
set-append (b ∷ cs) d c ds = ap (λ (xs : List ℕ). b ∷ xs) (set-append cs d c ds)

-- The characters go behind those that are there.
pub put_chars_lem :
    (cs before : List ℕ) (k i : ℕ)
    → length before ≡ i
    → put_chars cs (before ++ replicate (length cs + k) 0) i
      ≡ ok ((before ++ cs) ++ replicate k 0, i + length cs)
unfolding put_chars
put_chars_lem [] before k i e =
    let count : 0 + k ≡ k = omega arith in
    let stop : i + 0 ≡ i = omega arith in rw (count, stop, append-nil before) refl
put_chars_lem (c ∷ cs) before k i e =
    let count : suc (length cs) + k ≡ suc (length cs + k) = omega arith in
    let room : ltb i (length (before ++ 0 ∷ replicate (length cs + k) 0)) ≡ true =
      lt→ltb _ _ (omega (arith, length-append before (0 ∷ replicate (length cs + k) 0))) in
    let written : set (before ++ 0 ∷ replicate (length cs + k) 0) i c
        ≡ (before ++ c ∷ []) ++ replicate (length cs + k) 0 =
      ap (λ (j : ℕ). set (before ++ 0 ∷ replicate (length cs + k) 0) j c) (sym e)
      ∙ set-append before 0 c (replicate (length cs + k) 0)
      ∙ sym (append_assoc before (c ∷ []) (replicate (length cs + k) 0)) in
    let stop : i + 1 + length cs ≡ i + suc (length cs) = omega arith in
    rw (count, room, written)
      (put_chars_lem cs (before ++ c ∷ []) k (i + 1) (omega (arith, length-append before (c ∷ [])))
        ∙ rw (append_assoc before (c ∷ []) cs, stop) refl)
