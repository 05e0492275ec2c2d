-- ===== src/Fat/Directory/Long.antt =====
-- Long names: entries that hold parts of the name, with an entry with an 8.3 name behind them.
use miniature_os.Base.{ℕ, ◌+◌, ◌*◌, ◌/◌, ◌%◌, ◌^◌, ◌<◌, ◌≡◌, ◌≢◌, refl, arith}
use miniature_os.Base.{List, [], ◌∷◌, ◌++◌, some, ok}
use miniature_os.Base.{length, get_elem?, slice, length-append}
use miniature_os.Base.{get_elem?-append, get_elem?-append_some, slice-append, slice-append_le}
use miniature_os.Fat.Directory.{name_part, units}
use miniature_os.Fat.Directory.{take_until_zero, decode_utf16, long_file_name}
use miniature_os.Fat.Directory.Names.{
  IsText, IsText-append, take_until_zero-IsText, decode_utf16-IsText,
}

-- An entry with 13 units of a long name; `kind` and `gap` are fields that are not read.
pub record Part : Type 0 where
  pub order : ℕ
  pub units1 : List ℕ
  pub kind : List ℕ
  pub units2 : List ℕ
  pub gap : List ℕ
  pub units3 : List ℕ

abbrev pub AreUnits : List ℕ → Type 0
AreUnits [] = Unit {0}
AreUnits (u ∷ us) = (u < 2 ^ 16) × AreUnits us

pub record IsPart (p : Part) : Type 0 where
  pub in_use : (p.order ≢ 0) × (p.order ≢ 0xe5)
  pub lengths : (length p.units1 ≡ 5) × (length p.units2 ≡ 6) × (length p.units3 ≡ 2)
  pub fields : (length p.kind ≡ 2) × (length p.gap ≡ 2)
  pub fit : AreUnits p.units1 × AreUnits p.units2 × AreUnits p.units3

abbrev pub unit_bytes : List ℕ → List ℕ
unit_bytes [] = []
unit_bytes (u ∷ us) = u % 256 ∷ u / 256 ∷ unit_bytes us

units-unit_bytes : (us : List ℕ) → AreUnits us → units (unit_bytes us) ≡ ok us
unfolding units
units-unit_bytes [] h = refl
units-unit_bytes (u ∷ us) (h, hs) =
    let back : u % 256 + 256 * (u / 256) ≡ u = omega arith in rw (units-unit_bytes us hs, back) refl

length-unit_bytes : (us : List ℕ) → length (unit_bytes us) ≡ 2 * length us
length-unit_bytes [] = omega arith
length-unit_bytes (u ∷ us) = omega (arith, length-unit_bytes us)

abbrev first_bytes : Part → List ℕ
first_bytes p = p.order ∷ unit_bytes p.units1

abbrev kind_bytes : Part → List ℕ
kind_bytes p = first_bytes p ++ (long_file_name ∷ p.kind)

abbrev middle_bytes : Part → List ℕ
middle_bytes p = kind_bytes p ++ unit_bytes p.units2

abbrev gap_bytes : Part → List ℕ
gap_bytes p = middle_bytes p ++ p.gap

abbrev pub part_bytes : Part → List ℕ
part_bytes p = gap_bytes p ++ unit_bytes p.units3

-- The characters of a part: up to a unit 0.
abbrev pub part_name : Part → List ℕ
part_name p = decode_utf16 (take_until_zero (p.units1 ++ p.units2 ++ p.units3))

module _ (p : Part) (v : IsPart p) where
  length-first : length (first_bytes p) ≡ 11
  length-first = omega (arith, length-unit_bytes p.units1, v.lengths.0)

  length-kind : length (kind_bytes p) ≡ 14
  length-kind =
      omega
        (arith, length-first, length-append (first_bytes p) (long_file_name ∷ p.kind), v.fields.0)

  length-middle : length (middle_bytes p) ≡ 26
  length-middle = omega (
    arith,
    length-kind,
    length-append (kind_bytes p) (unit_bytes p.units2),
    length-unit_bytes p.units2,
    v.lengths.1,
  )

  length-gap : length (gap_bytes p) ≡ 28
  length-gap = omega (arith, length-middle, length-append (middle_bytes p) p.gap, v.fields.1)

  pub length-part_bytes : length (part_bytes p) ≡ 32
  length-part_bytes = omega (
    arith,
    length-gap,
    length-append (gap_bytes p) (unit_bytes p.units3),
    length-unit_bytes p.units3,
    v.lengths.2,
  )

  pub part-attributes : get_elem? (part_bytes p) 11 ≡ some long_file_name
  part-attributes = get_elem?-append_some (gap_bytes p) (unit_bytes p.units3) 11 _ (
      get_elem?-append_some (middle_bytes p) p.gap 11 _ (
        get_elem?-append_some (kind_bytes p) (unit_bytes p.units2) 11 _
          (get_elem?-append (first_bytes p) p.kind long_file_name 11 length-first)))

  name1_at : slice (part_bytes p) 1 11 ≡ ok (unit_bytes p.units1)
  name1_at = slice-append_le (gap_bytes p) (unit_bytes p.units3) _ 1 11 (
      slice-append_le (middle_bytes p) p.gap _ 1 11 (
        slice-append_le (kind_bytes p) (unit_bytes p.units2) _ 1 11 (
          slice-append_le (first_bytes p) (long_file_name ∷ p.kind) _ 1 11 (
            slice-append (p.order ∷ []) (unit_bytes p.units1) 1 11 refl
              (omega (arith, length-first))))))

  name2_at : slice (part_bytes p) 14 26 ≡ ok (unit_bytes p.units2)
  name2_at = slice-append_le (gap_bytes p) (unit_bytes p.units3) _ 14 26 (
      slice-append_le (middle_bytes p) p.gap _ 14 26 (
        slice-append (kind_bytes p) (unit_bytes p.units2) 14 26 length-kind
          (omega (arith, length-unit_bytes p.units2, v.lengths.1))))

  name3_at : slice (part_bytes p) 28 32 ≡ ok (unit_bytes p.units3)
  name3_at =
      slice-append (gap_bytes p) (unit_bytes p.units3) 28 32 length-gap
        (omega (arith, length-unit_bytes p.units3, v.lengths.2))

  pub name_part-part_bytes : name_part (part_bytes p) ≡ ok (part_name p)
  unfolding name_part
  name_part-part_bytes =
      rw
        (
          name1_at,
          name2_at,
          name3_at,
          units-unit_bytes p.units1 v.fit.0,
          units-unit_bytes p.units2 v.fit.1,
          units-unit_bytes p.units3 v.fit.2,
        )
        refl

pub part_name-IsText : (p : Part) → IsText (part_name p)
part_name-IsText p =
    decode_utf16-IsText _ (take_until_zero-IsText (p.units1 ++ p.units2 ++ p.units3))

abbrev pub AreParts : List Part → Type 0
AreParts [] = Unit {0}
AreParts (p ∷ ps) = IsPart p × AreParts ps

-- The parts, and the bytes behind them.
abbrev pub parts_bytes : List Part → List ℕ → List ℕ
parts_bytes [] after = after
parts_bytes (p ∷ ps) after = part_bytes p ++ parts_bytes ps after

-- The characters of all parts, in the order in which the parts stand.
abbrev pub parts_name : List Part → List ℕ
parts_name [] = []
parts_name (p ∷ ps) = part_name p ++ parts_name ps

pub parts_name-IsText : (ps : List Part) → IsText (parts_name ps)
parts_name-IsText [] = tt
parts_name-IsText (p ∷ ps) =
    IsText-append (part_name p) (parts_name ps) (part_name-IsText p) (parts_name-IsText ps)

pub length-parts_bytes :
    (ps : List Part) (after : List ℕ)
    → AreParts ps
    → length (parts_bytes ps after) ≡ 32 * length ps + length after
length-parts_bytes [] after h = omega arith
length-parts_bytes (p ∷ ps) after (v, vs) = omega (
  arith,
  length-append (part_bytes p) (parts_bytes ps after),
  length-part_bytes p v,
  length-parts_bytes ps after vs,
)
