-- ===== src/Base/Bytes.antt =====
-- Byte slices and little-endian numbers.
use Prim.Native.Nat.{ℕ, zero, suc, ◌+◌, ◌-◌, ◌*◌, ◌/◌, ◌%◌, ◌≤◌}
use mathlib.Core.Path.{◌≡◌, ap}
use native.Mathlib.Omega.{arith}
use mathlib.Core.List.{List, [], ◌∷◌, ◌++◌}
use mathlib.Core.Bool.{◌&&◌, true}
use mathlib.Core.Logic.{inl, inr}
use miniature_os.Base.Tests.{leb, le→leb, leb→le, Bool-cases, if◌then◌else◌}
use miniature_os.Base.Lists.{
  length, take, drop, length-append, drop-append, take_all, drop-append_le, take-append_le,
  length-drop,
}
use miniature_os.Base.Outcome.{Run, ok, panic}

-- `bytes[from..to]`.
abbrev pub slice {ℓ} : {A : Type ℓ} → List A → ℕ → ℕ → Run (List A)
slice bytes from to =
    if leb from to && leb to (length bytes) then ok (take (to - from) (drop from bytes)) else panic

-- `from_le_bytes`.
abbrev pub from_le_bytes : List ℕ → ℕ
from_le_bytes [] = 0
from_le_bytes (b ∷ bs) = b + 256 * from_le_bytes bs

-- The `k` bytes of a number, the lowest first.
abbrev pub to_le_bytes : ℕ → ℕ → List ℕ
to_le_bytes zero n = []
to_le_bytes (suc k) n = n % 256 ∷ to_le_bytes k (n / 256)

-- A slice at the end is what stands behind its start.
pub slice-append {ℓ} :
    {A : Type ℓ} (before inside : List A) (from to : ℕ)
    → length before ≡ from
    → from + length inside ≡ to
    → slice (before ++ inside) from to ≡ ok inside
slice-append before inside from to start stop =
    let ordered : leb from to ≡ true = le→leb _ _ (omega arith) in
    let fits : leb to (length (before ++ inside)) ≡ true =
      le→leb _ _ (omega (arith, length-append before inside)) in
    let count : to - from ≡ length inside = omega arith in
    rw (ordered, fits, count, drop-append before inside from start) (ap ok (take_all inside))

-- What follows does not change a slice.
pub slice-append_le {ℓ} :
    {A : Type ℓ} (xs ys r : List A) (from to : ℕ)
    → slice xs from to ≡ ok r
    → slice (xs ++ ys) from to ≡ ok r
slice-append_le xs ys r from to h = elim (Bool-cases (leb from to)) [
  | inr disordered ↦ absurd (let k = rw disordered at h in cc)
  | inl ordered ↦ elim (Bool-cases (leb to (length xs))) [
    | inr long ↦ absurd (let k = rw (ordered, long) at h in cc)
    | inl fits ↦
        let le : from ≤ to = leb→le _ _ ordered in
        let inside : to ≤ length xs = leb→le _ _ fits in
        let fits' : leb to (length (xs ++ ys)) ≡ true =
          le→leb _ _ (omega (arith, length-append xs ys)) in
        rw
          (
            ordered,
            fits',
            drop-append_le xs ys from (omega arith),
            take-append_le (drop from xs) ys (to - from) (omega (arith, length-drop from xs)),
          )
          (rw (ordered, fits) at h)
  ]
]
