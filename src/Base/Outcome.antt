-- ===== src/Base/Outcome.antt =====
-- A computation that returns, panics, or has used up its fuel (a loop that the code bounds only by
-- the data; the theorems show how much fuel is enough). Arithmetic overflow, a failed assertion, an index out of
-- range and an `unwrap` of nothing are panics.
use mathlib.Core.Path.{◌≡◌, refl}
use mathlib.Core.Bool.{Bool, true, false}
use mathlib.Core.Option.{Option, none, some}

pub data Run {ℓ} (A : Type ℓ) : Type ℓ where
  ok : A → Run A
  panic out_of_fuel : Run A

infixl 5 ◌>>=◌
abbrev pub ◌>>=◌ {ℓ ℓ'} : {A : Type ℓ} {B : Type ℓ'} → Run A → (A → Run B) → Run B
panic >>= next = panic
out_of_fuel >>= next = out_of_fuel
ok x >>= next = next x

infixl 5 ◌>>◌
abbrev pub ◌>>◌ {ℓ'} : {B : Type ℓ'} → Run (Unit {0}) → Run B → Run B
first >> next = first >>= λ done. next

abbrev pub assert : Bool → Run (Unit {0})
assert true = ok tt
assert false = panic

abbrev pub unwrap {ℓ} : {A : Type ℓ} → Option A → Run A
unwrap none = panic
unwrap (some x) = ok x

-- A computation that returns has parts that return.
pub >>=-eq-ok {ℓ ℓ'} :
    {A : Type ℓ} {B : Type ℓ'} (first : Run A) (next : A → Run B) {y : B}
    → (first >>= next) ≡ ok y
    → (x : A) × (first ≡ ok x) × (next x ≡ ok y)
>>=-eq-ok panic next e = cc
>>=-eq-ok out_of_fuel next e = cc
>>=-eq-ok (ok x) next e = (x, refl, e)

pub >>=-assoc {ℓ ℓ' ℓ''} :
    {A : Type ℓ} {B : Type ℓ'} {C : Type ℓ''} (first : Run A) (next : A → Run B) (last : B → Run C)
    → (first >>= next >>= last) ≡ (first >>= λ x. next x >>= last)
>>=-assoc panic next last = refl
>>=-assoc out_of_fuel next last = refl
>>=-assoc (ok x) next last = refl
