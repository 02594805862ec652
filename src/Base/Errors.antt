-- ===== src/Base/Errors.antt =====
-- A Go call that returns a value and an `error`, as a value or the error's text.
use mathlib.Core.Path.{◌≡◌, refl}
use mathlib.Core.Logic.{◌⊎◌, inl, inr}
use mathlib.Core.Bool.{Bool, true, false}
use mathlib.Core.Option.{Option, none, some}
use Prim.Native.String.{String}

pub data Result {ℓ} (A : Type ℓ) : Type ℓ where
  err : String → Result A
  ok : A → Result A

pub Result-cases {ℓ} :
    {A : Type ℓ} (r : Result A) → ((a : A) × (r ≡ ok a)) ⊎ ((why : String) × (r ≡ err why))
Result-cases (err why) = inr (why, refl)
Result-cases (ok a) = inl (a, refl)

pub ok-injective {ℓ} : {A : Type ℓ} {a b : A} → ok a ≡ ok b → a ≡ b
ok-injective h = cc

module _ {ℓ κ} {A : Type ℓ} {B : Type κ} where
  infixl 5 ◌>>=◌
  -- The early return on an error.
  abbrev pub ◌>>=◌ : Result A → (A → Result B) → Result B
  err why >>= continue = err why
  ok value >>= continue = continue value

  -- Code that returns without an error has passed its first call, and the rest.
  pub >>=-eq-ok :
      (call : Result A) (continue : A → Result B) {b : B}
      → call >>= continue ≡ ok b
      → (a : A) × (call ≡ ok a) × (continue a ≡ ok b)
  >>=-eq-ok (err why) continue h = absurd cc
  >>=-eq-ok (ok value) continue h = (value, refl, h)

-- `if bad { return errors.New(why) }`.
abbrev pub refuse : Bool → String → Result (Unit {0})
refuse false why = ok tt
refuse true why = err why

abbrev pub or_fail {ℓ} : {A : Type ℓ} → Option A → String → Result A
or_fail none why = err why
or_fail (some a) why = ok a

infixl 5 ◌>>◌
abbrev pub ◌>>◌ {ℓ} : {B : Type ℓ} → Result (Unit {0}) → Result B → Result B
check >> rest = check >>= λ _. rest
