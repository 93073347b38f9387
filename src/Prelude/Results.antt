-- ===== src/Prelude/Results.antt =====
-- Python exceptions as values: what a call returns or raises.
use mathlib.Core.Path.{◌≡◌, refl}
use mathlib.Core.Logic.{◌⊎◌, inl, inr}
use mathlib.Core.Bool.{Bool, true, false}

pub data Result {ℓ κ} (E : Type κ) (A : Type ℓ) : Type (ℓ ⊔ κ) where
  ok : A → Result E A
  err : E → Result E A

module _ {ℓ κ ι} {E : Type κ} {A : Type ℓ} {B : Type ι} where
  infixl 5 ◌>>=◌
  abbrev pub ◌>>=◌ : Result E A → (A → Result E B) → Result E B
  ok value >>= rest = rest value
  err raised >>= rest = err raised

module _ {ℓ κ} {E : Type κ} {B : Type ℓ} where
  infixl 5 ◌>>◌
  abbrev pub ◌>>◌ : Result E (Unit {0}) → Result E B → Result E B
  first >> rest = first >>= λ done. rest

module _ {κ} {E : Type κ} where
  -- `if test: raise x`
  abbrev pub raise_if : Bool → E → Result E (Unit {0})
  raise_if true x = err x
  raise_if false x = ok tt

module _ {ℓ κ} {E : Type κ} {A : Type ℓ} where
  -- To split on what a call returned and keep the equation.
  pub Result-cases : (r : Result E A) → ((a : A) × (r ≡ ok a)) ⊎ ((x : E) × (r ≡ err x))
  Result-cases (ok a) = inl (a, refl)
  Result-cases (err x) = inr (x, refl)

  pub ok_injective : {a b : A} → ◌≡◌ {A = Result E A} (ok a) (ok b) → a ≡ b
  ok_injective p = cc

module _ {ℓ κ ι} {E : Type κ} {A : Type ℓ} {B : Type ι} where
  -- A bind that returned: its first part returned, and the rest too.
  pub >>=-eq-ok :
      (first : Result E A) (rest : A → Result E B) {value : B}
      → (first >>= rest) ≡ ok value
      → (mid : A) × (first ≡ ok mid) × (rest mid ≡ ok value)
  >>=-eq-ok (ok mid) rest returned = (mid, refl, returned)
  >>=-eq-ok (err x) rest returned = cc

module _ {κ} {E : Type κ} where
  pub raise_if-eq-ok : (b : Bool) (x : E) → raise_if b x ≡ ok tt → b ≡ false
  raise_if-eq-ok true x h = cc
  raise_if-eq-ok false x h = refl
