-- ===== src/Base/Results.antt =====
-- Results: a value, or the error that a `throw` carries.
use mathlib.Core.Path.{◌≡◌, refl}
use mathlib.Core.Bool.{Bool, true, false}
use mathlib.Core.Option.{Option, none, some}
use mathlib.Core.Logic.{◌⊎◌, inl, inr}

pub data Result {ℓ κ} (E : Type ℓ) (A : Type κ) : Type (ℓ ⊔ κ) where
  ok : A → Result E A
  err : E → Result E A

module _ {ℓ} {E : Type ℓ} where
  infixl 5 ◌>>=◌ ◌>>◌
  -- The value of an optional, or a throw.
  abbrev pub or_throw {κ} : {A : Type κ} → Option A → E → Result E A
  or_throw none thrown = err thrown
  or_throw (some found) thrown = ok found

  -- What follows a call: its value goes on, a throw ends the chain.
  abbrev pub ◌>>=◌ {κ μ} : {A : Type κ} {B : Type μ} → Result E A → (A → Result E B) → Result E B
  err thrown >>= next = err thrown
  ok value >>= next = next value

  -- `if (!test) throw`
  abbrev pub guard : Bool → E → Result E (Unit {0})
  guard false thrown = err thrown
  guard true thrown = ok tt

  abbrev pub ◌>>◌ {κ} : {B : Type κ} → Result E (Unit {0}) → Result E B → Result E B
  first >> next = first >>= λ done. next

  pub Result-cases {κ} :
      {A : Type κ} (m : Result E A) → ((a : A) × (m ≡ ok a)) ⊎ ((e : E) × (m ≡ err e))
  Result-cases (err thrown) = inr (thrown, refl)
  Result-cases (ok value) = inl (value, refl)

  -- A chain that ends well has gone through its first call.
  pub >>=-eq-ok {κ μ} :
      {A : Type κ} {B : Type μ} (first : Result E A) (next : A → Result E B) {result : B}
      → first >>= next ≡ ok result
      → (value : A) × (first ≡ ok value) × (next value ≡ ok result)
  >>=-eq-ok (err thrown) next h = cc
  >>=-eq-ok (ok value) next h = (value, refl, h)
