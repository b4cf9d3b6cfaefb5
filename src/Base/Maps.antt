-- ===== src/Base/Maps.antt =====
-- Maps from texts, as lists of entries in the order in which their keys were first set.
use Prim.Native.Nat.{suc, ◌≤◌}
use Prim.Native.String.{String}
use mathlib.Core.Path.{◌≡◌, refl, sym, subst}
use mathlib.Core.Logic.{◌≢◌, inl, inr}
use mathlib.Core.Option.{Option, none, some}
use mathlib.Core.List.{List, [], ◌∷◌}
use native.Mathlib.Omega.{arith}
use text.Mathlib.Text.{◌==◌ as str_eq}
use text.Mathlib.TextEquality.{eq_iff}
use alfred_ai.Base.Tests.{if◌then◌else◌, Bool-cases}
use alfred_ai.Base.Lists.{length}

module _ {A : Type 0} where
  -- `Map.prototype.get`
  unfoldable pub lookup : String → List (String × A) → Option A
  lookup key [] = none
  lookup key ((k, a) ∷ m) = if str_eq k key then some a else lookup key m

  -- `Map.prototype.set`: a key that is there keeps its place.
  unfoldable pub put_in : String → A → List (String × A) → List (String × A)
  put_in key a [] = (key, a) ∷ []
  put_in key a ((k, b) ∷ m) =
      let rest = put_in key a m in if str_eq k key then (key, a) ∷ m else (k, b) ∷ rest

  -- `Map.prototype.delete`
  unfoldable pub remove : String → List (String × A) → List (String × A)
  remove key [] = []
  remove key ((k, a) ∷ m) = let rest = remove key m in if str_eq k key then rest else (k, a) ∷ rest

  -- No key stands twice.
  abbrev pub IsMap : List (String × A) → Type 0
  IsMap [] = Unit
  IsMap ((k, a) ∷ m) = (lookup k m ≡ none) × IsMap m

  pub lookup-put_in_self :
      (key : String) (a : A) (m : List (String × A)) → lookup key (put_in key a m) ≡ some a
  unfolding lookup put_in
  lookup-put_in_self key a [] = ground (arith, eq_iff key key)
  lookup-put_in_self key a ((k, b) ∷ m) = ground (arith, eq_iff key key, lookup-put_in_self key a m)

  pub lookup-put_in_ne :
      (key k : String) (a : A) (m : List (String × A))
      → key ≢ k
      → lookup k (put_in key a m) ≡ lookup k m
  unfolding lookup put_in
  lookup-put_in_ne key k a [] h = ground (arith, eq_iff key k)
  lookup-put_in_ne key k a ((j, b) ∷ m) h =
      ground (arith, eq_iff key k, eq_iff j k, eq_iff j key, lookup-put_in_ne key k a m h)

  pub lookup-remove_self : (key : String) (m : List (String × A)) → lookup key (remove key m) ≡ none
  unfolding lookup remove
  lookup-remove_self key [] = refl
  lookup-remove_self key ((k, b) ∷ m) = ground (arith, lookup-remove_self key m)

  pub lookup-remove_ne :
      (key k : String) (m : List (String × A)) → key ≢ k → lookup k (remove key m) ≡ lookup k m
  unfolding lookup remove
  lookup-remove_ne key k [] h = refl
  lookup-remove_ne key k ((j, b) ∷ m) h =
      ground (arith, eq_iff j k, eq_iff j key, lookup-remove_ne key k m h)

  -- What a key that was not removed stands for.
  pub lookup_removed :
      (key k : String) (a : A) (m : List (String × A))
      → lookup k (remove key m) ≡ some a
      → (key ≢ k) × (lookup k m ≡ some a)
  lookup_removed key k a m h = elim (Bool-cases (str_eq key k)) [
    | inl hit ↦
        let same : key ≡ k = (eq_iff key k).0 hit in
        let gone : lookup k (remove key m) ≡ none = rw same (lookup-remove_self k m) in cc
    | inr miss ↦
        let apart : key ≢ k = λ x. ground (arith, eq_iff key k) in
        (apart, subst (λ o. o ≡ some a) (lookup-remove_ne key k m apart) h)
  ]

  pub remove-IsMap : (key : String) (m : List (String × A)) → IsMap m → IsMap (remove key m)
  unfolding remove
  remove-IsMap key [] h = tt
  remove-IsMap key ((k, a) ∷ m) h = elim (Bool-cases (str_eq k key)) [
    | inl hit ↦ rw hit (remove-IsMap key m h.1)
    | inr miss ↦
        let apart : key ≢ k = λ x. ground (arith, eq_iff k key) in
        rw miss
          (subst (λ o. o ≡ none) (sym (lookup-remove_ne key k m apart)) h.0, remove-IsMap key m h.1)
  ]

  pub put_in-IsMap :
      (key : String) (a : A) (m : List (String × A)) → IsMap m → IsMap (put_in key a m)
  unfolding put_in lookup
  put_in-IsMap key a [] h = (refl, tt)
  put_in-IsMap key a ((k, b) ∷ m) h = elim (Bool-cases (str_eq k key)) [
    | inl hit ↦
        let same : k ≡ key = (eq_iff k key).0 hit in
        rw hit (subst (λ j. lookup j m ≡ none) same h.0, h.1)
    | inr miss ↦
        let apart : key ≢ k = λ x. ground (arith, eq_iff k key) in
        rw miss (
          subst (λ o. o ≡ none) (sym (lookup-put_in_ne key k a m apart)) h.0,
          put_in-IsMap key a m h.1,
        )
  ]

  -- Removing a key that is there makes the map smaller.
  pub length-remove-le : (key : String) (m : List (String × A)) → length (remove key m) ≤ length m
  unfolding remove
  length-remove-le key [] = omega arith
  length-remove-le key ((k, a) ∷ m) = ground (arith, length-remove-le key m)

  pub length-remove-lt :
      (key : String) (a : A) (m : List (String × A))
      → lookup key m ≡ some a
      → suc (length (remove key m)) ≤ length m
  unfolding remove lookup
  length-remove-lt key a [] h = cc
  length-remove-lt key a ((k, b) ∷ m) h =
      ground (arith, length-remove-le key m, length-remove-lt key a m)
