-- ===== src/Base/Maps.antt =====
-- A Go map with string keys: the pairs of its keys and values, with no order that counts.
use Prim.Native.String.{String}
use native.Mathlib.Omega.{arith}
use text.Mathlib.Text.{◌==◌}
use text.Mathlib.TextEquality.{eq_iff}
use text.Mathlib.TextPositions.{eq_refl}
use mathlib.Core.Option.{Option, none, some}
use mathlib.Core.List.{List, [], ◌∷◌}
use mathlib.Core.Path.{◌≡◌, refl, ap}
use mathlib.Core.Logic.{inl, inr}
use wechat_clone.Base.Tests.{if◌then◌else◌, Bool-cases}

abbrev pub Map : Type 0 → Type 0
Map V = List (String × V)

module _ {V : Type 0} where
  -- `m[key]` with its second result
  unfoldable pub lookup : String → Map V → Option V
  lookup key [] = none
  lookup key (entry ∷ rest) = if key == entry.0 then some entry.1 else lookup key rest

  -- `delete(m, key)`
  unfoldable pub delete : String → Map V → Map V
  delete key [] = []
  delete key (entry ∷ rest) =
      let others = delete key rest in if key == entry.0 then others else entry ∷ others

  -- `m[key] = value`
  unfoldable pub insert : String → V → Map V → Map V
  unfolding delete
  insert key value m = (key, value) ∷ delete key m

  pub lookup-delete :
      (j key : String) (m : Map V)
      → lookup j (delete key m) ≡ (if j == key then none else lookup j m)
  unfolding lookup delete
  lookup-delete j key [] = ground arith
  lookup-delete j key (entry ∷ rest) =
      ground (arith, eq_iff j key, eq_iff key entry.0, eq_iff j entry.0, lookup-delete j key rest)

  pub lookup-insert :
      (j key : String) (value : V) (m : Map V)
      → lookup j (insert key value m) ≡ (if key == j then some value else lookup j m)
  unfolding lookup insert
  lookup-insert j key value m = ground (arith, eq_iff j key, eq_iff key j, lookup-delete j key m)

  pub lookup-insert_self :
      (key : String) (value : V) (m : Map V) → lookup key (insert key value m) ≡ some value
  lookup-insert_self key value m = rw (lookup-insert key key value m, eq_refl key)

  -- Deleting a key that a map does not have.
  pub delete_of_absent : (key : String) (m : Map V) → lookup key m ≡ none → delete key m ≡ m
  unfolding lookup delete
  delete_of_absent key [] h = refl
  delete_of_absent key (entry ∷ rest) h = elim (Bool-cases (key == entry.0)) [
    | inl e ↦ absurd (cc (rw e at h))
    | inr e ↦ rw e (ap (λ (m : Map V). entry ∷ m) (delete_of_absent key rest (rw e at h)))
  ]

-- `m[key]`, where a missing key reads as the zero value.
unfoldable pub get_or : {V : Type 0} → V → String → Map V → V
get_or zero key m = elim (lookup key m) [ some value ↦ value | none ↦ zero ]

pub get_or-insert :
    {V : Type 0} (zero : V) (j key : String) (value : V) (m : Map V)
    → get_or zero j (insert key value m) ≡ (if key == j then value else get_or zero j m)
unfolding get_or
get_or-insert zero j key value m = ground (arith, lookup-insert j key value m)
