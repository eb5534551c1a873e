-- ===== src/Common/Keyed.antt =====
-- A Go map with string keys, as an association list without repeated keys.
use Prim.Native.String.{String}
use mathlib.Core.Path.{◌≡◌, refl}
use mathlib.Core.Option.{Option, none, some}
use mathlib.Core.List.{List, [], ◌∷◌}
use native.Mathlib.Omega.{arith}
use text.Mathlib.Text.{◌==◌}
use text.Mathlib.TextEquality.{eq_iff}
use dashboard_site.Common.Tests.{if◌then◌else◌}

module _ {ℓ} {Value : Type ℓ} where
  -- m[key], with the test of `value, ok := m[key]`
  unfoldable pub lookup : String → List (String × Value) → Option Value
  lookup key [] = none
  lookup key (entry ∷ rest) =
      let later = lookup key rest in if entry.0 == key then some entry.1 else later

  -- m[key] = value
  unfoldable pub insert : String → Value → List (String × Value) → List (String × Value)
  insert key value [] = (key, value) ∷ []
  insert key value (entry ∷ rest) =
      let tail = insert key value rest in
      if entry.0 == key then (entry.0, value) ∷ rest else entry ∷ tail

  -- delete(m, key)
  unfoldable pub erase : String → List (String × Value) → List (String × Value)
  erase key [] = []
  erase key (entry ∷ rest) =
      let tail = erase key rest in if entry.0 == key then tail else entry ∷ tail

  pub lookup-erase :
      (gone key : String) (m : List (String × Value))
      → lookup key (erase gone m) ≡ (if gone == key then none else lookup key m)
  unfolding erase lookup
  lookup-erase gone key [] = ground arith
  lookup-erase gone key (entry ∷ rest) =
      ground (
        arith,
        lookup-erase gone key rest,
        eq_iff gone key,
        eq_iff entry.0 key,
        eq_iff entry.0 gone,
      )

  pub lookup-insert :
      (put key : String) (value : Value) (m : List (String × Value))
      → lookup key (insert put value m) ≡ (if put == key then some value else lookup key m)
  unfolding insert lookup
  lookup-insert put key value [] = refl
  lookup-insert put key value (entry ∷ rest) = ground (
    arith,
    lookup-insert put key value rest,
    eq_iff put key,
    eq_iff entry.0 key,
    eq_iff entry.0 put,
  )
