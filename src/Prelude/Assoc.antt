-- ===== src/Prelude/Assoc.antt =====
-- A hash map as an association list with the keys in the order of their first insertion.
use mathlib.Core.Path.{◌≡◌, refl}
use mathlib.Core.Logic.{◌≢◌}
use mathlib.Core.List.{List, [], ◌∷◌}
use mathlib.Core.Option.{Option, none, some}
use native.Mathlib.Omega.{arith}
use hakuraku.Prelude.Tests.{if◌then◌else◌}
use hakuraku.Prelude.Texts.{Text, text_eq, text_eq_iff, text_eq_refl}

module _ {ℓ} {V : Type ℓ} where
  unfoldable pub lookup : Text → List (Text × V) → Option V
  lookup key [] = none
  lookup key ((at, value) ∷ rest) = if text_eq at key then some value else lookup key rest

  unfoldable pub insert : Text → V → List (Text × V) → List (Text × V)
  insert key value [] = (key, value) ∷ []
  insert key value ((at, old) ∷ rest) =
      if text_eq at key then (key, value) ∷ rest else (at, old) ∷ insert key value rest

  pub lookup-insert :
      (key other : Text) (value : V) (entries : List (Text × V))
      → lookup other (insert key value entries)
        ≡ (if text_eq key other then some value else lookup other entries)
  unfolding lookup insert
  lookup-insert key other value [] = refl
  lookup-insert key other value ((at, old) ∷ rest) = ground (
    arith,
    text_eq_iff key other,
    text_eq_iff at key,
    text_eq_iff at other,
    lookup-insert key other value rest,
  )

  pub lookup-insert_self :
      (key : Text) (value : V) (entries : List (Text × V))
      → lookup key (insert key value entries) ≡ some value
  lookup-insert_self key value entries = simp (lookup-insert, text_eq_refl)

  pub lookup-insert_ne :
      (key other : Text) (value : V) (entries : List (Text × V))
      → key ≢ other
      → lookup other (insert key value entries) ≡ lookup other entries
  lookup-insert_ne key other value entries h =
      ground (arith, lookup-insert key other value entries, text_eq_iff key other)
