-- ===== src/Prelude/Maps.antt =====
-- Go maps with text keys, as lists of keys and values. A key stands in the list at most once as
-- long as only these operations change it; their laws hold of any list.
use bablo.Prelude.Tests.{if◌then◌else◌, Bool-cases}
use bablo.Prelude.Strings.{Text, text_eq, text_eq→eq, text_eq_refl}
use mathlib.Core.Path.{◌≡◌, refl, ap, ◌∙◌}
use mathlib.Core.Logic.{inl, inr}
use mathlib.Core.Bool.{Bool}
use mathlib.Core.Option.{Option, none, some}
use mathlib.Core.List.{List, [], ◌∷◌}
use native.Mathlib.Omega.{arith}

module _ {V : Type 0} where
  unfoldable pub lookup : Text → List (Text × V) → Option V
  lookup k [] = none
  lookup k ((j, v) ∷ m) = let rest = lookup k m in if text_eq j k then some v else rest

  unfoldable pub delete : Text → List (Text × V) → List (Text × V)
  delete k [] = []
  delete k ((j, v) ∷ m) = let rest = delete k m in if text_eq j k then rest else (j, v) ∷ rest

  unfoldable pub insert : Text → V → List (Text × V) → List (Text × V)
  unfolding delete
  insert k v m = (k, v) ∷ delete k m

  -- The entries that pass the test; the others are deleted while the map is ranged over.
  unfoldable pub retain : (V → Bool) → List (Text × V) → List (Text × V)
  retain test [] = []
  retain test ((j, v) ∷ m) = let rest = retain test m in if test v then (j, v) ∷ rest else rest

  abbrev pub kept : (V → Bool) → Option V → Option V
  kept test none = none
  kept test (some v) = if test v then some v else none

  pub lookup-delete :
      (k j : Text) (m : List (Text × V))
      → lookup j (delete k m) ≡ (if text_eq k j then none else lookup j m)
  unfolding lookup delete
  lookup-delete k j [] = ground arith
  lookup-delete k j ((i, w) ∷ m) = ground (
    arith,
    lookup-delete k j m,
    text_eq→eq i k,
    text_eq→eq i j,
    text_eq→eq k j,
    text_eq_refl i,
    text_eq_refl k,
    text_eq_refl j,
  )

  pub lookup-insert :
      (k j : Text) (v : V) (m : List (Text × V))
      → lookup j (insert k v m) ≡ (if text_eq k j then some v else lookup j m)
  unfolding lookup insert
  lookup-insert k j v m = ground (arith, lookup-delete k j m)

  -- No key twice.
  abbrev pub AreUnique : List (Text × V) → Type 0
  AreUnique [] = Unit
  AreUnique ((k, v) ∷ m) = (lookup k m ≡ none) × AreUnique m

  pub lookup-retain :
      (test : V → Bool) (k : Text) (m : List (Text × V))
      → AreUnique m
      → lookup k (retain test m) ≡ kept test (lookup k m)
  unfolding lookup retain
  lookup-retain test k [] u = refl
  lookup-retain test k ((j, v) ∷ m) u = ground (arith, lookup-retain test k m, text_eq→eq j k)

  pub delete-AreUnique : (k : Text) (m : List (Text × V)) → AreUnique m → AreUnique (delete k m)
  unfolding delete
  delete-AreUnique k [] u = tt
  delete-AreUnique k ((j, v) ∷ m) u = elim (Bool-cases (text_eq j k)) [
    | inl e ↦ rw e (delete-AreUnique k m u.1)
    | inr e ↦ rw e (ground (arith, lookup-delete k j m), delete-AreUnique k m u.1)
  ]

  pub insert-AreUnique :
      (k : Text) (v : V) (m : List (Text × V)) → AreUnique m → AreUnique (insert k v m)
  unfolding insert
  insert-AreUnique k v m u =
      (ground (arith, lookup-delete k k m, text_eq_refl k), delete-AreUnique k m u)

  pub retain-AreUnique :
      (test : V → Bool) (m : List (Text × V)) → AreUnique m → AreUnique (retain test m)
  unfolding retain
  retain-AreUnique test [] u = tt
  retain-AreUnique test ((j, v) ∷ m) u = elim (Bool-cases (test v)) [
    | inl e ↦ rw e (lookup-retain test j m u.1 ∙ ap (kept test) u.0, retain-AreUnique test m u.1)
    | inr e ↦ rw e (retain-AreUnique test m u.1)
  ]
