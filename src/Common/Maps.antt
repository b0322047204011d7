-- ===== src/Common/Maps.antt =====
-- Go maps with string keys, as association lists; no code observes the order of iteration.
use Prim.Native.Nat.{suc, ◌≤◌}
use Prim.Native.String.{String}
use mathlib.Core.Path.{◌≡◌}
use mathlib.Core.Bool.{Bool, true, false}
use mathlib.Core.List.{List, [], ◌∷◌}
use mathlib.Core.Option.{Option, none, some}
use native.Mathlib.Omega.{arith}
use text.Mathlib.TextEquality.{eq_iff}
use text.Mathlib.TextPositions.{eq_refl}
use rin.Common.Tests.{if◌then◌else◌}
use rin.Common.Lists.{length}
use rin.Common.Texts.{◌=ₛ◌}

abbrev pub Map {ℓ} : Type ℓ → Type ℓ
Map V = List (String × V)

module _ {ℓ} {V : Type ℓ} where
  -- `value, exists := m[key]`
  unfoldable pub lookup : String → Map V → Option V
  lookup k [] = none
  lookup k ((j, v) ∷ m) = if j =ₛ k then some v else lookup k m

  -- `delete(m, key)`
  unfoldable pub delete : String → Map V → Map V
  delete k [] = []
  delete k ((j, v) ∷ m) = let rest = delete k m in if j =ₛ k then rest else (j, v) ∷ rest

  -- `m[key] = value`
  unfoldable pub insert : String → V → Map V → Map V
  insert k v m = (k, v) ∷ delete k m

  -- `for key, value := range m { if drop(value) { delete(m, key) } }`
  unfoldable pub drop_if : (V → Bool) → Map V → Map V
  drop_if p [] = []
  drop_if p ((j, v) ∷ m) = let rest = drop_if p m in if p v then rest else (j, v) ∷ rest

  unfoldable pub member : String → Map V → Bool
  unfolding lookup
  member k m = elim (lookup k m) [ none ↦ false | some _ ↦ true ]

  pub lookup-delete :
      (k j : String) (m : Map V) → lookup j (delete k m) ≡ (if k =ₛ j then none else lookup j m)
  unfolding lookup delete
  lookup-delete k j [] = ground arith
  lookup-delete k j ((i, v) ∷ m) =
      ground (arith, lookup-delete k j m, eq_iff i k, eq_iff i j, eq_iff k j)

  pub lookup-insert :
      (k j : String) (v : V) (m : Map V)
      → lookup j (insert k v m) ≡ (if k =ₛ j then some v else lookup j m)
  unfolding lookup insert
  lookup-insert k j v m = ground (arith, lookup-delete k j m)

  pub lookup-delete_self : (k : String) (m : Map V) → lookup k (delete k m) ≡ none
  lookup-delete_self k m = ground (arith, lookup-delete k k m, eq_refl k)

  pub lookup-insert_self : (k : String) (v : V) (m : Map V) → lookup k (insert k v m) ≡ some v
  lookup-insert_self k v m = ground (arith, lookup-insert k k v m, eq_refl k)

  pub length-delete-le : (k : String) (m : Map V) → length (delete k m) ≤ length m
  unfolding delete
  length-delete-le k [] = omega arith
  length-delete-le k ((j, v) ∷ m) = ground (arith, length-delete-le k m)

  pub length-drop_if-le : (p : V → Bool) (m : Map V) → length (drop_if p m) ≤ length m
  unfolding drop_if
  length-drop_if-le p [] = omega arith
  length-drop_if-le p ((j, v) ∷ m) = ground (arith, length-drop_if-le p m)

  pub length-insert-le : (k : String) (v : V) (m : Map V) → length (insert k v m) ≤ suc (length m)
  unfolding insert
  length-insert-le k v m = omega (arith, length-delete-le k m)

pub ruleset map_laws = (lookup-delete, lookup-insert)
