-- ===== src/Common/Maps.antt =====
-- A JavaScript `Map` (or object used as one) as an association list in insertion order: `set` on a
-- held key keeps its place, `delete` removes it.
use mathlib.Core.Path.{◌≡◌, refl}
use mathlib.Core.Logic.{inl, inr}
use mathlib.Core.Option.{Option, none, some}
use mathlib.Core.List.{List, [], ◌∷◌}
use native.Mathlib.Omega.{arith}
use botster_web.Common.Tests.{HasEq, ◌==◌, if◌then◌else◌, or_else, Bool-cases}

module _ {ℓ κ} {K : Type ℓ} {V : Type κ} ⦃e : HasEq K⦄ where
  unfoldable pub lookup : K → List (K × V) → Option V
  lookup key [] = none
  lookup key ((other, v) ∷ m) = if other == key then some v else lookup key m

  unfoldable pub insert : K → V → List (K × V) → List (K × V)
  insert k v [] = (k, v) ∷ []
  insert k v ((j, w) ∷ m) = if j == k then (k, v) ∷ m else (j, w) ∷ insert k v m

  unfoldable pub delete : K → List (K × V) → List (K × V)
  delete k [] = []
  delete k ((j, v) ∷ m) = let rest = delete k m in if j == k then rest else (j, v) ∷ rest

  -- `{ ...left, ...right }`
  unfoldable pub merge : List (K × V) → List (K × V) → List (K × V)
  merge left [] = left
  merge left ((k, v) ∷ right) = merge (insert k v left) right

  abbrev pub HasDistinctKeys : List (K × V) → Type κ
  HasDistinctKeys [] = Unit
  HasDistinctKeys ((k, v) ∷ m) = (lookup k m ≡ none) × HasDistinctKeys m

  pub lookup-insert :
      (key asked : K) (v : V) (m : List (K × V))
      → lookup asked (insert key v m) ≡ (if key == asked then some v else lookup asked m)
  unfolding lookup insert
  lookup-insert key asked v [] = refl
  lookup-insert key asked v ((i, w) ∷ m) =
      ground (
        arith,
        e.beq_iff key asked,
        e.beq_iff i key,
        e.beq_iff i asked,
        lookup-insert key asked v m,
      )

  pub lookup-delete :
      (k j : K) (m : List (K × V)) → lookup j (delete k m) ≡ (if k == j then none else lookup j m)
  unfolding lookup delete
  lookup-delete k j [] = ground arith
  lookup-delete k j ((i, w) ∷ m) =
      ground (arith, e.beq_iff k j, e.beq_iff i k, e.beq_iff i j, lookup-delete k j m)

  pub lookup-merge :
      (j : K) (left right : List (K × V))
      → HasDistinctKeys right
      → lookup j (merge left right) ≡ or_else (lookup j right) (lookup j left)
  unfolding lookup merge
  lookup-merge j left [] h = refl
  lookup-merge j left ((k, v) ∷ right) h = ground (
    arith,
    e.beq_iff k j,
    lookup-merge j (insert k v left) right h.1,
    lookup-insert k j v left,
    h.0,
  )

  pub insert-fresh-distinct :
      (k : K) (v : V) (m : List (K × V)) → HasDistinctKeys m → HasDistinctKeys (insert k v m)
  unfolding insert
  insert-fresh-distinct k v [] h = (unfold lookup in refl, tt)
  insert-fresh-distinct k v ((j, w) ∷ m) h = elim (Bool-cases (j == k)) [
    | inl same ↦ rw same (ground (arith, h.0, (e.beq_iff j k).0 same), h.1)
    | inr differs ↦ rw differs (
      ground (arith, h.0, lookup-insert k j v m, e.beq_iff j k, e.beq_iff k j),
      insert-fresh-distinct k v m h.1,
    )
  ]

  pub delete-distinct :
      (k : K) (m : List (K × V)) → HasDistinctKeys m → HasDistinctKeys (delete k m)
  unfolding delete
  delete-distinct k [] h = tt
  delete-distinct k ((j, w) ∷ m) h = elim (Bool-cases (j == k)) [
    | inl same ↦ rw same (delete-distinct k m h.1)
    | inr differs ↦ rw differs (
      ground (arith, h.0, lookup-delete k j m, e.beq_iff j k, e.beq_iff k j),
      delete-distinct k m h.1,
    )
  ]

  pub delete-missing : (k : K) (m : List (K × V)) → lookup k m ≡ none → delete k m ≡ m
  unfolding delete lookup
  delete-missing k [] h = refl
  delete-missing k ((j, w) ∷ m) h = elim (Bool-cases (j == k)) [
    | inl same ↦ absurd (ground (arith, same))
    | inr differs ↦ rw differs (ground (arith, delete-missing k m))
  ]
