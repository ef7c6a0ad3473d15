-- ===== src/Base/Assoc.antt =====
-- A Go map with string keys, as an association list; iteration goes over the list.
use mathlib.Core.Path.{◌≡◌, refl}
use mathlib.Core.Bool.{Bool, false}
use mathlib.Core.List.{List, [], ◌∷◌}
use mathlib.Core.Option.{Option, none, some}
use native.Mathlib.Omega.{arith}
use nomad_dev.Base.Tests.{if◌then◌else◌}
use nomad_dev.Base.Strings.{Text, text_eq, text_eq_iff}

module _ {ℓ} {V : Type ℓ} where
  -- `v, ok := m[k]`.
  unfoldable pub lookup : Text → List (Text × V) → Option V
  lookup k [] = none
  lookup k ((j, v) ∷ m) = if text_eq j k then some v else lookup k m

  -- `m[k] = v`.
  unfoldable pub insert : Text → V → List (Text × V) → List (Text × V)
  insert k v [] = (k, v) ∷ []
  insert k v ((j, w) ∷ m) = if text_eq j k then (k, v) ∷ m else (j, w) ∷ insert k v m

  -- `delete(m, k)`.
  unfoldable pub delete : Text → List (Text × V) → List (Text × V)
  delete k [] = []
  delete k ((j, w) ∷ m) = let rest = delete k m in if text_eq j k then rest else (j, w) ∷ rest

  pub lookup-insert :
      (k j : Text) (v : V) (m : List (Text × V))
      → lookup j (insert k v m) ≡ (if text_eq k j then some v else lookup j m)
  unfolding lookup insert
  lookup-insert k j v [] = refl
  lookup-insert k j v ((i, w) ∷ m) =
      ground (arith, text_eq_iff k j, text_eq_iff i k, text_eq_iff i j, lookup-insert k j v m)

  pub lookup-delete :
      (k j : Text) (m : List (Text × V))
      → lookup j (delete k m) ≡ (if text_eq k j then none else lookup j m)
  unfolding lookup delete
  lookup-delete k j [] = ground arith
  lookup-delete k j ((i, w) ∷ m) =
      ground (arith, text_eq_iff k j, text_eq_iff i k, text_eq_iff i j, lookup-delete k j m)

  pub lookup-insert_self :
      (k : Text) (v : V) (m : List (Text × V)) → lookup k (insert k v m) ≡ some v
  lookup-insert_self k v m = ground (arith, lookup-insert k k v m, text_eq_iff k k)

  pub lookup-insert_other :
      (k j : Text) (v : V) (m : List (Text × V))
      → text_eq k j ≡ false
      → lookup j (insert k v m) ≡ lookup j m
  lookup-insert_other k j v m h = rw (lookup-insert k j v m, h)

  pub lookup-delete_self : (k : Text) (m : List (Text × V)) → lookup k (delete k m) ≡ none
  lookup-delete_self k m = ground (arith, lookup-delete k k m, text_eq_iff k k)

  -- The entries whose value passes a test: what a loop that deletes the others leaves.
  unfoldable pub keep_values : (V → Bool) → List (Text × V) → List (Text × V)
  keep_values p [] = []
  keep_values p ((k, v) ∷ m) = let rest = keep_values p m in if p v then (k, v) ∷ rest else rest

-- No key stands twice, as in a Go map.
module _ {V : Type 0} where
  abbrev pub NodupKeys : List (Text × V) → Type 0
  NodupKeys [] = Unit {0}
  NodupKeys ((k, v) ∷ m) = (lookup k m ≡ none) × NodupKeys m

  pub insert-NodupKeys :
      (k : Text) (v : V) (m : List (Text × V)) → NodupKeys m → NodupKeys (insert k v m)
  unfolding insert lookup
  insert-NodupKeys k v [] n = (refl, tt)
  insert-NodupKeys k v ((j, w) ∷ m) n =
      ground
        (arith, insert-NodupKeys k v m n.1, lookup-insert k j v m, text_eq_iff j k, text_eq_iff k j)

  pub delete-NodupKeys : (k : Text) (m : List (Text × V)) → NodupKeys m → NodupKeys (delete k m)
  unfolding delete lookup
  delete-NodupKeys k [] n = tt
  delete-NodupKeys k ((j, w) ∷ m) n = ground (arith, delete-NodupKeys k m n.1, lookup-delete k j m)

  pub lookup-keep_values :
      (p : V → Bool) (k : Text) (m : List (Text × V))
      → NodupKeys m
      → lookup k (keep_values p m)
        ≡ elim (lookup k m) [ none ↦ none | some v ↦ if p v then some v else none ]
  unfolding keep_values lookup
  lookup-keep_values p k [] n = refl
  lookup-keep_values p k ((j, w) ∷ m) n =
      ground (arith, lookup-keep_values p k m n.1, text_eq_iff j k)

  pub keep_values-NodupKeys :
      (p : V → Bool) (m : List (Text × V)) → NodupKeys m → NodupKeys (keep_values p m)
  unfolding keep_values lookup
  keep_values-NodupKeys p [] n = tt
  keep_values-NodupKeys p ((j, w) ∷ m) n =
      ground (arith, keep_values-NodupKeys p m n.1, lookup-keep_values p j m n.1)
