-- ===== src/Base/BTreeMap.antt =====
-- `BTreeMap`: a list of entries in ascending order of their keys, over tests of the keys.
use mathlib.Core.Bool.{Bool}
use mathlib.Core.Option.{Option, none, some}
use mathlib.Core.List.{List, [], ◌∷◌}
use los_cara.Base.Tests.{if◌then◌else◌}

-- `sort`, `sort_by`: stable, so that the result is determined by the order.
module _ {ℓ} {A : Type ℓ} (leq : A → A → Bool) where
  unfoldable pub insert_sorted : A → List A → List A
  insert_sorted x [] = x ∷ []
  insert_sorted x (y ∷ ys) = if leq x y then x ∷ y ∷ ys else y ∷ insert_sorted x ys

  unfoldable pub sort : List A → List A
  unfolding insert_sorted
  sort [] = []
  sort (x ∷ xs) = insert_sorted x (sort xs)

module _ {ℓ κ} {K : Type ℓ} {V : Type κ} (eq : K → K → Bool) where
  unfoldable pub map_get : K → List (K × V) → Option V
  map_get k [] = none
  map_get k ((j, v) ∷ m) = if eq j k then some v else map_get k m

  -- `m.insert(k, v)`, with the order as a test.
  unfoldable pub map_insert : (K → K → Bool) → K → V → List (K × V) → List (K × V)
  map_insert lt k v [] = (k, v) ∷ []
  map_insert lt k v ((j, w) ∷ m) =
      if eq j k
      then (k, v) ∷ m
      else if lt k j
      then (k, v) ∷ (j, w) ∷ m
      else (j, w) ∷ map_insert lt k v m

  unfoldable pub map_remove : K → List (K × V) → List (K × V)
  map_remove k [] = []
  map_remove k ((j, v) ∷ m) = if eq j k then m else (j, v) ∷ map_remove k m
