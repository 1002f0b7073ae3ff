-- ===== src/Prelude/Maps.antt =====
-- A map from numbers, as an association list.
use Prim.Native.Nat.{ℕ, ◌≤◌, ◌<◌}
use mathlib.Core.Path.{◌≡◌}
use mathlib.Core.List.{List, [], ◌∷◌}
use mathlib.Core.Option.{Option, none, some}
use native.Mathlib.Omega.{arith}
use sevenzip.Prelude.Tests.{◌==◌, if◌then◌else◌}
use sevenzip.Prelude.Lists.{length}

module _ {ℓ} {V : Type ℓ} where
  unfoldable pub map_get : ℕ → List (ℕ × V) → Option V
  map_get k [] = none
  map_get k ((j, v) ∷ m) = let rest = map_get k m in if j == k then some v else rest

  unfoldable pub map_delete : ℕ → List (ℕ × V) → List (ℕ × V)
  map_delete k [] = []
  map_delete k ((j, v) ∷ m) = let rest = map_delete k m in if j == k then rest else (j, v) ∷ rest

  unfoldable pub map_set : ℕ → V → List (ℕ × V) → List (ℕ × V)
  map_set k v m = (k, v) ∷ map_delete k m

  pub map_get-map_delete :
      (j k : ℕ) (m : List (ℕ × V))
      → map_get j (map_delete k m) ≡ (if k == j then none else map_get j m)
  unfolding map_get map_delete
  map_get-map_delete j k [] = ground arith
  map_get-map_delete j k ((i, v) ∷ m) = let rest = map_get-map_delete j k m in ground arith

  pub map_get-map_set :
      (j k : ℕ) (v : V) (m : List (ℕ × V))
      → map_get j (map_set k v m) ≡ (if k == j then some v else map_get j m)
  unfolding map_get map_set
  map_get-map_set j k v m = let rest = map_get-map_delete j k m in ground arith

  pub length-map_delete_le : (k : ℕ) (m : List (ℕ × V)) → length (map_delete k m) ≤ length m
  unfolding map_delete
  length-map_delete_le k [] = omega arith
  length-map_delete_le k ((j, v) ∷ m) = let rest = length-map_delete_le k m in ground arith

  pub length-map_delete_lt :
      (k : ℕ) (m : List (ℕ × V)) (v : V) → map_get k m ≡ some v → length (map_delete k m) < length m
  unfolding map_get map_delete
  length-map_delete_lt k [] v h = cc
  length-map_delete_lt k ((j, w) ∷ m) v h =
      let rest = length-map_delete_lt k m v in let less = length-map_delete_le k m in ground arith
