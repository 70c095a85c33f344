-- ===== src/Prelude/Map.antt =====
-- `std::unordered_map` with `emplace`, which keeps the entry that is there.
use mathlib.Core.Path.{◌≡◌}
use mathlib.Core.List.{List, [], ◌∷◌}
use mathlib.Core.Option.{Option, none, some}
use native.Mathlib.Omega.{arith}
use sivra.Prelude.Tests.{if◌then◌else◌, has_value}
use sivra.Prelude.Equality.{Eq, ◌==◌}

module _ {ℓ κ} {K : Type ℓ} {V : Type κ} ⦃e : Eq K⦄ where
  unfoldable pub map_find : K → List (K × V) → Option V
  map_find k [] = none
  map_find k ((j, v) ∷ m) = if j == k then some v else map_find k m

  unfoldable pub emplace : K → V → List (K × V) → List (K × V)
  unfolding map_find
  emplace k v m = if has_value (map_find k m) then m else (k, v) ∷ m

  pub map_find-emplace :
      (k j : K) (v : V) (m : List (K × V))
      → map_find j (emplace k v m) ≡ (
          if has_value (map_find k m)
          then map_find j m
          else if k == j
          then some v
          else map_find j m)
  unfolding emplace map_find
  map_find-emplace k j v m = ground arith
