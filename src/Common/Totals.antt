-- ===== src/Common/Totals.antt =====
-- Sums over the values of a map, and how setting and deleting a key changes them.
use Prim.Native.Nat.{ℕ, ◌+◌}
use mathlib.Core.Path.{◌≡◌, ap}
use mathlib.Core.Bool.{false}
use mathlib.Core.List.{[], ◌∷◌}
use mathlib.Core.Option.{Option, none, some}
use native.Mathlib.Omega.{arith}
use rivalis.Common.Tests.{Key}
use rivalis.Common.Map
use rivalis.Common.Map.{Map}

-- A sum over the values of a map.
module _ {K V : Type 0} (weight : V → ℕ) where
  unfoldable pub total : Map K V → ℕ
  total [] = 0
  total ((k, v) ∷ m) = weight v + total m

abbrev pub weight_of : {V : Type 0} → (V → ℕ) → Option V → ℕ
weight_of w none = 0
weight_of w (some v) = w v

module _ {K V : Type 0} ⦃e : Key K⦄ (w : V → ℕ) where
  pub total-set :
      (k : K) (v : V) (m : Map K V)
      → total w (Map.set k v m) + weight_of w (Map.lookup k m) ≡ total w m + w v
  unfolding total Map.set Map.lookup
  total-set k v [] = omega arith
  total-set k v ((j, u) ∷ m) = ground (arith, total-set k v m)

  total-delete_absent :
      (k : K) (m : Map K V) → Map.has k m ≡ false → total w (Map.delete k m) ≡ total w m
  total-delete_absent k m h = ap (total w) (Map.delete_absent k m h)

  pub total-delete :
      (k : K) (m : Map K V)
      → Map.IsUnique m
      → total w (Map.delete k m) + weight_of w (Map.lookup k m) ≡ total w m
  unfolding total Map.delete Map.lookup
  total-delete k [] u = omega arith
  total-delete k ((j, v) ∷ m) u =
      ground (arith, total-delete k m u.1, total-delete_absent k m, e.same_iff j k)
