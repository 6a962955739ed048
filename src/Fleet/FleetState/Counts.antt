-- ===== src/Fleet/FleetState/Counts.antt =====
-- What the counters per instance count: tokens of capacity, and room ids that are not visible yet.
use rivalis.Common.{
  ℕ, ◌+◌, ◌-◌, ◌≡◌, refl, false, [], ◌∷◌, some, ◌==◌, Key, leb, if◌then◌else◌, arith,
}
use rivalis.Common.Map
use rivalis.Common.Map.{Map}
use rivalis.Common.Totals.{total, total-set, total-delete}
use rivalis.Handshake.Utf8.{Text}
use rivalis.Core.Room.{text_key}
use rivalis.Fleet.CommandEngine.{cmd_key}
use rivalis.Fleet.FleetState.{or_zero, without_owner}

abbrev pub owns : Text → Text → ℕ
owns instance_id owner = if owner == instance_id then 1 else 0

-- The counter after one entry of an instance is gone.
abbrev pub decrement : Text → Map Text ℕ → Map Text ℕ
decrement i counts =
    let count = or_zero (Map.lookup i counts) in
    if leb count 1 then Map.delete i counts else Map.set i (count - 1) counts

module _ {K : Type 0} ⦃e : Key K⦄ where
  -- The counter of each instance is the number of its entries.
  abbrev pub Counts : Map K Text → Map Text ℕ → Type 0
  Counts m counts = (i : Text) → or_zero (Map.lookup i counts) ≡ total (owns i) m

  pub Counts-set :
      (k : K) (i : Text) (m : Map K Text) (counts : Map Text ℕ)
      → Map.has k m ≡ false
      → Counts m counts
      → Counts (Map.set k i m) (Map.set i (or_zero (Map.lookup i counts) + 1) counts)
  Counts-set k i m counts h c j = ground (
    arith,
    Map.lookup-set i j (or_zero (Map.lookup i counts) + 1) counts,
    total-set (owns j) k i m,
    c i,
    c j,
    text_key.same_iff i j,
  )

  pub Counts-delete :
      (k : K) (i : Text) (m : Map K Text) (counts : Map Text ℕ)
      → Map.IsUnique m
      → Map.lookup k m ≡ some i
      → Counts m counts
      → Counts (Map.delete k m) (decrement i counts)
  Counts-delete k i m counts u h c j = ground (
    arith,
    Map.lookup-set i j (or_zero (Map.lookup i counts) - 1) counts,
    Map.lookup-delete i j counts,
    total-delete (owns j) k m u,
    c i,
    c j,
    text_key.same_iff i j,
  )

without_owner-total :
    (i j : Text) (m : Map Text Text)
    → total (owns j) (without_owner i m) ≡ (if i == j then 0 else total (owns j) m)
unfolding without_owner total
without_owner-total i j [] = ground arith
without_owner-total i j ((k, owner) ∷ m) = ground (
  arith,
  without_owner-total i j m,
  text_key.same_iff i j,
  text_key.same_iff owner i,
  text_key.same_iff owner j,
)

pub Counts-without_owner :
    (i : Text) (m : Map Text Text) (counts : Map Text ℕ)
    → Counts m counts
    → Counts (without_owner i m) (Map.delete i counts)
Counts-without_owner i m counts c j =
    ground (arith, without_owner-total i j m, Map.lookup-delete i j counts, c j)

has-without_owner :
    (i k : Text) (m : Map Text Text) → Map.has k m ≡ false → Map.has k (without_owner i m) ≡ false
unfolding without_owner Map.lookup
has-without_owner i k [] h = refl
has-without_owner i k ((j, owner) ∷ m) h = ground (arith, has-without_owner i k m)

pub without_owner-IsUnique :
    (i : Text) (m : Map Text Text) → Map.IsUnique m → Map.IsUnique (without_owner i m)
unfolding without_owner
without_owner-IsUnique i [] u = tt
without_owner-IsUnique i ((k, owner) ∷ m) u =
    ground (arith, without_owner-IsUnique i m u.1, has-without_owner i k m)
