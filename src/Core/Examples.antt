-- ===== src/Core/Examples.antt =====
-- The rate limiter on concrete calls.
use rivalis.Common.{
  ℕ, String, List, ◌+◌, ◌-◌, ◌*◌, ◌≤◌, ◌<◌, ◌≡◌, refl, [], ◌∷◌, some, string_key, arith,
}
use rivalis.Common.Map
use rivalis.Common.Result.{ok}
use rivalis.Core.TokenBucket.{Bucket, Limiter, Options, create, check, refresh, spend, full}
use rivalis.Core.TokenBucket.Rate.{charge, charges, charges_bound, sweep_transparent, sweep_refills}
use rivalis.Core.TokenBucket.Few.{Knows}
use rivalis.Core.TokenBucket.Window.{IsPaid, passes_bound}
use rivalis.Core.TokenBucket.Passes.{passes}
use text.Mathlib.TextEquality.{eq_iff}
use rivalis.Core.TokenBucket.Bound.{
  IsBounded, checks, releases, run, run-create-IsBounded, check-IsBounded, create-IsBounded,
}

abbrev two_a_second : Options
two_a_second = record {
  capacity = some 3;
  refill_per_second = some 2;
  max_buckets = some 2;
  idle_evict_ms = some 60_000;
}

abbrev fresh : Limiter
fresh = record {
  state = [];
  capacity = 3;
  refill_per_second = 2;
  max_buckets = 2;
  idle_evict_ms = 60_000;
  last_sweep = 0;
}

abbrev spent : Bucket
spent = record { tokens = 0; last_refill = 1_000 }

abbrev busy : Limiter
busy = record fresh { state = ("ann", spent) ∷ [] }

-- A window of a second refills two of three tokens.
abbrev hasty : Limiter
hasty = record busy { idle_evict_ms = 1_000 }

fresh_lem : create two_a_second ≡ ok fresh
unfolding create
fresh_lem = refl

run-create-IsBounded_example :
    IsBounded (run fresh (checks "ann" 5 ∷ checks "bob" 6 ∷ releases "ann" ∷ checks "cat" 4 ∷ []))
run-create-IsBounded_example =
    run-create-IsBounded two_a_second fresh
      (checks "ann" 5 ∷ checks "bob" 6 ∷ releases "ann" ∷ checks "cat" 4 ∷ []) fresh_lem

check-IsBounded_example : IsBounded (check fresh "ann" 5).0
check-IsBounded_example =
    check-IsBounded fresh "ann" 5 (create-IsBounded two_a_second fresh fresh_lem)

charges_bound_example :
    1000 * (charges busy spent (1_200 ∷ 1_700 ∷ [])).1
      + (charges busy spent (1_200 ∷ 1_700 ∷ [])).0.tokens
    ≤ 0 + (1_700 - 1_000) * 2
charges_bound_example = charges_bound busy spent (1_200 ∷ 1_700 ∷ []) (omega arith)

busy_found : Map.lookup "ann" busy.state ≡ some spent
unfolding Map.lookup
busy_found = refl

busy-IsUnique : Map.IsUnique busy.state
unfolding Map.lookup
busy-IsUnique = (refl, tt)

sweep_transparent_example :
    ((check busy "ann" 70_000).1 ≡ (charge busy spent 70_000).1)
    × (Map.lookup "ann" (check busy "ann" 70_000).0.state ≡ some (charge busy spent 70_000).0)
sweep_transparent_example =
    sweep_transparent busy "ann" 70_000 spent busy-IsUnique (omega arith) (omega arith) busy_found

sweep_refills_example :
    ((refresh hasty spent 2_000).tokens < 1000 * 3)
    × (Map.lookup "ann" (check hasty "ann" 2_000).0.state ≡ some (spend (full hasty 2_000)).0)
sweep_refills_example =
    sweep_refills hasty "ann" 2_000 spent busy-IsUnique (omega arith) (omega arith) busy_found refl
      refl (omega arith)

busy-IsBounded : IsBounded busy
busy-IsBounded = record {
  unique = busy-IsUnique;
  few = omega arith;
  room = omega arith;
  capped = ground arith;
}

abbrev both : List String
both = "ann" ∷ "bob" ∷ []

busy-Knows : Knows both busy.state
unfolding Map.lookup
busy-Knows id h = ground (arith, eq_iff "ann" id)

busy_past : (e : Bucket) → Map.lookup "ann" busy.state ≡ some e → e.last_refill ≤ 1_100
busy_past e h = ground (arith, busy_found, h)

abbrev frames : List (String × ℕ)
frames = ("ann", 1_200) ∷ ("bob", 1_300) ∷ ("ann", 2_700) ∷ []

-- At 1.1 s a fifth of a token is held.
passes_bound_example :
    (200 ≤ 1000 * 3) × IsPaid 200 2 1_100 (1_200 ∷ 2_700 ∷ []) (passes busy "ann" frames)
unfolding Map.lookup refresh
passes_bound_example =
    passes_bound both "ann" busy 1_100 frames busy-IsBounded (omega arith) (omega arith)
      (omega arith) busy-Knows busy_past (omega arith, (omega arith, (omega arith, tt)))
      (refl, (refl, (refl, tt)))
