-- ===== src/Core/TokenBucket/Bound.antt =====
-- core/src/TokenBucketRateLimiter.ts: how many buckets the limiter has, and how full they are.
use rivalis.Common.{
  ℕ, ◌*◌, ◌≤◌, ◌<◌, ◌≡◌, true, List, [], ◌∷◌, arith, String, string_key, inl, inr, Option-cases,
}
use rivalis.Common.Map
use rivalis.Common.Map.{Map}
use rivalis.Common.Result.{ok}
use rivalis.Core.TokenBucket.{
  Limiter, Options, create, refresh, spend, full, acquire, check, release, sweep_idle,
}
use rivalis.Core.TokenBucket.Eviction.{
  Capped, Capped-lookup, Capped-set, Capped-delete, sweep_lem, refresh-le, spend-le, evict_lem,
}

pub record IsBounded (l : Limiter) : Type 0 where
  pub unique : Map.IsUnique l.state
  pub few : Map.size l.state ≤ l.max_buckets
  pub room : 0 < l.max_buckets
  pub capped : Capped l.capacity l.state

pub sweep_idle-IsBounded : (l : Limiter) (now : ℕ) → IsBounded l → IsBounded (sweep_idle l now)
unfolding sweep_idle
sweep_idle-IsBounded l now v =
    ground (arith, sweep_lem now l.idle_evict_ms l.capacity l.state v.unique v.capped)

-- What `acquire` yields: buckets within the bounds, that of `id` among them.
acquire_lem :
    (l : Limiter) (id : String) (now : ℕ)
    → IsBounded l
    → Map.IsUnique (acquire l id now).0
      × (Map.size (acquire l id now).0 ≤ l.max_buckets)
      × Capped l.capacity (acquire l id now).0
      × (Map.has id (acquire l id now).0 ≡ true)
      × ((acquire l id now).1.tokens ≤ 1000 * l.capacity)
unfolding acquire
acquire_lem l id now v = elim (Option-cases (Map.lookup id l.state)) [
  | inl e ↦
      let m = Map.set id (full l now) l.state in
      let (u, z, h, q) =
        evict_lem id l.max_buckets l.capacity m v.room
          (Map.set-IsUnique id (full l now) l.state v.unique)
          (Capped-set l.capacity id (full l now) l.state (omega arith) v.capped) in
      rw (e, acquire) (u, z, h, rw (q, Map.lookup-set_self id (full l now) l.state), omega arith)
  | inr (b, e) ↦
      let b' = refresh l b now in
      let d = Map.delete id l.state in
      let t = refresh-le l b now (Capped-lookup l.capacity id l.state b v.capped e) in
      rw (e, acquire)
        (
          Map.set-IsUnique id b' d (Map.delete-IsUnique id l.state v.unique),
          ground (
            arith,
            Map.size-set id b' d,
            Map.size-delete id l.state v.unique,
            Map.lookup-delete_self id l.state,
            v.few,
          ),
          Capped-set l.capacity id b' d t (Capped-delete l.capacity id l.state v.capped),
          rw (Map.lookup-set_self id b' d),
          t,
        )
]

-- A check keeps the limiter within its bounds, whatever the clock does.
pub check-IsBounded :
    (l : Limiter) (id : String) (now : ℕ) → IsBounded l → IsBounded (check l id now).0
unfolding check
check-IsBounded l id now v =
    let s = sweep_idle l now in
    let (u, z, h, q, t) = acquire_lem s id now (sweep_idle-IsBounded l now v) in
    let m = (acquire s id now).0 in
    let b = (spend (acquire s id now).1).0 in
    let room = (sweep_idle-IsBounded l now v).room in
    let paid = spend-le (acquire s id now).1 in
    record {
      unique = Map.set-IsUnique id b m u;
      few = ground (arith, Map.size-set id b m, q, z);
      room = room;
      capped = Capped-set s.capacity id b m (omega arith) h;
    }

pub release-IsBounded : (l : Limiter) (id : String) → IsBounded l → IsBounded (release l id)
unfolding release
release-IsBounded l id v = record {
  unique = Map.delete-IsUnique id l.state v.unique;
  few = omega (arith, Map.size-delete-le id l.state, v.few);
  room = v.room;
  capped = Capped-delete l.capacity id l.state v.capped;
}

pub create-IsBounded : (o : Options) (l : Limiter) → create o ≡ ok l → IsBounded l
unfolding create
create-IsBounded o l h = ground arith

-- The calls that a server makes, in any order.
pub data Call : Type 0 where
  checks : String → ℕ → Call
  releases : String → Call

unfoldable pub run : Limiter → List Call → Limiter
run l [] = l
run l (checks id now ∷ cs) = run (check l id now).0 cs
run l (releases id ∷ cs) = run (release l id) cs

run-IsBounded : (l : Limiter) (cs : List Call) → IsBounded l → IsBounded (run l cs)
unfolding run
run-IsBounded l [] v = v
run-IsBounded l (checks id now ∷ cs) v =
    run-IsBounded (check l id now).0 cs (check-IsBounded l id now v)
run-IsBounded l (releases id ∷ cs) v = run-IsBounded (release l id) cs (release-IsBounded l id v)

-- A limiter that was created keeps its bounds over every history of checks and releases.
pub run-create-IsBounded :
    (o : Options) (l : Limiter) (cs : List Call) → create o ≡ ok l → IsBounded (run l cs)
run-create-IsBounded o l cs h = run-IsBounded l cs (create-IsBounded o l h)
