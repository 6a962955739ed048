-- ===== src/Core/TokenBucket.antt =====
-- core/src/TokenBucketRateLimiter.ts. Tokens are counted in thousandths, so that a refill of
-- `refill_per_second` tokens a second adds that many thousandths a millisecond; sums are exact, where
-- the source adds doubles. Times are milliseconds, and `Date.now()` is an argument.
pub mod Bound
pub mod Eviction
pub mod Rate
pub mod Few
pub mod Others
pub mod Passes
pub mod Window
use rivalis.Common.{
  ℕ, zero, suc, ◌+◌, ◌-◌, ◌*◌, ◌<◌, Bool, true, false, List, [], ◌∷◌, Option, none, some, String,
  string_key, ◌==◌, ltb, leb, eqb, if◌then◌else◌, min,
}
use rivalis.Common.Map
use rivalis.Common.Map.{Map}
use rivalis.Common.Result.{Result, ok, err}

pub record Bucket : Type 0 where
  pub tokens : ℕ
  pub last_refill : ℕ

pub record Limiter : Type 0 where
  pub state : Map String Bucket
  pub capacity : ℕ
  pub refill_per_second : ℕ
  pub max_buckets : ℕ
  pub idle_evict_ms : ℕ
  pub last_sweep : ℕ

pub record Options : Type 0 where
  pub capacity : Option ℕ
  pub refill_per_second : Option ℕ
  pub max_buckets : Option ℕ
  pub idle_evict_ms : Option ℕ

pub data OptionError : Type 0 where
  bad_capacity bad_refill bad_max_buckets bad_idle_evict : OptionError

-- `a ?? b`.
abbrev pub or_default : Option ℕ → ℕ → ℕ
or_default none d = d
or_default (some a) d = a

-- The constructor, on whole numbers.
unfoldable pub create : Options → Result OptionError Limiter
create o =
    let capacity = or_default o.capacity 30 in
    let refill = or_default o.refill_per_second 30 in
    let max_buckets = or_default o.max_buckets 100_000 in
    let idle = or_default o.idle_evict_ms 60_000 in
    if eqb capacity 0
    then err bad_capacity
    else if eqb refill 0
    then err bad_refill
    else if eqb max_buckets 0
    then err bad_max_buckets
    else if eqb idle 0
    then err bad_idle_evict
    else ok (record {
      state = [];
      capacity = capacity;
      refill_per_second = refill;
      max_buckets = max_buckets;
      idle_evict_ms = idle;
      last_sweep = 0;
    })

-- The loop of `sweepIdle`: what it keeps.
unfoldable pub sweep : ℕ → ℕ → Map String Bucket → Map String Bucket
sweep now idle [] = []
sweep now idle ((id, e) ∷ m) =
    let rest = sweep now idle m in if leb (e.last_refill + idle) now then rest else (id, e) ∷ rest

-- `now - lastSweep < idleEvictMs`, also where the clock went back.
unfoldable pub sweep_idle : Limiter → ℕ → Limiter
unfolding sweep
sweep_idle l now =
    if ltb now (l.last_sweep + l.idle_evict_ms)
    then l
    else record l { last_sweep = now; state = sweep now l.idle_evict_ms l.state }

-- The loop of `evictOverCap` over the keys, least recently used first.
unfoldable pub evict_loop : List String → String → ℕ → Map String Bucket → Map String Bucket
evict_loop [] keep max_buckets m = m
evict_loop (id ∷ ids) keep max_buckets m =
    let rest = evict_loop ids keep max_buckets (if id == keep then m else Map.delete id m) in
    if leb (Map.size m) max_buckets then m else rest

unfoldable pub evict_over_cap : String → ℕ → Map String Bucket → Map String Bucket
unfolding evict_loop
evict_over_cap keep max_buckets m =
    if leb (Map.size m) max_buckets then m else evict_loop (Map.keys m) keep max_buckets m

-- A bucket that is there is topped up for the time that went by; if the clock went back, only the
-- baseline moves.
unfoldable pub refresh : Limiter → Bucket → ℕ → Bucket
refresh l e now =
    if ltb now e.last_refill
    then record e { last_refill = now }
    else if ltb e.last_refill now
    then record {
      tokens = min (1000 * l.capacity) (e.tokens + (now - e.last_refill) * l.refill_per_second);
      last_refill = now;
    }
    else e

-- A frame takes one token, if there is one.
unfoldable pub spend : Bucket → Bucket × Bool
spend e = if leb 1000 e.tokens then (record e { tokens = e.tokens - 1000 }, true) else (e, false)

abbrev pub full : Limiter → ℕ → Bucket
full l now = record { tokens = 1000 * l.capacity; last_refill = now }

-- The buckets and the bucket that `check` charges.
unfoldable pub acquire : Limiter → String → ℕ → Map String Bucket × Bucket
unfolding evict_over_cap refresh
acquire l id now = elim (Map.lookup id l.state) [
  | none ↦ (evict_over_cap id l.max_buckets (Map.set id (full l now) l.state), full l now)
  | some e ↦ (Map.set id (refresh l e now) (Map.delete id l.state), refresh l e now)
]

-- The bucket is an object of the map, so the charge shows there.
unfoldable pub check : Limiter → String → ℕ → Limiter × Bool
unfolding sweep_idle acquire spend
check l id now =
    let swept = sweep_idle l now in
    let (m, e) = acquire swept id now in
    let (e', allowed) = spend e in (record swept { state = Map.set id e' m }, allowed)

unfoldable pub release : Limiter → String → Limiter
release l id = record l { state = Map.delete id l.state }
