-- ===== src/Core/TokenBucket/Others.antt =====
-- core/src/TokenBucketRateLimiter.ts: the check of one actor and the buckets of the others, where there is
-- room for all of them.
use rivalis.Common.{
  ℕ, ◌+◌, ◌≤◌, ◌≡◌, ◌∙◌, List, arith, ◌==◌, ltb, none, true, false, String, string_key, inl, inr,
  Option-cases, Bool-cases, length,
}
use rivalis.Common.Map
use text.Mathlib.TextEquality.{eq_iff}
use rivalis.Core.TokenBucket.{
  Limiter, acquire, check, sweep_idle, refresh, spend, full, evict_over_cap,
}
use rivalis.Core.TokenBucket.Bound.{IsBounded, sweep_idle-IsBounded}
use rivalis.Core.TokenBucket.Few.{includes, Knows, size-Knows}
use rivalis.Core.TokenBucket.Rate.{lookup-sweep_absent}

pub check_limits :
    (l : Limiter) (id : String) (now : ℕ)
    → ((check l id now).0.capacity ≡ l.capacity)
      × ((check l id now).0.refill_per_second ≡ l.refill_per_second)
      × ((check l id now).0.idle_evict_ms ≡ l.idle_evict_ms)
      × ((check l id now).0.max_buckets ≡ l.max_buckets)
unfolding check sweep_idle
check_limits l id now = ground arith

-- Where there is room for the bucket, nobody is evicted.
acquire-others :
    (l : Limiter) (id actor : String) (now : ℕ)
    → Map.size (Map.set actor (full l now) l.state) ≤ l.max_buckets
    → (actor == id) ≡ false
    → Map.lookup id (acquire l actor now).0 ≡ Map.lookup id l.state
unfolding acquire evict_over_cap
acquire-others l id actor now room other = elim (Option-cases (Map.lookup actor l.state)) [
  | inl q ↦ rw (q, acquire) (ground (arith, Map.lookup-set actor id (full l now) l.state))
  | inr (b, q) ↦
      rw (q, acquire)
        (ground (
          arith,
          Map.lookup-delete actor id l.state,
          Map.lookup-set actor id (refresh l b now) (Map.delete actor l.state),
        ))
]

sweep_idle-max : (l : Limiter) (now : ℕ) → (sweep_idle l now).max_buckets ≡ l.max_buckets
unfolding sweep_idle
sweep_idle-max l now = ground arith

pub sweep_idle-absent :
    (l : Limiter) (id : String) (now : ℕ)
    → Map.lookup id l.state ≡ none
    → Map.lookup id (sweep_idle l now).state ≡ none
unfolding sweep_idle
sweep_idle-absent l id now q = elim (Bool-cases (ltb now (l.last_sweep + l.idle_evict_ms))) [
  | inl t ↦ rw t q
  | inr t ↦ rw t (lookup-sweep_absent now l.idle_evict_ms id l.state q)
]

sweep_idle-Knows :
    (who : List String) (l : Limiter) (now : ℕ)
    → Knows who l.state
    → Knows who (sweep_idle l now).state
sweep_idle-Knows who l now known j h = sweep_idle-absent l j now (known j h)

includes-ne :
    (actor j : String) (who : List String)
    → includes actor who ≡ true
    → includes j who ≡ false
    → (actor == j) ≡ false
includes-ne actor j who h k = ground (arith, eq_iff actor j)

-- Among actors that fit the limiter, a check touches no bucket but its own.
pub check-others :
    (who : List String) (l : Limiter) (id actor : String) (now : ℕ)
    → IsBounded l
    → length who ≤ l.max_buckets
    → Knows who l.state
    → includes actor who ≡ true
    → (actor == id) ≡ false
    → Map.lookup id (check l actor now).0.state ≡ Map.lookup id (sweep_idle l now).state
unfolding check
check-others who l id actor now v fits known h other =
    let s = sweep_idle l now in
    let known' = sweep_idle-Knows who l now known in
    let few =
      size-Knows who (Map.set actor (full s now) s.state)
        (Map.set-IsUnique actor (full s now) s.state (sweep_idle-IsBounded l now v).unique)
        (λ j k.
          Map.lookup-set actor j (full s now) s.state
          ∙ rw (includes-ne actor j who h k) (known' j k)) in
    let rest = acquire-others s id actor now (omega (arith, few, sweep_idle-max l now)) other in
    let b = (spend (acquire s actor now).1).0 in
    Map.lookup-set actor id b (acquire s actor now).0 ∙ rw other rest

pub check-Knows :
    (who : List String) (l : Limiter) (actor : String) (now : ℕ)
    → IsBounded l
    → length who ≤ l.max_buckets
    → Knows who l.state
    → includes actor who ≡ true
    → Knows who (check l actor now).0.state
check-Knows who l actor now v fits known h j k =
    check-others who l j actor now v fits known h (includes-ne actor j who h k)
    ∙ sweep_idle-Knows who l now known j k
