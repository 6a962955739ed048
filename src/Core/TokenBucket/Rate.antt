-- ===== src/Core/TokenBucket/Rate.antt =====
-- core/src/TokenBucketRateLimiter.ts: how many frames a bucket lets through.
use rivalis.Common.{
  ℕ, ◌+◌, ◌-◌, ◌*◌, ◌≤◌, ◌<◌, ◌≡◌, refl, ap, ◌∙◌, ◌⊎◌, inl, inr, Bool-cases, Bool, List, [], ◌∷◌,
  arith, if◌then◌else◌, ltb, leb, none, some, String, string_key,
}
use rivalis.Common.Map
use text.Mathlib.TextEquality.{eq_iff}
use rivalis.Core.TokenBucket.{
  Bucket, Limiter, refresh, spend, full, acquire, check, sweep_idle, sweep,
}

-- One frame at time `now` on a bucket: the refill, then the charge.
unfoldable pub charge : Limiter → Bucket → ℕ → Bucket × Bool
charge l e now = spend (refresh l e now)

unfoldable pub charges : Limiter → Bucket → List ℕ → Bucket × ℕ
charges l e [] = (e, 0)
charges l e (now ∷ later) =
    let (e', allowed) = charge l e now in
    let (e'', n) = charges l e' later in (e'', (if allowed then 1 else 0) + n)

abbrev pub Ascending : ℕ → List ℕ → Type 0
Ascending from [] = Unit {0}
Ascending from (now ∷ later) = (from ≤ now) × Ascending now later

abbrev pub last_time : ℕ → List ℕ → ℕ
last_time from [] = from
last_time from (now ∷ later) = last_time now later

-- Each frame let through is paid for.
pub charge_step :
    (l : Limiter) (e : Bucket) (now : ℕ)
    → e.last_refill ≤ now
    → ((charge l e now).0.last_refill ≡ now)
      × ((charge l e now).0.tokens + (if (charge l e now).1 then 1000 else 0)
          ≤ e.tokens + (now - e.last_refill) * l.refill_per_second)
unfolding charge refresh spend
charge_step l e now h = ground arith

pub span_split : (a b c r : ℕ) → a ≤ b → b ≤ c → (b - a) * r + (c - b) * r ≡ (c - a) * r
span_split a b c r h k =
    let e : (b - a) + (c - b) ≡ c - a = omega arith in omega (arith, ap (λ (t : ℕ). t * r) e)

last_time-ge : (from : ℕ) (times : List ℕ) → Ascending from times → from ≤ last_time from times
last_time-ge from [] h = omega arith
last_time-ge from (now ∷ later) h = omega (arith, last_time-ge now later h.1)

-- Over frames at ascending times, none before its last refill, a bucket lets through at most what it held, and what was refilled
-- until the last of them.
pub charges_bound :
    (l : Limiter) (e : Bucket) (times : List ℕ)
    → Ascending e.last_refill times
    → 1000 * (charges l e times).1 + (charges l e times).0.tokens
      ≤ e.tokens + (last_time e.last_refill times - e.last_refill) * l.refill_per_second
unfolding charges
charges_bound l e [] h = omega arith
charges_bound l e (now ∷ later) h =
    let (at, paid) = charge_step l e now h.0 in
    let e' = (charge l e now).0 in
    let next : Ascending e'.last_refill later = rw at h.1 in
    let rest = charges_bound l e' later next in
    let rest' = rw at at rest in
    ground (
      arith,
      paid,
      rest',
      span_split e.last_refill now (last_time now later) l.refill_per_second h.0
          (last_time-ge now later h.1),
    )

sweep_idle-same :
    (l : Limiter) (e : Bucket) (now t : ℕ) → refresh (sweep_idle l t) e now ≡ refresh l e now
unfolding refresh sweep_idle
sweep_idle-same l e now t = ground arith

sweep_idle-capacity : (l : Limiter) (t : ℕ) → (sweep_idle l t).capacity ≡ l.capacity
unfolding sweep_idle
sweep_idle-capacity l t = ground arith

acquire_known :
    (l : Limiter) (id : String) (now : ℕ) (e : Bucket)
    → Map.lookup id l.state ≡ some e
    → (acquire l id now).1 ≡ refresh l e now
unfolding acquire
acquire_known l id now e h = rw (h, acquire)

acquire_new :
    (l : Limiter) (id : String) (now : ℕ)
    → Map.lookup id l.state ≡ none
    → (acquire l id now).1 ≡ full l now
unfolding acquire
acquire_new l id now h = rw (h, acquire)

check_spends :
    (l : Limiter) (id : String) (now : ℕ) (e : Bucket)
    → (acquire (sweep_idle l now) id now).1 ≡ e
    → ((check l id now).1 ≡ (spend e).1)
      × (Map.lookup id (check l id now).0.state ≡ some (spend e).0)
unfolding check
check_spends l id now e h = rw h (refl, Map.lookup-set_self id (spend e).0 _)

-- For an actor whose bucket is there after the sweep, `check` charges that bucket, and answers what
-- the charge answers.
pub check-charge :
    (l : Limiter) (id : String) (now : ℕ) (e : Bucket)
    → Map.lookup id (sweep_idle l now).state ≡ some e
    → ((check l id now).1 ≡ (charge l e now).1)
      × (Map.lookup id (check l id now).0.state ≡ some (charge l e now).0)
unfolding charge
check-charge l id now e h =
    check_spends l id now (refresh l e now)
      (acquire_known (sweep_idle l now) id now e h ∙ sweep_idle-same l e now now)

-- An actor without a bucket after the sweep starts with a full one.
pub check_new :
    (l : Limiter) (id : String) (now : ℕ)
    → Map.lookup id (sweep_idle l now).state ≡ none
    → ((check l id now).1 ≡ (spend (full l now)).1)
      × (Map.lookup id (check l id now).0.state ≡ some (spend (full l now)).0)
check_new l id now h = check_spends l id now (full l now) (
    acquire_new (sweep_idle l now) id now h
    ∙ ap (λ (c : ℕ). record { tokens = 1000 * c; last_refill = now }) (sweep_idle-capacity l now))

pub lookup-sweep_absent :
    (now idle : ℕ) (id : String) (m : Map.Map String Bucket)
    → Map.lookup id m ≡ none
    → Map.lookup id (sweep now idle m) ≡ none
unfolding sweep Map.lookup
lookup-sweep_absent now idle id [] h = refl
lookup-sweep_absent now idle id ((j, w) ∷ m) h =
    ground (arith, eq_iff j id, lookup-sweep_absent now idle id m)

lookup-sweep :
    (now idle : ℕ) (id : String) (m : Map.Map String Bucket)
    → Map.IsUnique m
    → (e : Bucket) → Map.lookup id m ≡ some e
    → Map.lookup id (sweep now idle m) ≡ (if leb (e.last_refill + idle) now then none else some e)
unfolding sweep Map.lookup
lookup-sweep now idle id [] u e h = cc
lookup-sweep now idle id ((j, w) ∷ m) u e h =
    ground (arith, eq_iff j id, lookup-sweep now idle id m u.1 e, lookup-sweep_absent now idle id m)

pub sweep_cases :
    (l : Limiter) (id : String) (now : ℕ) (e : Bucket)
    → Map.IsUnique l.state
    → Map.lookup id l.state ≡ some e
    → (Map.lookup id (sweep_idle l now).state ≡ some e)
      ⊎ ((Map.lookup id (sweep_idle l now).state ≡ none) × (e.last_refill + l.idle_evict_ms ≤ now))
unfolding sweep_idle
sweep_cases l id now e u h = elim (Bool-cases (ltb now (l.last_sweep + l.idle_evict_ms))) [
  | inl t ↦ inl (rw t h)
  | inr t ↦ elim (Bool-cases (leb (e.last_refill + l.idle_evict_ms) now)) [
    | inl s ↦ inr (rw t (lookup-sweep now l.idle_evict_ms id l.state u e h ∙ rw s), ground arith)
    | inr s ↦ inl (rw t (lookup-sweep now l.idle_evict_ms id l.state u e h ∙ rw s))
  ]
]

span_mono : (a b r : ℕ) → a ≤ b → a * r ≤ b * r
span_mono a b r h = grind arith

pub refresh-full :
    (l : Limiter) (e : Bucket) (now : ℕ)
    → 1000 * l.capacity ≤ l.idle_evict_ms * l.refill_per_second
    → 0 < l.idle_evict_ms
    → e.last_refill + l.idle_evict_ms ≤ now
    → refresh l e now ≡ full l now
unfolding refresh
refresh-full l e now refills pos idle =
    let m = span_mono l.idle_evict_ms (now - e.last_refill) l.refill_per_second (omega arith) in
    ground (arith, m)

-- Where a positive idle window refills a whole bucket and no key is there twice, the sweep changes no answer and no charge: the actor
-- finds the bucket that it would have had.
pub sweep_transparent :
    (l : Limiter) (id : String) (now : ℕ) (e : Bucket)
    → Map.IsUnique l.state
    → 1000 * l.capacity ≤ l.idle_evict_ms * l.refill_per_second
    → 0 < l.idle_evict_ms
    → Map.lookup id l.state ≡ some e
    → ((check l id now).1 ≡ (charge l e now).1)
      × (Map.lookup id (check l id now).0.state ≡ some (charge l e now).0)
unfolding charge
sweep_transparent l id now e u refills pos h = elim (sweep_cases l id now e u h) [
  | inl found ↦ check-charge l id now e found
  | inr (gone, idle) ↦ rw (charge, refresh-full l e now refills pos idle) (check_new l id now gone)
]

lookup-sweep_due :
    (l : Limiter) (id : String) (now : ℕ) (e : Bucket)
    → Map.IsUnique l.state
    → Map.lookup id l.state ≡ some e
    → e.last_refill + l.idle_evict_ms ≤ now
    → l.last_sweep + l.idle_evict_ms ≤ now
    → Map.lookup id (sweep_idle l now).state ≡ none
unfolding sweep_idle
lookup-sweep_due l id now e u h idle due =
    ground (arith, lookup-sweep now l.idle_evict_ms id l.state u e h)

-- Where an idle window refills less than a whole bucket, a due sweep hands an idle actor tokens that no
-- time has earned: an empty bucket idle for just the window comes back full.
pub sweep_refills :
    (l : Limiter) (id : String) (now : ℕ) (e : Bucket)
    → Map.IsUnique l.state
    → l.idle_evict_ms * l.refill_per_second < 1000 * l.capacity
    → 0 < l.idle_evict_ms
    → Map.lookup id l.state ≡ some e
    → e.tokens ≡ 0
    → now ≡ e.last_refill + l.idle_evict_ms
    → l.last_sweep + l.idle_evict_ms ≤ now
    → ((refresh l e now).tokens < 1000 * l.capacity)
      × (Map.lookup id (check l id now).0.state ≡ some (spend (full l now)).0)
unfolding refresh
sweep_refills l id now e u short pos h empty at due =
    (ground arith, (check_new l id now (lookup-sweep_due l id now e u h (omega arith) due)).1)
