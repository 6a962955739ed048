-- ===== src/Core/TokenBucket/Window.antt =====
-- core/src/TokenBucketRateLimiter.ts: how many frames of one actor pass in a stretch of time.
use rivalis.Common.{
  ℕ, ◌+◌, ◌-◌, ◌*◌, ◌≤◌, ◌<◌, ◌≡◌, refl, List, [], ◌∷◌, arith, Option, none, some, true, false, ◌⊎◌,
  String, string_key, inl, inr, Option-cases, subst, length,
}
use rivalis.Common.Map
use rivalis.Core.TokenBucket.{Bucket, Limiter, refresh, spend, full}
use rivalis.Core.TokenBucket.Bound.{IsBounded}
use rivalis.Core.TokenBucket.Eviction.{refresh-le, Capped-lookup}
use rivalis.Core.TokenBucket.Few.{Knows}
use rivalis.Core.TokenBucket.Rate.{span_split, charge, charges, charges_bound, Ascending, last_time}
use rivalis.Core.TokenBucket.Passes.{
  passes, times_of, InOrder, Among, Finds, IsWhole, passes-charges, times_of-Ascending,
}

refresh-from_full : (l : Limiter) (t now : ℕ) → t ≤ now → refresh l (full l t) now ≡ full l now
unfolding refresh
refresh-from_full l t now h = ground arith

refresh-refresh :
    (l : Limiter) (e : Bucket) (t now : ℕ)
    → e.last_refill ≤ t
    → t ≤ now
    → e.tokens ≤ 1000 * l.capacity
    → refresh l (refresh l e t) now ≡ refresh l e now
unfolding refresh
refresh-refresh l e t now h k cap =
    ground (arith, span_split e.last_refill t now l.refill_per_second h k)

charges-refresh :
    (l : Limiter) (e : Bucket) (t : ℕ) (times : List ℕ)
    → e.last_refill ≤ t
    → e.tokens ≤ 1000 * l.capacity
    → Ascending t times
    → (charges l (refresh l e t) times).1 ≡ (charges l e times).1
unfolding charges charge
charges-refresh l e t [] h cap o = refl
charges-refresh l e t (now ∷ later) h cap o = rw (refresh-refresh l e t now h o.0 cap) refl

refresh-last :
    (l : Limiter) (e : Bucket) (t : ℕ) → e.last_refill ≤ t → (refresh l e t).last_refill ≡ t
unfolding refresh
refresh-last l e t h = ground arith

-- One frame takes a token or finds none whole, and no refill takes tokens off.
charge_cases :
    (l : Limiter) (e : Bucket) (now : ℕ)
    → e.tokens ≤ 1000 * l.capacity
    → ((charge l e now).0.tokens ≤ 1000 * l.capacity)
      × ((((charge l e now).1 ≡ true) × (e.tokens ≤ (charge l e now).0.tokens + 1000))
          ⊎ (((charge l e now).1 ≡ false) × (e.tokens < 1000)))
unfolding charge refresh spend
charge_cases l e now held = ground arith

charges_least :
    (l : Limiter) (e : Bucket) (times : List ℕ)
    → e.tokens ≤ 1000 * l.capacity
    → (length times ≤ (charges l e times).1) ⊎ (e.tokens < 1000 * ((charges l e times).1 + 1))
unfolding charges
charges_least l e [] held = inl (omega arith)
charges_least l e (now ∷ later) held =
    let (held', cases) = charge_cases l e now held in
    let rest = charges_least l (charge l e now).0 later held' in ground (arith, cases, rest)

abbrev held_in : Limiter → ℕ → Option Bucket → ℕ
held_in l t none = 1000 * l.capacity
held_in l t (some e) = (refresh l e t).tokens

-- The tokens that `id` holds at time t: a new bucket is full.
abbrev pub held_at : Limiter → String → ℕ → ℕ
held_at l id t = held_in l t (Map.lookup id l.state)

-- Over some frames from time t on, so many pass: no more than what is held and refilled pays for, and
-- all, unless what is held is used up.
abbrev pub IsPaid : ℕ → ℕ → ℕ → List ℕ → ℕ → Type 0
IsPaid held refill t times n =
    (1000 * n ≤ held + (last_time t times - t) * refill)
    × ((length times ≤ n) ⊎ (held < 1000 * (n + 1)))

charges-IsPaid :
    (l : Limiter) (e : Bucket) (t : ℕ) (times : List ℕ)
    → e.last_refill ≤ t
    → e.tokens ≤ 1000 * l.capacity
    → Ascending t times
    → IsPaid (refresh l e t).tokens l.refill_per_second t times (charges l e times).1
charges-IsPaid l e t times h held o =
    let q = refresh-last l e t h in
    let z = charges_bound l (refresh l e t) times (rw q o) in
    let z' =
      subst
        (λ x.
          1000 * (charges l (refresh l e t) times).1
          ≤ (refresh l e t).tokens + (last_time x times - x) * l.refill_per_second)
        q (omega (arith, z)) in
    subst (IsPaid (refresh l e t).tokens l.refill_per_second t times)
      (charges-refresh l e t times h held o)
      (z', charges_least l (refresh l e t) times (refresh-le l e t held))

held_at-le : (l : Limiter) (id : String) (t : ℕ) → IsBounded l → held_at l id t ≤ 1000 * l.capacity
held_at-le l id t v = elim (Option-cases (Map.lookup id l.state)) [
  | inl q ↦ rw (q, held_in) (omega arith)
  | inr (e, q) ↦
      rw (q, held_in) (refresh-le l e t (Capped-lookup l.capacity id l.state e v.capped q))
]

-- Where a positive idle window refills a whole bucket, the limiter is within its bounds and has room for
-- all the actors that have a bucket or send a frame, the frames come in the order of their times from t
-- on, and the actor's bucket, if there is one, was refilled no later than t: of its frames `check` lets
-- pass no more than the tokens held at t, a full bucket at most, and the refill from t to its last frame
-- pay for, and all of them unless the tokens held at t are used up.
pub passes_bound :
    (who : List String) (id : String) (l : Limiter) (t : ℕ) (frames : List (String × ℕ))
    → IsBounded l
    → 0 < l.idle_evict_ms
    → 1000 * l.capacity ≤ l.idle_evict_ms * l.refill_per_second
    → length who ≤ l.max_buckets
    → Knows who l.state
    → ((e : Bucket) → Map.lookup id l.state ≡ some e → e.last_refill ≤ t)
    → InOrder t frames
    → Among who frames
    → (held_at l id t ≤ 1000 * l.capacity)
      × IsPaid (held_at l id t) l.refill_per_second t (times_of id frames) (passes l id frames)
passes_bound who id l t frames v window refills fits known past o a =
    let whole : IsWhole l = record { window = window; refills = refills } in
    let times = times_of id frames in
    let up : Ascending t times = times_of-Ascending id t t frames (omega arith) o in
    let paid : IsPaid (held_at l id t) l.refill_per_second t times (passes l id frames) =
      elim (Option-cases (Map.lookup id l.state)) [
        | inl q ↦
            let f : Finds id (full l t) t l = inr (q, λ now k. refresh-from_full l t now k) in
            let z = passes-charges who id l (full l t) t frames v whole fits known f o a in
            let y = charges-IsPaid l (full l t) t times (omega arith) (omega arith) up in
            rw (q, z) (rw (refresh-from_full l t t (omega arith)) at y)
        | inr (e, q) ↦
            let z = passes-charges who id l e t frames v whole fits known (inl q) o a in
            let held = Capped-lookup l.capacity id l.state e v.capped q in
            rw (q, z) (charges-IsPaid l e t times (past e q) held up)
      ] in
    (held_at-le l id t v, paid)
