-- ===== src/Core/TokenBucket/Passes.antt =====
-- core/src/TokenBucketRateLimiter.ts: which of one actor's frames `check` lets through, among the frames
-- of others and with the sweeps.
use rivalis.Common.{
  ℕ, ◌+◌, ◌*◌, ◌≤◌, ◌<◌, ◌≡◌, refl, ap, ◌∙◌, ◌⊎◌, List, [], ◌∷◌, arith, if◌then◌else◌, ◌==◌, some,
  none, true, false, String, string_key, inl, inr, Bool-cases, subst, sym, length,
}
use rivalis.Common.Map
use text.Mathlib.TextEquality.{eq_iff}
use rivalis.Core.TokenBucket.{Bucket, Limiter, check, sweep_idle, refresh, spend, full}
use rivalis.Core.TokenBucket.Bound.{IsBounded, check-IsBounded}
use rivalis.Core.TokenBucket.Few.{includes, Knows}
use rivalis.Core.TokenBucket.Rate.{
  charge, charges, check-charge, Ascending, check_new, refresh-full, sweep_cases,
}
use rivalis.Core.TokenBucket.Others.{check_limits, sweep_idle-absent, check-others, check-Knows}

-- How many of the frames of `id` pass, among frames of any actors at their times.
unfoldable pub passes : Limiter → String → List (String × ℕ) → ℕ
passes l id [] = 0
passes l id ((actor, now) ∷ later) =
    let (l', allowed) = check l actor now in
    let rest = passes l' id later in if actor == id then (if allowed then 1 else 0) + rest else rest

abbrev pub times_of : String → List (String × ℕ) → List ℕ
times_of id [] = []
times_of id ((actor, now) ∷ later) =
    let rest = times_of id later in if actor == id then now ∷ rest else rest

abbrev pub InOrder : ℕ → List (String × ℕ) → Type 0
InOrder from [] = Unit {0}
InOrder from ((actor, now) ∷ later) = (from ≤ now) × InOrder now later

-- From time t on `id` finds the bucket, or none where the bucket would be full.
abbrev pub Finds : String → Bucket → ℕ → Limiter → Type 0
Finds id e t l =
    (Map.lookup id l.state ≡ some e)
    ⊎ ((Map.lookup id l.state ≡ none) × ((now : ℕ) → t ≤ now → refresh l e now ≡ full l now))

-- The sweep grants no more than a refill over the window would.
pub record IsWhole (l : Limiter) : Type 0 where
  pub window : 0 < l.idle_evict_ms
  pub refills : 1000 * l.capacity ≤ l.idle_evict_ms * l.refill_per_second

sweep_idle-Finds :
    (l : Limiter) (id : String) (e : Bucket) (t now : ℕ)
    → Map.IsUnique l.state
    → IsWhole l
    → t ≤ now
    → Finds id e t l
    → (Map.lookup id (sweep_idle l now).state ≡ some e)
      ⊎ ((Map.lookup id (sweep_idle l now).state ≡ none)
          × ((later : ℕ) → now ≤ later → refresh l e later ≡ full l later))
sweep_idle-Finds l id e t now u whole h (inl q) = elim (sweep_cases l id now e u q) [
  | inl p ↦ inl p
  | inr (p, idle) ↦
      inr (p, λ later k. refresh-full l e later whole.refills whole.window (omega arith))
]
sweep_idle-Finds l id e t now u whole h (inr (q, fill)) =
    inr (sweep_idle-absent l id now q, λ later k. fill later (omega arith))

-- The check of `id` charges the bucket that it would find.
check-Finds :
    (l : Limiter) (id : String) (e : Bucket) (t now : ℕ)
    → Map.IsUnique l.state
    → IsWhole l
    → t ≤ now
    → Finds id e t l
    → ((check l id now).1 ≡ (charge l e now).1)
      × (Map.lookup id (check l id now).0.state ≡ some (charge l e now).0)
unfolding charge
check-Finds l id e t now u whole h f = elim (sweep_idle-Finds l id e t now u whole h f) [
  | inl found ↦ check-charge l id now e found
  | inr (gone, fill) ↦ rw (charge, fill now (omega arith)) (check_new l id now gone)
]

refresh-same :
    (l l' : Limiter) (e : Bucket) (now : ℕ)
    → l'.capacity ≡ l.capacity
    → l'.refill_per_second ≡ l.refill_per_second
    → refresh l' e now ≡ refresh l e now
unfolding refresh
refresh-same l l' e now c r = rw (c, r) refl

charge-same :
    (l l' : Limiter) (e : Bucket) (now : ℕ)
    → l'.capacity ≡ l.capacity
    → l'.refill_per_second ≡ l.refill_per_second
    → charge l' e now ≡ charge l e now
unfolding charge
charge-same l l' e now c r = ap spend (refresh-same l l' e now c r)

charges-same :
    (l l' : Limiter) (e : Bucket) (times : List ℕ)
    → l'.capacity ≡ l.capacity
    → l'.refill_per_second ≡ l.refill_per_second
    → (charges l' e times).1 ≡ (charges l e times).1
unfolding charges
charges-same l l' e [] c r = refl
charges-same l l' e (now ∷ later) c r =
    let same : charge l' e now ≡ charge l e now = charge-same l l' e now c r in
    rw same (
      ap (λ n. (if (charge l e now).1 then 1 else 0) + n)
        (charges-same l l' (charge l e now).0 later c r))

check-IsWhole : (l : Limiter) (id : String) (now : ℕ) → IsWhole l → IsWhole (check l id now).0
check-IsWhole l id now whole =
    let (c, r, i, m) = check_limits l id now in
    record { window = rw i whole.window; refills = rw (c, i, r) whole.refills }

abbrev pub Among : List String → List (String × ℕ) → Type 0
Among who [] = Unit {0}
Among who ((actor, now) ∷ later) = (includes actor who ≡ true) × Among who later

pub times_of-Ascending :
    (id : String) (from t : ℕ) (frames : List (String × ℕ))
    → from ≤ t
    → InOrder t frames
    → Ascending from (times_of id frames)
times_of-Ascending id from t [] h o = tt
times_of-Ascending id from t ((actor, now) ∷ later) h o = elim (Bool-cases (actor == id)) [
  | inl q ↦ rw q (omega arith, times_of-Ascending id now now later (omega arith) o.1)
  | inr q ↦ rw q (times_of-Ascending id from now later (omega arith) o.1)
]

-- The check of another actor leaves what `id` finds.
check-others-Finds :
    (who : List String) (id : String) (l : Limiter) (e : Bucket) (t : ℕ) (actor : String) (now : ℕ)
    → IsBounded l
    → IsWhole l
    → length who ≤ l.max_buckets
    → Knows who l.state
    → Finds id e t l
    → t ≤ now
    → includes actor who ≡ true
    → (actor == id) ≡ false
    → Finds id e now (check l actor now).0
check-others-Finds who id l e t actor now v whole fits known f h among other =
    let (c, r, i, m) = check_limits l actor now in
    let z = check-others who l id actor now v fits known among other in
    elim (sweep_idle-Finds l id e t now v.unique whole h f) [
      | inl p ↦ inl (z ∙ p)
      | inr (p, fill) ↦ inr (
        z ∙ p,
        λ later k.
            refresh-same l (check l actor now).0 e later c r
            ∙ fill later k
            ∙ ap (λ n. record { tokens = 1000 * n; last_refill = later }) (sym c),
      )
    ]

pub passes-charges :
    (who : List String) (id : String) (l : Limiter) (e : Bucket) (t : ℕ)
    (frames : List (String × ℕ))
    → IsBounded l
    → IsWhole l
    → length who ≤ l.max_buckets
    → Knows who l.state
    → Finds id e t l
    → InOrder t frames
    → Among who frames
    → passes l id frames ≡ (charges l e (times_of id frames)).1
unfolding passes charges
passes-charges who id l e t [] v whole fits known f o a = refl
passes-charges who id l e t ((actor, now) ∷ later) v whole fits known f o a =
    let l' = (check l actor now).0 in
    let (c, r, i, m) = check_limits l actor now in
    let v' = check-IsBounded l actor now v in
    let known' = check-Knows who l actor now v fits known a.0 in
    let rest : (e' : Bucket)
        → Finds id e' now l'
        → passes l' id later ≡ (charges l e' (times_of id later)).1 =
      λ e' f'.
        passes-charges who id l' e' now later v' (check-IsWhole l actor now whole) (rw m fits)
          known' f' o.1 a.1
        ∙ charges-same l l' e' (times_of id later) c r in
    elim (Bool-cases (actor == id)) [
      | inl q ↦
          let same : actor ≡ id = (eq_iff actor id).0 q in
          let e' = (charge l e now).0 in
          let (answer, found) =
            check-Finds l actor e t now v.unique whole o.0
              (subst (λ x. Finds x e t l) (sym same) f) in
          let found' : Map.lookup id l'.state ≡ some e' =
            subst (λ x. Map.lookup x l'.state ≡ some e') same found in
          rw q
            (rw answer (ap (λ n. (if (charge l e now).1 then 1 else 0) + n) (rest e' (inl found'))))
      | inr q ↦
          rw q (rest e (check-others-Finds who id l e t actor now v whole fits known f o.0 a.0 q))
    ]
