-- ===== src/Core/TokenBucket/Eviction.antt =====
-- What the sweep and the eviction of least recently used buckets keep.
use rivalis.Common.{
  ℕ, suc, ◌+◌, ◌*◌, ◌≤◌, ◌<◌, ◌≡◌, refl, ap, ◌∙◌, Bool, true, false, List, [], ◌∷◌, arith,
  if◌then◌else◌, leb, some, String, string_key, ◌==◌, length, Bool-cases, inl, inr, All,
}
use rivalis.Common.Map
use rivalis.Common.Map.{Map}
use rivalis.Core.TokenBucket.{Bucket, Limiter, refresh, spend, sweep, evict_loop, evict_over_cap}
use rivalis.Core.TokenBucket.Rate.{lookup-sweep_absent}
use text.Mathlib.TextEquality.{eq_iff}

abbrev pub Capped : ℕ → Map String Bucket → Type 0
Capped cap' [] = Unit {0}
Capped cap' ((k, e) ∷ m) = (e.tokens ≤ 1000 * cap') × Capped cap' m

pub Capped-lookup :
    (c : ℕ) (k : String) (m : Map String Bucket) (e : Bucket)
    → Capped c m
    → Map.lookup k m ≡ some e
    → e.tokens ≤ 1000 * c
unfolding Map.lookup
Capped-lookup c k [] e h p = cc
Capped-lookup c k ((j, w) ∷ m) e h p = ground (arith, Capped-lookup c k m e h.1)

pub Capped-set :
    (c : ℕ) (k : String) (e : Bucket) (m : Map String Bucket)
    → e.tokens ≤ 1000 * c
    → Capped c m
    → Capped c (Map.set k e m)
unfolding Map.set
Capped-set c k e [] t h = (t, tt)
Capped-set c k e ((j, w) ∷ m) t h = ground (arith, Capped-set c k e m t h.1)

pub Capped-delete :
    (c : ℕ) (k : String) (m : Map String Bucket) → Capped c m → Capped c (Map.delete k m)
unfolding Map.delete
Capped-delete c k [] h = tt
Capped-delete c k ((j, w) ∷ m) h = ground (arith, Capped-delete c k m h.1)

sweep-absent :
    (now idle : ℕ) (k : String) (m : Map String Bucket)
    → Map.has k m ≡ false
    → Map.has k (sweep now idle m) ≡ false
sweep-absent now idle k m h = ground (arith, lookup-sweep_absent now idle k m)

pub sweep_lem :
    (now idle c : ℕ) (m : Map String Bucket)
    → Map.IsUnique m
    → Capped c m
    → Map.IsUnique (sweep now idle m)
      × (Map.size (sweep now idle m) ≤ Map.size m)
      × Capped c (sweep now idle m)
unfolding sweep
sweep_lem now idle c [] u h = (tt, omega arith, tt)
sweep_lem now idle c ((k, e) ∷ m) u h =
    ground (arith, sweep_lem now idle c m u.1 h.1, sweep-absent now idle k m u.0)

pub refresh-le :
    (l : Limiter) (e : Bucket) (now : ℕ)
    → e.tokens ≤ 1000 * l.capacity
    → (refresh l e now).tokens ≤ 1000 * l.capacity
unfolding refresh
refresh-le l e now h = ground arith

pub spend-le : (e : Bucket) → (spend e).0.tokens ≤ e.tokens
unfolding spend
spend-le e = ground arith

-- Distinct keys, each with a bucket.
abbrev Present : List String → Map String Bucket → Type 0
Present [] m = Unit {0}
Present (k ∷ ks) m = (Map.has k m ≡ true) × (All (λ j. (k == j) ≡ false) ks) × Present ks m

contains : String → List String → Bool
contains a [] = false
contains a (k ∷ ks) = if k == a then true else contains a ks

Present-delete :
    (k : String) (ks : List String) (m : Map String Bucket)
    → All (λ j. (k == j) ≡ false) ks
    → Present ks m
    → Present ks (Map.delete k m)
Present-delete k [] m d h = tt
Present-delete k (j ∷ ks) m d h =
    ground (arith, Map.lookup-delete k j m, Present-delete k ks m d.1 h.2)

absent : (k : String) (ks : List String) → All (λ j. (k == j) ≡ false) ks → contains k ks ≡ false
unfolding contains
absent k [] h = refl
absent k (j ∷ ks) h = ground (arith, eq_iff k j, eq_iff j k, absent k ks h.1)

evict_loop_lem :
    (ids : List String) (keep : String) (limit c : ℕ) (m : Map String Bucket)
    → 0 < limit
    → Map.IsUnique m
    → Capped c m
    → Present ids m
    → Map.size m ≤ length ids + (if contains keep ids then 0 else 1)
    → Map.IsUnique (evict_loop ids keep limit m)
      × (Map.size (evict_loop ids keep limit m) ≤ limit)
      × Capped c (evict_loop ids keep limit m)
      × (Map.lookup keep (evict_loop ids keep limit m) ≡ Map.lookup keep m)
unfolding evict_loop contains
evict_loop_lem [] keep limit c m pos u h p b = (u, omega arith, h, refl)
evict_loop_lem (k ∷ ids) keep limit c m pos u h p b = elim (Bool-cases (leb (Map.size m) limit)) [
  | inl t ↦ rw t (u, ground arith, h, refl)
  | inr t ↦ elim (Bool-cases (k == keep)) [
    | inl s ↦
        rw (t, s)
          (evict_loop_lem ids keep limit c m pos u h p.2
            (ground (arith, eq_iff k keep, absent k ids p.1)))
    | inr s ↦
        rw (t, s)
          (let (u', z, h', q) =
              evict_loop_lem ids keep limit c (Map.delete k m) pos (Map.delete-IsUnique k m u)
                (Capped-delete c k m h) (Present-delete k ids m p.1 p.2)
                (ground (arith, Map.size-delete k m u)) in
            (u', z, h', q ∙ Map.lookup-delete_ne k keep m (λ e. cc (s, (eq_iff k keep).1 e))))
  ]
]

Present-extend :
    (ks : List String) (k : String) (e : Bucket) (m : Map String Bucket)
    → Present ks m
    → Present ks ((k, e) ∷ m)
unfolding Map.lookup
Present-extend [] k e m h = tt
Present-extend (j ∷ ks) k e m h = (ground (arith, h.0), h.1, Present-extend ks k e m h.2)

keys-differ :
    (k : String) (m : Map String Bucket)
    → Map.has k m ≡ false
    → All (λ j. (k == j) ≡ false) (Map.keys m)
unfolding Map.lookup
keys-differ k [] h = tt
keys-differ k ((j, e) ∷ m) h = ground (arith, eq_iff k j, eq_iff j k, keys-differ k m)

Present-keys : (m : Map String Bucket) → Map.IsUnique m → Present (Map.keys m) m
unfolding Map.lookup
Present-keys [] u = tt
Present-keys ((k, e) ∷ m) u = (
  ground (arith, Map.beq_refl k),
  keys-differ k m u.0,
  Present-extend (Map.keys m) k e m (Present-keys m u.1),
)

length-keys : (m : Map String Bucket) → length (Map.keys m) ≡ Map.size m
length-keys [] = refl
length-keys ((k, e) ∷ m) = ap suc (length-keys m)

pub evict_lem :
    (keep : String) (limit c : ℕ) (m : Map String Bucket)
    → 0 < limit
    → Map.IsUnique m
    → Capped c m
    → Map.IsUnique (evict_over_cap keep limit m)
      × (Map.size (evict_over_cap keep limit m) ≤ limit)
      × Capped c (evict_over_cap keep limit m)
      × (Map.lookup keep (evict_over_cap keep limit m) ≡ Map.lookup keep m)
unfolding evict_over_cap
evict_lem keep limit c m pos u h =
    ground
      (arith, evict_loop_lem (Map.keys m) keep limit c m pos u h (Present-keys m u), length-keys m)
