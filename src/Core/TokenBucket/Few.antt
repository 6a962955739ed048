-- ===== src/Core/TokenBucket/Few.antt =====
-- core/src/TokenBucketRateLimiter.ts: the number of buckets of a map whose keys are among some actors.
use rivalis.Common.{
  ◌≤◌, ◌<◌, ◌≡◌, refl, Bool, true, false, List, [], ◌∷◌, none, String, string_key, ◌==◌,
  if◌then◌else◌, arith, length, Bool-cases, inl, inr,
}
use rivalis.Common.Map
use rivalis.Common.Map.{Map}
use text.Mathlib.TextEquality.{eq_iff}

abbrev pub includes : String → List String → Bool
includes id [] = false
includes id (x ∷ xs) = let rest = includes id xs in if x == id then true else rest

abbrev without : String → List String → List String
without id [] = []
without id (x ∷ xs) = let rest = without id xs in if x == id then rest else x ∷ rest

length-without-le : (id : String) (xs : List String) → length (without id xs) ≤ length xs
length-without-le id [] = omega arith
length-without-le id (x ∷ xs) = ground (arith, length-without-le id xs)

length-without :
    (id : String) (xs : List String) → includes id xs ≡ true → length (without id xs) < length xs
length-without id [] h = cc
length-without id (x ∷ xs) h = ground (arith, length-without id xs, length-without-le id xs)

includes-without :
    (id j : String) (xs : List String)
    → (id == j) ≡ false
    → includes j (without id xs) ≡ includes j xs
includes-without id j [] h = refl
includes-without id j (x ∷ xs) h =
    ground (arith, eq_iff x id, eq_iff x j, eq_iff id j, includes-without id j xs)

-- Nobody else has a bucket.
abbrev pub Knows {κ} : {V : Type κ} → List String → Map String V → Type κ
Knows who m = (j : String) → includes j who ≡ false → Map.lookup j m ≡ none

pub size-Knows :
    {V : Type 0} (who : List String) (m : Map String V)
    → Map.IsUnique m
    → Knows who m
    → Map.size m ≤ length who
unfolding Map.lookup
size-Knows who [] u known = omega arith
size-Knows who ((k, v) ∷ m) u known = elim (Bool-cases (includes k who)) [
  | inl q ↦
      let rest : Map.size m ≤ length (without k who) = size-Knows (without k who) m u.1 (λ j h.
        elim (Bool-cases (k == j)) [
          | inl t ↦ ground (arith, eq_iff k j, u.0)
          | inr t ↦ ground (arith, known j, includes-without k j who t)
        ]) in
      omega (arith, rest, length-without k who q)
  | inr q ↦ let z = known k q in ground (arith, Map.beq_refl k, z)
]
