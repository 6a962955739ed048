-- ===== src/Fleet/FleetState/Load.antt =====
-- The loads of candidates for FleetState.pick, and what a best one is.
use rivalis.Common.{
  ℕ, suc, ◌*◌, ◌≤◌, ◌<◌, ◌≡◌, refl, Bool, true, List, [], ◌∷◌, some, arith, Bool-cases, inl, inr,
  ◌⊎◌, ap, ◌∙◌, sym, get_elem?, All,
}
use native.Mathlib.Nat.{mul-le-mul_right, le_of_mul-le-mul_right, mul_comm, mul_assoc}
use rivalis.Fleet.Model.{InstanceInfo, PlacementStrategy, least_loaded, most_loaded, random}
use rivalis.Fleet.FleetState.Placement.{Score, score_lt, score_eq, score_of, better, best_from}

abbrev pub IsPositive : Score → Type 0
IsPositive (a, b) = 0 < b

-- The first load is at most the second.
abbrev pub IsAtMost : Score → Score → Type 0
IsAtMost (a, b) (c, d) = a * d ≤ c * b

IsAtMost-refl : (x : Score) → IsAtMost x x
IsAtMost-refl (a, b) = omega arith

swap : (a b c : ℕ) → a * b * c ≡ a * c * b
swap a b c = mul_assoc a b c ∙ ap (λ x. a * x) (mul_comm b c) ∙ sym (mul_assoc a c b)

IsAtMost-trans : (x y z : Score) → IsPositive y → IsAtMost x y → IsAtMost y z → IsAtMost x z
IsAtMost-trans (a, b) (c, d) (e, f) p g h =
    le_of_mul-le-mul_right {k = d}
      (omega
        (arith, swap a d f, swap c b f, swap e d b, mul-le-mul_right f g, mul-le-mul_right b h))
      p

-- The order that a strategy looks for.
abbrev pub IsBest : PlacementStrategy → Score → Score → Type 0
IsBest most_loaded x y = IsAtMost y x
IsBest _ x y = IsAtMost x y

IsBest-refl : (st : PlacementStrategy) (x : Score) → IsBest st x x
IsBest-refl least_loaded x = IsAtMost-refl x
IsBest-refl most_loaded x = IsAtMost-refl x
IsBest-refl random x = IsAtMost-refl x

pub IsBest-trans :
    (st : PlacementStrategy) (x y z : Score)
    → IsPositive y
    → IsBest st x y
    → IsBest st y z
    → IsBest st x z
IsBest-trans least_loaded x y z p g h = IsAtMost-trans x y z p g h
IsBest-trans most_loaded x y z p g h = IsAtMost-trans z y x p h g
IsBest-trans random x y z p g h = IsAtMost-trans x y z p g h

pub score_eq-IsBest : (st : PlacementStrategy) (x y : Score) → score_eq x y ≡ true → IsBest st x y
score_eq-IsBest least_loaded (a, b) (c, d) h = ground arith
score_eq-IsBest most_loaded (a, b) (c, d) h = ground arith
score_eq-IsBest random (a, b) (c, d) h = ground arith

better-IsBest :
    (st : PlacementStrategy) (x y : Score)
    → IsBest st (better st x y) x × IsBest st (better st x y) y
better-IsBest least_loaded (a, b) (c, d) = elim (Bool-cases (score_lt (c, d) (a, b))) [
  | inl t ↦ rw t (ground arith, omega arith)
  | inr t ↦ rw t (omega arith, ground arith)
]
better-IsBest most_loaded (a, b) (c, d) = elim (Bool-cases (score_lt (a, b) (c, d))) [
  | inl t ↦ rw t (ground arith, omega arith)
  | inr t ↦ rw t (omega arith, ground arith)
]
better-IsBest random (a, b) (c, d) = elim (Bool-cases (score_lt (c, d) (a, b))) [
  | inl t ↦ rw t (ground arith, omega arith)
  | inr t ↦ rw t (omega arith, ground arith)
]

better_either : (st : PlacementStrategy) (x y : Score) → (better st x y ≡ x) ⊎ (better st x y ≡ y)
better_either least_loaded x y = elim (Bool-cases (score_lt y x)) [
  | inl t ↦ rw t (inr refl)
  | inr t ↦ rw t (inl refl)
]
better_either most_loaded x y = elim (Bool-cases (score_lt x y)) [
  | inl t ↦ rw t (inr refl)
  | inr t ↦ rw t (inl refl)
]
better_either random x y = elim (Bool-cases (score_lt y x)) [
  | inl t ↦ rw t (inr refl)
  | inr t ↦ rw t (inl refl)
]

module _ (st : PlacementStrategy) (declared : Bool) where
  abbrev pub Scores : (Score → Type 0) → List InstanceInfo → Type 0
  Scores P is = All (λ i. P (score_of declared i)) is

  -- What the loop over the scores ends with is the start or one of the scores.
  pub best_from-reached :
      (best : Score) (is : List InstanceInfo)
      → (best_from st declared best is ≡ best)
        ⊎ ((n : ℕ) × (i : InstanceInfo) × (get_elem? is n ≡ some i)
            × (best_from st declared best is ≡ score_of declared i))
  unfolding best_from
  best_from-reached best [] = inl refl
  best_from-reached best (i ∷ is) =
      let next = better st best (score_of declared i) in
      elim (best_from-reached next is) [
        | inl e ↦ elim (better_either st best (score_of declared i)) [
          | inl f ↦ inl (e ∙ f)
          | inr f ↦ inr (0, i, refl, e ∙ f)
        ]
        | inr (n, j, g, e) ↦ inr (suc n, j, g, e)
      ]

  better-IsPositive : (x y : Score) → IsPositive x → IsPositive y → IsPositive (better st x y)
  better-IsPositive x y p q = elim (better_either st x y) [ inl e ↦ rw e p | inr e ↦ rw e q ]

  pub best_from-IsBest :
      (best : Score) (is : List InstanceInfo)
      → IsPositive best
      → Scores IsPositive is
      → IsPositive (best_from st declared best is)
        × IsBest st (best_from st declared best is) best
        × Scores (λ y. IsBest st (best_from st declared best is) y) is
  unfolding best_from
  best_from-IsBest best [] p ps = (p, IsBest-refl st best, tt)
  best_from-IsBest best (i ∷ is) p ps =
      let x = score_of declared i in
      let next = better st best x in
      let q = better-IsPositive best x p ps.0 in
      let (a, b, c) = best_from-IsBest next is q ps.1 in
      let (g, h) = better-IsBest st best x in
      let end = best_from st declared next is in
      (a, IsBest-trans st end next best q b g, (IsBest-trans st end next x q b h, c))
