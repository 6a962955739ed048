-- ===== src/Fleet/FleetState/Choice.antt =====
-- FleetState.pick: the choice among the candidates by load.
use rivalis.Common.{
  ℕ, zero, suc, ◌≡◌, ◌≢◌, refl, Bool, true, false, List, [], ◌∷◌, some, arith, Bool-cases, inl, inr,
  sym, subst, get_elem?, All, All-mono,
}
use rivalis.Fleet.Model.{InstanceInfo, PlacementStrategy, least_loaded, most_loaded, random}
use rivalis.Fleet.FleetState.Placement.{
  Score, score_eq, score_of, all_declare, best_from, filter, tied_with, choose, pick_scored, pick,
}
use rivalis.Fleet.FleetState.Admission.{filter-All, choose-All, choose-some}
use rivalis.Fleet.FleetState.Load.{
  IsPositive, IsBest, IsBest-trans, score_eq-IsBest, Scores, best_from-reached, best_from-IsBest,
}

-- A filter keeps what passes it.
pub filter-some :
    (p : InstanceInfo → Bool) (is : List InstanceInfo) (n : ℕ) (i : InstanceInfo)
    → get_elem? is n ≡ some i
    → p i ≡ true
    → (j : InstanceInfo) × (js : List InstanceInfo) × (filter p is ≡ j ∷ js)
unfolding filter
filter-some p [] n i h t = cc
filter-some p (x ∷ is) zero i h t =
    let e : x ≡ i = cc in
    let t' : p x ≡ true = subst (λ y. p y ≡ true) (sym e) t in
    (x, filter p is, rw (t', filter) refl)
filter-some p (x ∷ is) (suc n) i h t = elim (Bool-cases (p x)) [
  | inl u ↦ (x, filter p is, rw (u, filter) refl)
  | inr u ↦ rw (u, filter) (filter-some p is n i h t)
]

pub filter-none :
    (p : InstanceInfo → Bool) (is : List InstanceInfo)
    → All (λ i. p i ≡ false) is
    → filter p is ≡ []
unfolding filter
filter-none p [] h = refl
filter-none p (i ∷ is) h = rw (h.0, filter) (filter-none p is h.1)

pub filter-none_only :
    (p : InstanceInfo → Bool) (is : List InstanceInfo)
    → filter p is ≡ []
    → All (λ i. p i ≡ false) is
unfolding filter
filter-none_only p [] h = tt
filter-none_only p (i ∷ is) h = elim (Bool-cases (p i)) [
  | inl u ↦ let z = rw (u, filter) at h in cc
  | inr u ↦ let z = rw (u, filter) at h in (u, filter-none_only p is z)
]

score_eq_refl : (x : Score) → score_eq x x ≡ true
score_eq_refl (a, b) = ground arith

score_eq_of : (x y : Score) → y ≡ x → score_eq x y ≡ true
score_eq_of x y e = rw e (score_eq_refl x)

choose_nonempty :
    (draw : ℕ) (is js : List InstanceInfo) (j : InstanceInfo)
    → is ≡ j ∷ js
    → (k : InstanceInfo) × (choose draw is ≡ some k)
choose_nonempty draw is js j e = rw e (choose-some draw j js)

pick_scored-some :
    (st : PlacementStrategy) (draw : ℕ) (i : InstanceInfo) (is : List InstanceInfo)
    → (j : InstanceInfo) × (pick_scored st draw (i ∷ is) ≡ some j)
unfolding pick_scored tied_with
pick_scored-some st draw i is =
    let declared = all_declare (i ∷ is) in
    let start = score_of declared i in
    let best = best_from st declared start (i ∷ is) in
    let p = λ (j : InstanceInfo). score_eq (score_of declared j) best in
    let (j, js, e) : (j : InstanceInfo) × (js : List InstanceInfo) × (filter p (i ∷ is) ≡ j ∷ js) =
      elim (best_from-reached st declared start (i ∷ is)) [
        | inl f ↦ filter-some p (i ∷ is) 0 i refl (score_eq_of start best f)
        | inr (n, k, g, f) ↦ filter-some p (i ∷ is) n k g (score_eq_of (score_of declared k) best f)
      ] in
    choose_nonempty draw (filter p (i ∷ is)) js j e

-- `pick` chooses something of a list that is not empty.
pub pick-some :
    (st : PlacementStrategy) (draw : ℕ) (i : InstanceInfo) (is : List InstanceInfo)
    → (j : InstanceInfo) × (pick st draw (i ∷ is) ≡ some j)
unfolding pick
pick-some least_loaded draw i is = pick_scored-some least_loaded draw i is
pick-some most_loaded draw i is = pick_scored-some most_loaded draw i is
pick-some random draw i is = choose-some draw i is

pick_scored-IsBest :
    (st : PlacementStrategy) (draw : ℕ) (is : List InstanceInfo) (i : InstanceInfo)
    → Scores st (all_declare is) IsPositive is
    → pick_scored st draw is ≡ some i
    → Scores st (all_declare is) (λ y. IsBest st (score_of (all_declare is) i) y) is
unfolding pick_scored tied_with
pick_scored-IsBest st draw [] i p h = cc
pick_scored-IsBest st draw (j ∷ is) i p h =
    let declared = all_declare (j ∷ is) in
    let start = score_of declared j in
    let best = best_from st declared start (j ∷ is) in
    let (q, a, b) = best_from-IsBest st declared start (j ∷ is) p.0 p in
    let t : score_eq (score_of declared i) best ≡ true =
      choose-All (λ k. score_eq (score_of declared k) best ≡ true) draw _ i h
        (filter-All (λ k. score_eq (score_of declared k) best) (j ∷ is)) in
    All-mono _ _ (j ∷ is)
      (λ k g.
        IsBest-trans st (score_of declared i) best (score_of declared k) q
          (score_eq-IsBest st (score_of declared i) best t) g)
      b

pub pick-IsBest :
    (st : PlacementStrategy) (draw : ℕ) (is : List InstanceInfo) (i : InstanceInfo)
    → st ≢ random
    → Scores st (all_declare is) IsPositive is
    → pick st draw is ≡ some i
    → Scores st (all_declare is) (λ y. IsBest st (score_of (all_declare is) i) y) is
unfolding pick
pick-IsBest least_loaded draw is i n p h = pick_scored-IsBest least_loaded draw is i p h
pick-IsBest most_loaded draw is i n p h = pick_scored-IsBest most_loaded draw is i p h
pick-IsBest random draw is i n p h = absurd (n refl)
