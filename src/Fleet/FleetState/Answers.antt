-- ===== src/Fleet/FleetState/Answers.antt =====
-- FleetState.place: which requests get an instance and which a refusal.
use rivalis.Common.{
  ℕ, ◌≡◌, ◌≢◌, refl, Bool, true, false, List, [], ◌∷◌, none, some, arith, Option-cases, inl, inr,
  ◌↔◌, ap, ◌∙◌, sym, subst, get_elem?, All, All-mono,
}
use rivalis.Common.Map
use rivalis.Common.Result.{ok, err}
use rivalis.Fleet.Model.{
  FleetErrorCode, no_candidate, InstanceInfo, PlacementInput, PlacementStrategy, random,
}
use rivalis.Fleet.FleetState.{State}
use rivalis.Fleet.FleetState.Placement.{
  Placement, has_headroom, score_of, all_declare, placed, place_among, or_least_loaded, candidates,
  is_candidate, raw_instances, place_by_strategy, place,
}
use rivalis.Fleet.FleetState.Admission.{candidates-All, candidate-headroom, place-by_strategy}
use rivalis.Fleet.FleetState.Outcomes.{place_by_strategy-ok}
use rivalis.Fleet.FleetState.Load.{IsPositive, IsBest, Scores}
use rivalis.Fleet.FleetState.Choice.{
  filter-some, filter-none, filter-none_only, pick-some, pick-IsBest,
}

headroom-IsPositive :
    (s : State) (declared : Bool) (i : InstanceInfo)
    → has_headroom s i ≡ true
    → IsPositive (score_of declared i)
unfolding has_headroom score_of
headroom-IsPositive s true i h = elim (Option-cases i.capacity.max_connections) [
  | inl e ↦ rw e (omega arith)
  | inr (m, e) ↦ let z = rw e at h in rw e (ground arith)
]
headroom-IsPositive s false i h = omega arith

-- If neither an instance nor a process is pinned, and the strategy, which is `least-loaded` if none is given, is not
-- `random`: the load of the instance that a placement succeeds with is the least, or for `most-loaded` the most, of
-- all instances that pass the filters.
pub place-IsBest :
    (request : PlacementInput) (draw : ℕ) (s s' : State) (p : Placement)
    → request.instance_id ≡ none
    → request.process_uid ≡ none
    → or_least_loaded request.strategy ≢ random
    → place request draw s ≡ ok (s', p)
    → (let is = candidates request s in
        Scores
          (or_least_loaded request.strategy)
          (all_declare is)
          (λ y. IsBest (or_least_loaded request.strategy) (score_of (all_declare is) p.instance) y)
          is)
place-IsBest request draw s s' p a b n e =
    let e' : place_by_strategy request draw s ≡ ok (s', p) =
      sym (place-by_strategy request draw s a b) ∙ e in
    let (i, f, g) = place_by_strategy-ok request draw s s' p e' in
    let is = candidates request s in
    let y : i ≡ p.instance =
      (unfold placed in ap (λ (q : State × Placement). q.1.instance) (sym g)) in
    let st = or_least_loaded request.strategy in
    subst
      (λ (j : InstanceInfo).
        Scores st (all_declare is) (λ y. IsBest st (score_of (all_declare is) j) y) is)
      y
      (pick-IsBest st draw is i n
        (All-mono _ _ is
          (λ k t. headroom-IsPositive s (all_declare is) k (candidate-headroom request s k t))
          (candidates-All request s))
        f)

place_among_some :
    (st : PlacementStrategy) (draw : ℕ) (is js : List InstanceInfo) (j : InstanceInfo) (s : State)
    → is ≡ j ∷ js
    → (x : State × Placement) × (place_among st draw is s ≡ ok x)
place_among_some st draw is js j s e =
    let (k, f) = pick-some st draw j js in rw e (placed k s, rw f refl)

-- If neither an instance nor a process is pinned, and one instance of the read model passes every filter, a
-- placement succeeds, whatever the strategy and the random number are.
pub place-answers :
    (request : PlacementInput) (draw : ℕ) (s : State) (n : ℕ) (i : InstanceInfo)
    → request.instance_id ≡ none
    → request.process_uid ≡ none
    → get_elem? (raw_instances (Map.values s.records)) n ≡ some i
    → is_candidate request s i ≡ true
    → (x : State × Placement) × (place request draw s ≡ ok x)
unfolding candidates place_by_strategy
place-answers request draw s n i a b g t =
    let (j, js, e) =
      filter-some (is_candidate request s) (raw_instances (Map.values s.records)) n i g t in
    let (x, f) =
      place_among_some (or_least_loaded request.strategy) draw (candidates request s) js j s e in
    (x, place-by_strategy request draw s a b ∙ f)

place_among-err :
    (st : PlacementStrategy) (draw : ℕ) (is : List InstanceInfo) (s : State) (code : FleetErrorCode)
    → place_among st draw is s ≡ err code
    → (code ≡ no_candidate) × (is ≡ [])
place_among-err st draw [] s code h = (cc, refl)
place_among-err st draw (i ∷ is) s code h =
    let (k, f) = pick-some st draw i is in let z = rw f at h in cc

place_among_none :
    (st : PlacementStrategy) (draw : ℕ) (is : List InstanceInfo) (s : State) (code : FleetErrorCode)
    → code ≡ no_candidate
    → is ≡ []
    → place_among st draw is s ≡ err code
place_among_none st draw is s code c e = rw (e, c) refl

-- If neither an instance nor a process is pinned: a placement fails exactly if no instance of the read model passes
-- the filters, and then with `NO_CANDIDATE`.
pub place-refuses :
    (request : PlacementInput) (draw : ℕ) (s : State) (code : FleetErrorCode)
    → request.instance_id ≡ none
    → request.process_uid ≡ none
    → (place request draw s ≡ err code) ↔ (
        (code ≡ no_candidate)
        × All (λ i. is_candidate request s i ≡ false) (raw_instances (Map.values s.records)))
unfolding place_by_strategy candidates
place-refuses request draw s code a b =
    let st = or_least_loaded request.strategy in
    let raw = raw_instances (Map.values s.records) in
    (
      λ h.
          let (c, e) =
            place_among-err st draw (candidates request s) s code
              (sym (place-by_strategy request draw s a b) ∙ h) in
          (c, filter-none_only (is_candidate request s) raw e),
      λ (c, h).
          place-by_strategy request draw s a b
          ∙ place_among_none st draw (candidates request s) s code c
              (filter-none (is_candidate request s) raw h),
    )
