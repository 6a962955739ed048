-- ===== src/Fleet/FleetState/Admission.antt =====
-- FleetState.place: the filters that a chosen instance has passed, and its capacity.
use rivalis.Common.{
  ℕ, zero, suc, ◌+◌, ◌*◌, ◌/◌, ◌-◌, ◌^◌, ◌≤◌, ◌<◌, min, ◌≡◌, refl, Bool, true, List, [], ◌∷◌,
  Option, none, some, arith, Bool-cases, inl, inr, ◌∙◌, sym, subst, length, get_elem?, All,
  All-get_elem?,
}
use rivalis.Common.Map
use rivalis.Common.Totals.{total, total-set}
use rivalis.Common.Result.{ok}
use rivalis.Handshake.Utf8.{Text}
use rivalis.Core.Room.{text_key}
use rivalis.Fleet.CommandEngine.{cmd_key}
use rivalis.Fleet.Model.{
  PlacementInput, InstanceInfo, Reservation, PlacementStrategy, least_loaded, most_loaded, random,
}
use rivalis.Fleet.FleetState.{State, reserved_rooms, pending_rooms, reserve}
use rivalis.Fleet.FleetState.Counts.{owns}
use rivalis.Fleet.FleetState.Placement.{
  Placement, has_headroom, is_candidate, filter, raw_instances, candidates, choose, tied_with,
  pick_scored, or_least_loaded, pick, place, placed, place_by_strategy, place_at,
}
use rivalis.Fleet.FleetState.Outcomes.{place_by_strategy-ok}
use rivalis.Fleet.FleetState.History.{Reachable}
use rivalis.Fleet.FleetState.Consistent.{Reachable-IsConsistent}

pub filter-All :
    (p : InstanceInfo → Bool) (is : List InstanceInfo) → All (λ i. p i ≡ true) (filter p is)
unfolding filter
filter-All p [] = tt
filter-All p (i ∷ is) = elim (Bool-cases (p i)) [
  | inl t ↦ rw (t, filter) (t, filter-All p is)
  | inr t ↦ rw (t, filter) (filter-All p is)
]

filter-All_of :
    (P : InstanceInfo → Type 0) (p : InstanceInfo → Bool) (is : List InstanceInfo)
    → All P is
    → All P (filter p is)
unfolding filter
filter-All_of P p [] h = tt
filter-All_of P p (i ∷ is) h = elim (Bool-cases (p i)) [
  | inl t ↦ rw (t, filter) (h.0, filter-All_of P p is h.1)
  | inr t ↦ rw (t, filter) (filter-All_of P p is h.1)
]

pub candidates-All :
    (request : PlacementInput) (s : State)
    → All (λ i. is_candidate request s i ≡ true) (candidates request s)
unfolding candidates
candidates-All request s =
    filter-All (is_candidate request s) (raw_instances (Map.values s.records))

-- Whatever is chosen is one of the list.
pub choose-All :
    (P : InstanceInfo → Type 0) (draw : ℕ) (is : List InstanceInfo) (i : InstanceInfo)
    → choose draw is ≡ some i
    → All P is
    → P i
unfolding choose
choose-All P draw is i h a =
    All-get_elem? P is (min (draw * length is / 2 ^ 53) (length is - 1)) i h a

pick_scored-All :
    (P : InstanceInfo → Type 0) (strategy : PlacementStrategy) (draw : ℕ) (is : List InstanceInfo)
    (i : InstanceInfo)
    → pick_scored strategy draw is ≡ some i
    → All P is
    → P i
unfolding pick_scored tied_with
pick_scored-All P strategy draw [] i h a = cc
pick_scored-All P strategy draw (j ∷ is) i h a =
    choose-All P draw _ i h (filter-All_of P _ (j ∷ is) a)

pub pick-All :
    (P : InstanceInfo → Type 0) (strategy : PlacementStrategy) (draw : ℕ) (is : List InstanceInfo)
    (i : InstanceInfo)
    → pick strategy draw is ≡ some i
    → All P is
    → P i
unfolding pick
pick-All P random draw is i h a = choose-All P draw is i h a
pick-All P least_loaded draw is i h a = pick_scored-All P least_loaded draw is i h a
pick-All P most_loaded draw is i h a = pick_scored-All P most_loaded draw is i h a

get_elem?-some :
    (is : List InstanceInfo) (n : ℕ)
    → n < length is
    → (i : InstanceInfo) × (get_elem? is n ≡ some i)
get_elem?-some [] n h = absurd (omega arith)
get_elem?-some (i ∷ is) zero h = (i, refl)
get_elem?-some (i ∷ is) (suc n) h = get_elem?-some is n (omega arith)

-- Something is chosen of a list that is not empty.
pub choose-some :
    (draw : ℕ) (i : InstanceInfo) (is : List InstanceInfo)
    → (j : InstanceInfo) × (choose draw (i ∷ is) ≡ some j)
unfolding choose
choose-some draw i is =
    get_elem?-some (i ∷ is) (min (draw * length (i ∷ is) / 2 ^ 53) (length (i ∷ is) - 1))
      (omega arith)

headroom-rooms :
    (s : State) (i : InstanceInfo) (limit : ℕ)
    → has_headroom s i ≡ true
    → i.capacity.max_rooms ≡ some limit
    → length i.rooms + reserved_rooms i.id s + pending_rooms i.id s < limit
unfolding has_headroom
headroom-rooms s i limit h e = let z = rw e at h in ground arith

pub candidate-headroom :
    (request : PlacementInput) (s : State) (i : InstanceInfo)
    → is_candidate request s i ≡ true
    → has_headroom s i ≡ true
unfolding is_candidate
candidate-headroom request s i h = ground arith

owns_self : (i : Text) → owns i i ≡ 1
owns_self i = ground (arith, Map.beq_refl i)

placed-capacity :
    {s : State} {rs : List Reservation} (h : Reachable s rs) (i : InstanceInfo) (limit : ℕ)
    → has_headroom s i ≡ true
    → i.capacity.max_rooms ≡ some limit
    → length i.rooms
        + total (owns i.id) (placed i s).0.reservations
        + total (owns i.id) (placed i s).0.pending_room_ids
      ≤ limit
unfolding placed reserve reserved_rooms pending_rooms
placed-capacity {s} {rs} h i limit t m =
    let c = Reachable-IsConsistent h in
    omega (
      arith,
      headroom-rooms s i limit t m,
      c.0.counted i.id,
      c.1.counted i.id,
      total-set (owns i.id) (s.reservation_seq + 1) i.id s.reservations,
      owns_self i.id,
    )

by_strategy :
    (id uid : Option Text) (request : PlacementInput) (draw : ℕ) (s : State)
    → id ≡ none
    → uid ≡ none
    → place_at id uid request draw s ≡ place_by_strategy request draw s
by_strategy none none request draw s a b = refl
by_strategy (some id) uid request draw s a b = cc
by_strategy none (some uid) request draw s a b = cc

pub place-by_strategy :
    (request : PlacementInput) (draw : ℕ) (s : State)
    → request.instance_id ≡ none
    → request.process_uid ≡ none
    → place request draw s ≡ place_by_strategy request draw s
unfolding place
place-by_strategy request draw s a b =
    by_strategy request.instance_id request.process_uid request draw s a b

placed-candidate :
    {rs : List Reservation} (request : PlacementInput) (s s' : State) (i : InstanceInfo)
    (p : Placement) (limit : ℕ)
    → Reachable s rs
    → is_candidate request s i ≡ true
    → (s', p) ≡ placed i s
    → p.instance.capacity.max_rooms ≡ some limit
    → (is_candidate request s p.instance ≡ true)
      × (length p.instance.rooms
            + total (owns p.instance.id) s'.reservations
            + total (owns p.instance.id) s'.pending_room_ids
          ≤ limit)
placed-candidate request s s' i p limit h x g =
    subst
      (λ (q : State × Placement).
        q.1.instance.capacity.max_rooms ≡ some limit
        → (is_candidate request s q.1.instance ≡ true)
          × (length q.1.instance.rooms
                + total (owns q.1.instance.id) q.0.reservations
                + total (owns q.1.instance.id) q.0.pending_room_ids
              ≤ limit))
      (sym g)
      (unfold placed in λ m. (x, placed-capacity h i limit (candidate-headroom request s i x) m))

-- If neither an instance nor a process is pinned, and the state is reachable: a placement that succeeds is on an
-- instance that passes every filter, and with the slot it takes, the rooms of the instance, the tokens held
-- against it and the rooms that are not visible yet are within its `maxRooms`, if it has that limit.
pub place-capacity :
    {s : State} {rs : List Reservation} (h : Reachable s rs) (request : PlacementInput) (draw : ℕ)
    (s' : State) (p : Placement) (limit : ℕ)
    → request.instance_id ≡ none
    → request.process_uid ≡ none
    → place request draw s ≡ ok (s', p)
    → p.instance.capacity.max_rooms ≡ some limit
    → (is_candidate request s p.instance ≡ true)
      × (length p.instance.rooms
            + total (owns p.instance.id) s'.reservations
            + total (owns p.instance.id) s'.pending_room_ids
          ≤ limit)
place-capacity {s} {rs} h request draw s' p limit a b e m =
    let e' : place_by_strategy request draw s ≡ ok (s', p) =
      sym (place-by_strategy request draw s a b) ∙ e in
    let (i, f, g) = place_by_strategy-ok request draw s s' p e' in
    let x : is_candidate request s i ≡ true =
      pick-All (λ j. is_candidate request s j ≡ true) (or_least_loaded request.strategy) draw
        (candidates request s) i f (candidates-All request s) in
    placed-candidate request s s' i p limit h x g m
