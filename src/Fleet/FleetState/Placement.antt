-- ===== src/Fleet/FleetState/Placement.antt =====
-- FleetState's placement: pinned, or by labels, room type, headroom and load. A load is the exact
-- fraction of connections, which double division orders alike below 2 ^ 26 connections. A draw of
-- `random()` is its 53 bits: d stands for d / 2 ^ 53.
use rivalis.Common.{
  ℕ, ◌+◌, ◌*◌, ◌/◌, ◌-◌, ◌^◌, min, Bool, true, false, ◌&&◌, not, List, [], ◌∷◌, Option, none, some,
  ◌==◌, ltb, eqb, if◌then◌else◌, is_some, get_elem?, length,
}
use rivalis.Common.Map
use rivalis.Common.Result.{Result, ok, err, stuck}
use rivalis.Handshake.Utf8.{Text}
use rivalis.Core.Room.{text_key}
use rivalis.Fleet.Model.{
  InstanceInfo, InstanceStatus, active, draining, PlacementInput, PlacementStrategy, least_loaded,
  most_loaded, random, FleetErrorCode, validation, instance_not_found, instance_draining,
  instance_disconnected, no_candidate, Reservation,
}
use rivalis.Fleet.FleetState.{
  InstanceRecord, State, same_status, reserved_rooms, pending_rooms, reserve,
}
use rivalis.Fleet.FleetState.Queries.{latest_record_by_process_uid, has_labels}

pub record Placement : Type 0 where
  pub instance : InstanceInfo
  pub reservation : Reservation

abbrev pub or_status : Option InstanceStatus → InstanceStatus → InstanceStatus
or_status none status = status
or_status (some pending) status = pending

unfoldable pub effective_status : InstanceInfo → State → InstanceStatus
effective_status i s = or_status (Map.lookup i.id s.pending_status) i.status

abbrev pub is_below : ℕ → Option ℕ → Bool
is_below n none = true
is_below n (some limit) = ltb n limit

unfoldable pub has_headroom : State → InstanceInfo → Bool
has_headroom s i =
    is_below (length i.rooms + reserved_rooms i.id s + pending_rooms i.id s) i.capacity.max_rooms
    && is_below i.connections i.capacity.max_connections

unfoldable pub includes : List Text → Text → Bool
includes [] type = false
includes (t ∷ ts) type = if t == type then true else includes ts type

unfoldable pub is_candidate : PlacementInput → State → InstanceInfo → Bool
is_candidate request s i =
    same_status (effective_status i s) active
    && (not (Map.has i.id s.stale_instances)
        && (i.auto_create
            && (includes i.room_types request.type
                && (has_labels request.labels i.labels && has_headroom s i))))

abbrev pub info_of : Option InstanceRecord → Option InstanceInfo
info_of none = none
info_of (some r) = some r.info

unfoldable pub raw_instances : List InstanceRecord → List InstanceInfo
raw_instances [] = []
raw_instances (r ∷ rs) = r.info ∷ raw_instances rs

unfoldable pub filter : (InstanceInfo → Bool) → List InstanceInfo → List InstanceInfo
filter p [] = []
filter p (i ∷ is) = let rest = filter p is in if p i then i ∷ rest else rest

-- A score as numerator and denominator.
abbrev pub Score : Type 0
Score = ℕ × ℕ

abbrev pub score_lt : Score → Score → Bool
score_lt (a, b) (c, d) = ltb (a * d) (c * b)

abbrev pub score_eq : Score → Score → Bool
score_eq (a, b) (c, d) = eqb (a * d) (c * b)

unfoldable pub all_declare : List InstanceInfo → Bool
all_declare [] = true
all_declare (i ∷ is) = is_some i.capacity.max_connections && all_declare is

abbrev pub fraction : ℕ → Option ℕ → Score
fraction connections none = (connections, 1)
fraction connections (some limit) = (connections, limit)

unfoldable pub score_of : Bool → InstanceInfo → Score
score_of declared i = fraction i.connections (if declared then i.capacity.max_connections else none)

-- `Math.max(best, score)` or `Math.min(best, score)`.
abbrev pub better : PlacementStrategy → Score → Score → Score
better most_loaded best score = if score_lt best score then score else best
better _ best score = if score_lt score best then score else best

unfoldable pub best_from : PlacementStrategy → Bool → Score → List InstanceInfo → Score
best_from strategy declared best [] = best
best_from strategy declared best (i ∷ is) =
    best_from strategy declared (better strategy best (score_of declared i)) is

unfoldable pub choose : ℕ → List InstanceInfo → Option InstanceInfo
choose draw list = get_elem? list (min (draw * length list / 2 ^ 53) (length list - 1))

unfoldable pub tied_with : Bool → Score → List InstanceInfo → List InstanceInfo
tied_with declared best candidates = filter (λ i. score_eq (score_of declared i) best) candidates

unfoldable pub pick_scored : PlacementStrategy → ℕ → List InstanceInfo → Option InstanceInfo
pick_scored strategy draw [] = none
pick_scored strategy draw (i ∷ is) =
    let declared = all_declare (i ∷ is) in
    choose draw
      (tied_with declared (best_from strategy declared (score_of declared i) (i ∷ is)) (i ∷ is))

unfoldable pub pick : PlacementStrategy → ℕ → List InstanceInfo → Option InstanceInfo
pick random draw candidates = choose draw candidates
pick strategy draw candidates = pick_scored strategy draw candidates

unfoldable pub placed : InstanceInfo → State → State × Placement
placed i s = let (s', r) = reserve i.id s in (s', record { instance = i; reservation = r })

-- `stuck` is the undefined that `choose` would give on an empty list.
abbrev pub placed_some : State → Option InstanceInfo → Result FleetErrorCode (State × Placement)
placed_some s none = stuck
placed_some s (some i) = ok (placed i s)

-- The guards of a pinned placement.
unfoldable pub pin_refusal : Bool → InstanceInfo → State → Option FleetErrorCode
pin_refusal force i s =
    if same_status (effective_status i s) draining && not force
    then some instance_draining
    else if Map.has i.id s.stale_instances && not force
    then some instance_disconnected
    else if i.auto_create
    then none
    else some no_candidate

abbrev pub refuse_or : {A : Type 0} → Option FleetErrorCode → A → Result FleetErrorCode A
refuse_or none a = ok a
refuse_or (some code) a = err code

unfoldable pub place_pinned :
    Bool → Option InstanceInfo → State → Result FleetErrorCode (State × Placement)
place_pinned force none s = err instance_not_found
place_pinned force (some i) s = refuse_or (pin_refusal force i s) (placed i s)

abbrev pub or_least_loaded : Option PlacementStrategy → PlacementStrategy
or_least_loaded none = least_loaded
or_least_loaded (some strategy) = strategy

unfoldable pub candidates : PlacementInput → State → List InstanceInfo
candidates request s = filter (is_candidate request s) (raw_instances (Map.values s.records))

abbrev pub place_among :
    PlacementStrategy → ℕ → List InstanceInfo → State → Result FleetErrorCode (State × Placement)
place_among strategy draw [] s = err no_candidate
place_among strategy draw (i ∷ is) s = placed_some s (pick strategy draw (i ∷ is))

unfoldable pub place_by_strategy :
    PlacementInput → ℕ → State → Result FleetErrorCode (State × Placement)
place_by_strategy request draw s =
    place_among (or_least_loaded request.strategy) draw (candidates request s) s

abbrev pub place_at :
    Option Text
    → Option Text
    → PlacementInput
    → ℕ
    → State
    → Result FleetErrorCode (State × Placement)
place_at (some id) (some uid) request draw s = err validation
place_at (some id) none request draw s =
    place_pinned request.force (info_of (Map.lookup id s.records)) s
place_at none (some uid) request draw s =
    place_pinned request.force (info_of (latest_record_by_process_uid uid s)) s
place_at none none request draw s = place_by_strategy request draw s

unfoldable pub place : PlacementInput → ℕ → State → Result FleetErrorCode (State × Placement)
place request draw s = place_at request.instance_id request.process_uid request draw s
