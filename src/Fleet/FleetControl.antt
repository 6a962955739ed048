-- ===== src/Fleet/FleetControl.antt =====
-- fleet/src/orchestrator/FleetControl.ts: rooms are created and destroyed, and instances drained, by
-- commands, on the read model and the command engine. The engine's actions on reservations are run on
-- the read model at once, as its interface ReservationReleaser is FleetState. `linked` is the
-- orchestrator's table of live links, and `sent` says whether `link.send` returned.
pub mod Undo
pub mod Leaks
use rivalis.Common.{
  ℕ, zero, suc, ◌+◌, Bool, true, false, List, [], ◌∷◌, ◌++◌, Option, none, some, if◌then◌else◌,
  is_some,
}
use rivalis.Common.Result.{Result, ok, err, stuck}
use rivalis.Handshake.Utf8.{Text}
use rivalis.Fleet.Model.{
  InstanceInfo, InstanceStatus, active, draining, RoomInfo, PlacementInput, Reservation,
  FleetErrorCode, instance_disconnected, instance_not_found, room_not_found,
}
use rivalis.Fleet.CommandEngine
use rivalis.Fleet.CommandEngine.{
  PendingCommand, Engine, Action, release_room_id, hold_until_visible, clear_timeout, resolve,
  reject, next_cmd_id, send,
}
use rivalis.Fleet.FleetState.{State, release}
use rivalis.Fleet.FleetState.Changes.{set_pending_status}
use rivalis.Fleet.FleetState.Queries.{get_instance, resolve_room}
use rivalis.Fleet.FleetState.RoomIds
use rivalis.Fleet.FleetState.RoomIds.{reserve_room_id}
use rivalis.Fleet.FleetState.Placement.{Placement, place}

pub record Control : Type 0 where
  pub state : State
  pub commands : Engine

-- What a call of the control surface comes to before its command is settled.
pub data Outcome : Type 0 where
  throws : FleetErrorCode → Outcome
  awaits : ℕ → Outcome

-- What an action of the engine does to the reservations.
unfoldable pub perform : Action → State → State
perform (Action.release r) s = release r s
perform (release_room_id id) s = RoomIds.release_room_id id s
perform (hold_until_visible id r) s = RoomIds.hold_until_visible id r s
perform (clear_timeout timer) s = s
perform (resolve call) s = s
perform (reject call code) s = s

unfoldable pub perform_all : List Action → State → State
perform_all [] s = s
perform_all (a ∷ rest) s = perform_all rest (perform a s)

-- The promise that `send` gives is rejected already, or pending.
unfoldable pub rejection : List Action → Option FleetErrorCode
rejection [] = none
rejection (reject call code ∷ rest) = some code
rejection (a ∷ rest) = rejection rest

abbrev pub outcome_of : Option FleetErrorCode → ℕ → Outcome
outcome_of none call = awaits call
outcome_of (some code) call = throws code

-- `commands.send` of the next command, with its timer and its reservations.
unfoldable pub dispatch :
    Text → ℕ → ℕ → Option Reservation → Option Text → Bool → Control → Control × Outcome
dispatch instance_id call timer reservation room_id sent c =
    let (e, cmd_id) = next_cmd_id c.commands in
    let p : PendingCommand = record {
      call = call;
      timer = timer;
      reservation = reservation;
      room_id_reservation = room_id;
    } in
    let (e', actions) = send instance_id cmd_id p sent e in
    (
      record { state = perform_all actions c.state; commands = e' },
      outcome_of (rejection actions) call,
    )

unfoldable pub dispatch_create :
    Bool → ℕ → ℕ → Bool → Text → State × Placement → Control → Control × Outcome
dispatch_create linked call timer sent room_id (s, p) c =
    if linked
    then dispatch p.instance.id call timer (some p.reservation) (some room_id) sent
        (record c { state = s })
    else (
      record c { state = RoomIds.release_room_id room_id (release p.reservation s) },
      throws instance_disconnected,
    )

-- Where the reservation of the id went through: the placement, and the command.
abbrev pub place_and_send :
    (Text → Bool)
    → ℕ
    → ℕ
    → Bool
    → Text
    → State
    → Result FleetErrorCode (State × Placement)
    → Control
    → Control × Outcome
place_and_send linked call timer sent room_id s stuck c = (c, awaits call)
place_and_send linked call timer sent room_id s (err code) c =
    (record c { state = RoomIds.release_room_id room_id s }, throws code)
place_and_send linked call timer sent room_id s (ok placed) c =
    dispatch_create (linked placed.1.instance.id) call timer sent room_id placed c

abbrev pub create_with :
    PlacementInput
    → ℕ
    → (Text → Bool)
    → ℕ
    → ℕ
    → Bool
    → Result FleetErrorCode (State × Text)
    → Control
    → Control × Outcome
create_with request draw linked call timer sent stuck c = (c, awaits call)
create_with request draw linked call timer sent (err code) c = (c, throws code)
create_with request draw linked call timer sent (ok (s, room_id)) c =
    place_and_send linked call timer sent room_id s (place request draw s) c

-- The request's type is in the placement's input, as the source spreads it.
unfoldable pub create_room :
    PlacementInput
    → Option Text
    → (ℕ → List ℕ)
    → ℕ
    → (Text → Bool)
    → ℕ
    → ℕ
    → Bool
    → Control
    → Control × Outcome
create_room request room_id bytes draw linked call timer sent c =
    create_with request draw linked call timer sent (reserve_room_id room_id bytes c.state) c

unfoldable pub destroy_room : Text → (Text → Bool) → ℕ → ℕ → Bool → Control → Control × Outcome
destroy_room room_id linked call timer sent c = elim (resolve_room room_id c.state) [
  | none ↦ (c, throws room_not_found)
  | some (instance_id, raw_room_id) ↦
      if linked instance_id
      then dispatch instance_id call timer none none sent c
      else (c, throws instance_disconnected)
]

unfoldable pub send_status_command :
    Text → (Text → Bool) → ℕ → ℕ → Bool → Control → Control × Outcome
send_status_command instance_id linked call timer sent c =
    if is_some (get_instance instance_id c.state)
    then if linked instance_id
      then dispatch instance_id call timer none none sent c
      else (c, throws instance_disconnected)
    else (c, throws instance_not_found)

-- What follows the `await`, once the command is acknowledged.
unfoldable pub status_acknowledged : Text → Bool → Control → Control
status_acknowledged instance_id is_drain c = record c {
  state = set_pending_status instance_id (if is_drain then draining else active) c.state;
}
