-- ===== src/Signal/SignalRoom.antt =====
-- signal/src/SignalRoom.ts, on the table of actors that core/src/Room.ts keeps: the host of a room, its
-- election, and the handoff of its state. A frame stands for what its codec makes of it; the servers
-- that IceConfig issues to an actor are a parameter.
pub mod Election
use rivalis.Common.{ℕ, Bool, List, [], ◌∷◌, ◌++◌, Option, none, some, ◌==◌, if◌then◌else◌}
use rivalis.Common.Map
use rivalis.Common.Map.{Map}
use rivalis.Handshake.Utf8.{Text}
use rivalis.Core.Room.{text_key}

pub record State : Type 0 where
  pub actors : Map Text (Unit {0})
  pub host_id : Option Text
  pub join_order : List Text
  pub pending_host_state : Option (List ℕ)

abbrev pub empty_room : State
empty_room = record { actors = []; host_id = none; join_order = []; pending_host_state = none }

pub data Frame : Type 0 where
  welcome : Text → Option Text → Text → Frame
  host_gone : Frame
  host_elected : Text → Frame
  host_state : List ℕ → Frame
  relayed : Text → List ℕ → Frame

pub data Outbound : Type 0 where
  broadcasts : Frame → Outbound
  sends : Text → Frame → Outbound

abbrev pub or_host : Option Text → Text → Option Text
or_host none id = some id
or_host (some host) id = some host

unfoldable pub on_join : (Text → Text) → Text → State → State × List Outbound
on_join issue_for id s =
    let host = or_host s.host_id id in
    (
      record s { join_order = s.join_order ++ id ∷ []; host_id = host },
      sends id (welcome id host (issue_for id)) ∷ [],
    )

unfoldable pub without : Text → List Text → List Text
without id [] = []
without id (x ∷ xs) = let rest = without id xs in if x == id then rest else x ∷ rest

abbrev pub first : List Text → Option Text
first [] = none
first (x ∷ xs) = some x

abbrev pub is_host : Text → Option Text → Bool
is_host id none = Bool.false
is_host id (some host) = id == host

-- `getActor(id)?.send(...)`.
unfoldable pub send_to : Text → Frame → State → List Outbound
send_to id frame s = if Map.has id s.actors then sends id frame ∷ [] else []

abbrev pub hand_over : Text → Option (List ℕ) → State → List Outbound
hand_over next none s = []
hand_over next (some bytes) s = send_to next (host_state bytes) s

abbrev pub elect : Option Text → Option (List ℕ) → State → List Outbound
elect none pending s = []
elect (some next) pending s = broadcasts (host_elected next) ∷ hand_over next pending s

unfoldable pub on_leave : Text → State → State × List Outbound
on_leave id s =
    let left = without id s.join_order in
    let s' = record s { join_order = left } in
    if is_host id s.host_id
    then (
      record s' { host_id = first left; pending_host_state = none },
      broadcasts host_gone ∷ elect (first left) s.pending_host_state s',
    )
    else (s', [])

-- The target is what `decodeRelayTo` reads of the payload.
unfoldable pub relay : Text → Text → List ℕ → State → List Outbound
relay target topic payload s = send_to target (relayed topic payload) s

abbrev pub or_pending : Option (List ℕ) → Option (List ℕ) → Option (List ℕ)
or_pending none pending = pending
or_pending (some bytes) pending = some bytes

-- The state is what `decodeHostState` reads of the payload.
unfoldable pub receive_host_state : Text → Option (List ℕ) → State → State
receive_host_state id decoded s =
    if is_host id s.host_id
    then record s { pending_host_state = or_pending decoded s.pending_host_state }
    else s

pub data Event : Type 0 where
  joins leaves : Text → Event
  relays : Text → Text → Text → List ℕ → Event
  pushes : Text → Option (List ℕ) → Event

-- The room enters an actor before `onJoin`, and takes it out before `onLeave`.
unfoldable pub step : (Text → Text) → Event → State → State × List Outbound
step issue_for (joins id) s = on_join issue_for id (record s { actors = Map.set id tt s.actors })
step issue_for (leaves id) s = on_leave id (record s { actors = Map.delete id s.actors })
step issue_for (relays id target topic payload) s = (s, relay target topic payload s)
step issue_for (pushes id decoded) s = (receive_host_state id decoded s, [])

unfoldable pub run : (Text → Text) → List Event → State → State × List Outbound
run issue_for [] s = (s, [])
run issue_for (x ∷ xs) s =
    let (s', out) = step issue_for x s in
    let (s'', more) = run issue_for xs s' in (s'', out ++ more)
