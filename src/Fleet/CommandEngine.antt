-- ===== src/Fleet/CommandEngine.antt =====
-- fleet/src/orchestrator/CommandEngine.ts. A command id `cmd_N` is the number N. What the engine does
-- to promises, timers and reservations is a list of actions. A call stands for the promise of a `send`.
pub mod Accounts
pub mod Settled
pub mod History
pub mod Once
use rivalis.Common.{
  ℕ, zero, suc, ◌+◌, Bool, true, false, List, [], ◌∷◌, ◌++◌, Option, none, some, ◌==◌, Key, eqb,
  eqb_iff, leb, if◌then◌else◌,
}
use rivalis.Handshake.Utf8.{Text}
use rivalis.Core.Room.{text_key}
use rivalis.Fleet.Model.{
  Reservation, FleetErrorCode, instance_busy, command_timeout, instance_disconnected, room_exists,
  command_failed,
}
use rivalis.Common.Map
use rivalis.Common.Map.{Map}

instance abbrev pub cmd_key : Key ℕ
cmd_key = record { same = eqb; same_iff = eqb_iff }

pub record PendingCommand : Type 0 where
  pub call : ℕ
  pub timer : ℕ
  pub reservation : Option Reservation
  pub room_id_reservation : Option Text

pub record Engine : Type 0 where
  pub pending : Map Text (Map ℕ PendingCommand)
  pub cmd_seq : ℕ

pub data Action : Type 0 where
  release : Reservation → Action
  release_room_id : Text → Action
  hold_until_visible : Text → Reservation → Action
  clear_timeout : ℕ → Action
  resolve : ℕ → Action
  reject : ℕ → FleetErrorCode → Action

abbrev pub max_inflight_commands : ℕ
max_inflight_commands = 32

unfoldable pub next_cmd_id : Engine → Engine × ℕ
next_cmd_id e = (record e { cmd_seq = e.cmd_seq + 1 }, e.cmd_seq + 1)

abbrev pub or_empty : Option (Map ℕ PendingCommand) → Map ℕ PendingCommand
or_empty none = []
or_empty (some m) = m

unfoldable pub in_flight : Engine → Text → ℕ
in_flight e instance_id = Map.size (or_empty (Map.lookup instance_id e.pending))

abbrev pub release_some : Option Reservation → List Action
release_some none = []
release_some (some r) = release r ∷ []

abbrev pub release_some_id : Option Text → List Action
release_some_id none = []
release_some_id (some id) = release_room_id id ∷ []

unfoldable pub release_reservations : PendingCommand → List Action
release_reservations p = release_some p.reservation ++ release_some_id p.room_id_reservation

abbrev pub hold_both : Option Reservation → Option Text → List Action
hold_both (some r) (some id) = hold_until_visible id r ∷ []
hold_both none id = release_some_id id
hold_both (some r) none = release r ∷ []

unfoldable pub hold_or_release : PendingCommand → List Action
hold_or_release p = hold_both p.reservation p.room_id_reservation

-- The map of an instance, which `mapFor` makes if it is not there.
unfoldable pub map_for : Engine → Text → Engine
map_for e instance_id = record e {
  pending = Map.set instance_id (or_empty (Map.lookup instance_id e.pending)) e.pending;
}

unfoldable pub settle :
    Text → ℕ → (PendingCommand → List Action) → Engine → Engine × List Action × Bool
settle instance_id cmd_id action e = elim (Map.lookup instance_id e.pending) [
  | none ↦ (e, [], false)
  | some map ↦ (elim (Map.lookup cmd_id map) [
    | none ↦ (e, [], false)
    | some p ↦ (
      record e { pending = Map.set instance_id (Map.delete cmd_id map) e.pending },
      clear_timeout p.timer ∷ action p,
      true,
    )
  ])
]

abbrev pub failing : FleetErrorCode → PendingCommand → List Action
failing f p = release_reservations p ++ reject p.call f ∷ []

-- The callback of a command's timer.
unfoldable pub time_out : Text → ℕ → Engine → Engine × List Action × Bool
time_out instance_id cmd_id e =
    settle instance_id cmd_id (λ p. hold_or_release p ++ reject p.call command_timeout ∷ []) e

-- `map.set(cmd.cmdId, ...)`.
unfoldable pub enrol : Text → ℕ → PendingCommand → Engine → Engine
enrol instance_id cmd_id p e = record e {
  pending =
      Map.set instance_id (Map.set cmd_id p (or_empty (Map.lookup instance_id e.pending)))
        e.pending;
}

-- `sent` says whether `link.send` returned.
unfoldable pub send : Text → ℕ → PendingCommand → Bool → Engine → Engine × List Action
send instance_id cmd_id p sent e =
    let e' = map_for e instance_id in
    let e'' = enrol instance_id cmd_id p e' in
    let (undone, actions, settled) =
      settle instance_id cmd_id (failing instance_disconnected) e'' in
    if leb max_inflight_commands (in_flight e' instance_id)
    then (e', failing instance_busy p)
    else if sent
    then (e'', [])
    else (undone, actions)

pub record AckPayload : Type 0 where
  pub cmd_id : ℕ
  pub is_ok : Bool
  pub exists : Bool

unfoldable pub ack : Text → AckPayload → Engine → Engine × List Action × Bool
ack instance_id a e =
    settle instance_id a.cmd_id
      (λ p.
        if a.is_ok
        then hold_or_release p ++ resolve p.call ∷ []
        else failing (if a.exists then room_exists else command_failed) p)
      e

-- The loop of `rejectAll` over the ids that were there when it began.
unfoldable pub reject_each : Text → List ℕ → Engine → Engine × List Action
reject_each instance_id [] e = (e, [])
reject_each instance_id (cmd_id ∷ ids) e =
    let (e', actions, settled) = settle instance_id cmd_id (failing instance_disconnected) e in
    let (e'', more) = reject_each instance_id ids e' in (e'', actions ++ more)

unfoldable pub reject_all : Text → Engine → Engine × List Action
reject_all instance_id e = elim (Map.lookup instance_id e.pending) [
  | none ↦ (e, [])
  | some map ↦
      let (e', actions) = reject_each instance_id (Map.keys map) e in
      (record e' { pending = Map.delete instance_id e'.pending }, actions)
]
