-- ===== src/Fleet/Sync.antt =====
-- Orchestrator.handleState of fleet/src/orchestrator/Orchestrator.ts, on the poller and the read model:
-- how the orchestrator takes an agent's reply. `is_valid` says whether validateSnapshot finds no fault.
pub mod Converges
use rivalis.Common.{ℕ, Bool, true, false, List, [], ◌∷◌, if◌then◌else◌}
use rivalis.Handshake.Utf8.{Text}
use rivalis.Fleet.FleetState.{State}
use rivalis.Fleet.FleetState.Changes.{apply_snapshot, touch, set_stale}
use rivalis.Fleet.Poller.{Poller, reply}
use rivalis.Fleet.Snapshot.{StateFrame}

pub record Orchestrator : Type 0 where
  pub poller : Poller
  pub state : State

pub data SyncAction : Type 0 where
  kicks : Text → SyncAction
  reconciles : SyncAction

unfoldable pub ingest : Text → StateFrame → ℕ → Bool → State → State × List SyncAction
ingest instance_id frame now is_valid s =
    if frame.full
    then if is_valid
      then (let (s', applied) = apply_snapshot instance_id frame.payload now s in
          (s', if applied then reconciles ∷ [] else []))
      else (s, [])
    else (touch instance_id now s, [])

unfoldable pub handle_state :
    Text → StateFrame → ℕ → Bool → Orchestrator → Orchestrator × List SyncAction
handle_state instance_id frame now is_valid o =
    let (p, expected) = reply instance_id frame.req_id o.poller in
    let (s, actions) =
      ingest instance_id frame now is_valid (set_stale instance_id false o.state) in
    if expected
    then (record { poller = p; state = s }, actions)
    else (record o { poller = p }, kicks instance_id ∷ [])
