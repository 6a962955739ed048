-- ===== src/Fleet/SyncExamples.antt =====
-- An agent that has been drained since its last snapshot answers the outstanding poll.
use rivalis.Common.{ℕ, ◌≡◌, refl, true, List, [], ◌∷◌, none, some, arith, inr}
use rivalis.Common.Map
use rivalis.Handshake.Utf8.{Text}
use rivalis.Core.Room.{text_key}
use rivalis.Fleet.Model.{InstanceStatus, active, draining}
use rivalis.Fleet.FleetState.{
  initial, build_instance_info, sum_connections, clear_pending_visibility, reconcile_pending_status,
}
use rivalis.Fleet.FleetState.Changes.{store_snapshot, apply_snapshot, last_hash_of}
use rivalis.Fleet.Poller.{reply}
use rivalis.Fleet.Snapshot.{
  SnapshotContent, Agent, LiveRoom, sort_texts, report_rooms, build_content, payload_of, poll_reply,
}
use rivalis.Fleet.Sync.{Orchestrator, handle_state}
use rivalis.Fleet.Sync.Converges.{IsReported, handle_state-IsReported}

abbrev eu : Text
eu = 0x65 ∷ 0x75 ∷ []

abbrev status_hash : InstanceStatus → Text
status_hash active = []
status_hash draining = 1 ∷ []

-- A hash that tells by the status.
abbrev hash : SnapshotContent → Text
hash c = status_hash c.status

abbrev drained : Agent
drained = record {
  name = eu;
  endpoint_url = [];
  labels = [];
  capacity = record { max_connections = none; max_rooms = none };
  auto_create = true;
  agent_version = [];
  protocol_version = 1;
  process_uid = eu;
  fleet_origins = [];
  status = draining;
  seq = 1;
}

abbrev live : List LiveRoom
live = record { id = eu; type = eu; actor_count = 2 } ∷ []

abbrev old : SnapshotContent
old = build_content (eu ∷ []) live (record drained { status = active })

abbrev orchestrator : Orchestrator
orchestrator = record {
  poller = record {
    entries =
        (eu, record { timer = some 1; outstanding_req_id = some 4; missed = 0; poll_count = 1 })
        ∷ [];
    req_seq = 4;
  };
  state = (apply_snapshot eu (payload_of 1 (hash old) old) 0 initial).0;
}

old-IsReported : IsReported hash eu old 0 1 orchestrator.state
unfolding Map.lookup Map.set build_instance_info sum_connections store_snapshot apply_snapshot
    clear_pending_visibility reconcile_pending_status build_content sort_texts report_rooms
old-IsReported = (_, refl, (refl, refl, refl))

expected : (reply eu 4 orchestrator.poller).1 ≡ true
unfolding Map.lookup reply
expected = refl

apart :
    hash old ≡ hash (build_content (eu ∷ []) live drained)
    → old ≡ build_content (eu ∷ []) live drained
unfolding build_content
apart e = cc

handle_state-IsReported_example :
    (m : ℕ) × IsReported hash eu
      (build_content (eu ∷ []) live drained)
      9
      m
      (handle_state eu
        (poll_reply hash 4 (last_hash_of eu orchestrator.state) (eu ∷ []) live drained).1
        9
        true
        orchestrator).0.state
handle_state-IsReported_example =
    handle_state-IsReported hash eu old 0 9 1 4 (last_hash_of eu orchestrator.state) (eu ∷ []) live
      drained orchestrator old-IsReported (inr refl) expected (omega arith) apart
