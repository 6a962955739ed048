-- ===== src/Fleet/FleetState/Changes.antt =====
-- FleetState's changes of the read model: snapshots, poll replies, removals, and the marks of an instance.
use rivalis.Common.{ℕ, ◌+◌, Bool, true, false, Option, none, some, leb, if◌then◌else◌}
use rivalis.Common.Map
use rivalis.Common.Map.{Map}
use rivalis.Handshake.Utf8.{Text}
use rivalis.Core.Room.{text_key}
use rivalis.Fleet.CommandEngine.{cmd_key}
use rivalis.Fleet.Model.{InstanceInfo, InstanceStatus, SyncPayload}
use rivalis.Fleet.FleetState.{
  InstanceRecord, State, build_instance_info, clear_pending_visibility, reconcile_pending_status,
}

-- The order of joining: stamped when the connection first appears, kept after.
abbrev pub stamp : Option InstanceRecord → ℕ → ℕ
stamp none counter = counter + 1
stamp (some r) counter = r.join_seq

abbrev pub advance : Option InstanceRecord → ℕ → ℕ
advance none counter = counter + 1
advance (some r) counter = counter

abbrev pub is_out_of_order : Option InstanceRecord → ℕ → Bool
is_out_of_order none seq = false
is_out_of_order (some r) seq = leb seq r.last_seq

unfoldable pub store_snapshot : Text → SyncPayload → ℕ → State → State
store_snapshot instance_id payload last_sync_at s =
    let existing = Map.lookup instance_id s.records in
    record s {
      records =
          Map.set instance_id
            (record {
              info = build_instance_info instance_id payload last_sync_at;
              last_seq = payload.seq;
              last_hash = payload.hash;
              join_seq = stamp existing s.join_counter;
            })
            s.records;
      join_counter = advance existing s.join_counter;
    }

unfoldable pub apply_snapshot : Text → SyncPayload → ℕ → State → State × Bool
apply_snapshot instance_id payload last_sync_at s =
    if is_out_of_order (Map.lookup instance_id s.records) payload.seq then (s, false) else (
      reconcile_pending_status instance_id (
          clear_pending_visibility instance_id (store_snapshot instance_id payload last_sync_at s)),
      true,
    )

unfoldable pub sync_at : ℕ → InstanceRecord → InstanceRecord
sync_at last_sync_at r = record r { info = record r.info { last_sync_at = last_sync_at } }

unfoldable pub touch : Text → ℕ → State → State
touch instance_id last_sync_at s = elim (Map.lookup instance_id s.records) [
  | none ↦ s
  | some r ↦ reconcile_pending_status instance_id (
      clear_pending_visibility instance_id
        (record s { records = Map.set instance_id (sync_at last_sync_at r) s.records }))
]

unfoldable pub remove_instance : Text → State → State × Option InstanceInfo
remove_instance instance_id s = elim (Map.lookup instance_id s.records) [
  | none ↦ (s, none)
  | some r ↦ (
    clear_pending_visibility instance_id (record s {
      records = Map.delete instance_id s.records;
      stale_instances = Map.delete instance_id s.stale_instances;
      pending_status = Map.delete instance_id s.pending_status;
    }),
    some r.info,
  )
]

unfoldable pub set_stale : Text → Bool → State → State
set_stale instance_id stale s = record s {
  stale_instances =
      if stale
      then Map.set instance_id tt s.stale_instances
      else Map.delete instance_id s.stale_instances;
}

unfoldable pub set_pending_status : Text → InstanceStatus → State → State
set_pending_status instance_id status s =
    if Map.has instance_id s.records
    then record s { pending_status = Map.set instance_id status s.pending_status }
    else s

unfoldable pub last_hash_of : Text → State → Option Text
last_hash_of instance_id s = elim (Map.lookup instance_id s.records) [
  | none ↦ none
  | some r ↦ some r.last_hash
]
