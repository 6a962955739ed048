-- ===== src/Fleet/FleetState.antt =====
-- fleet/src/orchestrator/FleetState.ts: the read model of the fleet, its capacity reservations and its
-- room ids. A JavaScript `Set` is a map to the unit type. The memo of the resolved view is left out:
-- a query recomputes what the class keeps until the next change. The logger is left out.
pub mod Changes
pub mod Resolve
pub mod Queries
pub mod Stats
pub mod RoomIds
pub mod Placement
pub mod Counts
pub mod History
pub mod Ledger
pub mod Outcomes
pub mod Consistent
pub mod Admission
pub mod Load
pub mod Choice
pub mod Answers
pub mod Order
pub mod Buckets
pub mod Canonical
pub mod Keeper
pub mod Ids
pub mod Visibility
use rivalis.Common.{
  ℕ, ◌+◌, ◌-◌, Bool, true, false, List, [], ◌∷◌, Option, none, some, ◌==◌, leb, if◌then◌else◌, map,
}
use rivalis.Common.Map
use rivalis.Common.Map.{Map}
use rivalis.Handshake.Utf8.{Text}
use rivalis.Core.Room.{text_key}
use rivalis.Fleet.CommandEngine.{cmd_key}
use rivalis.Fleet.Model.{
  InstanceInfo, InstanceStatus, active, draining, RoomInfo, SyncRoom, SyncPayload, Reservation,
}

abbrev pub Set : Type 0 → Type 0
Set K = Map K (Unit {0})

pub record InstanceRecord : Type 0 where
  pub info : InstanceInfo
  pub last_seq : ℕ
  pub last_hash : Text
  pub join_seq : ℕ

pub record State : Type 0 where
  pub records : Map Text InstanceRecord
  pub reservations : Map ℕ Text
  pub reserved_by_instance : Map Text ℕ
  pub reservation_seq : ℕ
  pub reserved_room_ids : Set Text
  pub pending_room_ids : Map Text Text
  pub pending_by_instance : Map Text ℕ
  pub join_counter : ℕ
  pub stale_instances : Set Text
  pub pending_status : Map Text InstanceStatus

abbrev pub initial : State
initial = record {
  records = [];
  reservations = [];
  reserved_by_instance = [];
  reservation_seq = 0;
  reserved_room_ids = [];
  pending_room_ids = [];
  pending_by_instance = [];
  join_counter = 0;
  stale_instances = [];
  pending_status = [];
}

abbrev pub or_zero : Option ℕ → ℕ
or_zero none = 0
or_zero (some n) = n

abbrev pub same_status : InstanceStatus → InstanceStatus → Bool
same_status active active = true
same_status draining draining = true
same_status _ _ = false

abbrev pub build_room : Text → Text → SyncRoom → RoomInfo
build_room instance_id endpoint_url room = record {
  id = room.id;
  type = room.type;
  connections = room.connections;
  instance_id = instance_id;
  endpoint_url = endpoint_url;
  local = room.is_local;
}

unfoldable pub sum_connections : List RoomInfo → ℕ
sum_connections [] = 0
sum_connections (room ∷ rooms) = room.connections + sum_connections rooms

unfoldable pub build_instance_info : Text → SyncPayload → ℕ → InstanceInfo
build_instance_info instance_id payload last_sync_at =
    let rooms = map (build_room instance_id payload.endpoint_url) payload.rooms in
    record {
      id = instance_id;
      name = payload.name;
      process_uid = payload.process_uid;
      endpoint_url = payload.endpoint_url;
      labels = payload.labels;
      room_types = payload.room_types;
      rooms = rooms;
      connections = sum_connections rooms;
      capacity = payload.capacity;
      auto_create = payload.auto_create;
      status = payload.status;
      last_sync_at = last_sync_at;
      agent_version = payload.agent_version;
      protocol_version = payload.protocol_version;
    }

-- Reservations of capacity.

unfoldable pub reserved_rooms : Text → State → ℕ
reserved_rooms instance_id s = or_zero (Map.lookup instance_id s.reserved_by_instance)

unfoldable pub pending_rooms : Text → State → ℕ
pending_rooms instance_id s = or_zero (Map.lookup instance_id s.pending_by_instance)

unfoldable pub reserve : Text → State → State × Reservation
reserve instance_id s =
    let id = s.reservation_seq + 1 in
    (
      record s {
        reservation_seq = id;
        reservations = Map.set id instance_id s.reservations;
        reserved_by_instance =
            Map.set instance_id (or_zero (Map.lookup instance_id s.reserved_by_instance) + 1)
              s.reserved_by_instance;
      },
      record { id = id; instance_id = instance_id },
    )

unfoldable pub release : Reservation → State → State
release r s =
    let count = or_zero (Map.lookup r.instance_id s.reserved_by_instance) in
    if Map.has r.id s.reservations
    then record s {
      reservations = Map.delete r.id s.reservations;
      reserved_by_instance =
          if leb count 1
          then Map.delete r.instance_id s.reserved_by_instance
          else Map.set r.instance_id (count - 1) s.reserved_by_instance;
    }
    else s

-- Holds of room ids until the owner's next report.

unfoldable pub without_owner : Text → Map Text Text → Map Text Text
without_owner instance_id [] = []
without_owner instance_id ((room_id, owner) ∷ m) =
    let rest = without_owner instance_id m in
    if owner == instance_id then rest else (room_id, owner) ∷ rest

unfoldable pub clear_pending_visibility : Text → State → State
clear_pending_visibility instance_id s =
    if Map.has instance_id s.pending_by_instance
    then record s {
      pending_room_ids = without_owner instance_id s.pending_room_ids;
      pending_by_instance = Map.delete instance_id s.pending_by_instance;
    }
    else s

-- The status that the last snapshot reported is the pending one.
abbrev pub is_confirmed : Option InstanceStatus → Option InstanceRecord → Bool
is_confirmed (some pending) (some r) = same_status r.info.status pending
is_confirmed _ _ = false

unfoldable pub reconcile_pending_status : Text → State → State
reconcile_pending_status instance_id s =
    if is_confirmed (Map.lookup instance_id s.pending_status) (Map.lookup instance_id s.records)
    then record s { pending_status = Map.delete instance_id s.pending_status }
    else s
