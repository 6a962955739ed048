-- ===== src/Fleet/Snapshot.antt =====
-- fleet/src/agent/Snapshot.ts: what an agent reports of its server. `hash` is the 64-bit hash of a
-- content; the size guard, which only logs, is left out. Strings are sorted by code point.
use rivalis.Common.{
  ℕ, ◌+◌, Bool, false, not, List, [], ◌∷◌, Option, none, some, ◌==◌, if◌then◌else◌,
}
use rivalis.Common.Map
use rivalis.Common.Map.{Map}
use rivalis.Handshake.Utf8.{Text}
use rivalis.Core.Room.{text_key}
use rivalis.Fleet.Model.{Capacity, InstanceStatus, SyncRoom, SyncPayload}
use rivalis.Fleet.FleetState.{Set}
use rivalis.Fleet.FleetState.Resolve.{text_lt}

-- A snapshot without `seq` and `hash`.
pub record SnapshotContent : Type 0 where
  pub name : Text
  pub process_uid : Text
  pub agent_version : Text
  pub protocol_version : ℕ
  pub endpoint_url : Text
  pub labels : Map Text Text
  pub capacity : Capacity
  pub auto_create : Bool
  pub room_types : List Text
  pub rooms : List SyncRoom
  pub status : InstanceStatus

pub record Agent : Type 0 where
  pub name : Text
  pub endpoint_url : Text
  pub labels : Map Text Text
  pub capacity : Capacity
  pub auto_create : Bool
  pub agent_version : Text
  pub protocol_version : ℕ
  pub process_uid : Text
  pub fleet_origins : Set Text
  pub status : InstanceStatus
  pub seq : ℕ

-- What the room manager says of a room that is there.
pub record LiveRoom : Type 0 where
  pub id : Text
  pub type : Text
  pub actor_count : ℕ

pub record StateFrame : Type 0 where
  pub req_id : ℕ
  pub full : Bool
  pub payload : SyncPayload

unfoldable pub set_status : InstanceStatus → Agent → Agent
set_status status a = record a { status = status }

unfoldable pub mark_fleet_origin : Text → Agent → Agent
mark_fleet_origin room_id a = record a { fleet_origins = Map.set room_id tt a.fleet_origins }

unfoldable pub forget_room : Text → Agent → Agent
forget_room room_id a = record a { fleet_origins = Map.delete room_id a.fleet_origins }

unfoldable pub reset_connection : Agent → Agent
reset_connection a = record a { seq = 0 }

unfoldable pub insert_text : Text → List Text → List Text
insert_text t [] = t ∷ []
insert_text t (x ∷ xs) = let rest = insert_text t xs in if text_lt t x then t ∷ x ∷ xs else x ∷ rest

unfoldable pub sort_texts : List Text → List Text → List Text
sort_texts sorted [] = sorted
sort_texts sorted (t ∷ ts) = sort_texts (insert_text t sorted) ts

unfoldable pub insert_room : SyncRoom → List SyncRoom → List SyncRoom
insert_room r [] = r ∷ []
insert_room r (x ∷ xs) =
    let rest = insert_room r xs in if text_lt r.id x.id then r ∷ x ∷ xs else x ∷ rest

abbrev pub report : Agent → LiveRoom → SyncRoom
report a room = record {
  id = room.id;
  type = room.type;
  connections = room.actor_count;
  is_local = not (Map.has room.id a.fleet_origins);
}

unfoldable pub report_rooms : Agent → List SyncRoom → List LiveRoom → List SyncRoom
report_rooms a sorted [] = sorted
report_rooms a sorted (room ∷ rooms) = report_rooms a (insert_room (report a room) sorted) rooms

unfoldable pub build_content : List Text → List LiveRoom → Agent → SnapshotContent
build_content definitions live a = record {
  name = a.name;
  process_uid = a.process_uid;
  agent_version = a.agent_version;
  protocol_version = a.protocol_version;
  endpoint_url = a.endpoint_url;
  labels = a.labels;
  capacity = a.capacity;
  auto_create = a.auto_create;
  room_types = sort_texts [] definitions;
  rooms = report_rooms a [] live;
  status = a.status;
}

-- `{ seq, hash, ...content }`.
abbrev pub payload_of : ℕ → Text → SnapshotContent → SyncPayload
payload_of seq hash c = record {
  seq = seq;
  hash = hash;
  name = c.name;
  process_uid = c.process_uid;
  agent_version = c.agent_version;
  protocol_version = c.protocol_version;
  endpoint_url = c.endpoint_url;
  labels = c.labels;
  capacity = c.capacity;
  auto_create = c.auto_create;
  room_types = c.room_types;
  rooms = c.rooms;
  status = c.status;
}

abbrev pub is_known : Option Text → Text → Bool
is_known none hash = false
is_known (some known) hash = hash == known

unfoldable pub poll_reply :
    (SnapshotContent → Text)
    → ℕ
    → Option Text
    → List Text
    → List LiveRoom
    → Agent
    → Agent × StateFrame
poll_reply hash64 req_id known_hash definitions live a =
    let content = build_content definitions live a in
    let hash = hash64 content in
    let seq = a.seq + 1 in
    (
      record a { seq = seq },
      record {
        req_id = req_id;
        full = not (is_known known_hash hash);
        payload = payload_of seq hash content;
      },
    )
