-- ===== src/Fleet/FleetState/Queries.antt =====
-- FleetState's queries over the resolved view, and what of it the hash of the state is taken of.
use rivalis.Common.{
  ℕ, ◌+◌, Bool, true, false, ◌&&◌, List, [], ◌∷◌, ◌++◌, Option, none, some, ◌==◌, ltb,
  if◌then◌else◌, map,
}
use rivalis.Common.Map
use rivalis.Common.Map.{Map}
use rivalis.Handshake.Utf8.{Text}
use rivalis.Core.Room.{text_key}
use rivalis.Fleet.Model.{InstanceInfo, InstanceStatus, Capacity, RoomInfo}
use rivalis.Fleet.FleetState.{InstanceRecord, State}
use rivalis.Fleet.FleetState.Resolve.{ResolvedLocator, resolve, text_lt}

unfoldable pub rooms_of : List InstanceInfo → List RoomInfo
rooms_of [] = []
rooms_of (i ∷ is) = i.rooms ++ rooms_of is

unfoldable pub rooms : State → List RoomInfo
rooms s = rooms_of (resolve s).instances

unfoldable pub get_instance : Text → State → Option InstanceInfo
get_instance id s = Map.lookup id (resolve s).by_id

abbrev pub room_of : Option ResolvedLocator → Option RoomInfo
room_of none = none
room_of (some l) = some l.room

unfoldable pub get_room : Text → State → Option RoomInfo
get_room room_id s = room_of (Map.lookup room_id (resolve s).by_public_id)

-- The owning instance and the raw id.
abbrev pub owner_of : Option ResolvedLocator → Option (Text × Text)
owner_of none = none
owner_of (some l) = some (l.instance_id, l.raw_room_id)

unfoldable pub resolve_room : Text → State → Option (Text × Text)
resolve_room room_id s = owner_of (Map.lookup room_id (resolve s).by_public_id)

abbrev pub is_later : InstanceRecord → Option InstanceRecord → Bool
is_later r none = true
is_later r (some latest) = ltb latest.join_seq r.join_seq

unfoldable pub latest_from :
    Text → Option InstanceRecord → List InstanceRecord → Option InstanceRecord
latest_from process_uid latest [] = latest
latest_from process_uid latest (r ∷ rs) =
    latest_from process_uid
      (if r.info.process_uid == process_uid && is_later r latest then some r else latest) rs

unfoldable pub latest_record_by_process_uid : Text → State → Option InstanceRecord
latest_record_by_process_uid process_uid s = latest_from process_uid none (Map.values s.records)

unfoldable pub get_instance_by_process_uid : Text → State → Option InstanceInfo
get_instance_by_process_uid process_uid s = elim (latest_record_by_process_uid process_uid s) [
  | none ↦ none
  | some r ↦ get_instance r.info.id s
]

abbrev pub same_label : Option Text → Text → Bool
same_label none v = false
same_label (some u) v = u == v

unfoldable pub matches_labels : Map Text Text → Map Text Text → Bool
matches_labels labels [] = true
matches_labels labels ((key, v) ∷ required) =
    if same_label (Map.lookup key labels) v then matches_labels labels required else false

pub record RoomFilter : Type 0 where
  pub type : Option Text
  pub instance_id : Option Text
  pub labels : Option (Map Text Text)

abbrev pub is_wanted : Option Text → Text → Bool
is_wanted none id = true
is_wanted (some wanted) id = id == wanted

abbrev pub has_labels : Option (Map Text Text) → Map Text Text → Bool
has_labels none labels = true
has_labels (some required) labels = matches_labels labels required

unfoldable pub rooms_of_type : Option Text → List RoomInfo → List RoomInfo
rooms_of_type type [] = []
rooms_of_type type (room ∷ rooms) =
    let rest = rooms_of_type type rooms in if is_wanted type room.type then room ∷ rest else rest

unfoldable pub find_in : RoomFilter → List InstanceInfo → List RoomInfo
find_in filter [] = []
find_in filter (i ∷ is) =
    let rest = find_in filter is in
    if is_wanted filter.instance_id i.id && has_labels filter.labels i.labels
    then rooms_of_type filter.type i.rooms ++ rest
    else rest

unfoldable pub find_rooms : RoomFilter → State → List RoomInfo
find_rooms filter s = find_in filter (resolve s).instances

-- What an instance adds to the hash: all but `lastSyncAt`.
pub record Projection : Type 0 where
  pub id : Text
  pub name : Text
  pub process_uid : Text
  pub endpoint_url : Text
  pub labels : Map Text Text
  pub room_types : List Text
  pub connections : ℕ
  pub capacity : Capacity
  pub auto_create : Bool
  pub status : InstanceStatus
  pub agent_version : Text
  pub protocol_version : ℕ
  pub rooms : List RoomInfo

unfoldable pub project : InstanceInfo → Projection
project i = record {
  id = i.id;
  name = i.name;
  process_uid = i.process_uid;
  endpoint_url = i.endpoint_url;
  labels = i.labels;
  room_types = i.room_types;
  connections = i.connections;
  capacity = i.capacity;
  auto_create = i.auto_create;
  status = i.status;
  agent_version = i.agent_version;
  protocol_version = i.protocol_version;
  rooms = i.rooms;
}

unfoldable pub insert_by_id : Projection → List Projection → List Projection
insert_by_id p [] = p ∷ []
insert_by_id p (q ∷ qs) =
    let rest = insert_by_id p qs in if text_lt p.id q.id then p ∷ q ∷ qs else q ∷ rest

unfoldable pub sort_by_id : List Projection → List Projection → List Projection
sort_by_id sorted [] = sorted
sort_by_id sorted (p ∷ ps) = sort_by_id (insert_by_id p sorted) ps

-- What `computeStateHash` hashes.
unfoldable pub state_projection : State → List Projection
state_projection s = sort_by_id [] (map project (resolve s).instances)

unfoldable pub total_connections : List InstanceInfo → ℕ
total_connections [] = 0
total_connections (i ∷ is) = i.connections + total_connections is
