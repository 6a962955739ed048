-- ===== src/Fleet/EventReconciler.antt =====
-- fleet/src/orchestrator/EventReconciler.ts: the events that the orchestrator derives from its read
-- model. An event that is emitted is a value of a list, in order.
pub mod Settled
pub mod Again
use rivalis.Common.{Bool, List, [], ◌∷◌, ◌++◌, Option, none, some, ◌==◌, if◌then◌else◌}
use rivalis.Common.Map
use rivalis.Common.Map.{Map}
use rivalis.Handshake.Utf8.{Text}
use rivalis.Core.Room.{text_key}
use rivalis.Fleet.Model.{InstanceInfo, RoomInfo}
use rivalis.Fleet.FleetState.{Set}

-- What the reconciler reads: the instances, and the hash in the statistics.
pub record ReadModel : Type 0 where
  pub instances : List InstanceInfo
  pub state_hash : Text

pub record Known : Type 0 where
  pub known_instance_ids : Set Text
  pub known_rooms : Map Text RoomInfo
  pub last_stats_hash : Text

pub data FleetEvent : Type 0 where
  instance_join instance_leave : InstanceInfo → FleetEvent
  room_create room_destroy : RoomInfo → FleetEvent
  sync : Text → FleetEvent

unfoldable pub note_room : RoomInfo → Known → Known × List FleetEvent
note_room room k =
    if Map.has room.id k.known_rooms
    then (k, [])
    else (record k { known_rooms = Map.set room.id room k.known_rooms }, room_create room ∷ [])

unfoldable pub note_rooms : List RoomInfo → Known → Known × List FleetEvent
note_rooms [] k = (k, [])
note_rooms (room ∷ rooms) k =
    let (k', events) = note_room room k in
    let (k'', more) = note_rooms rooms k' in (k'', events ++ more)

unfoldable pub note_instance : InstanceInfo → Known → Known × List FleetEvent
note_instance i k = if Map.has i.id k.known_instance_ids then (k, []) else (
  record k { known_instance_ids = Map.set i.id tt k.known_instance_ids },
  instance_join i ∷ [],
)

unfoldable pub note_instances : List InstanceInfo → Known → Known × List FleetEvent
note_instances [] k = (k, [])
note_instances (i ∷ is) k =
    let (k', joined) = note_instance i k in
    let (k'', created) = note_rooms i.rooms k' in
    let (k''', more) = note_instances is k'' in (k''', joined ++ created ++ more)

-- `currentInstanceIds` and `currentRoomIds`, as the same loop fills them.
unfoldable pub instance_ids : List InstanceInfo → Set Text
instance_ids [] = []
instance_ids (i ∷ is) = Map.set i.id tt (instance_ids is)

unfoldable pub add_room_ids : List RoomInfo → Set Text → Set Text
add_room_ids [] ids = ids
add_room_ids (room ∷ rooms) ids = Map.set room.id tt (add_room_ids rooms ids)

unfoldable pub room_ids : List InstanceInfo → Set Text
room_ids [] = []
room_ids (i ∷ is) = add_room_ids i.rooms (room_ids is)

-- The entries whose key is current, and the others.
unfoldable pub keep : {V : Type 0} → Set Text → Map Text V → Map Text V
keep current [] = []
keep current ((id, v) ∷ m) =
    let rest = keep current m in if Map.has id current then (id, v) ∷ rest else rest

unfoldable pub gone : Set Text → Map Text RoomInfo → List FleetEvent
gone current [] = []
gone current ((id, room) ∷ m) =
    let rest = gone current m in if Map.has id current then rest else room_destroy room ∷ rest

unfoldable pub sync_hash : Text → Known → Known × List FleetEvent
sync_hash hash k =
    if hash == k.last_stats_hash
    then (k, [])
    else (record k { last_stats_hash = hash }, sync hash ∷ [])

unfoldable pub drop_gone : List InstanceInfo → Known → Known × List FleetEvent
drop_gone is k = (
  record k {
    known_rooms = keep (room_ids is) k.known_rooms;
    known_instance_ids = keep (instance_ids is) k.known_instance_ids;
  },
  gone (room_ids is) k.known_rooms,
)

unfoldable pub reconcile : ReadModel → Known → Known × List FleetEvent
reconcile m k =
    let (k', noted) = note_instances m.instances k in
    let (k'', destroyed) = drop_gone m.instances k' in
    let (k''', synced) = sync_hash m.state_hash k'' in (k''', noted ++ destroyed ++ synced)

unfoldable pub instance_removed : InstanceInfo → Known → Known × List FleetEvent
instance_removed i k =
    (record k { known_instance_ids = Map.delete i.id k.known_instance_ids }, instance_leave i ∷ [])
