-- ===== src/Fleet/Model.antt =====
-- fleet/src/domain/types.ts and the snapshot of fleet/src/wire/payloads.ts: the rows of the fleet's read
-- model, placement requests and error codes. Counts and times are natural numbers, a string is a list of code
-- points, an optional field or `null` is an Option. A reservation token `res_N` is the number N.
use rivalis.Common.{ℕ, Bool, List, Option}
use rivalis.Common.Map.{Map}
use rivalis.Handshake.Utf8.{Text}

pub data InstanceStatus : Type 0 where
  active draining : InstanceStatus

pub record Capacity : Type 0 where
  pub max_connections : Option ℕ
  pub max_rooms : Option ℕ

pub data PlacementStrategy : Type 0 where
  least_loaded most_loaded random : PlacementStrategy

-- PlacementInput: the room type and the fields of PlacementRequest.
pub record PlacementInput : Type 0 where
  pub type : Text
  pub instance_id : Option Text
  pub process_uid : Option Text
  pub strategy : Option PlacementStrategy
  pub labels : Option (Map Text Text)
  pub force : Bool

pub record RoomInfo : Type 0 where
  pub id : Text
  pub type : Text
  pub connections : ℕ
  pub instance_id : Text
  pub endpoint_url : Text
  pub local : Bool

pub record InstanceInfo : Type 0 where
  pub id : Text
  pub name : Text
  pub process_uid : Text
  pub endpoint_url : Text
  pub labels : Map Text Text
  pub room_types : List Text
  pub rooms : List RoomInfo
  pub connections : ℕ
  pub capacity : Capacity
  pub auto_create : Bool
  pub status : InstanceStatus
  pub last_sync_at : ℕ
  pub agent_version : Text
  pub protocol_version : ℕ

-- A room of a snapshot; `is_local` is `origin === 'local'`.
pub record SyncRoom : Type 0 where
  pub id : Text
  pub type : Text
  pub connections : ℕ
  pub is_local : Bool

pub record SyncPayload : Type 0 where
  pub seq : ℕ
  pub hash : Text
  pub name : Text
  pub process_uid : Text
  pub agent_version : Text
  pub protocol_version : ℕ
  pub endpoint_url : Text
  pub labels : Map Text Text
  pub capacity : Capacity
  pub auto_create : Bool
  pub room_types : List Text
  pub rooms : List SyncRoom
  pub status : InstanceStatus

pub data FleetErrorCode : Type 0 where
  validation unauthorized instance_not_found room_not_found no_candidate room_exists :
      FleetErrorCode
  instance_draining payload_too_large instance_busy auth_throttled sse_limit : FleetErrorCode
  command_failed instance_disconnected command_timeout : FleetErrorCode

pub record Reservation : Type 0 where
  pub id : ℕ
  pub instance_id : Text
