-- ===== src/Core/RoomManager.antt =====
-- core/src/RoomManager.ts: room types and the rooms made of them. A room class is a function that makes
-- the room; `generateId`, of another package, is an argument. What is broadcast is a list.
pub mod Registry
use rivalis.Common.{
  Bool, true, false, List, [], ◌∷◌, Option, none, some, String, string_key, if◌then◌else◌,
}
use rivalis.Common.Map
use rivalis.Common.Map.{Map}
use rivalis.Common.Result.{Result, ok, err}
use rivalis.Core.Room.{Room, Hooks, Effect, handle_destroy}

-- `new RoomClass(roomId, ...)`, and the class's hooks.
pub record RoomClass (D : Type 0) : Type 0 where
  pub construct : String → Room D
  pub hooks : Hooks D

pub record RoomManager (D : Type 0) : Type 0 where
  pub defs : Map String (RoomClass D)
  pub rooms : Map String (RoomClass D × Room D)

pub data ManagerError : Type 0 where
  key_exists not_defined id_taken does_not_exist : String → ManagerError

pub data Announcement : Type 0 where
  defined : String → Announcement
  created : String → String → Announcement
  destroyed : String → Announcement

abbrev pub or_generated : Option String → String → String
or_generated none generated = generated
or_generated (some room_id) generated = room_id

module _ {D : Type 0} where
  unfoldable pub define :
      String → RoomClass D → RoomManager D → Result ManagerError (RoomManager D × Announcement)
  define key room_class m =
      if Map.has key m.defs
      then err (key_exists key)
      else ok (record m { defs = Map.set key room_class m.defs }, defined key)

  unfoldable pub create :
      String
      → String
      → Option String
      → RoomManager D
      → Result ManagerError (RoomManager D × Announcement)
  create generated room_type room_id m = elim (Map.lookup room_type m.defs) [
    | none ↦ err (not_defined room_type)
    | some c ↦
        let resolved = or_generated room_id generated in
        if Map.has resolved m.rooms
        then err (id_taken resolved)
        else ok (
          record m { rooms = Map.set resolved (c, c.construct resolved) m.rooms },
          created resolved room_type,
        )
  ]

  -- What `handleDestroy` makes the room do.
  unfoldable pub destroy :
      String → RoomManager D → Result ManagerError (RoomManager D × List Effect × Announcement)
  destroy room_id m = elim (Map.lookup room_id m.rooms) [
    | none ↦ err (does_not_exist room_id)
    | some (c, room) ↦ ok (
      record m { rooms = Map.delete room_id m.rooms },
      (handle_destroy c.hooks room).1,
      destroyed room_id,
    )
  ]
