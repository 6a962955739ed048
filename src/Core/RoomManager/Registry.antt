-- ===== src/Core/RoomManager/Registry.antt =====
-- core/src/RoomManager.ts: the ids of rooms over creation and destruction.
use rivalis.Common.{
  ◌≡◌, true, false, Option, some, inl, inr, Option-cases, if◌then◌else◌, String, string_key,
}
use rivalis.Common.Map
use rivalis.Common.Map.{Map}
use rivalis.Common.Result.{ok, err}
use rivalis.Core.Room.{handle_destroy}
use rivalis.Core.Room.Joins.{set-delete}
use rivalis.Core.RoomManager.{
  RoomClass, RoomManager, id_taken, not_defined, created, destroyed, create, or_generated, destroy,
}

create_free :
    {D : Type 0} (generated room_type : String) (room_id : Option String) (c : RoomClass D)
    (m : RoomManager D)
    → Map.lookup room_type m.defs ≡ some c
    → Map.has (or_generated room_id generated) m.rooms ≡ false
    → let id = or_generated room_id generated in
      create generated room_type room_id m
      ≡ ok (record m { rooms = Map.set id (c, c.construct id) m.rooms }, created id room_type)
unfolding create
create_free generated room_type room_id c m d free = rw (d, create, free)

create_taken :
    {D : Type 0} (generated room_type id : String) (m : RoomManager D)
    → Map.has id m.rooms ≡ true
    → create generated room_type (some id) m
      ≡ err (if Map.has room_type m.defs then id_taken id else not_defined room_type)
unfolding create
create_taken generated room_type id m taken = elim (Option-cases (Map.lookup room_type m.defs)) [
  | inl q ↦ rw (q, create)
  | inr (c, q) ↦ rw (q, create, taken)
]

destroy-set :
    {D : Type 0} (id : String) (c : RoomClass D) (m : RoomManager D)
    → Map.has id m.rooms ≡ false
    → destroy id (record m { rooms = Map.set id (c, c.construct id) m.rooms })
      ≡ ok (m, (handle_destroy c.hooks (c.construct id)).1, destroyed id)
unfolding destroy
destroy-set id c m free =
    rw (Map.lookup-set_self id (c, c.construct id) m.rooms, destroy)
      (rw (set-delete id (c, c.construct id) m.rooms free))

-- Under a free id, given or generated, a defined type makes a room that the manager then has. A second
-- room of that id is refused, whatever its type: as taken, or as not defined where the type is not. And
-- destroying the room gives back the manager as it was.
pub create-destroy :
    {D : Type 0} (generated room_type other : String) (room_id : Option String) (c : RoomClass D)
    (m : RoomManager D)
    → Map.lookup room_type m.defs ≡ some c
    → Map.has (or_generated room_id generated) m.rooms ≡ false
    → let id = or_generated room_id generated in
      let made = record m { rooms = Map.set id (c, c.construct id) m.rooms } in
      (create generated room_type room_id m ≡ ok (made, created id room_type))
      × (create generated other (some id) made
          ≡ err (if Map.has other m.defs then id_taken id else not_defined other))
      × (destroy id made ≡ ok (m, (handle_destroy c.hooks (c.construct id)).1, destroyed id))
create-destroy generated room_type other room_id c m d free =
    let id = or_generated room_id generated in
    (
      create_free generated room_type room_id c m d free,
      create_taken generated other id (record m { rooms = Map.set id (c, c.construct id) m.rooms })
          (rw (Map.lookup-set_self id (c, c.construct id) m.rooms)),
      destroy-set id c m free,
    )
