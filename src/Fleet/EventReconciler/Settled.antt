-- ===== src/Fleet/EventReconciler/Settled.antt =====
-- fleet/src/orchestrator/EventReconciler.ts: what is known after each pass over the read model.
use rivalis.Common.{
  ◌≡◌, refl, true, List, [], ◌∷◌, Option, ◌==◌, arith, Bool-cases, inl, inr, ap, sym, subst, All,
  All-mono, is_some,
}
use rivalis.Common.Map
use rivalis.Common.Map.{Map}
use rivalis.Handshake.Utf8.{Text}
use rivalis.Core.Room.{text_key}
use rivalis.Fleet.Model.{InstanceInfo, RoomInfo}
use rivalis.Fleet.FleetState.{Set}
use rivalis.Fleet.EventReconciler.{
  Known, note_room, note_rooms, note_instance, note_instances, instance_ids, add_room_ids, room_ids,
  keep, gone,
}

-- What grows from one set of known rooms or instances to the next.
abbrev Grows : Known → Known → Type 0
Grows k k' =
    ((id : Text) → Map.has id k.known_rooms ≡ true → Map.has id k'.known_rooms ≡ true)
    × ((id : Text)
        → Map.has id k.known_instance_ids ≡ true
        → Map.has id k'.known_instance_ids ≡ true)

has-set_mono :
    {V : Type 0} (id j : Text) (v : V) (m : Map Text V)
    → Map.has id m ≡ true
    → Map.has id (Map.set j v m) ≡ true
has-set_mono id j v m h = ground (arith, Map.lookup-set j id v m)

note_room-Grows : (room : RoomInfo) (k : Known) → Grows k (note_room room k).0
unfolding note_room
note_room-Grows room k = elim (Bool-cases (Map.has room.id k.known_rooms)) [
  | inl t ↦ rw t (λ id h. h, λ id h. h)
  | inr t ↦ rw t (λ id h. has-set_mono id room.id room k.known_rooms h, λ id h. h)
]

note_room-known :
    (room : RoomInfo) (k : Known) → Map.has room.id (note_room room k).0.known_rooms ≡ true
unfolding note_room
note_room-known room k = elim (Bool-cases (Map.has room.id k.known_rooms)) [
  | inl t ↦ rw t t
  | inr t ↦
      rw t
        (ap (λ (o : Option RoomInfo). is_some o) (Map.lookup-set_self room.id room k.known_rooms))
]

note_rooms-Grows : (rooms : List RoomInfo) (k : Known) → Grows k (note_rooms rooms k).0
unfolding note_rooms
note_rooms-Grows [] k = (λ id h. h, λ id h. h)
note_rooms-Grows (room ∷ rooms) k =
    let g = note_room-Grows room k in
    let r = note_rooms-Grows rooms (note_room room k).0 in
    (λ id h. r.0 id (g.0 id h), λ id h. r.1 id (g.1 id h))

-- Every room of the list is known.
abbrev pub KnowsRooms : Known → List RoomInfo → Type 0
KnowsRooms k rooms = All (λ room. Map.has room.id k.known_rooms ≡ true) rooms

note_rooms-known : (rooms : List RoomInfo) (k : Known) → KnowsRooms (note_rooms rooms k).0 rooms
unfolding note_rooms
note_rooms-known [] k = tt
note_rooms-known (room ∷ rooms) k = (
  (note_rooms-Grows rooms (note_room room k).0).0 room.id (note_room-known room k),
  note_rooms-known rooms (note_room room k).0,
)

note_rooms-same :
    (rooms : List RoomInfo) (k : Known) → KnowsRooms k rooms → note_rooms rooms k ≡ (k, [])
unfolding note_rooms note_room
note_rooms-same [] k h = refl
note_rooms-same (room ∷ rooms) k h = rw (h.0, note_rooms-same rooms k h.1) refl

-- Every instance of the list is known, with its rooms.
abbrev pub Knows : Known → List InstanceInfo → Type 0
Knows k is = All (λ i. (Map.has i.id k.known_instance_ids ≡ true) × KnowsRooms k i.rooms) is

pub note_instances-same :
    (is : List InstanceInfo) (k : Known) → Knows k is → note_instances is k ≡ (k, [])
unfolding note_instances note_instance
note_instances-same [] k h = refl
note_instances-same (i ∷ is) k h =
    rw (h.0.0, note_rooms-same i.rooms k h.0.1, note_instances-same is k h.1) refl

note_instance-Grows : (i : InstanceInfo) (k : Known) → Grows k (note_instance i k).0
unfolding note_instance
note_instance-Grows i k = elim (Bool-cases (Map.has i.id k.known_instance_ids)) [
  | inl t ↦ rw t (λ id h. h, λ id h. h)
  | inr t ↦ rw t (λ id h. h, λ id h. has-set_mono id i.id tt k.known_instance_ids h)
]

note_instance-known :
    (i : InstanceInfo) (k : Known) → Map.has i.id (note_instance i k).0.known_instance_ids ≡ true
unfolding note_instance
note_instance-known i k = elim (Bool-cases (Map.has i.id k.known_instance_ids)) [
  | inl t ↦ rw t t
  | inr t ↦
      rw t (
        ap (λ (o : Option (Unit {0})). is_some o)
          (Map.lookup-set_self i.id tt k.known_instance_ids))
]

note_instances-Grows : (is : List InstanceInfo) (k : Known) → Grows k (note_instances is k).0
unfolding note_instances
note_instances-Grows [] k = (λ id h. h, λ id h. h)
note_instances-Grows (i ∷ is) k =
    let a = note_instance-Grows i k in
    let k' = (note_instance i k).0 in
    let b = note_rooms-Grows i.rooms k' in
    let c = note_instances-Grows is (note_rooms i.rooms k').0 in
    (λ id h. c.0 id (b.0 id (a.0 id h)), λ id h. c.1 id (b.1 id (a.1 id h)))

pub note_instances-known : (is : List InstanceInfo) (k : Known) → Knows (note_instances is k).0 is
unfolding note_instances
note_instances-known [] k = tt
note_instances-known (i ∷ is) k =
    let k' = (note_instance i k).0 in
    let k'' = (note_rooms i.rooms k').0 in
    let c = note_instances-Grows is k'' in
    (
      (
        c.1 i.id ((note_rooms-Grows i.rooms k').1 i.id (note_instance-known i k)),
        All-mono _ _ i.rooms (λ room h. c.0 room.id h) (note_rooms-known i.rooms k'),
      ),
      note_instances-known is k'',
    )

pub instance_ids-has :
    (is : List InstanceInfo) → All (λ i. Map.has i.id (instance_ids is) ≡ true) is
unfolding instance_ids
instance_ids-has [] = tt
instance_ids-has (i ∷ is) = (
  ap (λ (o : Option (Unit {0})). is_some o) (Map.lookup-set_self i.id tt (instance_ids is)),
  All-mono _ _ is (λ j h. has-set_mono j.id i.id tt (instance_ids is) h) (instance_ids-has is),
)

add_room_ids-grows :
    (rooms : List RoomInfo) (ids : Set Text) (id : Text)
    → Map.has id ids ≡ true
    → Map.has id (add_room_ids rooms ids) ≡ true
unfolding add_room_ids
add_room_ids-grows [] ids id h = h
add_room_ids-grows (room ∷ rooms) ids id h =
    has-set_mono id room.id tt (add_room_ids rooms ids) (add_room_ids-grows rooms ids id h)

add_room_ids-has :
    (rooms : List RoomInfo) (ids : Set Text)
    → All (λ room. Map.has room.id (add_room_ids rooms ids) ≡ true) rooms
unfolding add_room_ids
add_room_ids-has [] ids = tt
add_room_ids-has (room ∷ rooms) ids = (
  ap (λ (o : Option (Unit {0})). is_some o)
      (Map.lookup-set_self room.id tt (add_room_ids rooms ids)),
  All-mono _ _ rooms (λ j h. has-set_mono j.id room.id tt (add_room_ids rooms ids) h)
      (add_room_ids-has rooms ids),
)

pub room_ids-has :
    (is : List InstanceInfo)
    → All (λ i. All (λ room. Map.has room.id (room_ids is) ≡ true) i.rooms) is
unfolding room_ids
room_ids-has [] = tt
room_ids-has (i ∷ is) = (
  add_room_ids-has i.rooms (room_ids is),
  All-mono _ _ is
      (λ j h. All-mono _ _ j.rooms (λ room t. add_room_ids-grows i.rooms (room_ids is) room.id t) h)
      (room_ids-has is),
)

key_has :
    (current : Set Text) (j id : Text)
    → (j == id) ≡ true
    → Map.has id current ≡ true
    → Map.has j current ≡ true
key_has current j id e h =
    subst (λ x. Map.has x current ≡ true) (sym ((text_key.same_iff j id).0 e)) h

pub has-keep :
    {V : Type 0} (current : Set Text) (id : Text) (m : Map Text V)
    → Map.has id current ≡ true
    → Map.has id (keep current m) ≡ Map.has id m
unfolding keep Map.lookup
has-keep current id [] h = refl
has-keep current id ((j, v) ∷ m) h = ground (arith, has-keep current id m h, key_has current j id)

pub keep_again :
    {V : Type 0} (current : Set Text) (m : Map Text V)
    → keep current (keep current m) ≡ keep current m
unfolding keep
keep_again current [] = refl
keep_again current ((j, v) ∷ m) = ground (arith, keep_again current m)

pub gone-keep : (current : Set Text) (m : Map Text RoomInfo) → gone current (keep current m) ≡ []
unfolding keep gone
gone-keep current [] = refl
gone-keep current ((j, v) ∷ m) = ground (arith, gone-keep current m)
