-- ===== src/Fleet/FleetState/Resolve.antt =====
-- FleetState's queries, and the resolution of the room ids that agents report into public ids. Strings
-- are compared by code point, as JavaScript does up to U+FFFF. A room's entry carries its place in
-- the list of entries, which stands for the identity of the object.
use rivalis.Common.{
  ℕ, suc, ◌+◌, Bool, true, false, List, [], ◌∷◌, ◌++◌, Option, none, some, ltb, eqb, if◌then◌else◌,
  map, length,
}
use rivalis.Common.Map
use rivalis.Common.Map.{Map}
use rivalis.Handshake.Utf8.{Text}
use rivalis.Core.Room.{text_key}
use rivalis.Fleet.RoomId.{encode_room_id, namespace_room_id}
use rivalis.Fleet.Model.{InstanceInfo, RoomInfo}
use rivalis.Fleet.FleetState.{InstanceRecord, State}

abbrev pub text_lt : Text → Text → Bool
text_lt [] [] = false
text_lt [] (d ∷ ds) = true
text_lt (c ∷ cs) [] = false
text_lt (c ∷ cs) (d ∷ ds) = if eqb c d then text_lt cs ds else ltb c d

pub record RoomEntry : Type 0 where
  pub index : ℕ
  pub instance_id : Text
  pub process_uid : Text
  pub join_seq : ℕ
  pub raw_id : Text
  pub base : Text
  pub is_local : Bool
  pub room : RoomInfo

-- `compareForCanonical(a, b) < 0`.
unfoldable pub precedes : RoomEntry → RoomEntry → Bool
precedes a b =
    let rank_a = if a.is_local then 1 else 0 in
    let rank_b = if b.is_local then 1 else 0 in
    if eqb rank_a rank_b
    then if eqb a.join_seq b.join_seq
      then text_lt a.instance_id b.instance_id
      else ltb a.join_seq b.join_seq
    else ltb rank_a rank_b

abbrev pub entry_of : InstanceRecord → ℕ → RoomInfo → RoomEntry
entry_of r index room = record {
  index = index;
  instance_id = r.info.id;
  process_uid = r.info.process_uid;
  join_seq = r.join_seq;
  raw_id = room.id;
  base = encode_room_id room.id;
  is_local = room.local;
  room = room;
}

abbrev pub entries_of_record : InstanceRecord → ℕ → List RoomInfo → List RoomEntry
entries_of_record r index [] = []
entries_of_record r index (room ∷ rooms) =
    entry_of r index room ∷ entries_of_record r (suc index) rooms

unfoldable pub entries_from : ℕ → List InstanceRecord → List RoomEntry
entries_from index [] = []
entries_from index (r ∷ rs) =
    entries_of_record r index r.info.rooms ++ entries_from (index + length r.info.rooms) rs

abbrev pub or_empty {ℓ} : {A : Type ℓ} → Option (List A) → List A
or_empty none = []
or_empty (some xs) = xs

-- The entries by base id, each bucket in the order of the entries.
unfoldable pub group : List RoomEntry → Map Text (List RoomEntry) → Map Text (List RoomEntry)
group [] groups = groups
group (e ∷ es) groups =
    group es (Map.set e.base (or_empty (Map.lookup e.base groups) ++ e ∷ []) groups)

-- `Array.prototype.sort`, which is stable.
unfoldable pub insert : RoomEntry → List RoomEntry → List RoomEntry
insert e [] = e ∷ []
insert e (x ∷ xs) = let rest = insert e xs in if precedes e x then e ∷ x ∷ xs else x ∷ rest

unfoldable pub sort_onto : List RoomEntry → List RoomEntry → List RoomEntry
sort_onto sorted [] = sorted
sort_onto sorted (e ∷ es) = sort_onto (insert e sorted) es

-- The id that an entry of a bucket gets, where `ordered` is the bucket sorted.
abbrev pub name_in : List RoomEntry → RoomEntry → Text
name_in [] e = e.base
name_in (keeper ∷ ordered) e =
    if eqb e.index keeper.index then e.base else namespace_room_id e.process_uid e.base

-- Each entry is in one bucket, so the loop over the groups assigns each entry this id, once.
unfoldable pub public_id : Map Text (List RoomEntry) → RoomEntry → Text
public_id groups e =
    let bucket = or_empty (Map.lookup e.base groups) in
    if eqb (length bucket) 1 then e.base else name_in (sort_onto [] bucket) e

pub record ResolvedLocator : Type 0 where
  pub room : RoomInfo
  pub instance_id : Text
  pub raw_room_id : Text

pub record ResolvedView : Type 0 where
  pub instances : List InstanceInfo
  pub by_id : Map Text InstanceInfo
  pub by_public_id : Map Text ResolvedLocator

abbrev pub public_room : Map Text (List RoomEntry) → RoomEntry → RoomInfo
public_room groups e = record e.room { id = public_id groups e }

abbrev pub locator : Map Text (List RoomEntry) → RoomEntry → ResolvedLocator
locator groups e = record {
  room = public_room groups e;
  instance_id = e.instance_id;
  raw_room_id = e.raw_id;
}

unfoldable pub rooms_by_instance :
    Map Text (List RoomEntry) → List RoomEntry → Map Text (List RoomInfo) → Map Text (List RoomInfo)
rooms_by_instance groups [] m = m
rooms_by_instance groups (e ∷ es) m =
    rooms_by_instance groups es
      (Map.set e.instance_id (or_empty (Map.lookup e.instance_id m) ++ public_room groups e ∷ []) m)

unfoldable pub index_rooms :
    Map Text (List RoomEntry) → List RoomEntry → Map Text ResolvedLocator → Map Text ResolvedLocator
index_rooms groups [] m = m
index_rooms groups (e ∷ es) m =
    index_rooms groups es (Map.set (public_id groups e) (locator groups e) m)

abbrev pub public_instance : Map Text (List RoomInfo) → InstanceRecord → InstanceInfo
public_instance rooms r = record r.info { rooms = or_empty (Map.lookup r.info.id rooms) }

unfoldable pub index_instances : List InstanceInfo → Map Text InstanceInfo → Map Text InstanceInfo
index_instances [] m = m
index_instances (i ∷ is) m = index_instances is (Map.set i.id i m)

unfoldable pub resolve : State → ResolvedView
resolve s =
    let entries = entries_from 0 (Map.values s.records) in
    let groups = group entries [] in
    let instances =
      map (public_instance (rooms_by_instance groups entries [])) (Map.values s.records) in
    record {
      instances = instances;
      by_id = index_instances instances [];
      by_public_id = index_rooms groups entries [];
    }
