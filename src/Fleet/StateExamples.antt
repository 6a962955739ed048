-- ===== src/Fleet/StateExamples.antt =====
-- The read model on a small fleet: an instance `eu` that has reported the room `a`.
use rivalis.Common.{
  ℕ, ◌+◌, ◌≤◌, ◌≡◌, ◌≢◌, refl, true, false, List, [], ◌∷◌, none, some, replicate, length, arith,
  All, get_elem?, ◌↔◌, inl,
}
use rivalis.Common.Map
use rivalis.Common.Totals.{total}
use rivalis.Common.Result.{ok, err}
use rivalis.Handshake.Utf8.{Text, IsScalar}
use rivalis.Core.Room.{text_key}
use rivalis.Fleet.RoomId.{encode_room_id, namespace_room_id, is_valid_room_id, are_room_id_chars}
use rivalis.Fleet.RoomId.Public.{namespace-encode_room_id}
use rivalis.Fleet.Model.{
  InstanceInfo, active, PlacementInput, least_loaded, random, SyncPayload, Reservation,
  no_candidate, room_exists,
}
use rivalis.Fleet.FleetState.{
  State, initial, build_instance_info, sum_connections, clear_pending_visibility,
  reconcile_pending_status, reserve, release, reserved_rooms, pending_rooms,
}
use rivalis.Fleet.FleetState.Changes.{apply_snapshot, touch, store_snapshot}
use rivalis.Fleet.FleetState.Resolve.{
  RoomEntry, resolve, entries_from, group, insert, sort_onto, public_id, rooms_by_instance,
  index_rooms, index_instances,
}
use rivalis.Fleet.FleetState.Queries.{resolve_room, get_room}
use rivalis.Fleet.FleetState.RoomIds.{
  is_room_id_taken, reserve_room_id, hold_until_visible, add_reserved, add_pending, release_room_id,
}
use rivalis.Fleet.FleetState.Placement.{
  Placement, candidates, is_candidate, raw_instances, all_declare, score_of, place, placed,
  effective_status, has_headroom, includes, filter, best_from, choose, tied_with, pick_scored, pick,
  place_by_strategy,
}
use rivalis.Fleet.FleetState.Counts.{owns}
use rivalis.Fleet.FleetState.History.{Reachable, starts, snapshots, places, holds}
use rivalis.Fleet.FleetState.Ledger.{IsConsistent}
use rivalis.Fleet.FleetState.Consistent.{Reachable-IsConsistent}
use rivalis.Fleet.FleetState.Admission.{place-capacity}
use rivalis.Fleet.FleetState.Load.{IsBest, Scores}
use rivalis.Fleet.FleetState.Answers.{place-IsBest, place-answers, place-refuses}
use rivalis.Fleet.FleetState.Ids.{reserve_room_id-exclusive}
use rivalis.Fleet.FleetState.Visibility.{IsHeldFor, IsFreed, hold-report}
use rivalis.Fleet.FleetState.Keeper.{IsKeeper, entries, resolve_room-IsKeeper}

abbrev pub eu : Text
eu = 0x65 ∷ 0x75 ∷ []

abbrev pub us : Text
us = 0x75 ∷ 0x73 ∷ []

abbrev pub game : Text
game = 0x67 ∷ []

abbrev room : Text
room = 0x61 ∷ []

abbrev snapshot : SyncPayload
snapshot = record {
  seq = 1;
  hash = [];
  name = eu;
  process_uid = eu;
  agent_version = [];
  protocol_version = 1;
  endpoint_url = [];
  labels = [];
  capacity = record { max_connections = some 10; max_rooms = some 3 };
  auto_create = true;
  room_types = game ∷ [];
  rooms = record { id = room; type = game; connections = 4; is_local = false } ∷ [];
  status = active;
}

abbrev request : PlacementInput
request = record {
  type = game;
  instance_id = none;
  process_uid = none;
  strategy = none;
  labels = none;
  force = false;
}

abbrev pub joined : State
joined = (apply_snapshot eu snapshot 0 initial).0

pub joined-Reachable : Reachable joined []
joined-Reachable = snapshots starts eu snapshot 0

abbrev pub info : InstanceInfo
info = record {
  id = eu;
  name = eu;
  process_uid = eu;
  endpoint_url = [];
  labels = [];
  room_types = game ∷ [];
  rooms =
      record {
        id = room;
        type = game;
        connections = 4;
        instance_id = eu;
        endpoint_url = [];
        local = false;
      }
      ∷ [];
  connections = 4;
  capacity = record { max_connections = some 10; max_rooms = some 3 };
  auto_create = true;
  status = active;
  last_sync_at = 0;
  agent_version = [];
  protocol_version = 1;
}

abbrev token : Reservation
token = record { id = 1; instance_id = eu }

abbrev filled : State
filled = (placed info joined).0

abbrev chosen : Placement
chosen = record { instance = info; reservation = token }

filled-place : place request 0 joined ≡ ok (filled, chosen)
unfolding Map.lookup Map.set Map.delete build_instance_info sum_connections store_snapshot
    apply_snapshot clear_pending_visibility reconcile_pending_status reserve reserved_rooms
    pending_rooms effective_status has_headroom includes is_candidate raw_instances filter
    all_declare score_of best_from choose tied_with pick_scored pick placed candidates
    place_by_strategy place
filled-place = refl

filled-Reachable : Reachable filled (token ∷ [])
filled-Reachable = places joined-Reachable request 0 filled chosen filled-place

least_loaded-ne-random : least_loaded ≢ random
least_loaded-ne-random h = cc

info-joined : get_elem? (raw_instances (Map.values joined.records)) 0 ≡ some info
unfolding Map.lookup Map.set build_instance_info sum_connections store_snapshot apply_snapshot
    clear_pending_visibility reconcile_pending_status raw_instances
info-joined = refl

info-candidate : is_candidate request joined info ≡ true
unfolding Map.lookup Map.set build_instance_info sum_connections store_snapshot apply_snapshot
    clear_pending_visibility reconcile_pending_status effective_status has_headroom includes
    is_candidate reserved_rooms pending_rooms
info-candidate = refl

abbrev pub elsewhere : PlacementInput
elsewhere = record request { type = us }

abbrev pub zeros : ℕ → List ℕ
zeros n = replicate 21 0

abbrev pub reserved : State
reserved = add_reserved us joined

us-reserved : reserve_room_id (some us) zeros joined ≡ ok (reserved, us)
unfolding Map.lookup Map.set build_instance_info sum_connections store_snapshot apply_snapshot
    clear_pending_visibility reconcile_pending_status reserve_room_id is_valid_room_id
    are_room_id_chars is_room_id_taken get_room resolve entries_from group insert sort_onto
    public_id rooms_by_instance index_rooms index_instances encode_room_id
us-reserved = refl

abbrev pub held : State
held = hold_until_visible us token filled

held-Reachable : Reachable held (token ∷ [])
held-Reachable = holds filled-Reachable us 0 token refl

held-us : IsHeldFor us eu held
unfolding Map.lookup Map.set Map.delete build_instance_info sum_connections store_snapshot
    apply_snapshot clear_pending_visibility reconcile_pending_status reserve placed release
    release_room_id add_pending hold_until_visible
held-us = refl

abbrev later : SyncPayload
later = record snapshot { seq = 2 }

abbrev entry : RoomEntry
entry = record {
  index = 0;
  instance_id = eu;
  process_uid = eu;
  join_seq = 1;
  raw_id = room;
  base = room;
  is_local = false;
  room = record {
    id = room;
    type = game;
    connections = 4;
    instance_id = eu;
    endpoint_url = [];
    local = false;
  };
}

joined-entry : get_elem? (entries joined) 0 ≡ some entry
unfolding Map.lookup Map.set build_instance_info sum_connections store_snapshot apply_snapshot
    clear_pending_visibility reconcile_pending_status entries_from encode_room_id is_valid_room_id
    are_room_id_chars
joined-entry = refl

joined-scalars : All (λ j. All IsScalar j.raw_id) (entries joined)
unfolding Map.lookup Map.set build_instance_info sum_connections store_snapshot apply_snapshot
    clear_pending_visibility reconcile_pending_status entries_from
joined-scalars = (((inl (omega arith), omega arith), tt), tt)

-- "/".
abbrev slashed : Text
slashed = 0x2f ∷ []

Reachable-IsConsistent_example : IsConsistent filled (token ∷ [])
Reachable-IsConsistent_example = Reachable-IsConsistent filled-Reachable

place-capacity_example :
    (is_candidate request joined info ≡ true)
    × (length info.rooms
          + total (owns eu) filled.reservations
          + total (owns eu) filled.pending_room_ids
        ≤ 3)
place-capacity_example =
    place-capacity joined-Reachable request 0 filled chosen 3 refl refl filled-place refl

place-IsBest_example :
    Scores least_loaded
      (all_declare (candidates request joined))
      (λ y. IsBest least_loaded (score_of (all_declare (candidates request joined)) info) y)
      (candidates request joined)
place-IsBest_example =
    place-IsBest request 0 joined filled chosen refl refl least_loaded-ne-random filled-place

place-answers_example : (x : State × Placement) × (place request 5 joined ≡ ok x)
place-answers_example = place-answers request 5 joined 0 info refl refl info-joined info-candidate

-- A room type that no instance hosts.
place-refuses_example : (place elsewhere 0 joined ≡ err no_candidate) ↔ (
    (no_candidate ≡ no_candidate)
    × All
        (λ i. is_candidate elsewhere joined i ≡ false)
        (raw_instances (Map.values joined.records)))
place-refuses_example = place-refuses elsewhere 0 joined no_candidate refl refl

reserve_room_id-exclusive_example :
    (is_valid_room_id us ≡ true)
    × (is_room_id_taken us joined ≡ false)
    × (reserve_room_id (some us) zeros reserved ≡ err room_exists)
    × ((r : Reservation)
        → reserve_room_id (some us) zeros (hold_until_visible us r reserved) ≡ err room_exists)
reserve_room_id-exclusive_example =
    reserve_room_id-exclusive (some us) zeros joined reserved us (λ n. refl) us-reserved

hold-report_example :
    (us ≢ eu
      → IsHeldFor us eu (apply_snapshot us later 0 held).0 × IsHeldFor us eu (touch us 0 held))
    × ((apply_snapshot eu later 0 held).1 ≡ true → IsFreed us eu (apply_snapshot eu later 0 held).0)
hold-report_example = hold-report held-Reachable us eu us later 0 held-us

resolve_room-IsKeeper_example :
    (k : RoomEntry) × IsKeeper (entries joined) room k
    × (resolve_room room joined ≡ some (k.instance_id, k.raw_id))
resolve_room-IsKeeper_example = resolve_room-IsKeeper joined 0 entry joined-scalars joined-entry

namespace-encode_room_id_example :
    (namespace_room_id eu (encode_room_id room) ≡ namespace_room_id us (encode_room_id slashed)
      → (eu ≡ us) × (room ≡ slashed))
    × (encode_room_id room ≢ namespace_room_id us (encode_room_id slashed))
namespace-encode_room_id_example =
    namespace-encode_room_id eu us room slashed ((inl (omega arith), omega arith), tt)
      ((inl (omega arith), omega arith), tt)
