-- ===== src/Fleet/ControlExamples.antt =====
-- The reconciler, the control and the poller on the fleet of StateExamples, and a heartbeat of `eu`.
use rivalis.Common.{◌%◌, eqb, Bool, ◌+◌, ◌≡◌, refl, true, false, List, [], ◌∷◌, ◌++◌, some}
use rivalis.Common.Map
use rivalis.Handshake.Utf8.{Text}
use rivalis.Core.Room.{text_key}
use rivalis.Fleet.RoomId.{encode_room_id, is_valid_room_id, are_room_id_chars}
use rivalis.Fleet.Model.{no_candidate}
use rivalis.Fleet.FleetState.{
  build_instance_info, sum_connections, clear_pending_visibility, reconcile_pending_status,
}
use rivalis.Fleet.FleetState.Changes.{apply_snapshot, touch, store_snapshot}
use rivalis.Fleet.FleetState.Resolve.{
  resolve, entries_from, group, insert, sort_onto, public_id, rooms_by_instance, index_rooms,
  index_instances,
}
use rivalis.Fleet.FleetState.Queries.{get_room}
use rivalis.Fleet.FleetState.RoomIds.{
  is_room_id_taken, reserve_room_id, add_reserved, release_room_id,
}
use rivalis.Fleet.FleetState.Placement.{
  candidates, is_candidate, raw_instances, place, effective_status, has_headroom, includes, filter,
  place_by_strategy,
}
use rivalis.Fleet.EventReconciler.{ReadModel, Known, reconcile}
use rivalis.Fleet.EventReconciler.Again.{IsCurrent, reconcile-reconcile}
use rivalis.Fleet.CommandEngine.History.{idle}
use rivalis.Fleet.FleetControl.{Control, throws, create_room}
use rivalis.Fleet.FleetControl.Undo.{IsHeldAlike}
use rivalis.Fleet.FleetControl.Leaks.{create_room-IsHeldAlike}
use rivalis.Fleet.Poller.{
  Poller, PollEntry, sends_poll, stale, evicts, force_full_every_polls, reply, tick,
}
use rivalis.Fleet.Poller.Silence.{IsWaiting, silence-evicts}
use rivalis.Fleet.FleetState.Changes.{set_stale}
use rivalis.Fleet.FleetState.Queries.{Projection}
use rivalis.Fleet.FleetState.Stats.{stats}
use rivalis.Fleet.FleetState.Stats.Heartbeat.{stats-touch}
use rivalis.Fleet.StateExamples.{
  info, game, eu, us, joined, joined-Reachable, elsewhere, zeros, reserved, held,
}

abbrev model : ReadModel
model = record { instances = info ∷ []; state_hash = us }

-- A room that is gone, and an instance that is new.
abbrev before : Known
before = record {
  known_instance_ids = [];
  known_rooms =
      (
        us,
        record {
          id = us;
          type = game;
          connections = 0;
          instance_id = us;
          endpoint_url = [];
          local = false;
        },
      )
      ∷ [];
  last_stats_hash = [];
}

reconcile-reconcile_example :
    IsCurrent model (reconcile model before).0
    × (reconcile model (reconcile model before).0 ≡ ((reconcile model before).0, []))
reconcile-reconcile_example = reconcile-reconcile model before

abbrev control : Control
control = record { state = joined; commands = idle }

abbrev failed : Control
failed = record { state = release_room_id us reserved; commands = idle }

abbrev all_linked : Text → Bool
all_linked id = true

-- The room type that no instance hosts, by an explicit room id.
control-fails :
    create_room elsewhere (some us) zeros 0 all_linked 7 1 true control
    ≡ (failed, throws no_candidate)
unfolding Map.lookup Map.set Map.delete build_instance_info sum_connections store_snapshot
    apply_snapshot clear_pending_visibility reconcile_pending_status reserve_room_id
    is_valid_room_id are_room_id_chars is_room_id_taken get_room resolve entries_from group insert
    sort_onto public_id rooms_by_instance index_rooms index_instances encode_room_id
    effective_status has_headroom includes is_candidate raw_instances filter candidates
    place_by_strategy place release_room_id add_reserved create_room
control-fails = refl

create_room-IsHeldAlike_example : IsHeldAlike failed.state control.state
create_room-IsHeldAlike_example =
    create_room-IsHeldAlike control failed elsewhere (some us) zeros 0 all_linked 7 1 true
      no_candidate joined-Reachable control-fails

abbrev waiting : PollEntry
waiting = record { timer = some 1; outstanding_req_id = some 4; missed = 0; poll_count = 3 }

abbrev polling : Poller
polling = record { entries = (eu, waiting) ∷ []; req_seq = 4 }

polling-IsWaiting : IsWaiting eu 4 0 3 polling
unfolding Map.lookup
polling-IsWaiting = (waiting, refl, refl, refl, refl)

silence-evicts_example :
    ((tick 2 eu polling).1 ≡ [])
    × ((tick 3 eu (tick 2 eu polling).0).1 ≡ stale eu ∷ [])
    × ((tick 5 eu (tick 3 eu (tick 2 eu polling).0).0).1 ≡ evicts eu ∷ [])
    × ((reply eu 4 (tick 3 eu (tick 2 eu polling).0).0).1 ≡ true)
    × ((tick 5 eu (reply eu 4 (tick 3 eu (tick 2 eu polling).0).0).0).1
        ≡ sends_poll eu
            ((tick 3 eu (tick 2 eu polling).0).0.req_seq + 1)
            (eqb (3 % force_full_every_polls) 0)
          ∷ [])
silence-evicts_example = silence-evicts 2 3 5 eu 4 3 polling polling-IsWaiting

-- A hash that tells the ids of the instances.
abbrev hash_ids : List Projection → Text
hash_ids [] = []
hash_ids (p ∷ ps) = p.id ++ hash_ids ps

stats-touch_example :
    (stats hash_ids (touch eu 9 held) ≡ stats hash_ids held)
    × (stats hash_ids (set_stale eu true held) ≡ stats hash_ids held)
stats-touch_example = stats-touch hash_ids eu 9 true held
