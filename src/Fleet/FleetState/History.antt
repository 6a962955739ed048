-- ===== src/Fleet/FleetState/History.antt =====
-- What can happen to the read model, in any order, with the reservations that `place` has handed out.
use rivalis.Common.{ℕ, ◌≡◌, Bool, List, [], ◌∷◌, Option, some, get_elem?}
use rivalis.Common.Result.{ok}
use rivalis.Handshake.Utf8.{Text}
use rivalis.Core.Room.{text_key}
use rivalis.Fleet.CommandEngine.{cmd_key}
use rivalis.Fleet.Model.{Reservation, InstanceStatus, SyncPayload, PlacementInput}
use rivalis.Fleet.FleetState.{State, initial, release}
use rivalis.Fleet.FleetState.Changes.{
  apply_snapshot, touch, remove_instance, set_stale, set_pending_status,
}
use rivalis.Fleet.FleetState.RoomIds.{reserve_room_id, release_room_id, hold_until_visible}
use rivalis.Fleet.FleetState.Placement.{Placement, place}

pub data Reachable : State → List Reservation → Type 0 where
  starts : Reachable initial []
  snapshots :
      {s : State} {rs : List Reservation}
      → Reachable s rs
      → (id : Text) (p : SyncPayload) (t : ℕ) → Reachable (apply_snapshot id p t s).0 rs
  touches :
      {s : State} {rs : List Reservation}
      → Reachable s rs
      → (id : Text) (t : ℕ) → Reachable (touch id t s) rs
  removes :
      {s : State} {rs : List Reservation}
      → Reachable s rs
      → (id : Text) → Reachable (remove_instance id s).0 rs
  stales :
      {s : State} {rs : List Reservation}
      → Reachable s rs
      → (id : Text) (stale : Bool) → Reachable (set_stale id stale s) rs
  pends :
      {s : State} {rs : List Reservation}
      → Reachable s rs
      → (id : Text) (status : InstanceStatus) → Reachable (set_pending_status id status s) rs
  places :
      {s : State} {rs : List Reservation}
      → Reachable s rs
      → (request : PlacementInput) (draw : ℕ) (s' : State) (p : Placement)
      → place request draw s ≡ ok (s', p)
      → Reachable s' (p.reservation ∷ rs)
  releases :
      {s : State} {rs : List Reservation}
      → Reachable s rs
      → (n : ℕ) (r : Reservation) → get_elem? rs n ≡ some r
      → Reachable (release r s) rs
  reserves_id :
      {s : State} {rs : List Reservation}
      → Reachable s rs
      → (id : Option Text) (bytes : ℕ → List ℕ) (s' : State) (room_id : Text)
      → reserve_room_id id bytes s ≡ ok (s', room_id)
      → Reachable s' rs
  releases_id :
      {s : State} {rs : List Reservation}
      → Reachable s rs
      → (room_id : Text) → Reachable (release_room_id room_id s) rs
  holds :
      {s : State} {rs : List Reservation}
      → Reachable s rs
      → (room_id : Text) (n : ℕ) (r : Reservation) → get_elem? rs n ≡ some r
      → Reachable (hold_until_visible room_id r s) rs
