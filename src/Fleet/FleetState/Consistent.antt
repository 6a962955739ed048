-- ===== src/Fleet/FleetState/Consistent.antt =====
-- The counters of FleetState in every reachable state.
use rivalis.Common.{
  ℕ, ◌≡◌, Bool, List, ◌∷◌, Option, some, All-get_elem?, get_elem?, Bool-cases, Option-cases, inl,
  inr, subst, sym, either_way,
}
use rivalis.Common.Map
use rivalis.Common.Map.{Map}
use rivalis.Common.Result.{ok}
use rivalis.Handshake.Utf8.{Text}
use rivalis.Core.Room.{text_key}
use rivalis.Fleet.CommandEngine.{cmd_key}
use rivalis.Fleet.Model.{Reservation, InstanceStatus, SyncPayload, PlacementInput}
use rivalis.Fleet.FleetState.{
  State, is_confirmed, reserve, release, clear_pending_visibility, reconcile_pending_status,
}
use rivalis.Fleet.FleetState.Changes.{
  is_out_of_order, sync_at, apply_snapshot, touch, remove_instance, set_stale, set_pending_status,
  store_snapshot,
}
use rivalis.Fleet.FleetState.RoomIds.{
  reserve_room_id, release_room_id, hold_until_visible, add_pending, add_reserved,
}
use rivalis.Fleet.FleetState.Placement.{Placement, place, placed}
use rivalis.Fleet.FleetState.Counts.{Counts-set, Counts-without_owner, without_owner-IsUnique}
use rivalis.Fleet.FleetState.Outcomes.{reserve_room_id-ok, place-ok}
use rivalis.Fleet.FleetState.History.{
  Reachable, starts, snapshots, touches, removes, stales, pends, places, releases, reserves_id,
  releases_id, holds,
}
use rivalis.Fleet.FleetState.Ledger.{
  IsConsistent, initial-IsConsistent, IsLedger-release, IsLedger-reserve,
}

module _ (rs : List Reservation) where
  clear-IsConsistent :
      (id : Text) (s : State) → IsConsistent s rs → IsConsistent (clear_pending_visibility id s) rs
  unfolding clear_pending_visibility
  clear-IsConsistent id s c =
      either_way (λ t. IsConsistent t rs) (Map.has id s.pending_by_instance)
        (
          c.0,
          record {
            unique = without_owner-IsUnique id s.pending_room_ids c.1.unique;
            counted = Counts-without_owner id s.pending_room_ids s.pending_by_instance c.1.counted;
          },
        )
        c

  reconcile-IsConsistent :
      (id : Text) (s : State) → IsConsistent s rs → IsConsistent (reconcile_pending_status id s) rs
  unfolding reconcile_pending_status
  reconcile-IsConsistent id s c =
      either_way (λ t. IsConsistent t rs)
        (is_confirmed (Map.lookup id s.pending_status) (Map.lookup id s.records)) c c

  snapshot-IsConsistent :
      (id : Text) (p : SyncPayload) (t : ℕ) (s : State)
      → IsConsistent s rs
      → IsConsistent (apply_snapshot id p t s).0 rs
  unfolding apply_snapshot store_snapshot
  snapshot-IsConsistent id p t s c =
      either_way (λ (x : State × Bool). IsConsistent x.0 rs)
        (is_out_of_order (Map.lookup id s.records) p.seq) c
        (reconcile-IsConsistent id (clear_pending_visibility id (store_snapshot id p t s))
          (clear-IsConsistent id (store_snapshot id p t s) c))

  touch-IsConsistent :
      (id : Text) (t : ℕ) (s : State) → IsConsistent s rs → IsConsistent (touch id t s) rs
  unfolding touch
  touch-IsConsistent id t s c = elim (Option-cases (Map.lookup id s.records)) [
    | inl q ↦ rw (q, touch) c
    | inr (r, q) ↦
        rw (q, touch)
          (let s' = record s { records = Map.set id (sync_at t r) s.records } in
            reconcile-IsConsistent id (clear_pending_visibility id s') (clear-IsConsistent id s' c))
  ]

  remove-IsConsistent :
      (id : Text) (s : State) → IsConsistent s rs → IsConsistent (remove_instance id s).0 rs
  unfolding remove_instance
  remove-IsConsistent id s c = elim (Option-cases (Map.lookup id s.records)) [
    | inl q ↦ rw (q, remove_instance) c
    | inr (r, q) ↦
        rw (q, remove_instance)
          (clear-IsConsistent id
            (record s {
              records = Map.delete id s.records;
              stale_instances = Map.delete id s.stale_instances;
              pending_status = Map.delete id s.pending_status;
            })
            c)
  ]

  stale-IsConsistent :
      (id : Text) (b : Bool) (s : State) → IsConsistent s rs → IsConsistent (set_stale id b s) rs
  unfolding set_stale
  stale-IsConsistent id b s c = c

  release_id-IsConsistent :
      (id : Text) (s : State) → IsConsistent s rs → IsConsistent (release_room_id id s) rs
  unfolding release_room_id
  release_id-IsConsistent id s c = c

  add_reserved-IsConsistent :
      (id : Text) (s : State) → IsConsistent s rs → IsConsistent (add_reserved id s) rs
  unfolding add_reserved
  add_reserved-IsConsistent id s c = c

  pend-IsConsistent :
      (id : Text) (x : InstanceStatus) (s : State)
      → IsConsistent s rs
      → IsConsistent (set_pending_status id x s) rs
  unfolding set_pending_status
  pend-IsConsistent id x s c = either_way (λ t. IsConsistent t rs) (Map.has id s.records) c c

  -- A token that is still held when its reservation is released goes, with one count.
  release-IsConsistent :
      (n : ℕ) (r : Reservation) (s : State)
      → get_elem? rs n ≡ some r
      → IsConsistent s rs
      → IsConsistent (release r s) rs
  unfolding release
  release-IsConsistent n r s h c = elim (Option-cases (Map.lookup r.id s.reservations)) [
    | inl q ↦ rw q c
    | inr (owner, q) ↦
        let e = (All-get_elem? _ rs n r h c.0.issued).1 owner q in
        rw q (
          IsLedger-release r s.reservations s.reserved_by_instance s.reservation_seq rs c.0
              (subst (λ o. Map.lookup r.id s.reservations ≡ some o) e q),
          c.1,
        )
  ]

  add_pending-IsConsistent :
      (id i : Text) (s : State) → IsConsistent s rs → IsConsistent (add_pending id i s) rs
  unfolding add_pending
  add_pending-IsConsistent id i s c = elim (Bool-cases (Map.has id s.pending_room_ids)) [
    | inl t ↦ rw t c
    | inr t ↦ rw t (
      c.0,
      record {
        unique = Map.set-IsUnique id i s.pending_room_ids c.1.unique;
        counted = Counts-set id i s.pending_room_ids s.pending_by_instance t c.1.counted;
      },
    )
  ]

reserve-IsConsistent :
    (i : Text) (s : State) (rs : List Reservation)
    → IsConsistent s rs
    → IsConsistent (reserve i s).0 ((reserve i s).1 ∷ rs)
unfolding reserve
reserve-IsConsistent i s rs c =
    (IsLedger-reserve i s.reservations s.reserved_by_instance s.reservation_seq rs c.0, c.1)

hold-IsConsistent :
    (rs : List Reservation) (id : Text) (n : ℕ) (r : Reservation) (s : State)
    → get_elem? rs n ≡ some r
    → IsConsistent s rs
    → IsConsistent (hold_until_visible id r s) rs
unfolding hold_until_visible
hold-IsConsistent rs id n r s h c =
    add_pending-IsConsistent rs id r.instance_id (release_room_id id (release r s))
      (release_id-IsConsistent rs id (release r s) (release-IsConsistent rs n r s h c))

place-IsConsistent :
    (request : PlacementInput) (draw : ℕ) (s s' : State) (p : Placement) (rs : List Reservation)
    → place request draw s ≡ ok (s', p)
    → IsConsistent s rs
    → IsConsistent s' (p.reservation ∷ rs)
unfolding placed
place-IsConsistent request draw s s' p rs h c =
    let (i, e) = place-ok request draw s s' p h in
    subst (λ (x : State × Placement). IsConsistent x.0 (x.1.reservation ∷ rs)) (sym e)
      (reserve-IsConsistent i.id s rs c)

reserve_id-IsConsistent :
    (o : Option Text) (bytes : ℕ → List ℕ) (s s' : State) (id : Text) (rs : List Reservation)
    → reserve_room_id o bytes s ≡ ok (s', id)
    → IsConsistent s rs
    → IsConsistent s' rs
reserve_id-IsConsistent o bytes s s' id rs h c =
    subst (λ t. IsConsistent t rs) (sym (reserve_room_id-ok o bytes s s' id h).1)
      (add_reserved-IsConsistent rs id s c)

-- In every state that is reached by any order of snapshots, polls, removals, placements, releases and
-- holds, where what is released or held was handed out by `place`: `reservedRooms` and `pendingRooms` of every instance
-- are the numbers of the tokens and of the room ids that are held against it, and no token is ahead of the counter.
pub Reachable-IsConsistent :
    {s : State} {rs : List Reservation} → Reachable s rs → IsConsistent s rs
Reachable-IsConsistent starts = initial-IsConsistent
Reachable-IsConsistent (snapshots {s} {rs} h id p t) =
    snapshot-IsConsistent rs id p t s (Reachable-IsConsistent h)
Reachable-IsConsistent (touches {s} {rs} h id t) =
    touch-IsConsistent rs id t s (Reachable-IsConsistent h)
Reachable-IsConsistent (removes {s} {rs} h id) =
    remove-IsConsistent rs id s (Reachable-IsConsistent h)
Reachable-IsConsistent (stales {s} {rs} h id stale) =
    stale-IsConsistent rs id stale s (Reachable-IsConsistent h)
Reachable-IsConsistent (pends {s} {rs} h id status) =
    pend-IsConsistent rs id status s (Reachable-IsConsistent h)
Reachable-IsConsistent (places {s} {rs} h request draw s' p e) =
    place-IsConsistent request draw s s' p rs e (Reachable-IsConsistent h)
Reachable-IsConsistent (releases {s} {rs} h n r e) =
    release-IsConsistent rs n r s e (Reachable-IsConsistent h)
Reachable-IsConsistent (reserves_id {s} {rs} h id bytes s' room_id e) =
    reserve_id-IsConsistent id bytes s s' room_id rs e (Reachable-IsConsistent h)
Reachable-IsConsistent (releases_id {s} {rs} h room_id) =
    release_id-IsConsistent rs room_id s (Reachable-IsConsistent h)
Reachable-IsConsistent (holds {s} {rs} h room_id n r e) =
    hold-IsConsistent rs room_id n r s e (Reachable-IsConsistent h)
