-- ===== src/Fleet/FleetState/Visibility.antt =====
-- FleetState.holdUntilVisible: a held room id, up to its owner's next report.
use rivalis.Common.{
  ℕ, ◌≡◌, ◌≢◌, refl, Bool, true, false, List, [], ◌∷◌, none, some, ◌==◌, arith, Bool-cases,
  Option-cases, either_way, inl, inr, ap,
}
use rivalis.Common.Map
use rivalis.Common.Map.{Map}
use rivalis.Common.Totals.{weight_of, total-delete}
use rivalis.Handshake.Utf8.{Text}
use rivalis.Core.Room.{text_key}
use rivalis.Fleet.Model.{Reservation, SyncPayload}
use rivalis.Fleet.FleetState.{
  State, or_zero, is_confirmed, without_owner, pending_rooms, clear_pending_visibility,
  reconcile_pending_status,
}
use rivalis.Fleet.FleetState.Changes.{
  is_out_of_order, sync_at, store_snapshot, apply_snapshot, touch,
}
use rivalis.Fleet.FleetState.Counts.{owns}
use rivalis.Fleet.FleetState.Ledger.{IsHeld}
use rivalis.Fleet.FleetState.History.{Reachable}
use rivalis.Fleet.FleetState.Consistent.{Reachable-IsConsistent}

without_owner-keeps :
    (id owner j : Text) (m : Map Text Text)
    → Map.lookup id m ≡ some owner
    → j ≢ owner
    → Map.lookup id (without_owner j m) ≡ some owner
unfolding without_owner Map.lookup
without_owner-keeps id owner j [] h n = cc
without_owner-keeps id owner j ((k, o) ∷ m) h n = elim (Bool-cases (k == id)) [
  | inl t ↦ ground (arith, text_key.same_iff o j)
  | inr t ↦ ground (arith, without_owner-keeps id owner j m, n)
]

without_owner-absent :
    (id j : Text) (m : Map Text Text)
    → Map.has id m ≡ false
    → Map.lookup id (without_owner j m) ≡ none
unfolding without_owner Map.lookup
without_owner-absent id j [] h = refl
without_owner-absent id j ((k, o) ∷ m) h = ground (arith, without_owner-absent id j m)

without_owner-frees :
    (id owner : Text) (m : Map Text Text)
    → Map.IsUnique m
    → Map.lookup id m ≡ some owner
    → Map.lookup id (without_owner owner m) ≡ none
unfolding without_owner Map.lookup
without_owner-frees id owner [] u h = refl
without_owner-frees id owner ((k, o) ∷ m) u h = elim (Bool-cases (k == id)) [
  | inl t ↦
      ground
        (arith, text_key.same_iff k id, text_key.same_iff o owner, without_owner-absent id owner m)
  | inr t ↦ ground (arith, without_owner-frees id owner m u.1)
]

-- The id is held for that owner.
abbrev pub IsHeldFor : Text → Text → State → Type 0
IsHeldFor id owner s = Map.lookup id s.pending_room_ids ≡ some owner

-- The id is not held, and no slot is counted against the owner.
abbrev pub IsFreed : Text → Text → State → Type 0
IsFreed id owner s = (Map.lookup id s.pending_room_ids ≡ none) × (pending_rooms owner s ≡ 0)

reconcile-IsHeldFor :
    (id owner j : Text) (s : State)
    → IsHeldFor id owner s
    → IsHeldFor id owner (reconcile_pending_status j s)
unfolding reconcile_pending_status
reconcile-IsHeldFor id owner j s h =
    either_way (IsHeldFor id owner)
      (is_confirmed (Map.lookup j s.pending_status) (Map.lookup j s.records)) h h

reconcile-IsFreed :
    (id owner j : Text) (s : State)
    → IsFreed id owner s
    → IsFreed id owner (reconcile_pending_status j s)
unfolding reconcile_pending_status pending_rooms
reconcile-IsFreed id owner j s h =
    either_way (IsFreed id owner)
      (is_confirmed (Map.lookup j s.pending_status) (Map.lookup j s.records)) h h

clear-IsHeldFor :
    (id owner j : Text) (s : State)
    → j ≢ owner
    → IsHeldFor id owner s
    → IsHeldFor id owner (clear_pending_visibility j s)
unfolding clear_pending_visibility
clear-IsHeldFor id owner j s n h =
    either_way (IsHeldFor id owner) (Map.has j s.pending_by_instance)
      (without_owner-keeps id owner j s.pending_room_ids h n) h

held-counted :
    (id owner : Text) (holds : Map Text Text) (counts : Map Text ℕ)
    → IsHeld holds counts
    → Map.lookup id holds ≡ some owner
    → Map.has owner counts ≡ true
held-counted id owner holds counts c h =
    let w : weight_of (owns owner) (Map.lookup id holds) ≡ 1 =
      rw h (ground (arith, Map.beq_refl owner)) in
    ground (arith, total-delete (owns owner) id holds c.unique, c.counted owner, w)

clear-IsFreed :
    (id owner : Text) (s : State)
    → IsHeld s.pending_room_ids s.pending_by_instance
    → IsHeldFor id owner s
    → IsFreed id owner (clear_pending_visibility owner s)
unfolding clear_pending_visibility pending_rooms
clear-IsFreed id owner s c h =
    rw (held-counted id owner s.pending_room_ids s.pending_by_instance c h) (
      without_owner-frees id owner s.pending_room_ids c.unique h,
      ap or_zero (Map.lookup-delete_self owner s.pending_by_instance),
    )

-- What an applied snapshot, a poll reply of a known instance and a removal do to the holds.
snapshot-pending :
    (P : State → Type 0) (j : Text) (p : SyncPayload) (t : ℕ) (s : State)
    → P s
    → P (reconcile_pending_status j (clear_pending_visibility j (store_snapshot j p t s)))
    → P (apply_snapshot j p t s).0
unfolding apply_snapshot
snapshot-pending P j p t s h k =
    either_way (λ (x : State × Bool). P x.0) (is_out_of_order (Map.lookup j s.records) p.seq) h k

store-IsHeldFor :
    (id owner j : Text) (p : SyncPayload) (t : ℕ) (s : State)
    → IsHeldFor id owner s
    → IsHeldFor id owner (store_snapshot j p t s)
unfolding store_snapshot
store-IsHeldFor id owner j p t s h = h

store-IsHeld :
    (j : Text) (p : SyncPayload) (t : ℕ) (s : State)
    → IsHeld s.pending_room_ids s.pending_by_instance
    → IsHeld (store_snapshot j p t s).pending_room_ids (store_snapshot j p t s).pending_by_instance
unfolding store_snapshot
store-IsHeld j p t s h = h

snapshot-applied :
    (j : Text) (p : SyncPayload) (t : ℕ) (s : State)
    → (apply_snapshot j p t s).1 ≡ true
    → (apply_snapshot j p t s).0
      ≡ reconcile_pending_status j (clear_pending_visibility j (store_snapshot j p t s))
unfolding apply_snapshot
snapshot-applied j p t s h = elim (Bool-cases (is_out_of_order (Map.lookup j s.records) p.seq)) [
  | inl e ↦ let z = rw (e, apply_snapshot) at h in cc
  | inr e ↦ rw (e, apply_snapshot) refl
]

touch-IsHeldFor :
    (id owner j : Text) (t : ℕ) (s : State)
    → j ≢ owner
    → IsHeldFor id owner s
    → IsHeldFor id owner (touch j t s)
unfolding touch
touch-IsHeldFor id owner j t s n h = elim (Option-cases (Map.lookup j s.records)) [
  | inl q ↦ rw (q, touch) h
  | inr (r, q) ↦
      rw (q, touch)
        (let s' = record s { records = Map.set j (sync_at t r) s.records } in
          reconcile-IsHeldFor id owner j (clear_pending_visibility j s')
            (clear-IsHeldFor id owner j s' n h))
]

-- In a reachable state, where a room id is held until it is visible on its owner: reports of other instances keep
-- it held, and an applied snapshot of the owner frees it, with every slot that was counted for rooms of
-- that instance which were not visible.
pub hold-report :
    {s : State} {rs : List Reservation} (h : Reachable s rs) (id owner j : Text) (p : SyncPayload)
    (t : ℕ)
    → IsHeldFor id owner s
    → (j ≢ owner → IsHeldFor id owner (apply_snapshot j p t s).0 × IsHeldFor id owner (touch j t s))
      × ((apply_snapshot owner p t s).1 ≡ true → IsFreed id owner (apply_snapshot owner p t s).0)
hold-report {s} {rs} h id owner j p t q = (
  λ n. (
    snapshot-pending (IsHeldFor id owner) j p t s q (
        reconcile-IsHeldFor id owner j (clear_pending_visibility j (store_snapshot j p t s)) (
          clear-IsHeldFor id owner j (store_snapshot j p t s) n
            (store-IsHeldFor id owner j p t s q))),
    touch-IsHeldFor id owner j t s n q,
  ),
  λ applied. rw (snapshot-applied owner p t s applied) (
      reconcile-IsFreed id owner owner (clear_pending_visibility owner (store_snapshot owner p t s))
        (clear-IsFreed id owner (store_snapshot owner p t s)
          (store-IsHeld owner p t s (Reachable-IsConsistent h).1)
          (store-IsHeldFor id owner owner p t s q))),
)
