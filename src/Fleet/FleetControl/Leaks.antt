-- ===== src/Fleet/FleetControl/Leaks.antt =====
-- fleet/src/orchestrator/FleetControl.ts: what a create that fails at once leaves reserved.
use rivalis.Common.{
  ℕ, ◌+◌, ◌≡◌, refl, Bool, true, false, List, [], ◌∷◌, Option, some, leb, arith, Bool-cases, inl,
  inr, ◌⊎◌, ap, ◌∙◌, sym, subst,
}
use rivalis.Common.Map
use rivalis.Common.Map.{Map}
use rivalis.Common.Result.{Result-cases}
use rivalis.Handshake.Utf8.{Text}
use rivalis.Core.Room.{text_key}
use rivalis.Fleet.Model.{
  PlacementInput, Reservation, FleetErrorCode, instance_busy, instance_disconnected,
}
use rivalis.Fleet.CommandEngine.{
  cmd_key, PendingCommand, Engine, Action, clear_timeout, next_cmd_id, failing,
  release_reservations, settle, enrol, map_for, send, in_flight, or_empty, max_inflight_commands,
}
use rivalis.Fleet.FleetState.{State, release}
use rivalis.Fleet.FleetState.RoomIds.{
  is_room_id_taken, reserve_room_id, add_reserved, release_room_id,
}
use rivalis.Fleet.FleetState.Placement.{Placement, place}
use rivalis.Fleet.FleetState.Outcomes.{reserve_room_id-ok, place-ok}
use rivalis.Fleet.FleetState.History.{Reachable}
use rivalis.Fleet.FleetState.Consistent.{Reachable-IsConsistent}
use rivalis.Fleet.FleetControl.{
  Control, Outcome, throws, perform, perform_all, rejection, outcome_of, dispatch, dispatch_create,
  place_and_send, create_room,
}
use rivalis.Fleet.FleetControl.Undo.{IsHeldAlike, unreserve-IsHeldAlike, undo-IsHeldAlike}

settle-enrol :
    (i : Text) (k : ℕ) (p : PendingCommand) (action : PendingCommand → List Action) (e : Engine)
    → (settle i k action (enrol i k p e)).1 ≡ clear_timeout p.timer ∷ action p
unfolding enrol settle
settle-enrol i k p action e =
    let m = Map.set k p (or_empty (Map.lookup i e.pending)) in
    rw
      (
        settle,
        Map.lookup-set_self i m e.pending,
        Map.lookup-set_self k p (or_empty (Map.lookup i e.pending)),
      )
      refl

-- What `send` tells the engine's reservations to do.
send-cases :
    (i : Text) (k : ℕ) (p : PendingCommand) (sent : Bool) (e : Engine)
    → ((send i k p sent e).1 ≡ failing instance_busy p)
      ⊎ ((send i k p sent e).1 ≡ [])
      ⊎ ((send i k p sent e).1 ≡ clear_timeout p.timer ∷ failing instance_disconnected p)
unfolding send
send-cases i k p sent e =
    elim (Bool-cases (leb max_inflight_commands (in_flight (map_for e i) i))) [
      | inl t ↦ rw t (inl refl)
      | inr t ↦ elim (Bool-cases sent) [
        | inl b ↦ rw (t, b) (inr (inl refl))
        | inr b ↦
            rw (t, b) (inr (inr (settle-enrol i k p (failing instance_disconnected) (map_for e i))))
      ]
    ]

-- Actions that reject the call have released both reservations.
abbrev IsUndone : PendingCommand → Reservation → Text → List Action → Type 0
IsUndone p r id actions =
    (s s' : State) (call : ℕ) (code : FleetErrorCode)
    → perform_all actions s ≡ s'
    → outcome_of (rejection actions) call ≡ throws code
    → s' ≡ release_room_id id (release r s)

failing-performs :
    (x : FleetErrorCode) (p : PendingCommand) (r : Reservation) (id : Text) (s : State)
    → p.reservation ≡ some r
    → p.room_id_reservation ≡ some id
    → perform_all (failing x p) s ≡ release_room_id id (release r s)
unfolding perform_all perform release_reservations
failing-performs x p r id s a b = rw (a, b) refl

send-IsUndone :
    (i : Text) (k : ℕ) (p : PendingCommand) (r : Reservation) (id : Text) (sent : Bool) (e : Engine)
    → p.reservation ≡ some r
    → p.room_id_reservation ≡ some id
    → IsUndone p r id (send i k p sent e).1
unfolding perform_all perform rejection
send-IsUndone i k p r id sent e a b = elim (send-cases i k p sent e) [
  | inl q ↦ rw q (λ s s' call code f g. sym f ∙ failing-performs instance_busy p r id s a b)
  | inr (inl q) ↦ rw q (λ s s' call code f g. cc)
  | inr (inr q) ↦
      rw q (λ s s' call code f g. sym f ∙ failing-performs instance_disconnected p r id s a b)
]

dispatch-throws :
    (i : Text) (call timer : ℕ) (r : Reservation) (id : Text) (sent : Bool) (c c' : Control)
    (code : FleetErrorCode)
    → dispatch i call timer (some r) (some id) sent c ≡ (c', throws code)
    → c'.state ≡ release_room_id id (release r c.state)
unfolding dispatch next_cmd_id
dispatch-throws i call timer r id sent c c' code h =
    let p : PendingCommand = record {
      call = call;
      timer = timer;
      reservation = some r;
      room_id_reservation = some id;
    } in
    send-IsUndone i (c.commands.cmd_seq + 1) p r id sent
      (record c.commands { cmd_seq = c.commands.cmd_seq + 1 }) refl refl c.state c'.state call code
      (ap (λ (x : Control × Outcome). x.0.state) h) (ap (λ (x : Control × Outcome). x.1) h)

create-throws :
    (linked : Bool) (call timer : ℕ) (sent : Bool) (id : Text) (s : State) (p : Placement)
    (c c' : Control) (code : FleetErrorCode)
    → dispatch_create linked call timer sent id (s, p) c ≡ (c', throws code)
    → c'.state ≡ release_room_id id (release p.reservation s)
unfolding dispatch_create
create-throws true call timer sent id s p c c' code h =
    dispatch-throws p.instance.id call timer p.reservation id sent (record c { state = s }) c' code
      h
create-throws false call timer sent id s p c c' code h =
    ap (λ (x : Control × Outcome). x.0.state) (sym h)

place-throws :
    (linked : Text → Bool) (call timer : ℕ) (sent : Bool) (id : Text) (s₀ : State)
    (request : PlacementInput) (draw : ℕ) (c c' : Control) (code : FleetErrorCode)
    → is_room_id_taken id s₀ ≡ false
    → Map.has (s₀.reservation_seq + 1) s₀.reservations ≡ false
    → place_and_send linked call timer sent id
        (add_reserved id s₀)
        (place request draw (add_reserved id s₀))
        c
      ≡ (c', throws code)
    → IsHeldAlike c'.state s₀
place-throws linked call timer sent id s₀ request draw c c' code free fresh h =
    elim (Result-cases (place request draw (add_reserved id s₀))) [
      | inl q ↦ let z = rw q at h in cc
      | inr (inl (x, q)) ↦
          let z = rw q at h in
          let e : c'.state ≡ release_room_id id (add_reserved id s₀) =
            ap (λ (x : Control × Outcome). x.0.state) (sym z) in
          rw e (unreserve-IsHeldAlike id s₀ free)
      | inr (inr ((t, p), q)) ↦
          let z = rw q at h in
          let (i, g) = place-ok request draw (add_reserved id s₀) t p q in
          let e = create-throws (linked p.instance.id) call timer sent id t p c c' code z in
          let u = undo-IsHeldAlike id i s₀ free fresh in
          rw e (
            subst
              (λ (x : State × Placement).
                IsHeldAlike (release_room_id id (release x.1.reservation x.0)) s₀)
              (sym g) u)
    ]

-- If the read model is in a reachable state: a call of `createRoom` that throws before it waits, for whatever
-- reason, leaves every token, every reserved and every held room id as it was before the call.
pub create_room-IsHeldAlike :
    (c c' : Control) {rs : List Reservation} (request : PlacementInput) (room_id : Option Text)
    (bytes : ℕ → List ℕ) (draw : ℕ) (linked : Text → Bool) (call timer : ℕ) (sent : Bool)
    (code : FleetErrorCode)
    → Reachable c.state rs
    → create_room request room_id bytes draw linked call timer sent c ≡ (c', throws code)
    → IsHeldAlike c'.state c.state
unfolding create_room
create_room-IsHeldAlike c c' request room_id bytes draw linked call timer sent code reach h =
    let l = (Reachable-IsConsistent reach).0 in
    let fresh : Map.has (c.state.reservation_seq + 1) c.state.reservations ≡ false =
      ground (arith, l.bounded (c.state.reservation_seq + 1)) in
    elim (Result-cases (reserve_room_id room_id bytes c.state)) [
      | inl q ↦ let z = rw q at h in cc
      | inr (inl (x, q)) ↦
          let z = rw q at h in
          let e : c'.state ≡ c.state = ap (λ (x : Control × Outcome). x.0.state) (sym z) in
          rw e (λ k. refl, λ id. refl, refl)
      | inr (inr ((s, id), q)) ↦
          let z = rw q at h in
          let (free, e) = reserve_room_id-ok room_id bytes c.state s id q in
          place-throws linked call timer sent id c.state request draw c c' code free fresh (
            subst
              (λ (t : State).
                place_and_send linked call timer sent id t (place request draw t) c
                ≡ (c', throws code))
              e z)
    ]
