-- ===== src/Fleet/FleetControl/Undo.antt =====
-- What releasing a reserved id, with or without a token, leaves.
use rivalis.Common.{
  ℕ, ◌+◌, ◌≡◌, refl, Key, is_some, true, false, Option, none, ◌==◌, arith, Option-cases, inl, inr,
  ap, subst,
}
use rivalis.Common.Map
use rivalis.Common.Map.{Map}
use rivalis.Handshake.Utf8.{Text}
use rivalis.Core.Room.{text_key}
use rivalis.Fleet.Model.{InstanceInfo}
use rivalis.Fleet.CommandEngine.{cmd_key}
use rivalis.Fleet.FleetState.{State, reserve, release}
use rivalis.Fleet.FleetState.RoomIds.{is_room_id_taken, add_reserved, release_room_id}
use rivalis.Fleet.FleetState.Placement.{placed}

-- The same tokens, reserved ids and held ids.
abbrev pub IsHeldAlike : State → State → Type 0
IsHeldAlike s t =
    ((k : ℕ) → Map.lookup k s.reservations ≡ Map.lookup k t.reservations)
    × ((id : Text) → Map.lookup id s.reserved_room_ids ≡ Map.lookup id t.reserved_room_ids)
    × (s.pending_room_ids ≡ t.pending_room_ids)

absent_same :
    {K V : Type 0} ⦃e : Key K⦄ (k j : K) (m : Map K V)
    → (k == j) ≡ true
    → Map.has k m ≡ false
    → Map.lookup j m ≡ none
absent_same ⦃e⦄ k j m t h = elim (Option-cases (Map.lookup j m)) [
  | inl q ↦ q
  | inr (v, q) ↦
      let z = subst (λ i. Map.has i m ≡ false) ((e.same_iff k j).0 t) h in let y = rw q at z in cc
]

delete-set :
    {K V : Type 0} ⦃e : Key K⦄ (k j : K) (v : V) (m : Map K V)
    → Map.has k m ≡ false
    → Map.lookup j (Map.delete k (Map.set k v m)) ≡ Map.lookup j m
delete-set ⦃e⦄ k j v m h = ground (
  arith,
  Map.lookup-delete k j (Map.set k v m),
  Map.lookup-set k j v m,
  e.same_iff k j,
  absent_same k j m,
)

free-unreserved :
    (id : Text) (s : State) → is_room_id_taken id s ≡ false → Map.has id s.reserved_room_ids ≡ false
unfolding is_room_id_taken
free-unreserved id s h = ground arith

-- A reserved id that is released.
pub unreserve-IsHeldAlike :
    (id : Text) (s : State)
    → is_room_id_taken id s ≡ false
    → IsHeldAlike (release_room_id id (add_reserved id s)) s
unfolding release_room_id add_reserved
unreserve-IsHeldAlike id s h =
    (λ k. refl, λ j. delete-set id j tt s.reserved_room_ids (free-unreserved id s h), refl)

-- A reserved id and a token that are released.
pub undo-IsHeldAlike :
    (id : Text) (i : InstanceInfo) (s : State)
    → is_room_id_taken id s ≡ false
    → Map.has (s.reservation_seq + 1) s.reservations ≡ false
    → (let (t, p) = placed i (add_reserved id s) in
        IsHeldAlike (release_room_id id (release p.reservation t)) s)
unfolding placed reserve release release_room_id add_reserved
undo-IsHeldAlike id i s h f =
    let t : Map.has (s.reservation_seq + 1) (Map.set (s.reservation_seq + 1) i.id s.reservations)
        ≡ true =
      ap (λ (o : Option Text). is_some o)
        (Map.lookup-set_self (s.reservation_seq + 1) i.id s.reservations) in
    rw t (
      λ k. delete-set (s.reservation_seq + 1) k i.id s.reservations f,
      λ j. delete-set id j tt s.reserved_room_ids (free-unreserved id s h),
      refl,
    )
