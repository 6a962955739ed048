-- ===== src/Fleet/FleetState/Ids.antt =====
-- FleetState.reserveRoomId and holdUntilVisible: which ids they take.
use rivalis.Common.{
  ℕ, suc, ◌%◌, ◌≡◌, refl, true, false, List, [], ◌∷◌, Option, some, map, arith, Option-cases, inl,
  inr, ◌⊎◌, ap, length,
}
use rivalis.Common.Map
use rivalis.Common.Map.{Map}
use rivalis.Common.Result.{ok, err}
use rivalis.Handshake.Utf8.{Text}
use rivalis.Core.Room.{text_key}
use rivalis.Fleet.RoomId.{is_room_id_char, are_room_id_chars, is_valid_room_id}
use rivalis.Fleet.Model.{room_exists, Reservation}
use rivalis.Fleet.FleetState.{State, release}
use rivalis.Fleet.FleetState.RoomIds.{
  is_room_id_taken, room_id_letter, generate_room_id, add_reserved, reserve_room_id,
  release_room_id, add_pending, hold_until_visible,
}
use rivalis.Fleet.FleetState.Outcomes.{reserve_room_id-ok, reserve_room_id-source}

letter-valid : (b : ℕ) → is_room_id_char (room_id_letter (b % 64)) ≡ true
letter-valid b = ground arith

letters-valid :
    (bytes : List ℕ) → are_room_id_chars (map (λ b. room_id_letter (b % 64)) bytes) ≡ true
unfolding are_room_id_chars
letters-valid [] = refl
letters-valid (b ∷ bs) = rw (letter-valid b) (letters-valid bs)

length-letters : (bytes : List ℕ) → length (map (λ b. room_id_letter (b % 64)) bytes) ≡ length bytes
length-letters [] = refl
length-letters (b ∷ bs) = ap suc (length-letters bs)

generate_room_id-valid :
    (bytes : List ℕ) → length bytes ≡ 21 → is_valid_room_id (generate_room_id bytes) ≡ true
unfolding is_valid_room_id generate_room_id are_room_id_chars
generate_room_id-valid bytes h = rw (letters-valid bytes, length-letters bytes, h) refl

reserved-taken : (id : Text) (s : State) → is_room_id_taken id (add_reserved id s) ≡ true
unfolding is_room_id_taken add_reserved
reserved-taken id s = rw (Map.lookup-set_self id tt s.reserved_room_ids) refl

pending-taken :
    (id owner : Text) (s : State)
    → Map.lookup id s.pending_room_ids ≡ some owner
    → is_room_id_taken id s ≡ true
unfolding is_room_id_taken
pending-taken id owner s h = rw h (ground arith)

taken-refused :
    (id : Text) (bytes : ℕ → List ℕ) (s : State)
    → is_valid_room_id id ≡ true
    → is_room_id_taken id s ≡ true
    → reserve_room_id (some id) bytes s ≡ err room_exists
unfolding reserve_room_id
taken-refused id bytes s v t = rw (v, t) refl

hold-pending :
    (id : Text) (r : Reservation) (s : State)
    → (owner : Text) × (Map.lookup id (hold_until_visible id r s).pending_room_ids ≡ some owner)
unfolding hold_until_visible add_pending
hold-pending id r s =
    let t = release_room_id id (release r s) in
    elim (Option-cases (Map.lookup id t.pending_room_ids)) [
      | inl q ↦ rw q (r.instance_id, Map.lookup-set_self id r.instance_id t.pending_room_ids)
      | inr (owner, q) ↦ rw q (owner, q)
    ]

source-valid :
    (bytes : ℕ → List ℕ) (id : Text)
    → ((n : ℕ) → length (bytes n) ≡ 21)
    → ((is_valid_room_id id ≡ true) ⊎ ((n : ℕ) × (id ≡ generate_room_id (bytes n))))
    → is_valid_room_id id ≡ true
source-valid bytes id b (inl v) = v
source-valid bytes id b (inr (n, e)) = rw e (generate_room_id-valid (bytes n) (b n))

-- If each attempt draws 21 random bytes, a reservation of a room id that succeeds, of the id that was asked for or
-- of a generated one, is of an id in the charset that nothing had taken. After it, also once the room is held until it is visible, a
-- reservation of the same id fails with `ROOM_EXISTS`.
pub reserve_room_id-exclusive :
    (o : Option Text) (bytes : ℕ → List ℕ) (s s' : State) (id : Text)
    → ((n : ℕ) → length (bytes n) ≡ 21)
    → reserve_room_id o bytes s ≡ ok (s', id)
    → (is_valid_room_id id ≡ true)
      × (is_room_id_taken id s ≡ false)
      × (reserve_room_id (some id) bytes s' ≡ err room_exists)
      × ((r : Reservation)
          → reserve_room_id (some id) bytes (hold_until_visible id r s') ≡ err room_exists)
reserve_room_id-exclusive o bytes s s' id b h =
    let (free, e) = reserve_room_id-ok o bytes s s' id h in
    let v = source-valid bytes id b (reserve_room_id-source o bytes s s' id h) in
    (
      v,
      free,
      taken-refused id bytes s' v (rw e (reserved-taken id s)),
      λ r.
          let (owner, q) = hold-pending id r s' in
          taken-refused id bytes (hold_until_visible id r s') v
            (pending-taken id owner (hold_until_visible id r s') q),
    )
