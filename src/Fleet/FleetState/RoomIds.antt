-- ===== src/Fleet/FleetState/RoomIds.antt =====
-- FleetState's room ids: which are taken, how one is generated, reserved, released, or held until it
-- is visible. The random bytes of each attempt to generate an id are a parameter.
use rivalis.Common.{
  ℕ, zero, suc, ◌+◌, ◌%◌, ◌-◌, Bool, true, false, ◌||◌, List, ◌∷◌, Option, none, some, ltb, eqb,
  if◌then◌else◌, map, is_some,
}
use rivalis.Common.Map
use rivalis.Common.Result.{Result, ok, err}
use rivalis.Handshake.Utf8.{Text}
use rivalis.Core.Room.{text_key}
use rivalis.Fleet.RoomId.{is_valid_room_id}
use rivalis.Fleet.Model.{FleetErrorCode, validation, room_exists, Reservation}
use rivalis.Fleet.FleetState.{State, or_zero, release}
use rivalis.Fleet.FleetState.Queries.{get_room}

unfoldable pub is_room_id_taken : Text → State → Bool
is_room_id_taken room_id s =
    Map.has room_id s.reserved_room_ids
    || (Map.has room_id s.pending_room_ids || is_some (get_room room_id s))

-- The alphabet `A-Za-z0-9_-` at a place below 64.
abbrev pub room_id_letter : ℕ → ℕ
room_id_letter i =
    if ltb i 26
    then 0x41 + i
    else if ltb i 52
    then 0x61 + (i - 26)
    else if ltb i 62
    then 0x30 + (i - 52)
    else if eqb i 62
    then 0x5f
    else 0x2d

-- "r_", then a letter for the low six bits of each byte.
unfoldable pub generate_room_id : List ℕ → Text
generate_room_id bytes = 0x72 ∷ 0x5f ∷ map (λ b. room_id_letter (b % 64)) bytes

abbrev pub room_id_attempts : ℕ
room_id_attempts = 1000

-- `random i` are the bytes of attempt i; the first argument counts the attempts that are left.
unfoldable pub generate_free : ℕ → ℕ → (ℕ → List ℕ) → State → Result FleetErrorCode Text
generate_free zero attempt random s = err room_exists
generate_free (suc left) attempt random s =
    let candidate = generate_room_id (random attempt) in
    elim (is_room_id_taken candidate s) [
      | true ↦ generate_free left (attempt + 1) random s
      | false ↦ ok candidate
    ]

unfoldable pub add_reserved : Text → State → State
add_reserved room_id s = record s { reserved_room_ids = Map.set room_id tt s.reserved_room_ids }

abbrev pub adding : State → Result FleetErrorCode Text → Result FleetErrorCode (State × Text)
adding s (ok room_id) = ok (add_reserved room_id s, room_id)
adding s (err code) = err code
adding s Result.stuck = Result.stuck

unfoldable pub reserve_room_id :
    Option Text → (ℕ → List ℕ) → State → Result FleetErrorCode (State × Text)
reserve_room_id none random s = adding s (generate_free room_id_attempts 0 random s)
reserve_room_id (some room_id) random s =
    if is_valid_room_id room_id
    then if is_room_id_taken room_id s
      then err room_exists
      else ok (add_reserved room_id s, room_id)
    else err validation

unfoldable pub release_room_id : Text → State → State
release_room_id room_id s = record s { reserved_room_ids = Map.delete room_id s.reserved_room_ids }

unfoldable pub add_pending : Text → Text → State → State
add_pending room_id instance_id s = if Map.has room_id s.pending_room_ids then s else record s {
  pending_room_ids = Map.set room_id instance_id s.pending_room_ids;
  pending_by_instance =
      Map.set instance_id (or_zero (Map.lookup instance_id s.pending_by_instance) + 1)
        s.pending_by_instance;
}

unfoldable pub hold_until_visible : Text → Reservation → State → State
hold_until_visible room_id r s =
    add_pending room_id r.instance_id (release_room_id room_id (release r s))
