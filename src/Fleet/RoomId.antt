-- ===== src/Fleet/RoomId.antt =====
-- fleet/src/domain/roomId.ts: the charset of room ids, their percent-encoding, and namespaced ids. A
-- string is a list of code points, so a character below 128 is its own UTF-8 byte.
pub mod Public
use rivalis.Common.{
  ℕ, ◌+◌, ◌/◌, ◌%◌, Bool, ◌&&◌, ◌||◌, List, [], ◌∷◌, ◌++◌, ltb, leb, eqb, if◌then◌else◌, length,
  true,
}
use rivalis.Handshake.Utf8
use rivalis.Handshake.Utf8.{Text}

-- `[A-Za-z0-9_-]`.
abbrev pub is_room_id_char : ℕ → Bool
is_room_id_char c =
    leb 0x41 c && leb c 0x5a
    || (leb 0x61 c && leb c 0x7a || (leb 0x30 c && leb c 0x39 || (eqb c 0x5f || eqb c 0x2d)))

unfoldable pub are_room_id_chars : Text → Bool
are_room_id_chars [] = true
are_room_id_chars (c ∷ cs) = is_room_id_char c && are_room_id_chars cs

-- `^[A-Za-z0-9_-]{1,64}$`.
unfoldable pub is_valid_room_id : Text → Bool
is_valid_room_id id = are_room_id_chars id && (leb 1 (length id) && leb (length id) 64)

abbrev pub namespace_separator : ℕ
namespace_separator = 0x7e

-- A digit of `toString(16).toUpperCase()`.
abbrev pub hex_digit : ℕ → ℕ
hex_digit d = if ltb d 10 then 0x30 + d else 0x37 + d

abbrev pub encode_byte : ℕ → Text
encode_byte b =
    if is_room_id_char b then b ∷ [] else 0x25 ∷ hex_digit (b / 16) ∷ hex_digit (b % 16) ∷ []

unfoldable pub encode_bytes : List ℕ → Text
encode_bytes [] = []
encode_bytes (b ∷ bs) = encode_byte b ++ encode_bytes bs

unfoldable pub encode_room_id : Text → Text
encode_room_id id = if is_valid_room_id id then id else encode_bytes (Utf8.encode id)

unfoldable pub namespace_room_id : Text → Text → Text
namespace_room_id process_uid encoded = process_uid ++ namespace_separator ∷ encoded
