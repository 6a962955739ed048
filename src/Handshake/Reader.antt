-- ===== src/Handshake/Reader.antt =====
-- handshake/src/wire/varint.ts, class Reader. The model keeps the bytes from `off` to `end`.
pub mod Varint
use rivalis.Common.{
  ℕ, zero, suc, ◌+◌, ◌-◌, ◌*◌, ◌/◌, ◌%◌, ◌^◌, bit_and, List, [], ◌∷◌, length, take, drop, ltb, leb,
  eqb, if◌then◌else◌, String,
}
use rivalis.Common.Result.{Result, ok, err}

-- What the wire code throws.
pub data WireError : Type 0 where
  truncated_varint varint_too_long length_exceeds truncated_frame : WireError
  unknown_type not_an_array : String → WireError
  unsupported_wire : ℕ → WireError
  wire_version : ℕ → ℕ → WireError

-- A sum as a double: exact below 2^53, then rounded half to even. A varint has at most 56 bits.
abbrev pub round_even : ℕ → ℕ → ℕ
round_even n unit =
    let q = n / unit in
    let r = n % unit in
    if ltb (2 * r) unit
    then q * unit
    else if ltb unit (2 * r)
    then (q + 1) * unit
    else if eqb (q % 2) 0
    then q * unit
    else (q + 1) * unit

unfoldable pub to_double : ℕ → ℕ
to_double n =
    if ltb n (2 ^ 53)
    then n
    else if ltb n (2 ^ 54)
    then round_even n 2
    else if ltb n (2 ^ 55)
    then round_even n 4
    else round_even n 8

-- The do-while loop of `varint`, on what is left of the buffer.
unfoldable pub varint_loop : List ℕ → ℕ → ℕ → ℕ → Result WireError (ℕ × List ℕ)
varint_loop [] result mul count = err truncated_varint
varint_loop (byte ∷ rest) result mul count =
    let result' = to_double (result + bit_and byte 0x7f * mul) in
    let more = varint_loop rest result' (mul * 0x80) (count + 1) in
    if ltb 8 (count + 1)
    then err varint_too_long
    else if eqb (bit_and byte 0x80) 0
    then ok (result', rest)
    else more

unfoldable pub varint : List ℕ → Result WireError (ℕ × List ℕ)
unfolding varint_loop
varint bytes = varint_loop bytes 0 1 0

-- `len` is a varint, so it is never negative.
unfoldable pub take_bytes : ℕ → List ℕ → Result WireError (List ℕ × List ℕ)
take_bytes len bytes =
    if ltb (length bytes) len then err length_exceeds else ok (take len bytes, drop len bytes)
