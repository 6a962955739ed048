-- ===== src/Handshake/CloseFrame.antt =====
-- handshake/src/closeFrame.ts: the close frame { code, reason }, and the cut of a reason at 123 bytes.
pub mod Truncate
pub mod RoundTrip
use rivalis.Common.{
  ℕ, zero, suc, ◌+◌, bit_and, List, [], ◌∷◌, String, length, take, drop, leb, ltb, eqb,
  if◌then◌else◌,
}
use rivalis.Common.Int.{pos}
use rivalis.Common.Result.{Result}
use rivalis.Handshake.Utf8
use rivalis.Handshake.Utf8.{Text}
use rivalis.Handshake.Reader.{WireError}
use rivalis.Handshake.Value.{
  Value, text, num, object, Fields, end, field, Coercions, FieldDef, string, uint32, required,
  Schema,
}
use rivalis.Handshake.Serializer

abbrev pub close_control_topic : String
close_control_topic = "__rivalis:close"

abbrev pub max_close_reason_bytes : ℕ
max_close_reason_bytes = 123

abbrev pub close_frame_model : String
close_frame_model = "rivalis_close_frame"

abbrev pub close_frame_fields : List FieldDef
close_frame_fields =
    record { key = "code"; type = uint32; rule = required }
    ∷ record { key = "reason"; type = string; rule = required }
    ∷ []

unfoldable pub close_frame_types : Schema
close_frame_types = Serializer.define [] close_frame_model close_frame_fields

-- The length that a first byte announces; 0 stands for a stray continuation byte.
unfoldable pub seq_len : ℕ → ℕ
seq_len b =
    if eqb (bit_and b 0x80) 0
    then 1
    else if eqb (bit_and b 0xe0) 0xc0
    then 2
    else if eqb (bit_and b 0xf0) 0xe0
    then 3
    else if eqb (bit_and b 0xf8) 0xf0
    then 4
    else 0

-- The forward walk; `rest` is the buffer from `i` on. Each round but the last moves `i`, so
-- `max_bytes` rounds are enough.
unfoldable pub walk : ℕ → List ℕ → ℕ → ℕ → ℕ
walk zero rest i max_bytes = i
walk (suc fuel) [] i max_bytes = i
walk (suc fuel) (b ∷ rest) i max_bytes =
    let n = seq_len b in
    let skip = walk fuel rest (i + 1) max_bytes in
    let on = walk fuel (drop n (b ∷ rest)) (i + n) max_bytes in
    if leb max_bytes i then i else if eqb n 0 then skip else if ltb max_bytes (i + n) then i else on

unfoldable pub truncate_utf8 : Text → ℕ → Text
unfolding walk
truncate_utf8 s max_bytes =
    let buf = Utf8.encode s in
    if leb (length buf) max_bytes
    then s
    else Utf8.decode (take (walk max_bytes buf 0 max_bytes) buf)

abbrev pub close_object : ℕ → Text → Fields
close_object code reason = field "code" (num (pos code)) (field "reason" (text reason) end)

unfoldable pub encode_close_frame : Coercions → ℕ → Text → Result WireError (List ℕ)
encode_close_frame js code reason =
    Serializer.encode js 1 close_frame_types close_frame_model
      (object (close_object code (truncate_utf8 reason max_close_reason_bytes)))

unfoldable pub decode_close_frame : List ℕ → Result WireError Fields
decode_close_frame buffer = Serializer.decode close_frame_types close_frame_model buffer
