-- ===== src/Handshake/Message.antt =====
-- handshake/src/message.ts: the realtime frame, a topic and an opaque payload.
pub mod RoundTrip
use rivalis.Common.{ℕ, List, [], ◌∷◌, String}
use rivalis.Common.Result.{Result}
use rivalis.Handshake.Utf8.{Text}
use rivalis.Handshake.Reader.{WireError}
use rivalis.Handshake.Value.{
  Value, text, object, Fields, end, field, Coercions, FieldType, FieldDef, string, required, Schema,
}
use rivalis.Handshake.Serializer

abbrev pub data_model : String
data_model = "realtime_message"

abbrev pub message_fields : List FieldDef
message_fields =
    record { key = "topic"; type = string; rule = required }
    ∷ record { key = "payload"; type = FieldType.bytes; rule = required }
    ∷ []

unfoldable pub message_types : Schema
message_types = Serializer.define [] data_model message_fields

-- `{ topic, payload }`.
abbrev pub message_object : Text → List ℕ → Fields
message_object topic payload =
    field "topic" (text topic) (field "payload" (Value.bytes payload) end)

unfoldable pub encode : Coercions → Text → List ℕ → Result WireError (List ℕ)
encode js topic payload =
    Serializer.encode js 1 message_types data_model (object (message_object topic payload))

-- The source casts what it decodes to a message; a field that the frame lacks stays absent.
unfoldable pub decode : List ℕ → Result WireError Fields
decode buffer = Serializer.decode message_types data_model buffer
