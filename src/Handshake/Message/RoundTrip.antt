-- ===== src/Handshake/Message/RoundTrip.antt =====
-- handshake/src/message.ts: the realtime frame, encoded and decoded.
use rivalis.Common.{
  ℕ, ◌+◌, ◌^◌, ◌<◌, ◌≡◌, refl, List, ◌++◌, length, All, arith, string_key, append-nil,
  length-append, ◌∙◌,
}
use rivalis.Common.Result.{ok, ◌>>=◌}
use rivalis.Handshake.Utf8
use rivalis.Handshake.Utf8.{Text, IsScalar, strip_bom}
use rivalis.Handshake.Utf8.RoundTrip.{decode-encode}
use rivalis.Handshake.Value.{object, Coercions, property, get, put}
use rivalis.Handshake.Serializer.{fields_of}
use rivalis.Handshake.Serializer.Reference.{
  emit_chunk, emit, emit_fields, emit_by_rule, emit_field, view, view_fields, view_by_rule,
  view_value,
}
use rivalis.Handshake.Serializer.Emit.{IsNarrow, length_chunk, encode-emit}
use rivalis.Handshake.Serializer.RoundTrip.{AreDistinct}
use rivalis.Handshake.Serializer.RoundTrip
use rivalis.Handshake.Serializer.Single.{single_known, single-IsNarrow, single-AreDistinct}
use rivalis.Handshake.Message.{
  data_model, message_fields, message_types, message_object, encode, decode,
}

-- The bytes of a frame.
unfoldable pub frame : Text → List ℕ → List ℕ
frame topic payload = emit_chunk 1 (Utf8.encode topic) ++ emit_chunk 2 payload

known_type : fields_of message_types data_model ≡ ok message_fields
unfolding message_types
known_type = single_known data_model message_fields

narrow : IsNarrow message_types
unfolding message_types
narrow = single-IsNarrow data_model message_fields (omega arith)

distinct : AreDistinct message_types
unfolding message_types
distinct = single-AreDistinct data_model message_fields ((refl, tt), (tt, tt))

emit-frame :
    (js : Coercions) (topic : Text) (payload : List ℕ)
    → emit js 1 message_types data_model (object (message_object topic payload))
      ≡ ok (frame topic payload)
unfolding emit emit_fields frame emit_by_rule emit_field property get
emit-frame js topic payload =
    rw (known_type, js.to_text-text topic, append-nil (emit_chunk 2 payload))

view_frame :
    (js : Coercions) (topic : Text) (payload : List ℕ)
    → All IsScalar topic
    → view js 1 message_types data_model (object (message_object topic payload))
      ≡ ok (message_object (strip_bom topic) payload)
unfolding view view_fields view_by_rule view_value property get put
view_frame js topic payload h = rw (known_type, js.to_text-text topic, decode-encode topic h)

-- A frame of a well-formed topic and less than 2^52 bytes carries both through: the receiver sees the payload byte for byte, and the
-- topic less a leading byte order mark, which the platform's decoder takes off.
pub decode-encode_frame :
    (js : Coercions) (topic : Text) (payload : List ℕ)
    → All IsScalar topic
    → length (Utf8.encode topic) + length payload < 2 ^ 52
    → (encode js topic payload >>= λ bytes. decode bytes)
      ≡ ok (message_object (strip_bom topic) payload)
unfolding encode decode frame
decode-encode_frame js topic payload h k =
    RoundTrip.decode-encode js 1 message_types data_model (object (message_object topic payload))
      (frame topic payload) narrow distinct (emit-frame js topic payload)
      (omega (
        arith,
        length-append (emit_chunk 1 (Utf8.encode topic)) (emit_chunk 2 payload),
        length_chunk 1 (Utf8.encode topic),
        length_chunk 2 payload,
      ))
    ∙ view_frame js topic payload h

-- The exact bytes of a frame.
pub encode-frame :
    (js : Coercions) (topic : Text) (payload : List ℕ)
    → length (Utf8.encode topic) + length payload < 2 ^ 52
    → encode js topic payload ≡ ok (frame topic payload)
unfolding encode frame
encode-frame js topic payload k =
    encode-emit js 1 message_types data_model (object (message_object topic payload))
      (frame topic payload) narrow (emit-frame js topic payload)
      (omega (
        arith,
        length-append (emit_chunk 1 (Utf8.encode topic)) (emit_chunk 2 payload),
        length_chunk 1 (Utf8.encode topic),
        length_chunk 2 payload,
      ))
