-- ===== src/Handshake/CloseFrame/RoundTrip.antt =====
-- handshake/src/closeFrame.ts: the close frame, encoded and decoded.
use rivalis.Common.{ℕ, ◌^◌, ◌<◌, ◌≡◌, refl, List, ◌++◌, All, arith, append-nil, length-append, ◌∙◌}
use rivalis.Common.Int.{pos}
use rivalis.Common.Result.{ok, ◌>>=◌}
use rivalis.Handshake.Utf8
use rivalis.Handshake.Utf8.{Text, IsScalar, strip_bom}
use rivalis.Handshake.Utf8.RoundTrip.{decode-encode}
use rivalis.Handshake.Writer.Refines.{leb128, length-leb128}
use rivalis.Handshake.Value.{num, object, Coercions, property, get, put}
use rivalis.Handshake.Serializer.{fields_of}
use rivalis.Handshake.Serializer.Reference.{
  emit_chunk, emit_number, emit, emit_fields, emit_by_rule, emit_field, view, view_fields,
  view_by_rule, view_value,
}
use rivalis.Handshake.Serializer.Emit.{IsNarrow, length_chunk}
use rivalis.Handshake.Serializer.RoundTrip.{AreDistinct}
use rivalis.Handshake.Serializer.RoundTrip
use rivalis.Handshake.Serializer.Single.{single_known, single-IsNarrow, single-AreDistinct}
use rivalis.Handshake.CloseFrame.Truncate.{truncate_utf8-bound, All-truncate}
use rivalis.Handshake.CloseFrame.{
  close_frame_model, close_frame_fields, close_frame_types, close_object, truncate_utf8,
  encode_close_frame, decode_close_frame,
}

abbrev cut : Text → Text
cut reason = truncate_utf8 reason 123

abbrev frame : ℕ → Text → List ℕ
frame code reason = emit_number 1 code ++ emit_chunk 2 (Utf8.encode reason)

known_type : fields_of close_frame_types close_frame_model ≡ ok close_frame_fields
unfolding close_frame_types
known_type = single_known close_frame_model close_frame_fields

narrow : IsNarrow close_frame_types
unfolding close_frame_types
narrow = single-IsNarrow close_frame_model close_frame_fields (omega arith)

distinct : AreDistinct close_frame_types
unfolding close_frame_types
distinct = single-AreDistinct close_frame_model close_frame_fields ((refl, tt), (tt, tt))

to_uint32_code : (js : Coercions) (code : ℕ) → code < 2 ^ 32 → js.to_uint32 (num (pos code)) ≡ code
to_uint32_code js code h = js.to_uint32-num (pos code) ∙ omega arith

emit-frame :
    (js : Coercions) (code : ℕ) (reason : Text)
    → code < 2 ^ 32
    → emit js 1 close_frame_types close_frame_model (object (close_object code reason))
      ≡ ok (frame code reason)
unfolding emit emit_fields emit_by_rule emit_field property get
emit-frame js code reason h = rw (
  known_type,
  to_uint32_code js code h,
  js.to_text-text reason,
  append-nil (emit_chunk 2 (Utf8.encode reason)),
)

view_frame :
    (js : Coercions) (code : ℕ) (reason : Text)
    → code < 2 ^ 32
    → All IsScalar reason
    → view js 1 close_frame_types close_frame_model (object (close_object code reason))
      ≡ ok (close_object code (strip_bom reason))
unfolding view view_fields view_by_rule view_value property get put
view_frame js code reason h k =
    rw (known_type, to_uint32_code js code h, js.to_text-text reason, decode-encode reason k)

-- For a 32-bit code and a well-formed reason, the receiver of a close frame sees the code and the reason cut at 123 bytes, each without a leading
-- byte order mark.
pub decode-encode_close_frame :
    (js : Coercions) (code : ℕ) (reason : Text)
    → code < 2 ^ 32
    → All IsScalar reason
    → (encode_close_frame js code reason >>= λ bytes. decode_close_frame bytes)
      ≡ ok (close_object code (strip_bom (truncate_utf8 reason 123)))
unfolding encode_close_frame decode_close_frame
decode-encode_close_frame js code reason h k =
    let b = truncate_utf8-bound reason 123 k in
    RoundTrip.decode-encode js 1 close_frame_types close_frame_model
      (object (close_object code (cut reason))) (frame code (cut reason)) narrow distinct
      (emit-frame js code (cut reason) h)
      (omega (
        arith,
        b,
        length-append (emit_number 1 code) (emit_chunk 2 (Utf8.encode (cut reason))),
        length-append (leb128 9 8) (leb128 9 code),
        length-leb128 9 8,
        length-leb128 9 code,
        length_chunk 2 (Utf8.encode (cut reason)),
      ))
    ∙ view_frame js code (cut reason) h (All-truncate reason 123 k)
