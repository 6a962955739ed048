-- ===== src/Handshake/Codec/Versions.antt =====
-- handshake/src/codec.ts: frames between peers of the same and of different versions.
use rivalis.Common.{ℕ, ◌%◌, ◌^◌, ◌<◌, ◌≡◌, ◌≢◌, refl, List, [], ◌∷◌, length, String, eqb_iff, arith}
use rivalis.Common.Result.{ok, err, stuck, ◌>>=◌}
use rivalis.Handshake.Reader.{wire_version}
use rivalis.Handshake.Value.{Value, Coercions}
use rivalis.Handshake.Serializer
use rivalis.Handshake.Serializer.Total
use rivalis.Handshake.Serializer.RoundTrip
use rivalis.Handshake.Serializer.RoundTrip.{AreDistinct}
use rivalis.Handshake.Serializer.Emit.{IsNarrow, encode-emit}
use rivalis.Handshake.Serializer.Reference.{emit, view}
use rivalis.Handshake.Codec.{CodecOptions, get_serializer, encode, decode}

same_types : (o p : CodecOptions) → p.schema ≡ o.schema → get_serializer p ≡ get_serializer o
unfolding get_serializer
same_types o p e = rw e

-- Under the conditions of the serializer, and for a major below 256, a codec decodes what another codec with the same schema and major wrote, whatever the minors.
pub decode-encode_codec :
    (js : Coercions) (depth : ℕ) (o p : CodecOptions) (type : String) (message : Value) (b : List ℕ)
    → o.major < 256
    → p.major ≡ o.major
    → p.schema ≡ o.schema
    → IsNarrow (get_serializer o)
    → AreDistinct (get_serializer o)
    → emit js depth (get_serializer o) type message ≡ ok b
    → length b < 2 ^ 53
    → (encode js depth o type message >>= λ frame. decode p type frame)
      ≡ view js depth (get_serializer o) type message
unfolding encode decode
decode-encode_codec js depth o p type message b h same schema narrow distinct e k =
    let written = encode-emit js depth (get_serializer o) type message b narrow e k in
    let trip =
      RoundTrip.decode-encode js depth (get_serializer o) type message b narrow distinct e k in
    let read : Serializer.decode (get_serializer o) type b
        ≡ view js depth (get_serializer o) type message =
      rw written at trip in
    let low : o.major % 256 ≡ o.major = omega arith in
    rw (written, low, same_types o p schema, same, (eqb_iff o.major o.major).1 refl) read

-- A frame of another major is refused with both versions, before its body is read.
pub decode_other_major :
    (o : CodecOptions) (type : String) (m n : ℕ) (body : List ℕ)
    → m ≢ o.major
    → decode o type (m ∷ n ∷ body) ≡ err (wire_version m o.major)
unfolding decode
decode_other_major o type m n body h = ground arith

-- Decoding always ends, and never by running out of fuel.
pub codec-decode-ne-stuck :
    (o : CodecOptions) (type : String) (frame : List ℕ) → decode o type frame ≢ stuck
unfolding decode
codec-decode-ne-stuck o type [] e = cc
codec-decode-ne-stuck o type (m ∷ []) e = cc
codec-decode-ne-stuck o type (m ∷ n ∷ body) e =
    ground (arith, Total.decode-ne-stuck (get_serializer o) type body)
