-- ===== src/Handshake/Codec.antt =====
-- handshake/src/codec.ts: frames with a version header [major, minor] over the serializer.
pub mod Versions
use rivalis.Common.{ℕ, zero, suc, ◌%◌, Bool, true, false, List, [], ◌∷◌, String, eqb, if◌then◌else◌}
use rivalis.Common.Result.{Result, ok, err, ◌>>=◌}
use rivalis.Handshake.Reader.{WireError, truncated_frame, wire_version}
use rivalis.Handshake.Value.{
  Value, object, Fields, has_own, undefined, null, Coercions, FieldDef, Schema,
}
use rivalis.Handshake.Serializer

-- `namespace` is read by nothing.
pub record CodecOptions : Type 0 where
  pub major : ℕ
  pub minor : ℕ
  pub schema : Schema

-- `for (const [typeName, fields] of Object.entries(schema)) s.define(typeName, fields)`.
unfoldable pub define_all : Schema → Schema → Schema
define_all types [] = types
define_all types ((name, fields) ∷ rest) = define_all (Serializer.define types name fields) rest

unfoldable pub get_serializer : CodecOptions → Schema
unfolding define_all
get_serializer o = define_all [] o.schema

unfoldable pub present : Value → String → Bool
present (object fs) key = has_own key fs
present _ key = false

-- A store into a byte array keeps a number's low eight bits.
unfoldable pub encode : Coercions → ℕ → CodecOptions → String → Value → Result WireError (List ℕ)
encode js depth o type message =
    Serializer.encode js depth (get_serializer o) type message >>= λ body.
    ok ((o.major % 256) ∷ (o.minor % 256) ∷ body)

unfoldable pub decode : CodecOptions → String → List ℕ → Result WireError Fields
decode o type [] = err truncated_frame
decode o type (m ∷ []) = err truncated_frame
decode o type (frame_major ∷ n ∷ body) =
    if eqb frame_major o.major
    then Serializer.decode (get_serializer o) type body
    else err (wire_version frame_major o.major)
