-- ===== src/Handshake/Examples.antt =====
-- The wire format on concrete messages.
use rivalis.Common.{
  ℕ, ◌+◌, ◌^◌, ◌<◌, ◌≡◌, ◌≢◌, refl, List, [], ◌∷◌, ◌++◌, length, take, drop, arith, string_key, All,
  leb, if◌then◌else◌,
}
use rivalis.Common.Int.{ℤ, pos, negsuc}
use rivalis.Common.Result.{ok, err, stuck, ◌>>=◌}
use rivalis.Handshake.Utf8.{Text, IsScalar, strip_bom}
use rivalis.Handshake.Utf8
use rivalis.Handshake.Value.{
  Value, num, text, object, array, nil, cons, end, field, wrap32, Coercions, FieldDef, string,
  uint32, int32, required, optional, repeated, Schema,
}
use rivalis.Handshake.Serializer
use rivalis.Handshake.Serializer.Reference.{
  emit, view, emit_fields, emit_by_rule, emit_field, emit_repeated, emit_elements,
}
use rivalis.Handshake.Serializer.Total.{decode-ne-stuck}
use rivalis.Handshake.Value.{property, get}
use rivalis.Handshake.Codec
use rivalis.Handshake.Codec.{CodecOptions}
use rivalis.Handshake.Codec.Versions.{decode-encode_codec, decode_other_major}
use rivalis.Handshake.Message
use rivalis.Handshake.Message.{message_object}
use rivalis.Handshake.Message.RoundTrip.{decode-encode_frame}
use rivalis.Handshake.CloseFrame.{
  close_object, truncate_utf8, encode_close_frame, decode_close_frame,
}
use rivalis.Handshake.CloseFrame.RoundTrip.{decode-encode_close_frame}
use rivalis.Handshake.CloseFrame.Truncate.{fit, truncate_utf8-fit}
use rivalis.Handshake.Reader
use rivalis.Handshake.Reader.{wire_version}
use rivalis.Handshake.Reader.Varint.{varint-varint}
use rivalis.Handshake.Writer
use rivalis.Handshake.Writer.Refines.{IsValid, leb128, varint_lem}
use rivalis.Common.Map
use rivalis.Handshake.Serializer.Emit.{IsNarrow, encode-emit}
use rivalis.Handshake.Serializer.RoundTrip.{AreDistinct, decode-encode}
use rivalis.Handshake.Serializer.Single.{single-IsNarrow, single-AreDistinct}

-- A runtime that prints nothing but strings, and reads nothing but numbers.
abbrev pub to_text : Value → Text
to_text (text s) = s
to_text _ = []

abbrev pub to_uint32 : Value → ℕ
to_uint32 (num n) = wrap32 n
to_uint32 _ = 0

wrap32-lt : (n : ℤ) → wrap32 n < 2 ^ 32
wrap32-lt (pos n) = omega arith
wrap32-lt (negsuc n) = omega arith

pub to_uint32_bound : (v : Value) → to_uint32 v < 2 ^ 32
to_uint32_bound (num n) = wrap32-lt n
to_uint32_bound _ = ground arith

abbrev pub js : Coercions
js = record {
  to_text = to_text;
  to_text-text = λ s. refl;
  to_uint32 = to_uint32;
  to_uint32-num = λ n. refl;
  to_uint32-lt = to_uint32_bound;
}

abbrev player_fields : List FieldDef
player_fields =
    record { key = "name"; type = string; rule = required }
    ∷ record { key = "score"; type = int32; rule = optional }
    ∷ record { key = "items"; type = uint32; rule = repeated }
    ∷ []

abbrev player_types : Schema
player_types = Serializer.define [] "player" player_fields

abbrev player : Value
player = object (
    field "name" (text (0x41 ∷ 0xe9 ∷ [])) (
      field "score" (num (negsuc 2))
        (field "items" (array (cons (num (pos 300)) (cons (num (pos 7)) nil))) end)))

abbrev player_bytes : List ℕ
player_bytes = 10 ∷ 3 ∷ 0x41 ∷ 0xc3 ∷ 0xa9 ∷ 16 ∷ 5 ∷ 24 ∷ 172 ∷ 2 ∷ 24 ∷ 7 ∷ []

player_lem : emit js 1 player_types "player" player ≡ ok player_bytes
unfolding emit emit_fields emit_by_rule emit_field emit_repeated emit_elements Serializer.define
    Serializer.fields_of Map.set Map.lookup property get leb128 Utf8.encode Utf8.encode_char
    Serializer.zig_zag
player_lem = refl

player-IsNarrow : IsNarrow player_types
player-IsNarrow = single-IsNarrow "player" player_fields (omega arith)

player-AreDistinct : AreDistinct player_types
player-AreDistinct =
    single-AreDistinct "player" player_fields ((refl, (refl, tt)), ((refl, tt), (tt, tt)))

encode-emit_example : Serializer.encode js 1 player_types "player" player ≡ ok player_bytes
encode-emit_example =
    encode-emit js 1 player_types "player" player player_bytes player-IsNarrow player_lem
      (omega arith)

decode-encode_example :
    (Serializer.encode js 1 player_types "player" player >>= λ b.
    Serializer.decode player_types "player" b)
    ≡ view js 1 player_types "player" player
decode-encode_example =
    decode-encode js 1 player_types "player" player player_bytes player-IsNarrow player-AreDistinct
      player_lem (omega arith)

decode-ne-stuck_example : Serializer.decode player_types "player" (10 ∷ 200 ∷ []) ≢ stuck
decode-ne-stuck_example = decode-ne-stuck player_types "player" (10 ∷ 200 ∷ [])

abbrev writing : CodecOptions
writing = record { major = 2; minor = 1; schema = player_types }

abbrev reading : CodecOptions
reading = record { major = 2; minor = 4; schema = player_types }

serializer_lem : Codec.get_serializer writing ≡ player_types
unfolding Codec.get_serializer Codec.define_all Serializer.define Map.set
serializer_lem = refl

decode-encode_codec_example :
    (Codec.encode js 1 writing "player" player >>= λ frame. Codec.decode reading "player" frame)
    ≡ view js 1 (Codec.get_serializer writing) "player" player
decode-encode_codec_example =
    decode-encode_codec js 1 writing reading "player" player player_bytes (omega arith) refl refl
      (rw serializer_lem player-IsNarrow) (rw serializer_lem player-AreDistinct)
      (rw serializer_lem player_lem) (omega arith)

decode_other_major_example :
    Codec.decode reading "player" (3 ∷ 1 ∷ 10 ∷ []) ≡ err (wire_version 3 2)
decode_other_major_example = decode_other_major reading "player" 3 1 (10 ∷ []) (omega arith)

-- "chat" and "é".
abbrev topic : Text
topic = 0x63 ∷ 0x68 ∷ 0x61 ∷ 0x74 ∷ []

abbrev accented : Text
accented = 0xe9 ∷ 0xe9 ∷ []

topic-IsScalar : All IsScalar topic
topic-IsScalar = ground arith

accented-IsScalar : All IsScalar accented
accented-IsScalar = ground arith

topic_short : length (Utf8.encode topic) + 3 < 2 ^ 52
unfolding Utf8.encode Utf8.encode_char
topic_short = omega arith

decode-encode_frame_example :
    (Message.encode js topic (1 ∷ 2 ∷ 255 ∷ []) >>= λ b. Message.decode b)
    ≡ ok (message_object (strip_bom topic) (1 ∷ 2 ∷ 255 ∷ []))
decode-encode_frame_example =
    decode-encode_frame js topic (1 ∷ 2 ∷ 255 ∷ []) topic-IsScalar topic_short

decode-encode_close_frame_example :
    (encode_close_frame js 4001 accented >>= λ b. decode_close_frame b)
    ≡ ok (close_object 4001 (strip_bom (truncate_utf8 accented 123)))
decode-encode_close_frame_example =
    decode-encode_close_frame js 4001 accented (omega arith) accented-IsScalar

truncate_utf8-fit_example :
    truncate_utf8 accented 3
    ≡ (if leb (length (Utf8.encode accented)) 3 then accented else strip_bom (fit accented 3))
truncate_utf8-fit_example = truncate_utf8-fit accented 3 accented-IsScalar

empty-IsValid : IsValid Writer.empty
unfolding Writer.empty
empty-IsValid = omega arith

abbrev written : Writer.Writer
written = Writer.varint Writer.empty 5

varint-varint_example :
    (take (length (Writer.done written)) (Writer.done (Writer.varint written 300))
      ≡ Writer.done written)
    × (Reader.varint
          (drop (length (Writer.done written)) (Writer.done (Writer.varint written 300)) ++ 7 ∷ [])
        ≡ ok (300, 7 ∷ []))
varint-varint_example =
    varint-varint written 300 (7 ∷ []) (varint_lem Writer.empty 5 empty-IsValid (omega arith)).1
      (omega arith)

varint_lem_example :
    (Writer.done (Writer.varint Writer.empty 300) ≡ Writer.done Writer.empty ++ leb128 9 300)
    × IsValid (Writer.varint Writer.empty 300)
varint_lem_example = varint_lem Writer.empty 300 empty-IsValid (omega arith)
