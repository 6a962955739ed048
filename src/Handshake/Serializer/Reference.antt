-- ===== src/Handshake/Serializer/Reference.antt =====
-- What the serializer promises: the wire format as plain byte lists (`emit`), and what a decoder
-- recovers of a message (`view`): every field that is present, under its key, at its wire type.
use rivalis.Common.{
  ℕ, zero, suc, ◌-◌, ◌^◌, List, [], ◌∷◌, ◌++◌, length, ltb, if◌then◌else◌, Option, none, some,
  String, string_key,
}
use rivalis.Common.Int.{ℤ, pos, negsuc}
use rivalis.Common.Result.{Result, ok, err, stuck, ◌>>=◌}
use rivalis.Handshake.Utf8
use rivalis.Handshake.Writer.Refines.{leb128}
use rivalis.Handshake.Reader.{WireError, not_an_array}
use rivalis.Handshake.Value.{
  Value, undefined, null, num, text, array, object, Values, nil, cons, Fields, end, property, put,
  is_nullish, truthy, Coercions, FieldType, string, uint32, int32, message, Rule, optional,
  required, repeated, FieldDef, Schema,
}
use rivalis.Handshake.Serializer.{
  fields_of, field_key, wire_varint, wire_len, zig_zag, default_for, as_bytes, or_empty,
}

abbrev pub emit_chunk : ℕ → List ℕ → List ℕ
emit_chunk tag b = leb128 9 (field_key tag wire_len) ++ (leb128 9 (length b) ++ b)

abbrev pub emit_number : ℕ → ℕ → List ℕ
emit_number tag n = leb128 9 (field_key tag wire_varint) ++ leb128 9 n

-- The signed reading of a 32-bit pattern.
unfoldable pub signed : ℕ → ℤ
signed u = if ltb u (2 ^ 31) then pos u else negsuc (2 ^ 32 - 1 - u)

abbrev pub put_present : String → Option Value → Fields → Fields
put_present key none result = result
put_present key (some x) result = put key x result

module _ (js : Coercions) where
  unfoldable pub emit_field :
      (String → Value → Result WireError (List ℕ))
      → ℕ
      → FieldType
      → Value
      → Result WireError (List ℕ)
  emit_field rec tag string v = ok (emit_chunk tag (Utf8.encode (js.to_text v)))
  emit_field rec tag FieldType.bytes v = ok (emit_chunk tag (as_bytes v))
  emit_field rec tag uint32 v = ok (emit_number tag (js.to_uint32 v))
  emit_field rec tag int32 v = ok (emit_number tag (zig_zag (js.to_uint32 v)))
  emit_field rec tag FieldType.bool v = ok (emit_number tag (if truthy v then 1 else 0))
  emit_field rec tag (message name) v = rec name (or_empty v) >>= λ child. ok (emit_chunk tag child)

  unfoldable pub emit_elements :
      (String → Value → Result WireError (List ℕ))
      → ℕ
      → FieldType
      → Values
      → Result WireError (List ℕ)
  emit_elements rec tag type nil = ok []
  emit_elements rec tag type (cons v vs) = emit_field rec tag type v >>= λ front.
      emit_elements rec tag type vs >>= λ back. ok (front ++ back)

  unfoldable pub emit_repeated :
      (String → Value → Result WireError (List ℕ))
      → ℕ
      → FieldDef
      → Value
      → Result WireError (List ℕ)
  emit_repeated rec tag f undefined = ok []
  emit_repeated rec tag f null = ok []
  emit_repeated rec tag f (array vs) = emit_elements rec tag f.type vs
  emit_repeated rec tag f _ = err (not_an_array f.key)

  unfoldable pub emit_by_rule :
      Rule
      → (String → Value → Result WireError (List ℕ))
      → ℕ
      → FieldDef
      → Value
      → Result WireError (List ℕ)
  emit_by_rule repeated rec tag f v = emit_repeated rec tag f v
  emit_by_rule required rec tag f v =
      emit_field rec tag f.type (if is_nullish v then default_for f.type else v)
  emit_by_rule optional rec tag f v = if is_nullish v then ok [] else emit_field rec tag f.type v

  unfoldable pub emit_fields :
      (String → Value → Result WireError (List ℕ))
      → ℕ
      → List FieldDef
      → Value
      → Result WireError (List ℕ)
  emit_fields rec tag [] msg = ok []
  emit_fields rec tag (f ∷ fs) msg = emit_by_rule f.rule rec tag f (property msg f.key) >>= λ front.
      emit_fields rec (suc tag) fs msg >>= λ back. ok (front ++ back)

  unfoldable pub emit : ℕ → Schema → String → Value → Result WireError (List ℕ)
  emit zero types name msg = stuck
  emit (suc depth) types name msg =
      fields_of types name >>= λ fields. emit_fields (emit depth types) 1 fields msg

  -- What a value looks like after the trip.
  unfoldable pub view_value :
      (String → Value → Result WireError Fields) → FieldType → Value → Result WireError Value
  view_value rec string v = ok (text (Utf8.decode (Utf8.encode (js.to_text v))))
  view_value rec FieldType.bytes v = ok (Value.bytes (as_bytes v))
  view_value rec uint32 v = ok (num (pos (js.to_uint32 v)))
  view_value rec int32 v = ok (num (signed (js.to_uint32 v)))
  view_value rec FieldType.bool v = ok (Value.bool (truthy v))
  view_value rec (message name) v = rec name (or_empty v) >>= λ fs. ok (object fs)

  unfoldable pub view_elements :
      (String → Value → Result WireError Fields) → FieldType → Values → Result WireError Values
  view_elements rec type nil = ok nil
  view_elements rec type (cons v vs) =
      view_value rec type v >>= λ x. view_elements rec type vs >>= λ xs. ok (cons x xs)

  -- `none` is a field that the decoded message lacks, as an empty repeated one does.
  unfoldable pub view_array :
      (String → Value → Result WireError Fields)
      → FieldType
      → Values
      → Result WireError (Option Value)
  view_array rec type nil = ok none
  view_array rec type (cons v vs) =
      view_elements rec type (cons v vs) >>= λ xs. ok (some (array xs))

  unfoldable pub view_repeated :
      (String → Value → Result WireError Fields)
      → FieldDef
      → Value
      → Result WireError (Option Value)
  view_repeated rec f undefined = ok none
  view_repeated rec f null = ok none
  view_repeated rec f (array vs) = view_array rec f.type vs
  view_repeated rec f _ = err (not_an_array f.key)

  unfoldable pub view_by_rule :
      Rule
      → (String → Value → Result WireError Fields)
      → FieldDef
      → Value
      → Result WireError (Option Value)
  view_by_rule repeated rec f v = view_repeated rec f v
  view_by_rule required rec f v =
      view_value rec f.type (if is_nullish v then default_for f.type else v) >>= λ x. ok (some x)
  view_by_rule optional rec f v =
      if is_nullish v then ok none else (view_value rec f.type v >>= λ x. ok (some x))

  unfoldable pub view_fields :
      (String → Value → Result WireError Fields)
      → List FieldDef
      → Value
      → Fields
      → Result WireError Fields
  view_fields rec [] msg result = ok result
  view_fields rec (f ∷ fs) msg result = view_by_rule f.rule rec f (property msg f.key) >>= λ x.
      view_fields rec fs msg (put_present f.key x result)

  unfoldable pub view : ℕ → Schema → String → Value → Result WireError Fields
  view zero types name msg = stuck
  view (suc depth) types name msg =
      fields_of types name >>= λ fields. view_fields (view depth types) fields msg end
