-- ===== src/Handshake/Serializer.antt =====
-- handshake/src/wire/serializer.ts: the schema-driven serializer. A `throw` is an `err`.
pub mod Total
pub mod Reference
pub mod Emit
pub mod OneField
pub mod OneRule
pub mod RoundTrip
pub mod Single
use rivalis.Common.{
  ℕ, zero, suc, ◌+◌, ◌-◌, ◌*◌, ◌/◌, ◌%◌, ◌^◌, Bool, true, false, List, [], ◌∷◌, length, get_elem?,
  ltb, eqb, if◌then◌else◌, Option, none, some, String, string_key,
}
use rivalis.Common.Int.{ℤ, pos, negsuc}
use rivalis.Common.Map
use rivalis.Common.Result.{Result, ok, err, stuck, ◌>>=◌}
use rivalis.Handshake.Utf8
use rivalis.Handshake.Writer
use rivalis.Handshake.Writer.{Writer}
use rivalis.Handshake.Reader
use rivalis.Handshake.Reader.{WireError, unknown_type, not_an_array, unsupported_wire}
use rivalis.Handshake.Value.{
  Value, undefined, null, num, text, array, object, Values, nil, cons, Fields, end, property, put,
  push, get, is_nullish, truthy, Coercions, FieldType, string, uint32, int32, message, Rule,
  optional, required, repeated, FieldDef, Schema,
}

-- `new Serializer()` is the empty schema; `define` sets a type's fields.
unfoldable pub define : Schema → String → List FieldDef → Schema
define types name fields = Map.set name fields types

unfoldable pub fields_of : Schema → String → Result WireError (List FieldDef)
fields_of types name = elim (Map.lookup name types) [
  | none ↦ err (unknown_type name)
  | some fields ↦ ok fields
]

-- `(tag << 3) | wire` for a tag below 2^28: the low three bits of `tag << 3` are zero.
abbrev pub field_key : ℕ → ℕ → ℕ
field_key tag wire = tag * 8 + wire

abbrev pub wire_varint : ℕ
wire_varint = 0

abbrev pub wire_len : ℕ
wire_len = 2

-- `((n << 1) ^ (n >> 31)) >>> 0` on the bit pattern of `n`; `n >> 31` is all zeros or all ones.
unfoldable pub zig_zag : ℕ → ℕ
zig_zag u = let shifted = u * 2 % 2 ^ 32 in if ltb u (2 ^ 31) then shifted else 2 ^ 32 - 1 - shifted

-- `(num >>> 1) ^ -(num & 1)`: exclusive or with -1 turns h into -h - 1.
unfoldable pub un_zig_zag : ℕ → ℤ
un_zig_zag n = let h = n % 2 ^ 32 / 2 in if eqb (n % 2) 0 then pos h else negsuc h

unfoldable pub default_for : FieldType → Value
default_for string = text []
default_for uint32 = num (pos 0)
default_for int32 = num (pos 0)
default_for FieldType.bool = Value.bool false
default_for FieldType.bytes = Value.bytes []
default_for (message name) = object end

-- `value instanceof Uint8Array ? value : EMPTY`.
abbrev pub as_bytes : Value → List ℕ
as_bytes (Value.bytes b) = b
as_bytes _ = []

-- `value ?? {}`.
abbrev pub or_empty : Value → Value
or_empty v = if is_nullish v then object end else v

module _ (js : Coercions) where
  -- `rec` writes a nested message into a writer.
  unfoldable pub write_field :
      (String → Value → Writer → Result WireError Writer)
      → Writer
      → ℕ
      → FieldType
      → Value
      → Result WireError Writer
  unfolding zig_zag
  write_field rec w tag string v =
      ok (Writer.len_bytes (Writer.varint w (field_key tag wire_len)) (Utf8.encode (js.to_text v)))
  write_field rec w tag FieldType.bytes v =
      ok (Writer.len_bytes (Writer.varint w (field_key tag wire_len)) (as_bytes v))
  write_field rec w tag uint32 v =
      ok (Writer.varint (Writer.varint w (field_key tag wire_varint)) (js.to_uint32 v))
  write_field rec w tag int32 v =
      ok (Writer.varint (Writer.varint w (field_key tag wire_varint)) (zig_zag (js.to_uint32 v)))
  write_field rec w tag FieldType.bool v =
      ok (Writer.varint (Writer.varint w (field_key tag wire_varint)) (if truthy v then 1 else 0))
  write_field rec w tag (message name) v = do
    child ← rec name (or_empty v) Writer.empty
    ok (Writer.len_bytes (Writer.varint w (field_key tag wire_len)) (Writer.done child))

  unfoldable pub write_elements :
      (String → Value → Writer → Result WireError Writer)
      → Writer
      → ℕ
      → FieldType
      → Values
      → Result WireError Writer
  write_elements rec w tag type nil = ok w
  write_elements rec w tag type (cons v vs) =
      write_field rec w tag type v >>= λ w'. write_elements rec w' tag type vs

  write_repeated :
      (String → Value → Writer → Result WireError Writer)
      → Writer
      → ℕ
      → FieldDef
      → Value
      → Result WireError Writer
  unfolding write_elements
  write_repeated rec w tag f undefined = ok w
  write_repeated rec w tag f null = ok w
  write_repeated rec w tag f (array vs) = write_elements rec w tag f.type vs
  write_repeated rec w tag f _ = err (not_an_array f.key)

  -- One round of the loop of `write`, by the field's rule.
  write_by_rule :
      Rule
      → (String → Value → Writer → Result WireError Writer)
      → Writer
      → ℕ
      → FieldDef
      → Value
      → Result WireError Writer
  unfolding write_repeated
  write_by_rule repeated rec w tag f v = write_repeated rec w tag f v
  write_by_rule required rec w tag f v =
      write_field rec w tag f.type (if is_nullish v then default_for f.type else v)
  write_by_rule optional rec w tag f v =
      if is_nullish v then ok w else write_field rec w tag f.type v

  unfoldable pub write_fields :
      (String → Value → Writer → Result WireError Writer)
      → ℕ
      → List FieldDef
      → Value
      → Writer
      → Result WireError Writer
  unfolding write_by_rule
  write_fields rec tag [] msg w = ok w
  write_fields rec tag (f ∷ fs) msg w =
      write_by_rule f.rule rec w tag f (property msg f.key) >>= λ w'.
      write_fields rec (suc tag) fs msg w'

  -- `depth` bounds how deep messages nest; a type whose required fields nest without end has no
  -- encoding, and the source then runs out of stack.
  unfoldable pub write : ℕ → Schema → String → Value → Writer → Result WireError Writer
  write zero types name msg w = stuck
  write (suc depth) types name msg w =
      fields_of types name >>= λ fields. write_fields (write depth types) 1 fields msg w

  unfoldable pub encode : ℕ → Schema → String → Value → Result WireError (List ℕ)
  encode depth types name msg = write depth types name msg Writer.empty >>= λ w. ok (Writer.done w)

-- The value's part of a field: `num` and `bytes` of the loop in `read`.
abbrev pub Payload : Type 0
Payload = ℕ × Option (List ℕ)

unfoldable pub read_number : List ℕ → Result WireError (Payload × List ℕ)
read_number rest = Reader.varint rest >>= λ p. ok ((p.0, none), p.1)

unfoldable pub read_chunk : List ℕ → Result WireError (Payload × List ℕ)
read_chunk rest =
    Reader.varint rest >>= λ p. Reader.take_bytes p.0 p.1 >>= λ q. ok ((0, some q.0), q.1)

unfoldable pub read_payload : ℕ → List ℕ → Result WireError (Payload × List ℕ)
read_payload wire rest =
    if eqb wire wire_varint
    then read_number rest
    else if eqb wire wire_len
    then read_chunk rest
    else err (unsupported_wire wire)

-- `rec` reads a nested message.
unfoldable pub read_value :
    (String → List ℕ → Result WireError Fields)
    → FieldType
    → ℕ
    → Option (List ℕ)
    → Result WireError Value
unfolding un_zig_zag
read_value rec string n (some b) = ok (text (Utf8.decode b))
read_value rec string n none = ok (text [])
read_value rec FieldType.bytes n (some b) = ok (Value.bytes b)
read_value rec FieldType.bytes n none = ok (Value.bytes [])
read_value rec uint32 n b = ok (num (pos (n % 2 ^ 32)))
read_value rec int32 n b = ok (num (un_zig_zag n))
read_value rec FieldType.bool n b = ok (Value.bool (if eqb n 0 then false else true))
read_value rec (message name) n (some b) = rec name b >>= λ fs. ok (object fs)
read_value rec (message name) n none = ok undefined

abbrev pub push_onto : Value → Value → Value
push_onto (array vs) v = array (push vs v)
push_onto _ v = array (cons v nil)

-- `result[field.key] = value`, or the push of a repeated field.
unfoldable pub assign : FieldDef → Value → Fields → Fields
assign f v result = elim f.rule [
  | repeated ↦ put f.key (push_onto (get f.key result) v) result
  | _ ↦ put f.key v result
]

-- `fields[tag - 1]` for a tag in range.
abbrev pub field_at : List FieldDef → ℕ → Option FieldDef
field_at fields zero = none
field_at fields (suc i) = get_elem? fields i

read_known :
    (String → List ℕ → Result WireError Fields)
    → Option FieldDef
    → Payload
    → Fields
    → Result WireError Fields
unfolding assign
read_known rec none payload result = ok result
read_known rec (some f) payload result =
    read_value rec f.type payload.0 payload.1 >>= λ v. ok (assign f v result)

-- One round of the loop in `read`: the fields read so far, and the bytes left.
unfoldable pub read_field :
    (String → List ℕ → Result WireError Fields)
    → List FieldDef
    → List ℕ
    → Fields
    → Result WireError (Fields × List ℕ)
unfolding read_known
read_field rec fields bytes result = Reader.varint bytes >>= λ k.
    read_payload (k.0 % 8) k.1 >>= λ p.
    read_known rec (field_at fields (k.0 % 2 ^ 32 / 8)) p.0 result >>= λ result'. ok (result', p.1)

-- `this.read(this.fieldsOf(field.type), new Reader(bytes))`.
abbrev pub nested :
    (List FieldDef → List ℕ → Result WireError Fields)
    → Schema
    → String
    → List ℕ
    → Result WireError Fields
nested rec types name inner = fields_of types name >>= λ fs. rec fs inner

-- Each round takes a byte at least and a nested message is shorter, so a fuel above the number of
-- bytes is enough.
unfoldable pub read : ℕ → Schema → List FieldDef → List ℕ → Fields → Result WireError Fields
read zero types fields bytes result = stuck
read (suc fuel) types fields [] result = ok result
read (suc fuel) types fields (b ∷ bs) result =
    read_field (nested (λ fs inner. read fuel types fs inner end) types) fields (b ∷ bs) result
    >>= λ p. read fuel types fields p.1 p.0

unfoldable pub decode : Schema → String → List ℕ → Result WireError Fields
decode types name buffer =
    fields_of types name >>= λ fields. read (suc (length buffer)) types fields buffer end
