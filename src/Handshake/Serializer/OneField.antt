-- ===== src/Handshake/Serializer/OneField.antt =====
-- handshake/src/wire/serializer.ts: one field, emitted and read.
use rivalis.Common.{
  ℕ, ◌/◌, ◌%◌, ◌^◌, ◌≤◌, ◌<◌, ◌≡◌, refl, Bool, true, false, List, ◌++◌, length, if◌then◌else◌,
  String, string_key, arith, append_assoc, ap, none, some,
}
use rivalis.Common.Int.{pos}
use rivalis.Common.Result.{Result, ok, >>=-eq-ok, ok-injective}
use rivalis.Handshake.Writer.Refines.{leb128}
use rivalis.Handshake.Reader.{WireError}
use rivalis.Handshake.Reader.Varint.{varint-leb128, take_bytes-append}
use rivalis.Handshake.Value.{
  Value, num, object, Fields, truthy, Coercions, FieldType, string, uint32, int32, message,
  FieldDef,
}
use rivalis.Handshake.Serializer.{
  field_key, wire_varint, wire_len, zig_zag, un_zig_zag, or_empty, read_number, read_chunk,
  read_payload, read_value, read_known, read_field, nested, assign, field_at, Payload,
}
use rivalis.Handshake.Serializer.Emit.{zig_zag-lt, length_chunk}
use rivalis.Handshake.Serializer.Reference.{emit_chunk, emit_number, emit_field, signed, view_value}

un_zig_zag-zig_zag : (u : ℕ) → u < 2 ^ 32 → un_zig_zag (zig_zag u) ≡ signed u
unfolding un_zig_zag zig_zag signed
un_zig_zag-zig_zag u h = ground arith

payload_chunk :
    (b rest : List ℕ)
    → length b < 2 ^ 53
    → read_payload 2 ((leb128 9 (length b) ++ b) ++ rest) ≡ ok ((0, some b), rest)
unfolding read_payload read_chunk
payload_chunk b rest h = rw (
  append_assoc (leb128 9 (length b)) b rest,
  varint-leb128 (length b) (b ++ rest) h,
  take_bytes-append b rest,
)

payload_number :
    (n : ℕ) (rest : List ℕ)
    → n < 2 ^ 53
    → read_payload 0 (leb128 9 n ++ rest) ≡ ok ((n, none), rest)
unfolding read_payload read_number
payload_number n rest h = rw (varint-leb128 n rest h)

module _ (rec : String → List ℕ → Result WireError Fields) (fields : List FieldDef) (f : FieldDef)
    (tag : ℕ) (small : tag < 2 ^ 28) (found : field_at fields tag ≡ some f) where
  known :
      (p : Payload) (result : Fields) (x : Value)
      → read_value rec f.type p.0 p.1 ≡ ok x
      → read_known rec (field_at fields tag) p result ≡ ok (assign f x result)
  unfolding read_known
  known p result x e = rw (found, e)

  read_field-chunk :
      (b rest : List ℕ) (result : Fields) (x : Value)
      → length b < 2 ^ 53
      → read_value rec f.type 0 (some b) ≡ ok x
      → read_field rec fields (emit_chunk tag b ++ rest) result ≡ ok (assign f x result, rest)
  unfolding read_field
  read_field-chunk b rest result x h e =
      let wire : field_key tag wire_len % 8 ≡ 2 = omega arith in
      let own : field_key tag wire_len % 2 ^ 32 / 8 ≡ tag = omega arith in
      rw (
        append_assoc (leb128 9 (field_key tag wire_len)) (leb128 9 (length b) ++ b) rest,
        varint-leb128 (field_key tag wire_len) ((leb128 9 (length b) ++ b) ++ rest) (omega arith),
        wire,
        own,
        payload_chunk b rest h,
        known (0, some b) result x e,
      )

  read_field-number :
      (n : ℕ) (rest : List ℕ) (result : Fields) (x : Value)
      → n < 2 ^ 53
      → read_value rec f.type n none ≡ ok x
      → read_field rec fields (emit_number tag n ++ rest) result ≡ ok (assign f x result, rest)
  unfolding read_field
  read_field-number n rest result x h e =
      let wire : field_key tag wire_varint % 8 ≡ 0 = omega arith in
      let own : field_key tag wire_varint % 2 ^ 32 / 8 ≡ tag = omega arith in
      rw (
        append_assoc (leb128 9 (field_key tag wire_varint)) (leb128 9 n) rest,
        varint-leb128 (field_key tag wire_varint) (leb128 9 n ++ rest) (omega arith),
        wire,
        own,
        payload_number n rest h,
        known (n, none) result x e,
      )

-- Every message that `emitted` emits has a view, which `nested` reads back.
abbrev pub Reads :
    (String → List ℕ → Result WireError Fields)
    → (String → Value → Result WireError (List ℕ))
    → (String → Value → Result WireError Fields)
    → ℕ
    → Type 0
Reads nested emitted viewed n =
    (name : String) (v : Value) (b : List ℕ)
    → emitted name v ≡ ok b
    → length b < 2 ^ 53
    → length b < n
    → (o : Fields) × (viewed name v ≡ ok o) × (nested name b ≡ ok o)

-- What the reading of one field comes to: the field's view is assigned, and `rest` is left.
abbrev pub ReadsField :
    (String → List ℕ → Result WireError Fields)
    → List FieldDef
    → FieldDef
    → Result WireError Value
    → List ℕ
    → Type 0
ReadsField nested fields f viewed b =
    (x : Value) × (viewed ≡ ok x)
    × ((rest : List ℕ) (result : Fields)
        → read_field nested fields (b ++ rest) result ≡ ok (assign f x result, rest))

module _ (nested : String → List ℕ → Result WireError Fields) where
  read_uint32 : (u : ℕ) → u < 2 ^ 32 → read_value nested uint32 u none ≡ ok (num (pos u))
  unfolding read_value
  read_uint32 u h = ap (λ (t : ℕ). ok (num (pos t))) (omega arith)

  read_int32 : (u : ℕ) → u < 2 ^ 32 → read_value nested int32 (zig_zag u) none ≡ ok (num (signed u))
  unfolding read_value
  read_int32 u h = rw (un_zig_zag-zig_zag u h)

  read_bool :
      (b : Bool) → read_value nested FieldType.bool (if b then 1 else 0) none ≡ ok (Value.bool b)
  unfolding read_value
  read_bool true = refl
  read_bool false = refl

module _ (js : Coercions) (nested : String → List ℕ → Result WireError Fields)
    (emitted : String → Value → Result WireError (List ℕ))
    (viewed : String → Value → Result WireError Fields) (n : ℕ)
    (same : Reads nested emitted viewed n) (fields : List FieldDef) where
  chunk_case :
      (f : FieldDef) (tag : ℕ) (a b : List ℕ) (x : Value) (m : Result WireError Value)
      → tag < 2 ^ 28
      → field_at fields tag ≡ some f
      → ◌≡◌ {A = Result WireError (List ℕ)} (ok (emit_chunk tag a)) (ok b)
      → length b < 2 ^ 53
      → read_value nested f.type 0 (some a) ≡ ok x
      → m ≡ ok x
      → ReadsField nested fields f m b
  chunk_case f tag a b x m h found e k r q =
      let p = ok-injective e in
      (
        x,
        q,
        λ rest result. rw (← p) (
            read_field-chunk nested fields f tag h found a rest result x
              (omega (arith, (length_chunk tag a).0, ap length p)) r),
      )

  number_case :
      (f : FieldDef) (tag v : ℕ) (b : List ℕ) (x : Value) (m : Result WireError Value)
      → tag < 2 ^ 28
      → field_at fields tag ≡ some f
      → ◌≡◌ {A = Result WireError (List ℕ)} (ok (emit_number tag v)) (ok b)
      → v < 2 ^ 53
      → read_value nested f.type v none ≡ ok x
      → m ≡ ok x
      → ReadsField nested fields f m b
  number_case f tag v b x m h found e k r q = (
    x,
    q,
    λ rest result.
        rw (← ok-injective e) (read_field-number nested fields f tag h found v rest result x k r),
  )

  pub emit_field-Reads :
      (f : FieldDef) (tag : ℕ) (type : FieldType) (v : Value) (b : List ℕ)
      → f.type ≡ type
      → tag < 2 ^ 28
      → field_at fields tag ≡ some f
      → emit_field js emitted tag type v ≡ ok b
      → length b < 2 ^ 53
      → length b ≤ n
      → ReadsField nested fields f (view_value js viewed type v) b
  unfolding emit_field view_value
  emit_field-Reads f tag string v b t h found e k l =
      chunk_case f tag _ b _ _ h found e k (rw t (unfold read_value in refl)) refl
  emit_field-Reads f tag FieldType.bytes v b t h found e k l =
      chunk_case f tag _ b _ _ h found e k (rw t (unfold read_value in refl)) refl
  emit_field-Reads f tag uint32 v b t h found e k l =
      number_case f tag _ b _ _ h found e (omega (arith, js.to_uint32-lt v))
        (rw t (read_uint32 nested (js.to_uint32 v) (js.to_uint32-lt v))) refl
  emit_field-Reads f tag int32 v b t h found e k l =
      number_case f tag _ b _ _ h found e
        (omega (arith, zig_zag-lt (js.to_uint32 v) (js.to_uint32-lt v)))
        (rw t (read_int32 nested (js.to_uint32 v) (js.to_uint32-lt v))) refl
  emit_field-Reads f tag FieldType.bool v b t h found e k l =
      number_case f tag _ b _ _ h found e (ground arith) (rw t (read_bool nested (truthy v))) refl
  emit_field-Reads f tag (message name) v b t h found e k l =
      let (c, e', e'') = >>=-eq-ok (emitted name (or_empty v)) _ e in
      let p = ok-injective e'' in
      let q = ap length p in
      let lt = (length_chunk tag c).0 in
      let (o, w, r) = same name (or_empty v) c e' (omega arith) (omega arith) in
      chunk_case f tag c b (object o) _ h found e'' k (rw t (unfold read_value in rw r)) (rw w)
