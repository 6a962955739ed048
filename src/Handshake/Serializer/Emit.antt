-- ===== src/Handshake/Serializer/Emit.antt =====
-- handshake/src/wire/serializer.ts: the serializer over the growable buffer, beside the reference.
use rivalis.Common.{
  ℕ, zero, suc, ◌+◌, ◌^◌, ◌≤◌, ◌<◌, ◌≡◌, refl, List, [], ◌∷◌, ◌++◌, length, String, string_key,
  arith, length-append, append_assoc, append-nil, Bool-cases, inl, inr, ap, subst, ◌∙◌,
}
use rivalis.Common.Result.{Result, ok, ◌>>=◌, >>=-eq-ok, ok-injective}
use rivalis.Handshake.Writer
use rivalis.Handshake.Writer.{Writer, done}
use rivalis.Handshake.Writer.Refines.{
  leb128, length-leb128, IsValid, varint_lem, len_bytes_lem, empty_lem,
}
use rivalis.Handshake.Reader.{WireError}
use rivalis.Handshake.Value.{
  Value, undefined, null, array, Values, nil, cons, property, is_nullish, Coercions, FieldType,
  string, uint32, int32, message, Rule, optional, required, repeated, FieldDef, Schema,
}
use rivalis.Handshake.Serializer.{
  fields_of, field_key, wire_varint, wire_len, zig_zag, or_empty, write_field, write_elements,
  write_repeated, write_by_rule, write_fields, write, encode,
}
use rivalis.Handshake.Serializer.Reference.{
  emit_chunk, emit_number, emit_field, emit_elements, emit_repeated, emit_by_rule, emit_fields,
  emit,
}

-- A write that succeeds, and appends `b` to a valid buffer.
abbrev pub Wrote : Result WireError Writer → Writer → List ℕ → Type 0
Wrote m w b = (w' : Writer) × (m ≡ ok w') × IsValid w' × (done w' ≡ done w ++ b)

Wrote-chunk :
    (w : Writer) (tag : ℕ) (b : List ℕ)
    → IsValid w
    → tag < 2 ^ 28
    → length b < 2 ^ 53
    → Wrote
        (ok (Writer.len_bytes (Writer.varint w (field_key tag wire_len)) b))
        w
        (emit_chunk tag b)
Wrote-chunk w tag b v h k =
    let (e, v') = varint_lem w (field_key tag wire_len) v (omega arith) in
    let (e', v'') = len_bytes_lem (Writer.varint w (field_key tag wire_len)) b v' (omega arith) in
    (_, refl, v'', rw (e', e) (append_assoc (done w) (leb128 9 (field_key tag wire_len)) _))

Wrote-number :
    (w : Writer) (tag n : ℕ)
    → IsValid w
    → tag < 2 ^ 28
    → n < 2 ^ 53
    → Wrote
        (ok (Writer.varint (Writer.varint w (field_key tag wire_varint)) n))
        w
        (emit_number tag n)
Wrote-number w tag n v h k =
    let (e, v') = varint_lem w (field_key tag wire_varint) v (omega arith) in
    let (e', v'') = varint_lem (Writer.varint w (field_key tag wire_varint)) n v' (omega arith) in
    (_, refl, v'', rw (e', e) (append_assoc (done w) (leb128 9 (field_key tag wire_varint)) _))

pub length_chunk :
    (tag : ℕ) (b : List ℕ)
    → (length b < length (emit_chunk tag b)) × (length (emit_chunk tag b) ≤ length b + 20)
length_chunk tag b = omega (
  arith,
  length-leb128 9 (field_key tag wire_len),
  length-leb128 9 (length b),
  length-append (leb128 9 (field_key tag wire_len)) (leb128 9 (length b) ++ b),
  length-append (leb128 9 (length b)) b,
)

Wrote-chunk_ok :
    (w : Writer) (tag : ℕ) (x b : List ℕ)
    → IsValid w
    → tag < 2 ^ 28
    → ◌≡◌ {A = Result WireError (List ℕ)} (ok (emit_chunk tag x)) (ok b)
    → length b < 2 ^ 53
    → Wrote (ok (Writer.len_bytes (Writer.varint w (field_key tag wire_len)) x)) w b
Wrote-chunk_ok w tag x b v h e k =
    let p = ok-injective e in
    subst (Wrote _ w) p
      (Wrote-chunk w tag x v h (omega (arith, (length_chunk tag x).0, ap length p)))

Wrote-number_ok :
    (w : Writer) (tag n : ℕ) (b : List ℕ)
    → IsValid w
    → tag < 2 ^ 28
    → ◌≡◌ {A = Result WireError (List ℕ)} (ok (emit_number tag n)) (ok b)
    → n < 2 ^ 53
    → Wrote (ok (Writer.varint (Writer.varint w (field_key tag wire_varint)) n)) w b
Wrote-number_ok w tag n b v h e k = subst (Wrote _ w) (ok-injective e) (Wrote-number w tag n v h k)

Wrote-bind :
    (m : Result WireError Writer) (f : Writer → Result WireError Writer) (w : Writer) (a b : List ℕ)
    → Wrote m w a
    → ((w' : Writer) → IsValid w' → Wrote (f w') w' b)
    → Wrote (m >>= f) w (a ++ b)
Wrote-bind m f w a b (w', e, v, d) next =
    let (w'', e', v', d') = next w' v in (w'', rw e e', v', rw (d', d) (append_assoc (done w) a b))

pub zig_zag-lt : (u : ℕ) → u < 2 ^ 32 → zig_zag u < 2 ^ 32
unfolding zig_zag
zig_zag-lt u h = ground arith

-- `nested` writes a message as `emitted` says.
abbrev pub Writes :
    (String → Value → Writer → Result WireError Writer)
    → (String → Value → Result WireError (List ℕ))
    → Type 0
Writes nested emitted =
    (name : String) (v : Value) (w : Writer) (b : List ℕ)
    → IsValid w
    → emitted name v ≡ ok b
    → length b < 2 ^ 53
    → Wrote (nested name v w) w b

module _ (js : Coercions) (nested : String → Value → Writer → Result WireError Writer)
    (emitted : String → Value → Result WireError (List ℕ)) (same : Writes nested emitted) where
  write_field-Wrote :
      (w : Writer) (tag : ℕ) (type : FieldType) (v : Value) (b : List ℕ)
      → IsValid w
      → tag < 2 ^ 28
      → emit_field js emitted tag type v ≡ ok b
      → length b < 2 ^ 53
      → Wrote (write_field js nested w tag type v) w b
  unfolding write_field emit_field
  write_field-Wrote w tag string v b valid h e k = Wrote-chunk_ok w tag _ b valid h e k
  write_field-Wrote w tag FieldType.bytes v b valid h e k = Wrote-chunk_ok w tag _ b valid h e k
  write_field-Wrote w tag uint32 v b valid h e k =
      Wrote-number_ok w tag _ b valid h e (omega (arith, js.to_uint32-lt v))
  write_field-Wrote w tag int32 v b valid h e k =
      Wrote-number_ok w tag _ b valid h e
        (omega (arith, zig_zag-lt (js.to_uint32 v) (js.to_uint32-lt v)))
  write_field-Wrote w tag FieldType.bool v b valid h e k =
      Wrote-number_ok w tag _ b valid h e (ground arith)
  write_field-Wrote w tag (message name) v b valid h e k =
      let (x, e', e'') = >>=-eq-ok (emitted name (or_empty v)) _ e in
      let p = ok-injective e'' in
      let (w', q, v', d) =
        same name (or_empty v) Writer.empty x empty_lem.1 e'
          (omega (arith, (length_chunk tag x).0, ap length p)) in
      let d' : done w' ≡ x = d ∙ ap (λ (t : List ℕ). t ++ x) empty_lem.0 in
      rw (q, d') (Wrote-chunk_ok w tag x b valid h e'' k)

  write_elements-Wrote :
      (w : Writer) (tag : ℕ) (type : FieldType) (vs : Values) (b : List ℕ)
      → IsValid w
      → tag < 2 ^ 28
      → emit_elements js emitted tag type vs ≡ ok b
      → length b < 2 ^ 53
      → Wrote (write_elements js nested w tag type vs) w b
  unfolding write_elements emit_elements
  write_elements-Wrote w tag type nil b valid h e k =
      let p = ok-injective e in (w, refl, valid, rw (← p) (rw append-nil))
  write_elements-Wrote w tag type (cons v vs) b valid h e k =
      let (x, e₁, r) = >>=-eq-ok (emit_field js emitted tag type v) _ e in
      let (y, e₂, r') = >>=-eq-ok (emit_elements js emitted tag type vs) _ r in
      let p = ok-injective r' in
      let n = length-append x y in
      let q = ap length p in
      subst (Wrote _ w) p (
        Wrote-bind _ _ w x y (write_field-Wrote w tag type v x valid h e₁ (omega arith))
          (λ w' valid'. write_elements-Wrote w' tag type vs y valid' h e₂ (omega arith)))

  write_repeated-Wrote :
      (w : Writer) (tag : ℕ) (f : FieldDef) (v : Value) (b : List ℕ)
      → IsValid w
      → tag < 2 ^ 28
      → emit_repeated js emitted tag f v ≡ ok b
      → length b < 2 ^ 53
      → Wrote (write_repeated js nested w tag f v) w b
  unfolding write_repeated emit_repeated
  write_repeated-Wrote w tag f (array vs) b valid h e k =
      write_elements-Wrote w tag f.type vs b valid h e k
  write_repeated-Wrote w tag f undefined b valid h e k =
      (w, refl, valid, rw (← ok-injective e) (rw append-nil))
  write_repeated-Wrote w tag f null b valid h e k =
      (w, refl, valid, rw (← ok-injective e) (rw append-nil))
  write_repeated-Wrote w tag f _ b valid h e k = absurd (cc)

  write_by_rule-Wrote :
      (r : Rule) (w : Writer) (tag : ℕ) (f : FieldDef) (v : Value) (b : List ℕ)
      → IsValid w
      → tag < 2 ^ 28
      → emit_by_rule js r emitted tag f v ≡ ok b
      → length b < 2 ^ 53
      → Wrote (write_by_rule js r nested w tag f v) w b
  unfolding write_by_rule emit_by_rule
  write_by_rule-Wrote repeated w tag f v b valid h e k =
      write_repeated-Wrote w tag f v b valid h e k
  write_by_rule-Wrote required w tag f v b valid h e k =
      write_field-Wrote w tag f.type _ b valid h e k
  write_by_rule-Wrote optional w tag f v b valid h e k = elim (Bool-cases (is_nullish v)) [
    | inl t ↦
        let e' : ok [] ≡ ok b = rw t at e in
        rw t (w, refl, valid, rw (← ok-injective e') (rw append-nil))
    | inr t ↦ rw t (write_field-Wrote w tag f.type v b valid h (rw t at e) k)
  ]

  write_fields-Wrote :
      (w : Writer) (tag : ℕ) (fs : List FieldDef) (msg : Value) (b : List ℕ)
      → IsValid w
      → tag + length fs < 2 ^ 28
      → emit_fields js emitted tag fs msg ≡ ok b
      → length b < 2 ^ 53
      → Wrote (write_fields js nested tag fs msg w) w b
  unfolding write_fields emit_fields
  write_fields-Wrote w tag [] msg b valid h e k =
      (w, refl, valid, rw (← ok-injective e) (rw append-nil))
  write_fields-Wrote w tag (f ∷ fs) msg b valid h e k =
      let (x, e₁, r) = >>=-eq-ok (emit_by_rule js f.rule emitted tag f (property msg f.key)) _ e in
      let (y, e₂, r') = >>=-eq-ok (emit_fields js emitted (suc tag) fs msg) _ r in
      let p = ok-injective r' in
      let n = length-append x y in
      let q = ap length p in
      subst (Wrote _ w) p (
        Wrote-bind _ _ w x y
          (write_by_rule-Wrote f.rule w tag f _ x valid (omega arith) e₁ (omega arith))
          (λ w' valid'.
            write_fields-Wrote w' (suc tag) fs msg y valid' (omega arith) e₂ (omega arith)))

-- No type has 2^28 fields or more: a tag then has 31 bits and its key fits `<< 3` without wrapping.
abbrev pub IsNarrow : Schema → Type 0
IsNarrow types =
    (name : String) (fields : List FieldDef)
    → fields_of types name ≡ ok fields
    → 1 + length fields < 2 ^ 28

write-Wrote :
    (js : Coercions) (depth : ℕ) (types : Schema)
    → IsNarrow types
    → Writes (write js depth types) (emit js depth types)
unfolding write emit
write-Wrote js zero types narrow name v w b valid e k = cc
write-Wrote js (suc depth) types narrow name v w b valid e k =
    let (fields, e₁, r) = >>=-eq-ok (fields_of types name) _ e in
    rw e₁ (
      write_fields-Wrote js (write js depth types) (emit js depth types)
        (write-Wrote js depth types narrow) w 1 fields v b valid (narrow name fields e₁) r k)

-- Where no type has 2^28 fields, the growable buffer holds exactly the reference encoding if that exists
-- and is shorter than 2^53 bytes, at any depth of nesting.
pub encode-emit :
    (js : Coercions) (depth : ℕ) (types : Schema) (name : String) (msg : Value) (b : List ℕ)
    → IsNarrow types
    → emit js depth types name msg ≡ ok b
    → length b < 2 ^ 53
    → encode js depth types name msg ≡ ok b
unfolding encode
encode-emit js depth types name msg b narrow e k =
    let (w, q, v, d) = write-Wrote js depth types narrow name msg Writer.empty b empty_lem.1 e k in
    rw q (ap ok (d ∙ ap (λ (t : List ℕ). t ++ b) empty_lem.0))
