-- ===== src/Handshake/Serializer/Total.antt =====
-- handshake/src/wire/serializer.ts: the fuel of `decode`.
use rivalis.Common.{
  ℕ, zero, suc, ◌/◌, ◌%◌, ◌^◌, ◌≤◌, ◌<◌, ◌≡◌, ◌≢◌, refl, List, [], ◌∷◌, length, Option, none, some,
  String, string_key, arith,
}
use rivalis.Common.Result.{Result, ok, stuck, >>=-eq-ok, >>=-cong, >>=-ne-stuck}
use rivalis.Handshake.Reader.{WireError, unsupported_wire}
use rivalis.Handshake.Reader
use rivalis.Handshake.Reader.Varint.{
  varint-shorter, varint-ne-stuck, take_bytes-length, take_bytes-ne-stuck,
}
use rivalis.Handshake.Value.{
  Fields, end, FieldType, string, uint32, int32, message, FieldDef, Schema,
}
use rivalis.Handshake.Serializer.{
  fields_of, Payload, read_number, read_chunk, read_payload, read_value, read_known, read_field,
  read, decode, field_at, nested,
}

abbrev chunk_length : Option (List ℕ) → ℕ
chunk_length none = 0
chunk_length (some x) = length x

-- What is left of the bytes is no longer, and so is a nested chunk.
abbrev Within : ℕ → Payload × List ℕ → Type 0
Within n p = (length p.1 ≤ n) × (chunk_length p.0.1 ≤ n)

read_number-Within :
    (rest : List ℕ) (p : Payload × List ℕ) → read_number rest ≡ ok p → Within (length rest) p
unfolding read_number
read_number-Within rest p h =
    let (q, e, r) = >>=-eq-ok (Reader.varint rest) (λ q. ok ((q.0, none), q.1)) h in
    ground (arith, r, varint-shorter rest q.0 q.1)

read_chunk-Within :
    (rest : List ℕ) (p : Payload × List ℕ) → read_chunk rest ≡ ok p → Within (length rest) p
unfolding read_chunk
read_chunk-Within rest p h =
    let (q, e, r) = >>=-eq-ok (Reader.varint rest) _ h in
    let (t, e', r') = >>=-eq-ok (Reader.take_bytes q.0 q.1) _ r in
    ground (arith, r', varint-shorter rest q.0 q.1, take_bytes-length q.0 q.1 t.0 t.1)

read_payload-Within :
    (wire : ℕ) (rest : List ℕ) (p : Payload × List ℕ)
    → read_payload wire rest ≡ ok p
    → Within (length rest) p
unfolding read_payload
read_payload-Within wire rest p h =
    ground (arith, read_number-Within rest p, read_chunk-Within rest p)

read_payload-ne-stuck : (wire : ℕ) (rest : List ℕ) → read_payload wire rest ≢ stuck
unfolding read_payload read_number read_chunk
read_payload-ne-stuck wire rest h = ground (arith, number, chunk)
  where
    number : read_number rest ≢ stuck
    number = >>=-ne-stuck (Reader.varint rest) _ (varint-ne-stuck rest) (λ p e h. cc)

    chunk : read_chunk rest ≢ stuck
    chunk = >>=-ne-stuck (Reader.varint rest) _ (varint-ne-stuck rest) λ p e.
        >>=-ne-stuck (Reader.take_bytes p.0 p.1) _ (take_bytes-ne-stuck p.0 p.1) (λ q e' h. cc)

fields_of-ne-stuck : (types : Schema) (name : String) → fields_of types name ≢ stuck
unfolding fields_of
fields_of-ne-stuck types name h = ground arith

-- `rec` is asked only about a chunk within the bytes.
module _ (rec other : String → List ℕ → Result WireError Fields) where
  read_value_same :
      (n : ℕ) (type : FieldType) (v : ℕ) (b : Option (List ℕ))
      → ((name : String) (x : List ℕ) → length x ≤ n → rec name x ≡ other name x)
      → chunk_length b ≤ n
      → read_value rec type v b ≡ read_value other type v b
  unfolding read_value
  read_value_same n string v none same h = refl
  read_value_same n string v (some b) same h = refl
  read_value_same n FieldType.bytes v none same h = refl
  read_value_same n FieldType.bytes v (some b) same h = refl
  read_value_same n uint32 v b same h = refl
  read_value_same n int32 v b same h = refl
  read_value_same n FieldType.bool v b same h = refl
  read_value_same n (message name) v none same h = refl
  read_value_same n (message name) v (some b) same h = rw (same name b h)

  read_known_same :
      (n : ℕ) (f : Option FieldDef) (p : Payload) (result : Fields)
      → ((name : String) (x : List ℕ) → length x ≤ n → rec name x ≡ other name x)
      → chunk_length p.1 ≤ n
      → read_known rec f p result ≡ read_known other f p result
  unfolding read_known
  read_known_same n none p result same h = refl
  read_known_same n (some f) p result same h = rw (read_value_same n f.type p.0 p.1 same h)

  read_field_same :
      (fields : List FieldDef) (bytes : List ℕ) (result : Fields)
      → ((name : String) (x : List ℕ) → length x < length bytes → rec name x ≡ other name x)
      → read_field rec fields bytes result ≡ read_field other fields bytes result
  unfolding read_field
  read_field_same fields bytes result same = >>=-cong (Reader.varint bytes) _ _ λ k e.
      >>=-cong (read_payload (k.0 % 8) k.1) _ _ λ p e'. rw (
        read_known_same (length k.1) (field_at fields (k.0 % 2 ^ 32 / 8)) p.0 result
          (λ name x h. same name x (omega (arith, varint-shorter bytes k.0 k.1 e)))
          (read_payload-Within (k.0 % 8) k.1 p e').1)

module _ (rec : String → List ℕ → Result WireError Fields) where
  -- The bytes left are fewer.
  pub read_field-shorter :
      (fields : List FieldDef) (bytes : List ℕ) (result : Fields) (q : Fields × List ℕ)
      → read_field rec fields bytes result ≡ ok q
      → length q.1 < length bytes
  unfolding read_field
  read_field-shorter fields bytes result q h =
      let (k, e, r) = >>=-eq-ok (Reader.varint bytes) _ h in
      let (p, e', r') = >>=-eq-ok (read_payload (k.0 % 8) k.1) _ r in
      let (s, e'', r'') =
        >>=-eq-ok (read_known rec (field_at fields (k.0 % 2 ^ 32 / 8)) p.0 result) _ r' in
      ground (arith, r'', varint-shorter bytes k.0 k.1, read_payload-Within (k.0 % 8) k.1 p)

-- `read` reads the same with any two fuels above the number of bytes.
pub read_fuel :
    (f g : ℕ) (types : Schema) (fields : List FieldDef) (bytes : List ℕ) (result : Fields)
    → length bytes < f
    → length bytes < g
    → read f types fields bytes result ≡ read g types fields bytes result
unfolding read
read_fuel zero g types fields bytes result h k = absurd (omega arith)
read_fuel (suc f) zero types fields bytes result h k = absurd (omega arith)
read_fuel (suc f) (suc g) types fields [] result h k = refl
read_fuel (suc f) (suc g) types fields (b ∷ bs) result h k =
    rw
      (read_field_same (nested (λ fs inner. read f types fs inner end) types)
        (nested (λ fs inner. read g types fs inner end) types) fields (b ∷ bs) result
        (λ name x lt.
          >>=-cong (fields_of types name) _ _
            λ fs _. read_fuel f g types fs x end (omega arith) (omega arith)))
      (>>=-cong
        (read_field (nested (λ fs inner. read g types fs inner end) types) fields (b ∷ bs) result) _
        _
        λ p e.
          let lt =
            read_field-shorter (nested (λ fs inner. read g types fs inner end) types) fields
              (b ∷ bs) result p e in
          read_fuel f g types fields p.1 p.0 (omega arith) (omega arith))

module _ (rec : String → List ℕ → Result WireError Fields) where
  read_value-ne-stuck :
      (n : ℕ) (type : FieldType) (v : ℕ) (b : Option (List ℕ))
      → ((name : String) (x : List ℕ) → length x ≤ n → rec name x ≢ stuck)
      → chunk_length b ≤ n
      → read_value rec type v b ≢ stuck
  unfolding read_value
  read_value-ne-stuck n string v none ends h = λ e. cc
  read_value-ne-stuck n string v (some b) ends h = λ e. cc
  read_value-ne-stuck n FieldType.bytes v none ends h = λ e. cc
  read_value-ne-stuck n FieldType.bytes v (some b) ends h = λ e. cc
  read_value-ne-stuck n uint32 v b ends h = λ e. cc
  read_value-ne-stuck n int32 v b ends h = λ e. cc
  read_value-ne-stuck n FieldType.bool v b ends h = λ e. cc
  read_value-ne-stuck n (message name) v none ends h = λ e. cc
  read_value-ne-stuck n (message name) v (some b) ends h =
      >>=-ne-stuck (rec name b) _ (ends name b h) (λ fs e k. cc)

  read_known-ne-stuck :
      (n : ℕ) (f : Option FieldDef) (p : Payload) (result : Fields)
      → ((name : String) (x : List ℕ) → length x ≤ n → rec name x ≢ stuck)
      → chunk_length p.1 ≤ n
      → read_known rec f p result ≢ stuck
  unfolding read_known
  read_known-ne-stuck n none p result ends h = λ e. cc
  read_known-ne-stuck n (some f) p result ends h =
      >>=-ne-stuck (read_value rec f.type p.0 p.1) _ (read_value-ne-stuck n f.type p.0 p.1 ends h)
        (λ v e k. cc)

  read_field-ne-stuck :
      (fields : List FieldDef) (bytes : List ℕ) (result : Fields)
      → ((name : String) (x : List ℕ) → length x < length bytes → rec name x ≢ stuck)
      → read_field rec fields bytes result ≢ stuck
  unfolding read_field
  read_field-ne-stuck fields bytes result ends =
      >>=-ne-stuck (Reader.varint bytes) _ (varint-ne-stuck bytes) λ k e.
        >>=-ne-stuck (read_payload (k.0 % 8) k.1) _ (read_payload-ne-stuck (k.0 % 8) k.1) λ p e'.
          >>=-ne-stuck (read_known rec (field_at fields (k.0 % 2 ^ 32 / 8)) p.0 result) _
            (read_known-ne-stuck (length k.1) (field_at fields (k.0 % 2 ^ 32 / 8)) p.0 result
              (λ name x h. ends name x (omega (arith, varint-shorter bytes k.0 k.1 e)))
              (read_payload-Within (k.0 % 8) k.1 p e').1)
            (λ r e'' h. cc)

read-ne-stuck :
    (f : ℕ) (types : Schema) (fields : List FieldDef) (bytes : List ℕ) (result : Fields)
    → length bytes < f
    → read f types fields bytes result ≢ stuck
unfolding read
read-ne-stuck zero types fields bytes result h = absurd (omega arith)
read-ne-stuck (suc f) types fields [] result h = λ e. cc
read-ne-stuck (suc f) types fields (b ∷ bs) result h =
    let rec : String → List ℕ → Result WireError Fields =
      nested (λ fs inner. read f types fs inner end) types in
    >>=-ne-stuck (read_field rec fields (b ∷ bs) result) _
      (read_field-ne-stuck rec fields (b ∷ bs) result λ name x lt.
        >>=-ne-stuck (fields_of types name) _ (fields_of-ne-stuck types name)
          λ fs _. read-ne-stuck f types fs x end (omega arith))
      λ p e.
        let lt = read_field-shorter rec fields (b ∷ bs) result p e in
        read-ne-stuck f types fields p.1 p.0 (omega arith)

-- Decoding ends on every buffer, well formed or not: with a message or with an error.
pub decode-ne-stuck :
    (types : Schema) (name : String) (buffer : List ℕ) → decode types name buffer ≢ stuck
unfolding decode
decode-ne-stuck types name buffer =
    >>=-ne-stuck (fields_of types name) _ (fields_of-ne-stuck types name)
      λ fields _. read-ne-stuck (suc (length buffer)) types fields buffer end (omega arith)
