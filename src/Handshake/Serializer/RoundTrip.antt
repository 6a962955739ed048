-- ===== src/Handshake/Serializer/RoundTrip.antt =====
-- handshake/src/wire/serializer.ts: messages, encoded and decoded.
use rivalis.Common.{
  ℕ, zero, suc, ◌+◌, ◌^◌, ◌≤◌, ◌<◌, ◌≡◌, refl, sym, false, List, [], ◌∷◌, ◌++◌, length, get_elem?,
  String, string_key, arith, length-append, append-nil, ap, subst, ◌∙◌, Option, none, some, ◌==◌,
  All,
}
use rivalis.Common.Result.{Result, ok, ◌>>=◌, >>=-eq-ok, >>=-cong, ok-injective}
use rivalis.Handshake.Reader.{WireError}
use rivalis.Handshake.Value.{Value, Fields, end, property, has_own, Coercions, FieldDef, Schema}
use rivalis.Handshake.Value.Laws.{has_own-put}
use rivalis.Handshake.Serializer.{fields_of, read, decode, field_at, encode}
use rivalis.Handshake.Serializer.Total.{read_fuel}
use rivalis.Handshake.Serializer.Emit.{IsNarrow, encode-emit}
use rivalis.Handshake.Serializer.OneField.{Reads}
use rivalis.Handshake.Serializer.Reference.{
  emit_by_rule, emit_fields, emit, put_present, view_fields, view,
}
use rivalis.Handshake.Serializer.OneRule.{
  inner_read, Consumes, Consumes-nil, Consumes-append, Consumes-trans, by_rule,
}

-- No two fields of a message type share a key.
abbrev pub Distinct : List FieldDef → Type 0
Distinct [] = Unit {0}
Distinct (f ∷ fs) = All (λ g. (f.key == g.key) ≡ false) fs × Distinct fs

abbrev Fresh : Fields → List FieldDef → Type 0
Fresh r = All (λ g. has_own g.key r ≡ false)

Fresh-put :
    (f : FieldDef) (o : Option Value) (r : Fields) (fs : List FieldDef)
    → All (λ g. (f.key == g.key) ≡ false) fs
    → Fresh r fs
    → Fresh (put_present f.key o r) fs
Fresh-put f none r fs d h = h
Fresh-put f (some x) r [] d h = tt
Fresh-put f (some x) r (g ∷ fs) d h =
    (rw (has_own-put f.key g.key x r, d.0) h.0, Fresh-put f (some x) r fs d.1 h.1)

Fresh-end : (fs : List FieldDef) → Fresh end fs
unfolding has_own
Fresh-end [] = tt
Fresh-end (f ∷ fs) = (refl, Fresh-end fs)

-- The fields still to be written are those of the type from `tag` on.
abbrev From : List FieldDef → ℕ → List FieldDef → Type 0
From fields tag fs = (i j : ℕ) → j ≡ tag + i → field_at fields j ≡ get_elem? fs i

module _ (js : Coercions) (fuel : ℕ) (types : Schema)
    (emitted : String → Value → Result WireError (List ℕ))
    (viewed : String → Value → Result WireError Fields) (fields : List FieldDef)
    (same : Reads (inner_read fuel types fields) emitted viewed fuel) where
  all_fields :
      (fs : List FieldDef) (tag : ℕ) (msg : Value) (b : List ℕ) (r : Fields)
      → Distinct fs
      → Fresh r fs
      → From fields tag fs
      → tag + length fs < 2 ^ 28
      → emit_fields js emitted tag fs msg ≡ ok b
      → length b < 2 ^ 53
      → length b ≤ fuel
      → (s : Fields) × (view_fields js viewed fs msg r ≡ ok s) × Consumes fuel types fields b r s
  unfolding emit_fields view_fields
  all_fields [] tag msg b r d fresh from h e k l =
      (r, refl, rw (← ok-injective e) (Consumes-nil fuel types fields r))
  all_fields (f ∷ fs) tag msg b r d fresh from h e k l =
      let (a, e₁, q) = >>=-eq-ok (emit_by_rule js f.rule emitted tag f (property msg f.key)) _ e in
      let (c, e₂, q') = >>=-eq-ok (emit_fields js emitted (suc tag) fs msg) _ q in
      let p = ok-injective q' in
      let n = ap length p in
      let m = length-append a c in
      let (o, v₁, s₁) =
        by_rule js fuel types emitted viewed fields same f f.rule tag (property msg f.key) a r refl
          fresh.0 (omega arith) (from 0 tag (omega arith)) e₁ (omega arith) (omega arith) in
      let (s, v₂, s₂) =
        all_fields fs (suc tag) msg c (put_present f.key o r) d.1 (Fresh-put f o r fs d.0 fresh.1)
          (λ i j t. from (suc i) j (omega arith)) (omega arith) e₂ (omega arith) (omega arith) in
      (
        s,
        rw (v₁, v₂),
        Consumes-trans fuel types fields (a ++ c) b r s p
            (Consumes-append fuel types fields a c r (put_present f.key o r) s s₁ s₂),
      )

abbrev pub AreDistinct : Schema → Type 0
AreDistinct types =
    (name : String) (fields : List FieldDef) → fields_of types name ≡ ok fields → Distinct fields

From-first : (fields : List FieldDef) → From fields 1 fields
From-first fields i zero t = absurd (omega arith)
From-first fields i (suc j) t = let e : j ≡ i = omega arith in rw e

whole :
    (types : Schema) (fields : List FieldDef) (b : List ℕ) (r s : Fields)
    → Consumes (length b) types fields b r s
    → read (suc (length b)) types fields b r ≡ ok s
unfolding read
whole types fields b r s h =
    let e = append-nil b in
    let n = ap length e in
    subst (λ t. read (suc (length b)) types fields t r ≡ ok s) e (h [] (omega arith))

-- A nested message is decoded with the fuel of the outer one.
inner :
    (js : Coercions) (depth : ℕ) (types : Schema) (fuel : ℕ) (fields : List FieldDef)
    → IsNarrow types
    → AreDistinct types
    → ((name : String) (msg : Value) (b : List ℕ)
        → IsNarrow types
        → AreDistinct types
        → emit js depth types name msg ≡ ok b
        → length b < 2 ^ 53
        → (o : Fields) × (view js depth types name msg ≡ ok o) × (decode types name b ≡ ok o))
    → Reads (inner_read fuel types fields) (emit js depth types) (view js depth types) fuel
unfolding decode
inner js depth types fuel fields narrow distinct step name v b e k l =
    let (o, w, d) = step name v b narrow distinct e k in
    (
      o,
      w,
      >>=-cong (fields_of types name) _ _
            (λ fs _. read_fuel fuel (suc (length b)) types fs b end l (omega arith))
          ∙ d,
    )

-- What is emitted is decoded to its view.
decode-emit :
    (js : Coercions) (depth : ℕ) (types : Schema) (name : String) (msg : Value) (b : List ℕ)
    → IsNarrow types
    → AreDistinct types
    → emit js depth types name msg ≡ ok b
    → length b < 2 ^ 53
    → (o : Fields) × (view js depth types name msg ≡ ok o) × (decode types name b ≡ ok o)
unfolding emit view decode
decode-emit js zero types name msg b narrow distinct e k = absurd (cc)
decode-emit js (suc depth) types name msg b narrow distinct e k =
    let (fields, e₁, q) = >>=-eq-ok (fields_of types name) _ e in
    let (o, v, s) =
      all_fields js (length b) types (emit js depth types) (view js depth types) fields
        (inner js depth types (length b) fields narrow distinct (decode-emit js depth types)) fields
        1 msg b end (distinct name fields e₁) (Fresh-end fields) (From-first fields)
        (narrow name fields e₁) q k (omega arith) in
    (o, rw e₁ v, rw e₁ (whole types fields b end o s))

-- Where no type has 2^28 fields or two of one key, a message whose reference encoding exists and is
-- shorter than 2^53 bytes is encoded, and decoding the bytes yields its view.
pub decode-encode :
    (js : Coercions) (depth : ℕ) (types : Schema) (name : String) (msg : Value) (b : List ℕ)
    → IsNarrow types
    → AreDistinct types
    → emit js depth types name msg ≡ ok b
    → length b < 2 ^ 53
    → (encode js depth types name msg >>= λ bytes. decode types name bytes)
      ≡ view js depth types name msg
decode-encode js depth types name msg b narrow distinct e k =
    let (o, v, d) = decode-emit js depth types name msg b narrow distinct e k in
    rw (encode-emit js depth types name msg b narrow e k, d) (sym v)
