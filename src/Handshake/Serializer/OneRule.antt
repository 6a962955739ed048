-- ===== src/Handshake/Serializer/OneRule.antt =====
-- Reading back what the loop writes for one field, by its rule.
use rivalis.Common.{
  ℕ, suc, ◌^◌, ◌≤◌, ◌<◌, ◌≡◌, ◌≢◌, refl, false, List, [], ◌∷◌, ◌++◌, length, String, string_key,
  arith, length-append, append_assoc, Bool-cases, inl, inr, ap, subst, ◌∙◌, Option, none, some,
}
use rivalis.Common.Result.{Result, ok, ◌>>=◌, >>=-eq-ok, ok-injective}
use rivalis.Handshake.Reader.{WireError}
use rivalis.Handshake.Value.{
  Value, undefined, null, array, Values, nil, cons, Fields, end, put, has_own, push, is_nullish,
  Coercions, Rule, optional, required, repeated, FieldDef, Schema,
}
use rivalis.Handshake.Value.Laws.{
  get-put_self, put-put_self, get_absent, append_values, append_values-push, append_values-nil,
}
use rivalis.Handshake.Serializer.{read_field, read, nested, assign, field_at}
use rivalis.Handshake.Serializer.Total.{read_fuel, read_field-shorter}
use rivalis.Handshake.Serializer.OneField.{Reads, ReadsField, emit_field-Reads}
use rivalis.Handshake.Serializer.Reference.{
  emit_field, emit_elements, emit_repeated, emit_by_rule, view_value, view_elements, view_array,
  view_repeated, view_by_rule, put_present,
}

module _ (fuel : ℕ) (types : Schema) (fields : List FieldDef) where
  abbrev pub inner_read : String → List ℕ → Result WireError Fields
  inner_read = nested (λ fs inner. read fuel types fs inner end) types

  -- Reading `b` turns the fields read so far from `r` into `s`, whatever follows.
  abbrev pub Consumes : List ℕ → Fields → Fields → Type 0
  Consumes b r s =
      (rest : List ℕ)
      → length (b ++ rest) < suc fuel
      → read (suc fuel) types fields (b ++ rest) r ≡ read (suc fuel) types fields rest s

  pub Consumes-nil : (r : Fields) → Consumes [] r r
  Consumes-nil r rest h = refl

  pub Consumes-append :
      (a b : List ℕ) (r s t : Fields) → Consumes a r s → Consumes b s t → Consumes (a ++ b) r t
  Consumes-append a b r s t p q rest h =
      let e = append_assoc a b rest in
      let n = ap length e in
      rw e (p (b ++ rest) (omega arith) ∙ q rest (omega (arith, length-append a (b ++ rest))))

  pub Consumes-trans : (a b : List ℕ) (r s : Fields) → a ≡ b → Consumes a r s → Consumes b r s
  Consumes-trans a b r s p h = subst (λ t. Consumes t r s) p h

  pub read_step :
      (bytes : List ℕ) (r s : Fields) (rest : List ℕ)
      → read_field inner_read fields bytes r ≡ ok (s, rest)
      → length bytes < suc fuel
      → read (suc fuel) types fields bytes r ≡ read (suc fuel) types fields rest s
  unfolding read
  read_step [] r s rest e h =
      let lt = read_field-shorter inner_read fields [] r (s, rest) e in absurd (omega arith)
  read_step (b ∷ bs) r s rest e h =
      let lt = read_field-shorter inner_read fields (b ∷ bs) r (s, rest) e in
      rw e (read_fuel fuel (suc fuel) types fields rest s (omega arith) (omega arith))

  ReadsField-Consumes :
      (f : FieldDef) (m : Result WireError Value) (b : List ℕ) (r : Fields)
      → ReadsField inner_read fields f m b
      → (x : Value) × (m ≡ ok x) × Consumes b r (assign f x r)
  ReadsField-Consumes f m b r (x, e, reads) =
      (x, e, λ rest h. read_step (b ++ rest) r (assign f x r) rest (reads rest r) h)

assign_single :
    (f : FieldDef) (x : Value) (r : Fields) → f.rule ≢ repeated → assign f x r ≡ put f.key x r
unfolding assign
assign_single f x r h = ground arith

assign_first :
    (f : FieldDef) (x : Value) (r : Fields)
    → f.rule ≡ repeated
    → has_own f.key r ≡ false
    → assign f x r ≡ put f.key (array (cons x nil)) r
unfolding assign
assign_first f x r e h = rw (e, get_absent f.key r h)

assign_more :
    (f : FieldDef) (x : Value) (ws : Values) (r : Fields)
    → f.rule ≡ repeated
    → assign f x (put f.key (array ws) r) ≡ put f.key (array (push ws x)) r
unfolding assign
assign_more f x ws r e =
    rw (e, get-put_self f.key (array ws) r) (put-put_self f.key (array (push ws x)) (array ws) r)

module _ (js : Coercions) (fuel : ℕ) (types : Schema)
    (emitted : String → Value → Result WireError (List ℕ))
    (viewed : String → Value → Result WireError Fields) (fields : List FieldDef)
    (same : Reads (inner_read fuel types fields) emitted viewed fuel) where
  one :
      (f : FieldDef) (tag : ℕ) (v : Value) (b : List ℕ) (r : Fields)
      → tag < 2 ^ 28
      → field_at fields tag ≡ some f
      → emit_field js emitted tag f.type v ≡ ok b
      → length b < 2 ^ 53
      → length b ≤ fuel
      → (x : Value) × (view_value js viewed f.type v ≡ ok x)
        × Consumes fuel types fields b r (assign f x r)
  one f tag v b r h found e k l =
      ReadsField-Consumes fuel types fields f _ b r
        (emit_field-Reads js _ emitted viewed fuel same fields f tag f.type v b refl h found e k l)

  elements :
      (f : FieldDef) (tag : ℕ) (vs ws : Values) (b : List ℕ) (r : Fields)
      → f.rule ≡ repeated
      → tag < 2 ^ 28
      → field_at fields tag ≡ some f
      → emit_elements js emitted tag f.type vs ≡ ok b
      → length b < 2 ^ 53
      → length b ≤ fuel
      → (xs : Values) × (view_elements js viewed f.type vs ≡ ok xs)
        × Consumes fuel types fields b
            (put f.key (array ws) r)
            (put f.key (array (append_values ws xs)) r)
  unfolding emit_elements view_elements
  elements f tag nil ws b r rep h found e k l =
      (nil, refl, rw (← ok-injective e, append_values-nil ws) (Consumes-nil fuel types fields _))
  elements f tag (cons v vs) ws b r rep h found e k l =
      let (a, e₁, q) = >>=-eq-ok (emit_field js emitted tag f.type v) _ e in
      let (c, e₂, q') = >>=-eq-ok (emit_elements js emitted tag f.type vs) _ q in
      let p = ok-injective q' in
      let n = ap length p in
      let m = length-append a c in
      let (x, v₁, s₁) =
        one f tag v a (put f.key (array ws) r) h found e₁ (omega arith) (omega arith) in
      let (xs, v₂, s₂) =
        elements f tag vs (push ws x) c r rep h found e₂ (omega arith) (omega arith) in
      (
        cons x xs,
        rw (v₁, v₂),
        Consumes-trans fuel types fields (a ++ c) b (put f.key (array ws) r)
            (put f.key (array (append_values ws (cons x xs))) r) p
            (Consumes-append fuel types fields a c (put f.key (array ws) r)
              (put f.key (array (push ws x)) r) (put f.key (array (append_values ws (cons x xs))) r)
              (rw (← assign_more f x ws r rep) s₁) (rw (← append_values-push ws x xs) s₂)),
      )

  array_field :
      (f : FieldDef) (tag : ℕ) (vs : Values) (b : List ℕ) (r : Fields)
      → f.rule ≡ repeated
      → has_own f.key r ≡ false
      → tag < 2 ^ 28
      → field_at fields tag ≡ some f
      → emit_elements js emitted tag f.type vs ≡ ok b
      → length b < 2 ^ 53
      → length b ≤ fuel
      → (o : Option Value) × (view_array js viewed f.type vs ≡ ok o)
        × Consumes fuel types fields b r (put_present f.key o r)
  unfolding emit_elements view_array view_elements
  array_field f tag nil b r rep fresh h found e k l =
      (none, refl, rw (← ok-injective e) (Consumes-nil fuel types fields r))
  array_field f tag (cons v vs) b r rep fresh h found e k l =
      let (a, e₁, q) = >>=-eq-ok (emit_field js emitted tag f.type v) _ e in
      let (c, e₂, q') = >>=-eq-ok (emit_elements js emitted tag f.type vs) _ q in
      let p = ok-injective q' in
      let n = ap length p in
      let m = length-append a c in
      let (x, v₁, s₁) = one f tag v a r h found e₁ (omega arith) (omega arith) in
      let (xs, v₂, s₂) =
        elements f tag vs (cons x nil) c r rep h found e₂ (omega arith) (omega arith) in
      (
        some (array (cons x xs)),
        rw (v₁, v₂),
        Consumes-trans fuel types fields (a ++ c) b r (put f.key (array (cons x xs)) r) p (
            Consumes-append fuel types fields a c r (put f.key (array (cons x nil)) r)
              (put f.key (array (cons x xs)) r) (rw (← assign_first f x r rep fresh) s₁) s₂),
      )

  repeated_field :
      (f : FieldDef) (tag : ℕ) (v : Value) (b : List ℕ) (r : Fields)
      → f.rule ≡ repeated
      → has_own f.key r ≡ false
      → tag < 2 ^ 28
      → field_at fields tag ≡ some f
      → emit_repeated js emitted tag f v ≡ ok b
      → length b < 2 ^ 53
      → length b ≤ fuel
      → (o : Option Value) × (view_repeated js viewed f v ≡ ok o)
        × Consumes fuel types fields b r (put_present f.key o r)
  unfolding emit_repeated view_repeated
  repeated_field f tag (array vs) b r rep fresh h found e k l =
      array_field f tag vs b r rep fresh h found e k l
  repeated_field f tag undefined b r rep fresh h found e k l =
      (none, refl, rw (← ok-injective e) (Consumes-nil fuel types fields r))
  repeated_field f tag null b r rep fresh h found e k l =
      (none, refl, rw (← ok-injective e) (Consumes-nil fuel types fields r))
  repeated_field f tag _ b r rep fresh h found e k l = absurd (cc)

  single_field :
      (f : FieldDef) (tag : ℕ) (v : Value) (b : List ℕ) (r : Fields)
      → f.rule ≢ repeated
      → tag < 2 ^ 28
      → field_at fields tag ≡ some f
      → emit_field js emitted tag f.type v ≡ ok b
      → length b < 2 ^ 53
      → length b ≤ fuel
      → (o : Option Value) × ((view_value js viewed f.type v >>= λ x. ok (some x)) ≡ ok o)
        × Consumes fuel types fields b r (put_present f.key o r)
  single_field f tag v b r rep h found e k l =
      let (x, v₁, s₁) = one f tag v b r h found e k l in
      (some x, rw v₁, rw (← assign_single f x r rep) s₁)

  pub by_rule :
      (f : FieldDef) (rule : Rule) (tag : ℕ) (v : Value) (b : List ℕ) (r : Fields)
      → f.rule ≡ rule
      → has_own f.key r ≡ false
      → tag < 2 ^ 28
      → field_at fields tag ≡ some f
      → emit_by_rule js rule emitted tag f v ≡ ok b
      → length b < 2 ^ 53
      → length b ≤ fuel
      → (o : Option Value) × (view_by_rule js rule viewed f v ≡ ok o)
        × Consumes fuel types fields b r (put_present f.key o r)
  unfolding emit_by_rule view_by_rule
  by_rule f repeated tag v b r rep fresh h found e k l =
      repeated_field f tag v b r rep fresh h found e k l
  by_rule f required tag v b r rep fresh h found e k l =
      single_field f tag _ b r (λ q. cc) h found e k l
  by_rule f optional tag v b r rep fresh h found e k l = elim (Bool-cases (is_nullish v)) [
    | inl t ↦
        let e' : ok [] ≡ ok b = rw t at e in
        (none, rw t, rw (← ok-injective e') (Consumes-nil fuel types fields r))
    | inr t ↦ rw t (single_field f tag v b r (λ q. cc) h found (rw t at e) k l)
  ]
