-- ===== src/Fleet/FleetState/Order.antt =====
-- compareForCanonical of FleetState.ts as an order, and the stable sort by it.
use rivalis.Common.{◌≡◌, refl, true, false, List, [], ◌∷◌, arith, Bool-cases, inl, inr, All}
use rivalis.Handshake.Utf8.{Text}
use rivalis.Fleet.FleetState.Resolve.{text_lt, RoomEntry, precedes, insert, sort_onto}

text_lt-asym : (s t : Text) → text_lt s t ≡ true → text_lt t s ≡ false
text_lt-asym [] [] h = cc
text_lt-asym [] (d ∷ ds) h = refl
text_lt-asym (c ∷ cs) [] h = cc
text_lt-asym (c ∷ cs) (d ∷ ds) h = ground (arith, text_lt-asym cs ds)

text_lt_weak : (s t u : Text) → text_lt s t ≡ false → text_lt t u ≡ false → text_lt s u ≡ false
text_lt_weak [] [] u h k = k
text_lt_weak [] (d ∷ ds) u h k = cc
text_lt_weak (c ∷ cs) [] [] h k = refl
text_lt_weak (c ∷ cs) [] (x ∷ xs) h k = cc
text_lt_weak (c ∷ cs) (d ∷ ds) [] h k = refl
text_lt_weak (c ∷ cs) (d ∷ ds) (x ∷ xs) h k = ground (arith, text_lt_weak cs ds xs)

precedes-asym : (a b : RoomEntry) → precedes a b ≡ true → precedes b a ≡ false
unfolding precedes
precedes-asym a b h = ground (arith, text_lt-asym a.instance_id b.instance_id)

-- What does not come before something that does not come before a third does not come before it.
precedes_weak :
    (a b c : RoomEntry) → precedes a b ≡ false → precedes b c ≡ false → precedes a c ≡ false
unfolding precedes
precedes_weak a b c h k = ground (arith, text_lt_weak a.instance_id b.instance_id c.instance_id)

-- The entry is one of those, and none of them comes before it.
pub record IsFirst (k : RoomEntry) (x : RoomEntry) (es : List RoomEntry) : Type 1 where
  pub one_of : (P : RoomEntry → Type 0) → P x → All P es → P k
  pub before : precedes x k ≡ false
  pub least : All (λ j. precedes j k ≡ false) es

irreflexive : (a : RoomEntry) → precedes a a ≡ false
irreflexive a = elim (Bool-cases (precedes a a)) [ inl t ↦ precedes-asym a a t | inr f ↦ f ]

-- Sorting more entries onto a sorted list ends with a first of its head and the entries.
pub sort_onto-head :
    (x : RoomEntry) (xs es : List RoomEntry)
    → (k : RoomEntry) × (ks : List RoomEntry) × (sort_onto (x ∷ xs) es ≡ k ∷ ks) × IsFirst k x es
unfolding sort_onto insert
sort_onto-head x xs [] =
    (x, xs, refl, record { one_of = λ P p ps. p; before = irreflexive x; least = tt })
sort_onto-head x xs (e ∷ es) = elim (Bool-cases (precedes e x)) [
  | inl t ↦
      let (k, ks, q, f) = sort_onto-head e (x ∷ xs) es in
      (
        k,
        ks,
        rw (t, insert) q,
        record {
          one_of = λ P p ps. f.one_of P ps.0 ps.1;
          before = precedes_weak x e k (precedes-asym e x t) f.before;
          least = (f.before, f.least);
        },
      )
  | inr t ↦
      let (k, ks, q, f) = sort_onto-head x (insert e xs) es in
      (
        k,
        ks,
        rw (t, insert) q,
        record {
          one_of = λ P p ps. f.one_of P p ps.1;
          before = f.before;
          least = (precedes_weak e x k t f.before, f.least);
        },
      )
]
