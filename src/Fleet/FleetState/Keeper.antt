-- ===== src/Fleet/FleetState/Keeper.antt =====
-- FleetState.resolveRoom: the room that a command by a public base id reaches.
use rivalis.Common.{
  ℕ, suc, ◌≡◌, true, false, List, [], ◌∷◌, some, eqb, arith, Bool-cases, inl, inr, ap, ◌∙◌, sym,
  subst, length, get_elem?, All, All-mono, All-get_elem?,
}
use rivalis.Common.Map
use rivalis.Common.Map.{Map}
use rivalis.Handshake.Utf8.{Text, IsScalar}
use rivalis.Core.Room.{text_key}
use rivalis.Fleet.RoomId.{encode_room_id}
use rivalis.Fleet.FleetState.{State}
use rivalis.Fleet.FleetState.Resolve.{
  RoomEntry, precedes, entries_from, or_empty, group, sort_onto, insert, public_id, locator,
  index_rooms, resolve,
}
use rivalis.Fleet.FleetState.Queries.{owner_of, resolve_room}
use rivalis.Fleet.FleetState.Order.{IsFirst, sort_onto-head}
use rivalis.Fleet.FleetState.Buckets.{
  bucket, group-lookup, bucket-All, of_bucket, IsNumbered, entries-IsNumbered, numbered_unique,
  places_of,
}
use rivalis.Fleet.FleetState.Buckets.{bucket-some}
use rivalis.Common.{All_both}
use rivalis.Fleet.FleetState.Canonical.{
  index_rooms-lookup, public_id-keeper, single-first, IsOther, public_id_unique,
}

-- The entries of the resolution.
abbrev pub entries : State → List RoomEntry
entries s = entries_from 0 (Map.values s.records)

in_bucket :
    (base : Text) (es : List RoomEntry) → or_empty (Map.lookup base (group es [])) ≡ bucket base es
unfolding bucket Map.lookup
in_bucket base es = group-lookup base es []

-- The first of a bucket is there, has its base, and no entry of the base comes before it.
abbrev pub IsKeeper : List RoomEntry → Text → RoomEntry → Type 0
IsKeeper es base k =
    ((m : ℕ) × (get_elem? es m ≡ some k))
    × (k.base ≡ base)
    × All (λ j. j.base ≡ base → precedes j k ≡ false) es

first-IsKeeper :
    (es : List RoomEntry) (base : Text) (x k : RoomEntry) (xs : List RoomEntry)
    → bucket base es ≡ x ∷ xs
    → IsFirst k x xs
    → IsKeeper es base k
first-IsKeeper es base x k xs q f =
    let P = λ (j : RoomEntry). ((n : ℕ) × (get_elem? es n ≡ some j)) × (j.base ≡ base) in
    let all : All P (x ∷ xs) =
      subst (All P) q
        (bucket-All (λ j. (n : ℕ) × (get_elem? es n ≡ some j)) base es (places_of es)) in
    let p = f.one_of P all.0 all.1 in
    (
      p.0,
      p.1,
      of_bucket (λ j. precedes j k ≡ false) base es
          (subst (All (λ j. precedes j k ≡ false)) (sym q) (f.before, f.least)),
    )

single-All :
    (x k : RoomEntry) (xs : List RoomEntry)
    → IsFirst k x xs
    → All (λ j. length (x ∷ xs) ≡ 1 → j ≡ k) (x ∷ xs)
single-All x k [] f = (λ h. sym (single-first x k [] h f), tt)
single-All x k (y ∷ ys) f =
    All-mono _ _ (x ∷ y ∷ ys) (λ j p h. absurd (omega (arith, h))) (places_of (x ∷ y ∷ ys))

numbered-encoded :
    (i : ℕ) (es : List RoomEntry) → IsNumbered i es → All (λ j. j.base ≡ encode_room_id j.raw_id) es
numbered-encoded i [] h = tt
numbered-encoded i (e ∷ es) h = (h.0.1, numbered-encoded (suc i) es h.1)

others :
    (es : List RoomEntry) (raw : Text) (x k : RoomEntry) (xs ks : List RoomEntry)
    → IsNumbered 0 es
    → All (λ j. All IsScalar j.raw_id) es
    → bucket (encode_room_id raw) es ≡ x ∷ xs
    → sort_onto [] (x ∷ xs) ≡ k ∷ ks
    → IsFirst k x xs
    → All (IsOther (group es []) raw (x ∷ xs) k) es
others es raw x k xs ks numbered scalars q sorted f =
    let ((m, g), b, least) = first-IsKeeper es (encode_room_id raw) x k xs q f in
    let alone : All (λ j. j.base ≡ encode_room_id raw → length (x ∷ xs) ≡ 1 → j ≡ k) es =
      of_bucket (λ j. length (x ∷ xs) ≡ 1 → j ≡ k) (encode_room_id raw) es
        (subst (All (λ j. length (x ∷ xs) ≡ 1 → j ≡ k)) (sym q) (single-All x k xs f)) in
    All-mono _ _ es
      (λ j p. record {
        encoded = p.0;
        scalar = p.1.0;
        same_index = p.1.1.0;
        alone = p.1.1.1;
        named = λ t.
            public_id-keeper (group es []) j k (x ∷ xs) ks
              (in_bucket j.base es ∙ ap (λ c. bucket c es) t ∙ q) sorted;
      })
      (All_both _ _ es (numbered-encoded 0 es numbered)
        (All_both _ _ es scalars (All_both _ _ es (numbered_unique 0 es m k numbered g) alone)))

-- The first of a bucket is public under the base id.
keeper-public :
    (es : List RoomEntry) (raw : Text) (x k : RoomEntry) (xs : List RoomEntry)
    → IsOther (group es []) raw (x ∷ xs) k k
    → k.base ≡ encode_room_id raw
    → public_id (group es []) k ≡ encode_room_id raw
keeper-public es raw x k xs o b =
    let self : eqb k.index k.index ≡ true = ground arith in
    o.named b
    ∙ elim (Bool-cases (eqb (length (x ∷ xs)) 1)) [ inl t ↦ rw t b | inr t ↦ rw (t, self) b ]

keeper-found :
    (es : List RoomEntry) (raw : Text) (x k : RoomEntry) (xs ks : List RoomEntry)
    → IsNumbered 0 es
    → All (λ j. All IsScalar j.raw_id) es
    → All IsScalar raw
    → bucket (encode_room_id raw) es ≡ x ∷ xs
    → sort_onto [] (x ∷ xs) ≡ k ∷ ks
    → IsFirst k x xs
    → Map.lookup (encode_room_id raw) (index_rooms (group es []) es [])
      ≡ some (locator (group es []) k)
keeper-found es raw x k xs ks numbered scalars u q sorted f =
    let ((m, g), b, least) = first-IsKeeper es (encode_room_id raw) x k xs q f in
    let all = others es raw x k xs ks numbered scalars q sorted f in
    let self = All-get_elem? _ es m k g all in
    index_rooms-lookup (group es []) (encode_room_id raw) (locator (group es []) k) es []
      (All-mono _ _ es
        (λ j o p.
          ap (locator (group es [])) (public_id_unique (group es []) raw (x ∷ xs) k j u o p))
        all)
      (inr (m, k, g, keeper-public es raw x k xs self b))

-- Provided that the ids that agents report are well-formed strings: each base id of a reported room is that of exactly one room
-- that `resolveRoom` finds under it, which no other room of that base id comes before by
-- provenance, order of joining and instance id; a command on the base id carries its instance and its raw id.
pub resolve_room-IsKeeper :
    (s : State) (n : ℕ) (e : RoomEntry)
    → All (λ j. All IsScalar j.raw_id) (entries s)
    → get_elem? (entries s) n ≡ some e
    → (k : RoomEntry) × IsKeeper (entries s) e.base k
      × (resolve_room e.base s ≡ some (k.instance_id, k.raw_id))
unfolding resolve_room resolve sort_onto insert
resolve_room-IsKeeper s n e scalars g =
    let es = entries s in
    let numbered = entries-IsNumbered 0 (Map.values s.records) in
    let b = All-get_elem? _ es n e g (numbered-encoded 0 es numbered) in
    let u = All-get_elem? _ es n e g scalars in
    let (x, xs, q) = bucket-some es n e g in
    let (k, ks, sorted, f) = sort_onto-head x [] xs in
    let q' = ap (λ c. bucket c es) (sym b) ∙ q in
    (
      k,
      first-IsKeeper es e.base x k xs q f,
      ap (λ c. owner_of (Map.lookup c (index_rooms (group es []) es []))) b
          ∙ ap owner_of (keeper-found es e.raw_id x k xs ks numbered scalars u q' sorted f),
    )
