-- ===== src/Fleet/FleetState/Canonical.antt =====
-- The public ids of FleetState.resolve among rooms that share a base id, and the index by public id.
use rivalis.Common.{
  ℕ, zero, suc, ◌≡◌, ◌≢◌, refl, false, List, [], ◌∷◌, some, ◌==◌, if◌then◌else◌, eqb, arith,
  Bool-cases, inl, inr, ◌⊎◌, ap, ◌∙◌, sym, subst, length, get_elem?, All,
}
use rivalis.Common.Map
use rivalis.Common.Map.{Map}
use rivalis.Handshake.Utf8.{Text, IsScalar}
use rivalis.Core.Room.{text_key}
use rivalis.Fleet.RoomId.{encode_room_id, namespace_room_id}
use rivalis.Fleet.RoomId.Public.{namespace-encode_room_id}
use rivalis.Fleet.FleetState.Resolve.{
  RoomEntry, or_empty, sort_onto, name_in, public_id, ResolvedLocator, locator, index_rooms,
}
use rivalis.Fleet.FleetState.Order.{IsFirst}

later :
    (groups : Map Text (List RoomEntry)) (base : Text) (v : ResolvedLocator) (e : RoomEntry)
    (es : List RoomEntry) (m : Map Text ResolvedLocator)
    → (public_id groups e == base) ≡ false
    → ((Map.lookup base m ≡ some v)
        ⊎ ((n : ℕ) × (j : RoomEntry) × (get_elem? (e ∷ es) n ≡ some j)
            × (public_id groups j ≡ base)))
    → (Map.lookup base (Map.set (public_id groups e) (locator groups e) m) ≡ some v)
      ⊎ ((n : ℕ) × (j : RoomEntry) × (get_elem? es n ≡ some j) × (public_id groups j ≡ base))
later groups base v e es m t (inl q) =
    inl (Map.lookup-set (public_id groups e) base (locator groups e) m ∙ rw t q)
later groups base v e es m t (inr (zero, j, g, p)) =
    let q : e ≡ j = cc in
    let f : public_id groups e ≡ base = subst (λ x. public_id groups x ≡ base) (sym q) p in
    let z = (text_key.same_iff (public_id groups e) base).1 f in cc
later groups base v e es m t (inr (suc n, j, g, p)) = inr (n, j, g, p)

-- The last entry that is public under an id is the one that is found.
pub index_rooms-lookup :
    (groups : Map Text (List RoomEntry)) (base : Text) (v : ResolvedLocator) (es : List RoomEntry)
    (m : Map Text ResolvedLocator)
    → All (λ j. public_id groups j ≡ base → locator groups j ≡ v) es
    → ((Map.lookup base m ≡ some v)
        ⊎ ((n : ℕ) × (j : RoomEntry) × (get_elem? es n ≡ some j) × (public_id groups j ≡ base)))
    → Map.lookup base (index_rooms groups es m) ≡ some v
unfolding index_rooms
index_rooms-lookup groups base v [] m h (inl q) = q
index_rooms-lookup groups base v [] m h (inr (n, j, g, p)) = cc
index_rooms-lookup groups base v (e ∷ es) m h found =
    elim (Bool-cases (public_id groups e == base)) [
      | inl t ↦
          let p = (text_key.same_iff (public_id groups e) base).0 t in
          index_rooms-lookup groups base v es _ h.1 (
            inl (
              Map.lookup-set (public_id groups e) base (locator groups e) m
              ∙ rw t (ap some (h.0 p))))
      | inr t ↦ index_rooms-lookup groups base v es _ h.1 (later groups base v e es m t found)
    ]

pub public_id-keeper :
    (groups : Map Text (List RoomEntry)) (j k : RoomEntry) (xs ks : List RoomEntry)
    → or_empty (Map.lookup j.base groups) ≡ xs
    → sort_onto [] xs ≡ k ∷ ks
    → public_id groups j ≡ (
        if eqb (length xs) 1
        then j.base
        else if eqb j.index k.index
        then j.base
        else namespace_room_id j.process_uid j.base)
unfolding public_id
public_id-keeper groups j k xs ks e f = rw (e, f) refl

-- A bucket of one room: that room is the first.
pub single-first :
    (x k : RoomEntry) (xs : List RoomEntry) → length (x ∷ xs) ≡ 1 → IsFirst k x xs → k ≡ x
single-first x k [] h f = f.one_of (λ j. j ≡ x) refl tt
single-first x k (y ∷ ys) h f = absurd (omega (arith, h))

name_in-cases :
    (ks : List RoomEntry) (j : RoomEntry)
    → (name_in ks j ≡ j.base) ⊎ (name_in ks j ≡ namespace_room_id j.process_uid j.base)
name_in-cases [] j = inl refl
name_in-cases (k ∷ ks) j = elim (Bool-cases (eqb j.index k.index)) [
  | inl t ↦ rw t (inl refl)
  | inr t ↦ rw t (inr refl)
]

public_id-cases :
    (groups : Map Text (List RoomEntry)) (j : RoomEntry)
    → (public_id groups j ≡ j.base) ⊎ (public_id groups j ≡ namespace_room_id j.process_uid j.base)
unfolding public_id
public_id-cases groups j =
    elim (Bool-cases (eqb (length (or_empty (Map.lookup j.base groups))) 1)) [
      | inl t ↦ rw t (inl refl)
      | inr t ↦ rw t (name_in-cases (sort_onto [] (or_empty (Map.lookup j.base groups))) j)
    ]

-- What is known of every entry `j` where `k` is the first of the bucket of the id `raw`.
pub record IsOther (groups : Map Text (List RoomEntry)) (raw : Text) (xs : List RoomEntry)
    (k j : RoomEntry) : Type 0 where
  pub encoded : j.base ≡ encode_room_id j.raw_id
  pub scalar : All IsScalar j.raw_id
  pub same_index : j.index ≡ k.index → j ≡ k
  pub alone : j.base ≡ encode_room_id raw → length xs ≡ 1 → j ≡ k
  pub named :
      j.base ≡ encode_room_id raw
      → public_id groups j ≡ (
          if eqb (length xs) 1
          then j.base
          else if eqb j.index k.index
          then j.base
          else namespace_room_id j.process_uid j.base)

-- No namespaced id is the base id of a well-formed one.
not_namespaced :
    (groups : Map Text (List RoomEntry)) (raw : Text) (xs : List RoomEntry) (k j : RoomEntry)
    → All IsScalar raw
    → IsOther groups raw xs k j
    → namespace_room_id j.process_uid j.base ≢ encode_room_id raw
not_namespaced groups raw xs k j u o h =
    (namespace-encode_room_id j.process_uid j.process_uid raw j.raw_id u o.scalar).1
      (sym h ∙ ap (namespace_room_id j.process_uid) o.encoded)

-- Only the first of the bucket is public under the base id.
pub public_id_unique :
    (groups : Map Text (List RoomEntry)) (raw : Text) (xs : List RoomEntry) (k j : RoomEntry)
    → All IsScalar raw
    → IsOther groups raw xs k j
    → public_id groups j ≡ encode_room_id raw
    → j ≡ k
public_id_unique groups raw xs k j u o h = elim (Bool-cases (j.base == encode_room_id raw)) [
  | inl t ↦
      let b = (text_key.same_iff j.base (encode_room_id raw)).0 t in
      elim (Bool-cases (eqb (length xs) 1)) [
        | inl l ↦ o.alone b (ground arith)
        | inr l ↦ elim (Bool-cases (eqb j.index k.index)) [
          | inl i ↦ o.same_index (ground arith)
          | inr i ↦
              let z = rw (l, i) at (o.named b) in
              absurd (not_namespaced groups raw xs k j u o (sym z ∙ h))
        ]
      ]
  | inr t ↦ elim (public_id-cases groups j) [
    | inl p ↦ let z = (text_key.same_iff j.base (encode_room_id raw)).1 (sym p ∙ h) in cc
    | inr p ↦ absurd (not_namespaced groups raw xs k j u o (sym p ∙ h))
  ]
]
