-- ===== src/Fleet/FleetState/Buckets.antt =====
-- The groups of entries by base id in FleetState.resolve, and the entries' indices.
use rivalis.Common.{
  ℕ, zero, suc, ◌+◌, ◌≤◌, ◌≡◌, refl, List, [], ◌∷◌, ◌++◌, append-nil, append_assoc, some, ◌==◌,
  if◌then◌else◌, arith, Bool-cases, inl, inr, ap, ◌∙◌, sym, subst, length, get_elem?, All, All-mono,
  All-get_elem?,
}
use rivalis.Common.Map
use rivalis.Common.Map.{Map}
use rivalis.Handshake.Utf8.{Text}
use rivalis.Core.Room.{text_key}
use rivalis.Fleet.Model.{RoomInfo}
use rivalis.Fleet.RoomId.{encode_room_id}
use rivalis.Fleet.FleetState.{InstanceRecord}
use rivalis.Fleet.FleetState.Resolve.{RoomEntry, entries_of_record, entries_from, or_empty, group}

unfoldable pub bucket : Text → List RoomEntry → List RoomEntry
bucket base [] = []
bucket base (e ∷ es) = let rest = bucket base es in if e.base == base then e ∷ rest else rest

pub group-lookup :
    (base : Text) (es : List RoomEntry) (g : Map Text (List RoomEntry))
    → or_empty (Map.lookup base (group es g)) ≡ or_empty (Map.lookup base g) ++ bucket base es
unfolding group bucket
group-lookup base [] g = sym (append-nil (or_empty (Map.lookup base g)))
group-lookup base (e ∷ es) g =
    let h = or_empty (Map.lookup e.base g) ++ e ∷ [] in
    let ih = group-lookup base es (Map.set e.base h g) in
    elim (Bool-cases (e.base == base)) [
      | inl t ↦
          let q = (text_key.same_iff e.base base).0 t in
          let step : or_empty (Map.lookup base (Map.set e.base h g))
              ≡ or_empty (Map.lookup base g) ++ e ∷ [] =
            ap or_empty (Map.lookup-set e.base base h g)
            ∙ rw t (ap (λ b. or_empty (Map.lookup b g) ++ e ∷ []) q) in
          rw t (
            ih
            ∙ ap (λ l. l ++ bucket base es) step
            ∙ append_assoc (or_empty (Map.lookup base g)) (e ∷ []) (bucket base es))
      | inr t ↦
          let step : or_empty (Map.lookup base (Map.set e.base h g))
              ≡ or_empty (Map.lookup base g) =
            ap or_empty (Map.lookup-set e.base base h g) ∙ rw t refl in
          rw t (ih ∙ ap (λ l. l ++ bucket base es) step)
    ]

pub bucket-All :
    (P : RoomEntry → Type 0) (base : Text) (es : List RoomEntry)
    → All P es
    → All (λ e. P e × (e.base ≡ base)) (bucket base es)
unfolding bucket
bucket-All P base [] h = tt
bucket-All P base (e ∷ es) h = elim (Bool-cases (e.base == base)) [
  | inl t ↦ rw (t, bucket) ((h.0, (text_key.same_iff e.base base).0 t), bucket-All P base es h.1)
  | inr t ↦ rw (t, bucket) (bucket-All P base es h.1)
]

pub of_bucket :
    (P : RoomEntry → Type 0) (base : Text) (es : List RoomEntry)
    → All P (bucket base es)
    → All (λ e. e.base ≡ base → P e) es
unfolding bucket
of_bucket P base [] h = tt
of_bucket P base (e ∷ es) h = elim (Bool-cases (e.base == base)) [
  | inl t ↦ let z = rw (t, bucket) at h in (λ q. z.0, of_bucket P base es z.1)
  | inr t ↦
      let z = rw (t, bucket) at h in
      (λ q. absurd (ground (arith, text_key.same_iff e.base base)), of_bucket P base es z)
]

-- An entry's own bucket has it, so it is not empty.
pub bucket-some :
    (es : List RoomEntry) (n : ℕ) (e : RoomEntry)
    → get_elem? es n ≡ some e
    → (x : RoomEntry) × (xs : List RoomEntry) × (bucket e.base es ≡ x ∷ xs)
unfolding bucket
bucket-some [] n e h = cc
bucket-some (y ∷ es) zero e h =
    let q : y ≡ e = cc in
    let t = (text_key.same_iff y.base e.base).1 (ap (λ (x : RoomEntry). x.base) q) in
    (y, bucket e.base es, rw (t, bucket) refl)
bucket-some (y ∷ es) (suc n) e h = elim (Bool-cases (y.base == e.base)) [
  | inl t ↦ (y, bucket e.base es, rw (t, bucket) refl)
  | inr t ↦ rw (t, bucket) (bucket-some es n e h)
]

-- Each entry's index is its place, counted from `i`, and its base is its encoded id.
abbrev pub IsNumbered : ℕ → List RoomEntry → Type 0
IsNumbered i [] = Unit {0}
IsNumbered i (e ∷ es) = ((e.index ≡ i) × (e.base ≡ encode_room_id e.raw_id)) × IsNumbered (suc i) es

append-IsNumbered :
    (i : ℕ) (xs ys : List RoomEntry)
    → IsNumbered i xs
    → IsNumbered (i + length xs) ys
    → IsNumbered i (xs ++ ys)
append-IsNumbered i [] ys h k = subst (λ n. IsNumbered n ys) (omega arith) k
append-IsNumbered i (x ∷ xs) ys h k =
    (h.0, append-IsNumbered (suc i) xs ys h.1 (subst (λ n. IsNumbered n ys) (omega arith) k))

record-IsNumbered :
    (r : InstanceRecord) (i : ℕ) (rooms : List RoomInfo)
    → IsNumbered i (entries_of_record r i rooms)
record-IsNumbered r i [] = tt
record-IsNumbered r i (room ∷ rooms) = ((refl, refl), record-IsNumbered r (suc i) rooms)

length-entries_of_record :
    (r : InstanceRecord) (i : ℕ) (rooms : List RoomInfo)
    → length (entries_of_record r i rooms) ≡ length rooms
length-entries_of_record r i [] = refl
length-entries_of_record r i (room ∷ rooms) = ap suc (length-entries_of_record r (suc i) rooms)

pub entries-IsNumbered : (i : ℕ) (rs : List InstanceRecord) → IsNumbered i (entries_from i rs)
unfolding entries_from
entries-IsNumbered i [] = tt
entries-IsNumbered i (r ∷ rs) =
    append-IsNumbered i (entries_of_record r i r.info.rooms)
      (entries_from (i + length r.info.rooms) rs) (record-IsNumbered r i r.info.rooms)
      (rw (length-entries_of_record r i r.info.rooms)
        (entries-IsNumbered (i + length r.info.rooms) rs))

numbered_from : (i : ℕ) (es : List RoomEntry) → IsNumbered i es → All (λ j. i ≤ j.index) es
numbered_from i [] h = tt
numbered_from i (e ∷ es) h =
    (omega (arith, h.0.0), All-mono _ _ es (λ j q. omega (arith, q)) (numbered_from (suc i) es h.1))

-- The index tells the entries apart.
pub numbered_unique :
    (i : ℕ) (es : List RoomEntry) (m : ℕ) (k : RoomEntry)
    → IsNumbered i es
    → get_elem? es m ≡ some k
    → All (λ j. j.index ≡ k.index → j ≡ k) es
numbered_unique i [] m k h g = tt
numbered_unique i (e ∷ es) zero k h g =
    let q : e ≡ k = cc in
    let p : e.index ≡ k.index = ap (λ (x : RoomEntry). x.index) q in
    (
      λ x. q,
      All-mono _ _ es (λ j b x. absurd (omega (arith, b, x, p, h.0.0)))
          (numbered_from (suc i) es h.1),
    )
numbered_unique i (e ∷ es) (suc m) k h g = (
  λ x. absurd (omega (arith, x, h.0.0, All-get_elem? _ es m k g (numbered_from (suc i) es h.1))),
  numbered_unique (suc i) es m k h.1 g,
)

-- Every entry has a place.
pub places_of : (es : List RoomEntry) → All (λ j. (n : ℕ) × (get_elem? es n ≡ some j)) es
places_of [] = tt
places_of (e ∷ es) = ((0, refl), All-mono _ _ es (λ j p. (suc p.0, p.1)) (places_of es))
