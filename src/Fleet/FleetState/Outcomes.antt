-- ===== src/Fleet/FleetState/Outcomes.antt =====
-- What a placement and a reservation of a room id that succeed have done.
use rivalis.Common.{
  ℕ, zero, suc, ◌+◌, ◌≡◌, ◌⊎◌, subst, refl, Bool, true, false, List, [], ◌∷◌, Option, none, some,
  Bool-cases, inl, inr, sym,
}
use rivalis.Common.Map
use rivalis.Common.Result.{Result, ok, err, stuck}
use rivalis.Handshake.Utf8.{Text}
use rivalis.Core.Room.{text_key}
use rivalis.Fleet.RoomId.{is_valid_room_id}
use rivalis.Fleet.Model.{FleetErrorCode, PlacementInput, InstanceInfo}
use rivalis.Fleet.FleetState.{State}
use rivalis.Fleet.FleetState.RoomIds.{
  room_id_attempts, is_room_id_taken, generate_room_id, generate_free, add_reserved, adding,
  reserve_room_id,
}
use rivalis.Fleet.FleetState.Queries.{latest_record_by_process_uid}
use rivalis.Fleet.FleetState.Placement.{
  Placement, candidates, info_of, or_least_loaded, pick, place, placed, placed_some, pin_refusal,
  refuse_or, place_pinned, place_among, place_by_strategy, place_at,
}

adding-ok :
    (s s' : State) (g : Result FleetErrorCode Text) (id : Text)
    → adding s g ≡ ok (s', id)
    → (g ≡ ok id) × (s' ≡ add_reserved id s)
adding-ok s s' (ok room) id h = let e : room ≡ id = cc in (cc, cc)
adding-ok s s' (err code) id h = cc
adding-ok s s' stuck id h = cc

-- A generated id was free.
generate_free-ok :
    (left attempt : ℕ) (bytes : ℕ → List ℕ) (s : State) (id : Text)
    → generate_free left attempt bytes s ≡ ok id
    → (is_room_id_taken id s ≡ false) × (n : ℕ) × (id ≡ generate_room_id (bytes n))
unfolding generate_free
generate_free-ok zero attempt bytes s id h = cc
generate_free-ok (suc left) attempt bytes s id h =
    elim (Bool-cases (is_room_id_taken (generate_room_id (bytes attempt)) s)) [
      | inl t ↦
          generate_free-ok left (attempt + 1) bytes s id (let z = rw (t, generate_free) at h in z)
      | inr t ↦
          let z = rw (t, generate_free) at h in
          let e : generate_room_id (bytes attempt) ≡ id = cc in (cc, attempt, cc)
    ]

-- A reservation that succeeds was of a free id, and adds that id.
pub reserve_room_id-ok :
    (o : Option Text) (bytes : ℕ → List ℕ) (s s' : State) (id : Text)
    → reserve_room_id o bytes s ≡ ok (s', id)
    → (is_room_id_taken id s ≡ false) × (s' ≡ add_reserved id s)
unfolding reserve_room_id
reserve_room_id-ok none bytes s s' id h =
    let (e, f) = adding-ok s s' (generate_free room_id_attempts 0 bytes s) id h in
    ((generate_free-ok room_id_attempts 0 bytes s id e).0, f)
reserve_room_id-ok (some room) bytes s s' id h = elim (Bool-cases (is_valid_room_id room)) [
  | inl v ↦ elim (Bool-cases (is_room_id_taken room s)) [
    | inl t ↦ let z = rw (v, t) at h in cc
    | inr t ↦ let z = rw (v, t) at h in let e : room ≡ id = cc in (cc, cc)
  ]
  | inr v ↦ let z = rw v at h in cc
]

pub refuse_or-ok :
    {A : Type 0} (o : Option FleetErrorCode) (a b : A) → refuse_or o a ≡ ok b → (o ≡ none) × (a ≡ b)
refuse_or-ok none a b h = (refl, cc)
refuse_or-ok (some code) a b h = cc

place_pinned-ok :
    (force : Bool) (o : Option InstanceInfo) (s s' : State) (p : Placement)
    → place_pinned force o s ≡ ok (s', p)
    → (i : InstanceInfo) × ((s', p) ≡ placed i s)
unfolding place_pinned
place_pinned-ok force none s s' p h = cc
place_pinned-ok force (some i) s s' p h =
    (i, sym (refuse_or-ok (pin_refusal force i s) (placed i s) (s', p) h).1)

placed_some-ok :
    (o : Option InstanceInfo) (s s' : State) (p : Placement)
    → placed_some s o ≡ ok (s', p)
    → (i : InstanceInfo) × (o ≡ some i) × ((s', p) ≡ placed i s)
placed_some-ok none s s' p h = cc
placed_some-ok (some i) s s' p h = (i, refl, cc)

place_among-ok :
    (request : PlacementInput) (draw : ℕ) (is : List InstanceInfo) (s s' : State) (p : Placement)
    → place_among (or_least_loaded request.strategy) draw is s ≡ ok (s', p)
    → (i : InstanceInfo) × (pick (or_least_loaded request.strategy) draw is ≡ some i)
      × ((s', p) ≡ placed i s)
place_among-ok request draw [] s s' p h = cc
place_among-ok request draw (i ∷ is) s s' p h =
    placed_some-ok (pick (or_least_loaded request.strategy) draw (i ∷ is)) s s' p h

-- A placement by strategy is of the candidate that `pick` chose.
pub place_by_strategy-ok :
    (request : PlacementInput) (draw : ℕ) (s s' : State) (p : Placement)
    → place_by_strategy request draw s ≡ ok (s', p)
    → (i : InstanceInfo) × (pick (or_least_loaded request.strategy) draw (candidates request s)
        ≡ some i)
      × ((s', p) ≡ placed i s)
unfolding place_by_strategy
place_by_strategy-ok request draw s s' p h =
    place_among-ok request draw (candidates request s) s s' p h

place_at-ok :
    (id uid : Option Text) (request : PlacementInput) (draw : ℕ) (s s' : State) (p : Placement)
    → place_at id uid request draw s ≡ ok (s', p)
    → (i : InstanceInfo) × ((s', p) ≡ placed i s)
place_at-ok (some id) (some uid) request draw s s' p h = cc
place_at-ok (some id) none request draw s s' p h =
    place_pinned-ok request.force (info_of (Map.lookup id s.records)) s s' p h
place_at-ok none (some uid) request draw s s' p h =
    place_pinned-ok request.force (info_of (latest_record_by_process_uid uid s)) s s' p h
place_at-ok none none request draw s s' p h =
    let (i, e, f) = place_by_strategy-ok request draw s s' p h in (i, f)

pub place-ok :
    (request : PlacementInput) (draw : ℕ) (s s' : State) (p : Placement)
    → place request draw s ≡ ok (s', p)
    → (i : InstanceInfo) × ((s', p) ≡ placed i s)
unfolding place
place-ok request draw s s' p h =
    place_at-ok request.instance_id request.process_uid request draw s s' p h

-- A reserved id is the valid one that was asked for, or a generated one.
pub reserve_room_id-source :
    (o : Option Text) (bytes : ℕ → List ℕ) (s s' : State) (id : Text)
    → reserve_room_id o bytes s ≡ ok (s', id)
    → (is_valid_room_id id ≡ true) ⊎ ((n : ℕ) × (id ≡ generate_room_id (bytes n)))
unfolding reserve_room_id
reserve_room_id-source none bytes s s' id h =
    let (e, f) = adding-ok s s' (generate_free room_id_attempts 0 bytes s) id h in
    let (free, n, g) = generate_free-ok room_id_attempts 0 bytes s id e in inr (n, g)
reserve_room_id-source (some room) bytes s s' id h = elim (Bool-cases (is_valid_room_id room)) [
  | inl v ↦ elim (Bool-cases (is_room_id_taken room s)) [
    | inl t ↦ let z = rw (v, t) at h in cc
    | inr t ↦
        let z = rw (v, t) at h in
        let e : room ≡ id = cc in inl (subst (λ x. is_valid_room_id x ≡ true) e v)
  ]
  | inr v ↦ let z = rw v at h in cc
]
