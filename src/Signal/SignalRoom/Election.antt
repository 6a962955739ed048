-- ===== src/Signal/SignalRoom/Election.antt =====
-- signal/src/SignalRoom.ts: the host over joins and leaves, and the state handed to the next host.
use rivalis.Common.{
  ℕ, ◌≡◌, ◌≢◌, refl, true, false, List, [], ◌∷◌, ◌++◌, Option, none, some, ◌==◌, arith, Bool-cases,
  inl, inr, ap, ◌∙◌, sym, subst,
}
use rivalis.Common.Map
use rivalis.Common.Map.{Map}
use rivalis.Handshake.Utf8.{Text}
use rivalis.Core.Room.{text_key}
use rivalis.Signal.SignalRoom.{
  State, empty_room, host_elected, host_gone, host_state, broadcasts, sends, or_host, on_join,
  without, first, is_host, send_to, on_leave, receive_host_state, Event, joins, leaves, relays,
  pushes, step, run,
}

-- The oldest peer is the host, and the order of joining is that of the table of actors.
pub record IsSettled (s : State) : Type 0 where
  pub oldest : s.host_id ≡ first s.join_order
  pub listed : Map.keys s.actors ≡ s.join_order
  pub unique : Map.IsUnique s.actors
  pub epoch : s.host_id ≡ none → s.pending_host_state ≡ none

-- An actor that joins is new to the room.
abbrev pub IsFresh : Event → State → Type 0
IsFresh (joins id) s = Map.has id s.actors ≡ false
IsFresh _ s = Unit {0}

keys-set :
    (id : Text) (m : Map Text (Unit {0}))
    → Map.has id m ≡ false
    → Map.keys (Map.set id tt m) ≡ Map.keys m ++ id ∷ []
unfolding Map.set Map.lookup
keys-set id [] h = refl
keys-set id ((k, u) ∷ m) h = ground (arith, keys-set id m)

keys-delete :
    (id : Text) (m : Map Text (Unit {0})) → Map.keys (Map.delete id m) ≡ without id (Map.keys m)
unfolding Map.delete without
keys-delete id [] = refl
keys-delete id ((k, u) ∷ m) = ground (arith, keys-delete id m)

first-append : (xs : List Text) (id : Text) → or_host (first xs) id ≡ first (xs ++ id ∷ [])
first-append [] id = refl
first-append (x ∷ xs) id = refl

-- Who is not the first leaves the first where it was.
first-without :
    (id : Text) (xs : List Text) → is_host id (first xs) ≡ false → first (without id xs) ≡ first xs
unfolding without
first-without id [] h = refl
first-without id (x ∷ xs) h = ground (arith, text_key.same_iff id x, text_key.same_iff x id)

or_host-some : (o : Option Text) (id : Text) → or_host o id ≡ none → ⊥
or_host-some none id h = cc
or_host-some (some host) id h = cc

join-IsSettled :
    (issue_for : Text → Text) (id : Text) (s : State)
    → Map.has id s.actors ≡ false
    → IsSettled s
    → IsSettled (step issue_for (joins id) s).0
unfolding step on_join
join-IsSettled issue_for id s h v = record {
  oldest = ap (λ o. or_host o id) v.oldest ∙ first-append s.join_order id;
  listed = keys-set id s.actors h ∙ ap (λ xs. xs ++ id ∷ []) v.listed;
  unique = Map.set-IsUnique id tt s.actors v.unique;
  epoch = λ e. absurd (or_host-some s.host_id id e);
}

leave-IsSettled :
    (issue_for : Text → Text) (id : Text) (s : State)
    → IsSettled s
    → IsSettled (step issue_for (leaves id) s).0
unfolding step on_leave
leave-IsSettled issue_for id s v = elim (Bool-cases (is_host id s.host_id)) [
  | inl t ↦ rw t (record {
    oldest = refl;
    listed = keys-delete id s.actors ∙ ap (without id) v.listed;
    unique = Map.delete-IsUnique id s.actors v.unique;
    epoch = λ e. refl;
  })
  | inr t ↦ rw t (record {
    oldest = v.oldest ∙ sym (first-without id s.join_order (ap (is_host id) (sym v.oldest) ∙ t));
    listed = keys-delete id s.actors ∙ ap (without id) v.listed;
    unique = Map.delete-IsUnique id s.actors v.unique;
    epoch = v.epoch;
  })
]

host-some : (id : Text) (o : Option Text) → is_host id o ≡ true → o ≢ none
host-some id none t h = cc
host-some id (some host) t h = cc

push-IsSettled :
    (issue_for : Text → Text) (id : Text) (decoded : Option (List ℕ)) (s : State)
    → IsSettled s
    → IsSettled (step issue_for (pushes id decoded) s).0
unfolding step receive_host_state
push-IsSettled issue_for id decoded s v = elim (Bool-cases (is_host id s.host_id)) [
  | inl t ↦ rw t (record {
    oldest = v.oldest;
    listed = v.listed;
    unique = v.unique;
    epoch = λ e. absurd (host-some id s.host_id t e);
  })
  | inr t ↦ rw t v
]

step-IsSettled :
    (issue_for : Text → Text) (x : Event) (s : State)
    → IsFresh x s
    → IsSettled s
    → IsSettled (step issue_for x s).0
unfolding step
step-IsSettled issue_for (joins id) s h v = join-IsSettled issue_for id s h v
step-IsSettled issue_for (leaves id) s h v = leave-IsSettled issue_for id s v
step-IsSettled issue_for (relays id target topic payload) s h v = v
step-IsSettled issue_for (pushes id decoded) s h v = push-IsSettled issue_for id decoded s v

-- Every actor that joins along a history is new to the room then.
abbrev pub AreFresh : (Text → Text) → List Event → State → Type 0
AreFresh issue_for [] s = Unit {0}
AreFresh issue_for (x ∷ xs) s = IsFresh x s × AreFresh issue_for xs (step issue_for x s).0

steps-IsSettled :
    (issue_for : Text → Text) (xs : List Event) (s : State)
    → AreFresh issue_for xs s
    → IsSettled s
    → IsSettled (run issue_for xs s).0
unfolding run
steps-IsSettled issue_for [] s h v = v
steps-IsSettled issue_for (x ∷ xs) s h v =
    steps-IsSettled issue_for xs (step issue_for x s).0 h.1 (step-IsSettled issue_for x s h.0 v)

-- Along every history of a new room, if who joins is not in the room yet: the host is the peer that has
-- been in the room for the longest, there is none exactly if the room is empty, the order of joining lists the actors
-- of the room, and no state waits for a handoff while there is no host.
pub run-IsSettled :
    (issue_for : Text → Text) (xs : List Event)
    → AreFresh issue_for xs empty_room
    → IsSettled (run issue_for xs empty_room).0
run-IsSettled issue_for xs h =
    steps-IsSettled issue_for xs empty_room h
      (record { oldest = refl; listed = refl; unique = tt; epoch = λ e. refl })

has-keys :
    (id : Text) (m : Map Text (Unit {0})) (xs ys : List Text)
    → Map.keys m ≡ xs ++ id ∷ ys
    → Map.has id m ≡ true
unfolding Map.lookup
has-keys id [] [] ys h = cc
has-keys id [] (x ∷ xs) ys h = cc
has-keys id ((k, u) ∷ m) [] ys h = ground (arith, text_key.same_iff k id)
has-keys id ((k, u) ∷ m) (x ∷ xs) ys h = let z = has-keys id m xs ys cc in ground arith

distinct :
    (h n : Text) (rest : List Text) (m : Map Text (Unit {0}))
    → Map.IsUnique m
    → Map.keys m ≡ h ∷ n ∷ rest
    → (n == h) ≡ false
unfolding Map.lookup
distinct h n rest [] u k = cc
distinct h n rest ((a, x) ∷ []) u k = cc
distinct h n rest ((a, x) ∷ (b, y) ∷ m) u k =
    let e : a ≡ h = cc in
    let f : b ≡ n = cc in
    let z : (b == a) ≡ false = ground arith in
    subst (λ c. (n == c) ≡ false) e (subst (λ c. (c == a) ≡ false) f z)

-- Of two peers that are listed one after the other the second stays when the first leaves.
successor-stays :
    (h n : Text) (rest : List Text) (m : Map Text (Unit {0}))
    → Map.IsUnique m
    → Map.keys m ≡ h ∷ n ∷ rest
    → Map.has n (Map.delete h m) ≡ true
successor-stays h n rest m u k = ground (
  arith,
  Map.lookup-delete h n m,
  distinct h n rest m u k,
  text_key.same_iff h n,
  text_key.same_iff n h,
  has-keys n m (h ∷ []) rest k,
)

successor-first :
    (h n : Text) (rest : List Text) → (n == h) ≡ false → first (without h (h ∷ n ∷ rest)) ≡ some n
unfolding without
successor-first h n rest d = rw (Map.beq_refl h, d) refl

settled-handoff :
    (issue_for : Text → Text) (h n : Text) (rest : List Text) (bytes : List ℕ) (s : State)
    → IsSettled s
    → s.join_order ≡ h ∷ n ∷ rest
    → s.pending_host_state ≡ some bytes
    → ((step issue_for (leaves h) s).0.host_id ≡ some n)
      × ((step issue_for (leaves h) s).0.pending_host_state ≡ none)
      × ((step issue_for (leaves h) s).1
          ≡ broadcasts host_gone ∷ broadcasts (host_elected n) ∷ sends n (host_state bytes) ∷ [])
unfolding step on_leave send_to
settled-handoff issue_for h n rest bytes s v j p =
    let host : is_host h s.host_id ≡ true =
      ap (is_host h) (v.oldest ∙ ap first j) ∙ Map.beq_refl h in
    let k = v.listed ∙ j in
    let next =
      ap (λ xs. first (without h xs)) j
      ∙ successor-first h n rest (distinct h n rest s.actors v.unique k) in
    rw (host, next, p, successor-stays h n rest s.actors v.unique k) (refl, refl, refl)

-- Along every history of a new room, if who joins is not in the room yet: when the host leaves with its state
-- pushed, the peer that joined next is elected, everyone is told, and the state goes to the elected peer and to no
-- other, once.
pub run-handoff :
    (issue_for : Text → Text) (xs : List Event) (h n : Text) (rest : List Text) (bytes : List ℕ)
    → AreFresh issue_for xs empty_room
    → (run issue_for xs empty_room).0.join_order ≡ h ∷ n ∷ rest
    → (run issue_for xs empty_room).0.pending_host_state ≡ some bytes
    → (let t = step issue_for (leaves h) (run issue_for xs empty_room).0 in
        (t.0.host_id ≡ some n)
        × (t.0.pending_host_state ≡ none)
        × (t.1
            ≡ broadcasts host_gone ∷ broadcasts (host_elected n) ∷ sends n (host_state bytes) ∷ []))
run-handoff issue_for xs h n rest bytes fresh j p =
    settled-handoff issue_for h n rest bytes (run issue_for xs empty_room).0
      (run-IsSettled issue_for xs fresh) j p
