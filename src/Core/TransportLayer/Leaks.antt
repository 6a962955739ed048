-- ===== src/Core/TransportLayer/Leaks.antt =====
-- core/src/TLayer.ts: how much the layer keeps back, and for which actors.
use rivalis.Common.{
  ℕ, ◌≤◌, ◌≡◌, refl, true, List, [], ◌∷◌, ◌++◌, some, String, string_key, leb, ltb, length, arith,
  length-append, Option-cases, Bool-cases, inl, inr,
}
use rivalis.Common.Map
use rivalis.Common.Map.{Map}
use rivalis.Core.TransportLayer.{
  EventKey, message_of, kick_of, event_key, same_event_iff, EventEmitter, Layer, actor_of,
  max_pending, fire, fire_all, flush_pending, on, once, buffer, emit, enter, forget, or_empty,
}

-- Short queues, of actors that are registered.
abbrev pub Kept : Map String String → Map EventKey (List (List ℕ)) → Type 0
Kept rooms pending =
    (key : EventKey) (queue : List (List ℕ))
    → Map.lookup key pending ≡ some queue
    → (length queue ≤ max_pending) × (Map.has (actor_of key) rooms ≡ true)

abbrev pub IsKept : {E : Type 0} → Layer E → Type 0
IsKept l = Kept l.room_ids l.pending

Kept-delete :
    (key : EventKey) (rooms : Map String String) (pending : Map EventKey (List (List ℕ)))
    → Kept rooms pending
    → Kept rooms (Map.delete key pending)
Kept-delete key rooms pending h j q t = ground (arith, Map.lookup-delete key j pending, h j q)

Kept-set :
    (key : EventKey) (queue : List (List ℕ)) (rooms : Map String String)
    (pending : Map EventKey (List (List ℕ)))
    → length queue ≤ max_pending
    → Map.has (actor_of key) rooms ≡ true
    → Kept rooms pending
    → Kept rooms (Map.set key queue pending)
Kept-set key queue rooms pending b a h j q t =
    ground (arith, Map.lookup-set key j queue pending, h j q, same_event_iff key j)

Kept-enter :
    (actor_id room_id : String) (rooms : Map String String) (pending : Map EventKey (List (List ℕ)))
    → Kept rooms pending
    → Kept (Map.set actor_id room_id rooms) pending
Kept-enter actor_id room_id rooms pending h j q t =
    ground (arith, h j q t, Map.lookup-set actor_id (actor_of j) room_id rooms)

Kept-forget :
    (actor_id : String) (rooms : Map String String) (pending : Map EventKey (List (List ℕ)))
    → Kept rooms pending
    → Kept
        (Map.delete actor_id rooms)
        (Map.delete (kick_of actor_id) (Map.delete (message_of actor_id) pending))
Kept-forget actor_id rooms pending h (message_of b) q t = ground (
  arith,
  h (message_of b) q,
  Map.lookup-delete actor_id b rooms,
  Map.lookup-delete (kick_of actor_id) (message_of b) (Map.delete (message_of actor_id) pending),
  Map.lookup-delete (message_of actor_id) (message_of b) pending,
)
Kept-forget actor_id rooms pending h (kick_of b) q t = ground (
  arith,
  h (kick_of b) q,
  Map.lookup-delete actor_id b rooms,
  Map.lookup-delete (kick_of actor_id) (kick_of b) (Map.delete (message_of actor_id) pending),
  Map.lookup-delete (message_of actor_id) (kick_of b) pending,
)

module _ {E : Type 0} (m : EventEmitter E) where
  fire_all-keeps :
      (key : EventKey) (frames : List (List ℕ)) (l : Layer E)
      → ((fire_all m key frames l).pending ≡ l.pending)
        × ((fire_all m key frames l).room_ids ≡ l.room_ids)
  unfolding fire_all fire
  fire_all-keeps key [] l = (refl, refl)
  fire_all-keeps key (f ∷ fs) l = fire_all-keeps key fs (fire m key f l)

  flush-IsKept : (key : EventKey) (l : Layer E) → IsKept l → IsKept (flush_pending m key l)
  unfolding flush_pending
  flush-IsKept key l h = elim (Option-cases (Map.lookup key l.pending)) [
    | inl e ↦ rw (e, flush_pending) h
    | inr (queue, e) ↦
        let (p, r) = fire_all-keeps key queue (record l { pending = Map.delete key l.pending }) in
        rw (e, flush_pending, p, r) (Kept-delete key l.room_ids l.pending h)
  ]

  room_left :
      (key : EventKey) (l : Layer E)
      → IsKept l
      → length (or_empty (Map.lookup key l.pending)) ≤ max_pending
  room_left key l h = elim (Option-cases (Map.lookup key l.pending)) [
    | inl e ↦ rw e (omega arith)
    | inr (queue, e) ↦ rw e ((h key queue e).0)
  ]

  buffer-IsKept :
      (key : EventKey) (frame : List ℕ) (l : Layer E)
      → Map.has (actor_of key) l.room_ids ≡ true
      → IsKept l
      → IsKept (buffer m key frame l)
  unfolding buffer
  buffer-IsKept key frame l a h =
      let queue = or_empty (Map.lookup key l.pending) in
      let b = room_left key l h in
      elim (Bool-cases (leb max_pending (length queue))) [
        | inl t ↦ rw t (Kept-set key queue l.room_ids l.pending b a h)
        | inr t ↦ rw t (
            Kept-set key (queue ++ frame ∷ []) l.room_ids l.pending
              (ground (arith, length-append queue (frame ∷ []))) a h)
      ]

  emit-IsKept :
      (key : EventKey) (frame : List ℕ) (l : Layer E) → IsKept l → IsKept (emit m key frame l)
  unfolding emit fire
  emit-IsKept key frame l h = elim (Bool-cases (ltb 0 (m.listener_count key l.emitter))) [
    | inl t ↦ rw t h
    | inr t ↦ elim (Bool-cases (Map.has (actor_of key) l.room_ids)) [
      | inl a ↦ rw (t, a) (buffer-IsKept key frame l a h)
      | inr a ↦ rw (t, a) h
    ]
  ]

  -- What happens to the layer. `emits` is a `send` or a `kick`.
  pub data Event : Type 0 where
    listens listens_once : EventKey → Event
    emits : EventKey → List ℕ → Event
    enters : String → String → Event
    leaves : String → Event

  unfoldable pub step : Event → Layer E → Layer E
  step (listens key) l = on m key l
  step (listens_once key) l = once m key l
  step (emits key frame) l = emit m key frame l
  step (enters actor_id room_id) l = enter m actor_id room_id l
  step (leaves actor_id) l = forget m actor_id l

  unfoldable pub run_events : List Event → Layer E → Layer E
  unfolding step
  run_events [] l = l
  run_events (e ∷ es) l = run_events es (step e l)

  step-IsKept : (e : Event) (l : Layer E) → IsKept l → IsKept (step e l)
  unfolding step on once enter forget
  step-IsKept (listens key) l h = flush-IsKept key (record l { emitter = m.listen key l.emitter }) h
  step-IsKept (listens_once key) l h =
      flush-IsKept key (record l { emitter = m.listen_once key l.emitter }) h
  step-IsKept (emits key frame) l h = emit-IsKept key frame l h
  step-IsKept (enters actor_id room_id) l h = Kept-enter actor_id room_id l.room_ids l.pending h
  step-IsKept (leaves actor_id) l h = Kept-forget actor_id l.room_ids l.pending h

  -- From a layer of which it holds, and over every sequence of listeners added, frames emitted, and
  -- actors entering and leaving: a queue holds 256 frames at most, and only actors that are registered
  -- have queues, so that nothing is kept for an actor that left.
  pub run_events-IsKept : (es : List Event) (l : Layer E) → IsKept l → IsKept (run_events es l)
  unfolding run_events
  run_events-IsKept [] l h = h
  run_events-IsKept (e ∷ es) l h = run_events-IsKept es (step e l) (step-IsKept e l h)
