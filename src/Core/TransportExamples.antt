-- ===== src/Core/TransportExamples.antt =====
-- The transport layer on concrete frames.
use rivalis.Common.{
  ℕ, ◌+◌, ◌≡◌, refl, true, List, [], ◌∷◌, ◌++◌, none, string_key, ◌==◌, take, if◌then◌else◌, arith,
}
use rivalis.Common.Map
use rivalis.Core.TransportLayer.{
  EventKey, message_of, kick_of, event_key, EventEmitter, Layer, max_pending, on,
}
use rivalis.Core.TransportLayer.Pending.{KeepsListeners, fires, emit_all, tagged, on-delivers}
use rivalis.Core.TransportLayer.Leaks.{
  IsKept, listens, emits, enters, leaves, run_events, run_events-IsKept,
}

-- The listeners that stay, and those that go with the next event.
abbrev Listeners : Type 0
Listeners = List EventKey × List EventKey

abbrev count : EventKey → List EventKey → ℕ
count k [] = 0
count k (j ∷ js) = if j == k then 1 + count k js else count k js

abbrev without : EventKey → List EventKey → List EventKey
without k [] = []
without k (j ∷ js) = if j == k then without k js else j ∷ without k js

abbrev emitter : EventEmitter Listeners
emitter = record {
  listen = λ k e. (k ∷ e.0, e.1);
  listen_once = λ k e. (e.0, k ∷ e.1);
  listener_count = λ k e. count k e.0 + count k e.1;
  fire = λ k frame e. (e.0, without k e.1);
  remove_all = λ k e. (without k e.0, without k e.1);
}

fires-keep :
    (k : EventKey) (frames : List (List ℕ)) (e : Listeners) → (fires emitter k frames e).0 ≡ e.0
fires-keep k [] e = refl
fires-keep k (f ∷ fs) e = fires-keep k fs (e.0, without k e.1)

emitter-KeepsListeners : KeepsListeners emitter
emitter-KeepsListeners k frames e =
    ground (arith, fires-keep k frames (k ∷ e.0, e.1), Map.beq_refl k)

abbrev joined : Layer Listeners
joined = record {
  room_ids = ("ann", "lobby") ∷ [];
  emitter = ([], []);
  pending = [];
  capabilities = none;
  delivered = [];
}

joined_none : Map.lookup (message_of "ann") joined.pending ≡ none
unfolding Map.lookup
joined_none = refl

joined_has : Map.has "ann" joined.room_ids ≡ true
unfolding Map.lookup
joined_has = refl

on-delivers_example :
    ((on emitter
        (message_of "ann")
        (emit_all emitter (message_of "ann") ((1 ∷ []) ∷ (2 ∷ []) ∷ []) joined)).delivered
      ≡ [] ++ tagged emitter (message_of "ann") (take max_pending ((1 ∷ []) ∷ (2 ∷ []) ∷ [])))
    × (Map.lookup
          (message_of "ann")
          (on emitter
            (message_of "ann")
            (emit_all emitter (message_of "ann") ((1 ∷ []) ∷ (2 ∷ []) ∷ []) joined)).pending
        ≡ none)
on-delivers_example =
    on-delivers emitter (message_of "ann") ((1 ∷ []) ∷ (2 ∷ []) ∷ []) joined emitter-KeepsListeners
      refl joined_has joined_none

joined-IsKept : IsKept joined
unfolding Map.lookup
joined-IsKept key queue h = cc

run_events-IsKept_example : IsKept (
    run_events emitter
      (enters "bob" "lobby"
        ∷ emits (message_of "bob") (7 ∷ [])
        ∷ leaves "bob"
        ∷ listens (kick_of "ann")
        ∷ [])
      joined)
run_events-IsKept_example =
    run_events-IsKept emitter
      (enters "bob" "lobby"
        ∷ emits (message_of "bob") (7 ∷ [])
        ∷ leaves "bob"
        ∷ listens (kick_of "ann")
        ∷ [])
      joined joined-IsKept
