-- ===== src/Core/RoomExamples.antt =====
-- Rooms of actors that carry a number, with hooks that do nothing.
use rivalis.Common.{ℕ, ◌≡◌, refl, true, false, List, [], ◌∷◌, none, some, string_key}
use rivalis.Common.Map
use rivalis.Common.Result.{ok, err}
use rivalis.Core.Room.{
  Room, Hooks, kick_sender, hook_threw, text_key, handle_join, handle_leave, handle_destroy,
  microtask,
}
use rivalis.Core.Room.Topics.{
  Unreserved, TopicCall, binds, unbinds, call_topics, call_topics-Unreserved,
}
use rivalis.Core.Room.Joins.{KeepsActors, leave-join, microtask-join}
use rivalis.Core.RoomManager.{RoomClass, RoomManager, create, destroy, created, destroyed, id_taken}
use rivalis.Core.RoomManager.Registry.{create-destroy}

abbrev lobby : Room ℕ
lobby = record {
  id = "lobby";
  presence = true;
  unknown_topic_policy = kick_sender;
  destroy_on_empty = true;
  attached = true;
  topics = [];
  wildcard_listener = none;
  actors = ("bob", 2) ∷ [];
  empty_destroy_scheduled = true;
}

abbrev hooks : Hooks ℕ
hooks = record {
  on_join = λ id r. (r, [], false);
  on_leave = λ id info r. (r, [], false);
  on_destroy = λ r. (r, [], false);
  listener = λ l id topic payload r. (r, [], false);
  presence_payload = λ id info. some [];
}

-- A room that takes nobody in.
abbrev closed : Hooks ℕ
closed = record hooks { on_join = λ id r. (r, [], true) }

closed-KeepsActors : KeepsActors closed
closed-KeepsActors = (λ id r. refl, λ id info r. refl)

hooks-KeepsActors : KeepsActors hooks
hooks-KeepsActors = (λ id r. refl, λ id info r. refl)

lobby_fresh : Map.has "ann" lobby.actors ≡ false
unfolding Map.lookup
lobby_fresh = refl

leave-join_closed :
    ((handle_join closed "ann" 1 lobby).2 ≡ some hook_threw)
    × ((handle_join closed "ann" 1 lobby).0.actors ≡ lobby.actors)
leave-join_closed =
    let (e, a, b) = leave-join closed "ann" 1 lobby closed-KeepsActors lobby_fresh in (e, a)

leave-join_example :
    ((handle_join hooks "ann" 1 lobby).2 ≡ none)
    × ((handle_join hooks "ann" 1 lobby).0.actors ≡ Map.set "ann" 1 lobby.actors)
    × ((handle_leave hooks "ann" (handle_join hooks "ann" 1 lobby).0).0.actors ≡ lobby.actors)
leave-join_example = leave-join hooks "ann" 1 lobby hooks-KeepsActors lobby_fresh

lobby_joined : (handle_join hooks "ann" 1 lobby).2 ≡ none
unfolding handle_join
lobby_joined = refl

microtask-join_example : (microtask (handle_join hooks "ann" 1 lobby).0).1 ≡ []
microtask-join_example = microtask-join hooks "ann" 1 lobby hooks-KeepsActors lobby_joined

lobby-Unreserved : Unreserved lobby.topics
unfolding Map.lookup
lobby-Unreserved topic h = cc

-- "hi", and "__x".
abbrev calls : List TopicCall
calls =
    binds (0x68 ∷ 0x69 ∷ []) 1 ∷ binds (0x5f ∷ 0x5f ∷ 0x78 ∷ []) 2 ∷ unbinds (0x68 ∷ 0x69 ∷ []) ∷ []

call_topics-Unreserved_example : Unreserved (call_topics calls lobby).topics
call_topics-Unreserved_example = call_topics-Unreserved calls lobby lobby-Unreserved

abbrev lobby_class : RoomClass ℕ
lobby_class = record { construct = λ id. record lobby { id = id }; hooks = hooks }

abbrev quiz_class : RoomClass ℕ
quiz_class = record { construct = λ id. record lobby { id = id; presence = false }; hooks = closed }

abbrev manager : RoomManager ℕ
manager = record { defs = ("chat", lobby_class) ∷ ("quiz", quiz_class) ∷ []; rooms = [] }

chat_lem : Map.lookup "chat" manager.defs ≡ some lobby_class
unfolding Map.lookup
chat_lem = refl

free_lem : Map.has "r1" manager.rooms ≡ false
unfolding Map.lookup
free_lem = refl

create-destroy_example :
    let made = record manager {
      rooms = Map.set "r1" (lobby_class, lobby_class.construct "r1") manager.rooms;
    } in
    (create "x9" "chat" (some "r1") manager ≡ ok (made, created "r1" "chat"))
    × (create "x9" "quiz" (some "r1") made ≡ err (id_taken "r1"))
    × (destroy "r1" made
        ≡ ok (manager, (handle_destroy hooks (lobby_class.construct "r1")).1, destroyed "r1"))
unfolding Map.lookup
create-destroy_example =
    create-destroy "x9" "chat" "quiz" (some "r1") lobby_class manager chat_lem free_lem
