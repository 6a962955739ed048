-- ===== src/Core/Room.antt =====
-- core/src/Room.ts: topics and their listeners, actors that join, send and leave, and the destruction of
-- an empty room. What a room asks of the layer, of its manager and of the event loop is a list of
-- effects. A subclass's hooks are parameters: each maps the room to the room, the effects that it
-- had, and whether it threw. The logger is left out.
pub mod Joins
pub mod Topics
use rivalis.Common.{
  ℕ, zero, suc, ◌≡◌, refl, ap, ◌↔◌, Bool, true, false, List, [], ◌∷◌, ◌++◌, Option, none, some,
  String, string_key, ◌==◌, Key, eqb, eqb_iff, if◌then◌else◌, arith, is_some,
}
use rivalis.Common.Map
use rivalis.Common.Map.{Map}
use rivalis.Common.Result.{Result, ok, err}
use rivalis.Handshake.Utf8
use rivalis.Handshake.Utf8.{Text}

abbrev pub same_text : Text → Text → Bool
same_text [] [] = true
same_text [] (d ∷ ds) = false
same_text (c ∷ cs) [] = false
same_text (c ∷ cs) (d ∷ ds) = if eqb c d then same_text cs ds else false

pub same_text_iff : (s t : Text) → (same_text s t ≡ true) ↔ (s ≡ t)
same_text_iff [] [] = (λ h. refl, λ h. refl)
same_text_iff [] (d ∷ ds) = (λ h. cc, λ h. cc)
same_text_iff (c ∷ cs) [] = (λ h. cc, λ h. cc)
same_text_iff (c ∷ cs) (d ∷ ds) = (
  λ h. ground (arith, eqb_iff c d, same_text_iff cs ds),
  λ h. ground (arith, eqb_iff c d, same_text_iff cs ds),
)

instance abbrev pub text_key : Key Text
text_key = record { same = same_text; same_iff = same_text_iff }

-- "__presence:join".
abbrev pub presence_join_topic : Text
presence_join_topic =
    0x5f ∷ 0x5f ∷ 0x70 ∷ 0x72 ∷ 0x65 ∷ 0x73 ∷ 0x65 ∷ 0x6e ∷ 0x63 ∷ 0x65 ∷ 0x3a ∷ 0x6a ∷ 0x6f ∷ 0x69
    ∷ 0x6e ∷ []

-- "__presence:leave".
abbrev pub presence_leave_topic : Text
presence_leave_topic =
    0x5f ∷ 0x5f ∷ 0x70 ∷ 0x72 ∷ 0x65 ∷ 0x73 ∷ 0x65 ∷ 0x6e ∷ 0x63 ∷ 0x65 ∷ 0x3a ∷ 0x6c ∷ 0x65 ∷ 0x61
    ∷ 0x76 ∷ 0x65 ∷ []

-- "room_destroyed".
abbrev pub room_destroyed : Text
room_destroyed =
    0x72 ∷ 0x6f ∷ 0x6f ∷ 0x6d ∷ 0x5f ∷ 0x64 ∷ 0x65 ∷ 0x73 ∷ 0x74 ∷ 0x72 ∷ 0x6f ∷ 0x79 ∷ 0x65 ∷ 0x64
    ∷ []

-- "invalid_message".
abbrev pub invalid_message : Text
invalid_message =
    0x69 ∷ 0x6e ∷ 0x76 ∷ 0x61 ∷ 0x6c ∷ 0x69 ∷ 0x64 ∷ 0x5f ∷ 0x6d ∷ 0x65 ∷ 0x73 ∷ 0x73 ∷ 0x61 ∷ 0x67
    ∷ 0x65 ∷ []

-- `topic.startsWith('__')`.
abbrev pub is_reserved : Text → Bool
is_reserved (a ∷ b ∷ rest) = if eqb a 0x5f then eqb b 0x5f else false
is_reserved _ = false

-- `'*'`.
abbrev pub wildcard_topic : Text
wildcard_topic = 0x2a ∷ []

pub data UnknownTopicPolicy : Type 0 where
  kick_sender drop_frame : UnknownTopicPolicy

-- A listener is a number. `attached` says that `manager` and `transportLayer`, which are cleared
-- together, are there.
pub record Room (D : Type 0) : Type 0 where
  pub id : String
  pub presence : Bool
  pub unknown_topic_policy : UnknownTopicPolicy
  pub destroy_on_empty : Bool
  pub attached : Bool
  pub topics : Map Text ℕ
  pub wildcard_listener : Option ℕ
  pub actors : Map String D
  pub empty_destroy_scheduled : Bool

pub data Effect : Type 0 where
  sends : String → Text → List ℕ → Effect
  kicks : String → List ℕ → Effect
  queues_microtask : Effect
  destroys : String → Effect

pub data RoomError : Type 0 where
  reserved_topic wildcard_reserved already_bound wildcard_bound hook_threw : RoomError

abbrev pub HookRun : Type 0 → Type 0
HookRun D = Room D × List Effect × Bool

-- The hooks that a subclass overrides. `presence_payload` is what `JSON.stringify` makes of the hook's
-- answer, or `none` if either throws.
pub record Hooks (D : Type 0) : Type 0 where
  pub on_join : String → Room D → HookRun D
  pub on_leave : String → D → Room D → HookRun D
  pub on_destroy : Room D → HookRun D
  pub listener : ℕ → String → Text → List ℕ → Room D → HookRun D
  pub presence_payload : String → D → Option Text

unfoldable pub assert_bindable_topic : Text → Option RoomError
assert_bindable_topic topic =
    if is_reserved topic
    then some reserved_topic
    else if topic == wildcard_topic
    then some wildcard_reserved
    else none

abbrev pub send_each : List String → Text → List ℕ → List Effect
send_each [] topic payload = []
send_each (a ∷ actors) topic payload = sends a topic payload ∷ send_each actors topic payload

abbrev pub kick_each : List String → List ℕ → List Effect
kick_each [] payload = []
kick_each (a ∷ actors) payload = kicks a payload ∷ kick_each actors payload

-- `this.topics.get(topic) ?? this.wildcardListener`.
abbrev pub listener_of : Option ℕ → Option ℕ → Option ℕ
listener_of (some l) wildcard = some l
listener_of none wildcard = wildcard

module _ {D : Type 0} where
  unfoldable pub bind : Text → ℕ → Room D → Result RoomError (Room D)
  bind topic listener r = elim (assert_bindable_topic topic) [
    | some e ↦ err e
    | none ↦
        if Map.has topic r.topics
        then err already_bound
        else ok (record r { topics = Map.set topic listener r.topics })
  ]

  unfoldable pub unbind : Text → Room D → Result RoomError (Room D × Bool)
  unbind topic r = elim (assert_bindable_topic topic) [
    | some e ↦ err e
    | none ↦ ok (record r { topics = Map.delete topic r.topics }, Map.has topic r.topics)
  ]

  unfoldable pub bind_any : ℕ → Room D → Result RoomError (Room D)
  bind_any listener r =
      if is_some r.wildcard_listener
      then err wildcard_bound
      else ok (record r { wildcard_listener = some listener })

  unfoldable pub unbind_any : Room D → Room D × Bool
  unbind_any r =
      if is_some r.wildcard_listener
      then (record r { wildcard_listener = none }, true)
      else (r, false)

  unfoldable pub send : String → Text → List ℕ → Room D → List Effect
  send actor_id topic payload r = if r.attached then sends actor_id topic payload ∷ [] else []

  unfoldable pub broadcast : Text → List ℕ → Room D → List Effect
  broadcast topic payload r = if r.attached then send_each (Map.keys r.actors) topic payload else []

  unfoldable pub kick : String → List ℕ → Room D → List Effect
  kick actor_id payload r = if r.attached then kicks actor_id payload ∷ [] else []

  unfoldable pub destroy : Room D → List Effect
  destroy r = if r.attached then destroys r.id ∷ [] else []

  abbrev pub unknown : UnknownTopicPolicy → String → Room D → List Effect
  unknown drop_frame actor_id r = []
  unknown kick_sender actor_id r = kick actor_id (Utf8.encode invalid_message) r

  unfoldable pub schedule_destroy_on_empty : Room D → Room D × List Effect
  schedule_destroy_on_empty r =
      if r.empty_destroy_scheduled
      then (r, [])
      else (record r { empty_destroy_scheduled = true }, queues_microtask ∷ [])

  unfoldable pub after_leave : Room D → Room D × List Effect
  after_leave r =
      if r.destroy_on_empty
      then (if eqb (Map.size r.actors) 0 then schedule_destroy_on_empty r else (r, []))
      else (r, [])

  -- The callback that `scheduleDestroyOnEmpty` queues.
  unfoldable pub microtask : Room D → Room D × List Effect
  microtask r =
      let r' = record r { empty_destroy_scheduled = false } in
      if r.attached
      then (if eqb (Map.size r.actors) 0 then (r', destroys r.id ∷ []) else (r', []))
      else (r', [])

  module _ (hooks : Hooks D) where
    -- A presence broadcast whose payload throws is given up.
    unfoldable pub announce : Text → String → D → Room D → List Effect
    announce topic actor_id info r = elim (hooks.presence_payload actor_id info) [
      | none ↦ []
      | some payload ↦ broadcast topic (Utf8.encode payload) r
    ]

    unfoldable pub handle_destroy : Room D → Room D × List Effect
    handle_destroy r =
        let kicked =
          if r.attached then kick_each (Map.keys r.actors) (Utf8.encode room_destroyed) else [] in
        let (r', effects, threw) = hooks.on_destroy r in
        (
          record r' { actors = []; topics = []; wildcard_listener = none; attached = false },
          kicked ++ effects,
        )

    -- A throw goes on to the caller, after the actor is dropped.
    unfoldable pub handle_join : String → D → Room D → Room D × List Effect × Option RoomError
    handle_join actor_id info r =
        let (r', effects, threw) =
          hooks.on_join actor_id (record r { actors = Map.set actor_id info r.actors }) in
        if threw
        then (record r' { actors = Map.delete actor_id r'.actors }, effects, some hook_threw)
        else if r'.presence
        then (r', effects ++ announce presence_join_topic actor_id info r', none)
        else (r', effects, none)

    unfoldable pub dispatch : Option ℕ → String → Text → List ℕ → Room D → Room D × List Effect
    dispatch none actor_id topic payload r = (r, unknown r.unknown_topic_policy actor_id r)
    dispatch (some l) actor_id topic payload r =
        let (r', effects, threw) = hooks.listener l actor_id topic payload r in (r', effects)

    unfoldable pub handle_message : String → Text → List ℕ → Room D → Room D × List Effect
    handle_message actor_id topic payload r =
        if Map.has actor_id r.actors
        then dispatch (listener_of (Map.lookup topic r.topics) r.wildcard_listener) actor_id topic
            payload r
        else (r, [])

    unfoldable pub handle_leave : String → Room D → Room D × List Effect
    handle_leave actor_id r = elim (Map.lookup actor_id r.actors) [
      | none ↦ (record r { actors = Map.delete actor_id r.actors }, [])
      | some info ↦
          let (r', effects, threw) =
            hooks.on_leave actor_id info (record r { actors = Map.delete actor_id r.actors }) in
          let announced =
            if r'.presence then announce presence_leave_topic actor_id info r' else [] in
          let (r'', scheduled) = after_leave r' in (r'', effects ++ (announced ++ scheduled))
    ]
