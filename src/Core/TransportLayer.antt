-- ===== src/Core/TransportLayer.antt =====
-- core/src/TLayer.ts: frames on their way out to actors, and the registration of actors. The event
-- emitter is a package of its own; the layer uses the operations of `EventEmitter`.
pub mod Pending
pub mod Leaks
pub mod Capabilities
use rivalis.Common.{
  ℕ, zero, suc, ◌≡◌, refl, ap, ◌↔◌, Bool, true, false, List, [], ◌∷◌, ◌++◌, Option, none, some,
  String, string_key, ◌==◌, Key, leb, ltb, length, eqb, take, bit_and, arith, if◌then◌else◌, min,
  ◌&&◌,
}
use mathlib.Core.List.{reverse}
use rivalis.Common.Map
use rivalis.Common.Map.{Map}
use rivalis.Common.Result.{Result, ok, ◌>>=◌}
use rivalis.Handshake.Utf8.{Text}
use rivalis.Handshake.Reader.{WireError}
use rivalis.Handshake.Value.{Coercions}
use rivalis.Handshake.Message
use rivalis.Handshake.CloseFrame.{max_close_reason_bytes}
use text.Mathlib.TextEquality.{eq_iff}

-- `${event}:${actorId}` for the two events. No event has a colon, so the key determines both parts.
pub data EventKey : Type 0 where
  message_of kick_of : String → EventKey

abbrev pub same_event : EventKey → EventKey → Bool
same_event (message_of a) (message_of b) = a == b
same_event (message_of a) (kick_of b) = false
same_event (kick_of a) (message_of b) = false
same_event (kick_of a) (kick_of b) = a == b

pub same_event_iff : (j k : EventKey) → (same_event j k ≡ true) ↔ (j ≡ k)
same_event_iff (message_of a) (message_of b) =
    (λ h. ap message_of ((eq_iff a b).0 h), λ h. ground (arith, eq_iff a b))
same_event_iff (message_of a) (kick_of b) = (λ h. cc, λ h. cc)
same_event_iff (kick_of a) (message_of b) = (λ h. cc, λ h. cc)
same_event_iff (kick_of a) (kick_of b) =
    (λ h. ap kick_of ((eq_iff a b).0 h), λ h. ground (arith, eq_iff a b))

instance abbrev pub event_key : Key EventKey
event_key = record { same = same_event; same_iff = same_event_iff }

-- The emitter's operations. `fire` is its `emit`.
pub record EventEmitter (E : Type 0) : Type 0 where
  pub listen : EventKey → E → E
  pub listen_once : EventKey → E → E
  pub listener_count : EventKey → E → ℕ
  pub fire : EventKey → List ℕ → E → E
  pub remove_all : EventKey → E → E

pub record TransportCapability : Type 0 where
  pub ordered : Bool
  pub reliable : Bool
  pub max_frame_bytes : Option ℕ

-- `?? []`.
abbrev pub or_empty : Option (List (List ℕ)) → List (List ℕ)
or_empty none = []
or_empty (some queue) = queue

-- The layer's state. `delivered` is no field of the source: it lists the frames that reached a
-- listener, in order.
pub record Layer (E : Type 0) : Type 0 where
  pub room_ids : Map String String
  pub emitter : E
  pub pending : Map EventKey (List (List ℕ))
  pub capabilities : Option TransportCapability
  pub delivered : List (EventKey × List ℕ)

abbrev pub max_pending : ℕ
max_pending = 256

abbrev pub actor_of : EventKey → String
actor_of (message_of a) = a
actor_of (kick_of a) = a

abbrev pub min_limit : Option ℕ → Option ℕ → Option ℕ
min_limit none b = b
min_limit (some a) none = some a
min_limit (some a) (some b) = some (min a b)

abbrev pub merge : Option TransportCapability → TransportCapability → TransportCapability
merge none caps = caps
merge (some prev) caps = record {
  ordered = prev.ordered && caps.ordered;
  reliable = prev.reliable && caps.reliable;
  max_frame_bytes = min_limit prev.max_frame_bytes caps.max_frame_bytes;
}

unfoldable pub register_capabilities : {E : Type 0} → TransportCapability → Layer E → Layer E
register_capabilities caps l = record l { capabilities = some (merge l.capabilities caps) }

-- The loop of `truncateCloseReason`: the last byte kept is `payload[end - 1]`, which is first of
-- `back`, the bytes before `end` in reverse.
unfoldable pub boundary : List ℕ → ℕ
boundary [] = 0
boundary (b ∷ back) =
    let rest = boundary back in
    if eqb (bit_and b 0x80) 0
    then suc (length back)
    else if eqb (bit_and b 0xc0) 0xc0
    then length back
    else rest

unfoldable pub truncate_close_reason : List ℕ → List ℕ
unfolding boundary
truncate_close_reason payload =
    if leb (length payload) max_close_reason_bytes
    then payload
    else take (boundary (reverse (take max_close_reason_bytes payload))) payload

module _ {E : Type 0} (m : EventEmitter E) where
  -- `this.emitter.emit(eventKey, actorId, message)`.
  unfoldable pub fire : EventKey → List ℕ → Layer E → Layer E
  fire key frame l = record l {
    emitter = m.fire key frame l.emitter;
    delivered =
        if ltb 0 (m.listener_count key l.emitter)
        then l.delivered ++ (key, frame) ∷ []
        else l.delivered;
  }

  unfoldable pub fire_all : EventKey → List (List ℕ) → Layer E → Layer E
  unfolding fire
  fire_all key [] l = l
  fire_all key (frame ∷ frames) l = fire_all key frames (fire key frame l)

  unfoldable pub flush_pending : EventKey → Layer E → Layer E
  unfolding fire_all
  flush_pending key l = elim (Map.lookup key l.pending) [
    | none ↦ l
    | some queue ↦ fire_all key queue (record l { pending = Map.delete key l.pending })
  ]

  unfoldable pub on : EventKey → Layer E → Layer E
  unfolding flush_pending
  on key l = flush_pending key (record l { emitter = m.listen key l.emitter })

  unfoldable pub once : EventKey → Layer E → Layer E
  unfolding flush_pending
  once key l = flush_pending key (record l { emitter = m.listen_once key l.emitter })

  -- A new queue goes into the map before the test of its length.
  unfoldable pub buffer : EventKey → List ℕ → Layer E → Layer E
  buffer key frame l =
      let queue = or_empty (Map.lookup key l.pending) in
      if leb max_pending (length queue)
      then record l { pending = Map.set key queue l.pending }
      else record l { pending = Map.set key (queue ++ frame ∷ []) l.pending }

  unfoldable pub emit : EventKey → List ℕ → Layer E → Layer E
  unfolding fire buffer
  emit key frame l =
      if ltb 0 (m.listener_count key l.emitter)
      then fire key frame l
      else if Map.has (actor_of key) l.room_ids
      then buffer key frame l
      else l

  -- What `encode` throws, `send` throws before it changes anything.
  unfoldable pub send : Coercions → String → Text → List ℕ → Layer E → Result WireError (Layer E)
  unfolding emit
  send js actor_id topic payload l =
      Message.encode js topic payload >>= λ frame. ok (emit (message_of actor_id) frame l)

  unfoldable pub kick : String → List ℕ → Layer E → Layer E
  unfolding emit truncate_close_reason
  kick actor_id payload l = emit (kick_of actor_id) (truncate_close_reason payload) l

  -- `this.roomIds.set(actorId, roomId)` of `grantAccess`.
  unfoldable pub enter : String → String → Layer E → Layer E
  enter actor_id room_id l = record l { room_ids = Map.set actor_id room_id l.room_ids }

  -- What `handleClose`, and `grantAccess` when the join throws, drop of the layer's own state.
  unfoldable pub forget : String → Layer E → Layer E
  forget actor_id l = record l {
    room_ids = Map.delete actor_id l.room_ids;
    emitter = m.remove_all (kick_of actor_id) (m.remove_all (message_of actor_id) l.emitter);
    pending = Map.delete (kick_of actor_id) (Map.delete (message_of actor_id) l.pending);
  }
