-- ===== src/Lib.antt =====
-- rivalis: a realtime game server. This library models its core logic and proves it correct.
--
-- Parts. `handshake/src` is the binary wire format that servers and clients share: LEB128 varints, a
-- schema-driven serializer over them, and three users of the serializer (the realtime frame, the
-- versioned codec and the close frame). `core/src` is the server: transports pass frames to the
-- transport layer, which admits actors to rooms and charges each frame to a rate limiter; rooms send
-- through the layer, and the manager makes and destroys them. `node/src/peer` carries frames over data
-- channels, whose messages are small. `signal/src` is the room in which peers find each other and a
-- host. `fleet/src` commands many servers from one orchestrator: servers report snapshots to a read
-- model, which places new rooms, and hold or give back what a create has reserved as its command is
-- settled.
--
-- Files.
--   Common          shared names, Boolean tests, lists, byte masks, integers, results
--   Common/Map      JavaScript's Map: an association list in insertion order
--   Handshake/Utf8  the platform's TextEncoder and TextDecoder, on lists of code points
--   Handshake/Writer, Handshake/Reader
--                   handshake/src/wire/varint.ts: `Writer.grow`, `varint`, `len_bytes` (lenBytes), `done`;
--                   `Reader.varint`, `take_bytes` (take). The reader is the bytes that are left.
--   Handshake/Value handshake/src/wire/types.ts and the JavaScript values that the serializer handles
--   Handshake/Serializer
--                   handshake/src/wire/serializer.ts: `define`, `fields_of`, `write`, `write_field`, `read`,
--                   `read_value`, `default_for`, `encode`, `decode`. Serializer/Reference has the wire
--                   format as plain byte lists (`emit`) and what a decoder recovers (`view`).
--   Handshake/Message, Handshake/Codec, Handshake/CloseFrame
--                   handshake/src/message.ts, codec.ts, closeFrame.ts
--   Core/TokenBucket
--                   core/src/TokenBucketRateLimiter.ts: `create` (the constructor), `check`, `release`,
--                   `sweep_idle`, `evict_over_cap`
--   Core/TransportLayer
--                   core/src/TLayer.ts: `on`, `once`, `emit`, `flush_pending`, `send`, `kick`,
--                   `register_capabilities`, `truncate_close_reason`; `enter` and `forget` are what
--                   grantAccess and handleClose do to the layer's own tables
--   Core/Room       core/src/Room.ts: `bind`, `unbind`, `bind_any`, `handle_join` (handleJoin),
--                   `handle_message`, `handle_leave`, `handle_destroy`, `microtask` (the callback of
--                   scheduleDestroyOnEmpty). Effects on the layer and the manager are values.
--   Core/RoomManager
--                   core/src/RoomManager.ts: `define`, `create`, `destroy`
--   Rtc/Chunker, Rtc/Reassembler
--                   node/src/peer/RtcFrameChunker.ts: `chunk_frame`, `decode_chunk_payload`,
--                   `is_chunk_frame`; `feed`, `clear`, `expire` (the timer's callback)
--   Fleet/CommandEngine
--                   fleet/src/orchestrator/CommandEngine.ts: `send`, `ack`, `time_out`, `reject_all`,
--                   `settle`. What it does to promises, timers and reservations is a list of actions.
--   Fleet/Model     fleet/src/domain/types.ts and the snapshot of fleet/src/wire/payloads.ts
--   Fleet/RoomId    fleet/src/domain/roomId.ts: `encode_room_id`, `namespace_room_id`, `is_valid_room_id`
--   Fleet/FleetState
--                   fleet/src/orchestrator/FleetState.ts: the state, `reserve`, `release` and
--                   `clear_pending_visibility`; in its children Changes (`apply_snapshot`, `touch`,
--                   `remove_instance`, `set_stale`, `set_pending_status`), Resolve (`resolve`), Queries,
--                   Stats (`stats`), RoomIds (`reserve_room_id`, `hold_until_visible`) and Placement (`place`, `pick`).
--                   FleetState/History is what can happen to the state, in any order.
--   Fleet/EventReconciler, Fleet/Poller, Fleet/FleetControl
--                   fleet/src/orchestrator/EventReconciler.ts, Poller.ts and FleetControl.ts; FleetControl
--                   runs the command engine's actions on FleetState
--   Fleet/Snapshot  fleet/src/agent/Snapshot.ts: `build_content`, `poll_reply`; the hash is a parameter
--   Fleet/Sync      fleet/src/orchestrator/Orchestrator.ts: `handle_state` (handleState)
--   Signal/SignalRoom
--                   signal/src/SignalRoom.ts: `on_join`, `on_leave`, `relay`, `receive_host_state`
--   Handshake/Examples, Core/Examples, Core/TransportExamples, Core/RoomExamples, Rtc/Examples,
--   Fleet/Examples, Fleet/StateExamples, Fleet/ControlExamples, Fleet/SyncExamples,
--   Signal/Examples
--                   the theorems at concrete inputs
--
-- Conventions. A `throw` is an `err` of Common/Result; `stuck` is a run without an end, which the source
-- shows as a stack overflow. The clock is an argument. Strings are lists of code points (`Text`), except
-- for keys and identifiers, which are compared only.
--
-- Bounds and fuel. The reader's numbers are doubles: exact below 2^53 and rounded half to even above,
-- so a round trip asks that a message has less than 2^53 bytes. A field key is `tag << 3`, so a type has
-- less than 2^28 fields. Values of number fields are integers. The writer recurses on the depth to which
-- messages nest; the theorems hold at every depth at which the reference encoding exists. The reader's
-- fuel is one more than the number of bytes, and never runs out. The limiter counts thousandths of
-- tokens, so that a refill per millisecond is a whole number; its sums are exact, where the source adds
-- doubles.
--
-- The event emitter of the transport layer belongs to another package: the layer uses its operations,
-- and theorems ask of it that a listener stays until it is removed. The ids `cmd_N`, `res_N` and `poll_N`
-- are the number N, and timers are numbers.
--
-- The read model keeps no memo: a query resolves the ids anew. Loads are exact fractions, and strings are
-- compared by code point, where JavaScript divides doubles and compares UTF-16 units; they agree below
-- 2^26 connections and U+10000. A draw of `random()` is its 53 bits. A room's place in the list of
-- entries stands for the identity of the object. A generated room id takes at most 1000 attempts, the
-- source's own bound.
--
-- Not modelled. What `String(value)` and `value >>> 0` make of values that are neither strings nor
-- numbers is a parameter (`Coercions`). Not modelled are prototype properties of messages (a field called
-- `__proto__`), `grantAccess` and `handleMessage` of the transport layer as a whole, the 64-bit hash of
-- the read model (what is hashed is modelled, the hash is a parameter of `stats`), the rest of the
-- fleet's agent and its HTTP routes, the peer negotiation and the clients, sockets, logging and the
-- demos. A listener that calls back into the layer
-- while it fires is not modelled either.
pub mod Common
pub mod Handshake
pub mod Core
pub mod Rtc
pub mod Fleet
pub mod Signal
