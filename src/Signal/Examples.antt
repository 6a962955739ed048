-- ===== src/Signal/Examples.antt =====
-- A signaling room that three peers enter; the host pushes its state, and leaves.
use rivalis.Common.{◌≡◌, refl, List, [], ◌∷◌, none, some}
use rivalis.Common.Map
use rivalis.Handshake.Utf8.{Text}
use rivalis.Core.Room.{text_key}
use rivalis.Signal.SignalRoom.{
  empty_room, host_elected, host_gone, host_state, broadcasts, sends, on_join, receive_host_state,
  Event, joins, leaves, pushes, step, run,
}
use rivalis.Signal.SignalRoom.Election.{IsSettled, AreFresh, run-IsSettled, run-handoff}

abbrev ann : Text
ann = 0x61 ∷ []

abbrev bob : Text
bob = 0x62 ∷ []

abbrev cid : Text
cid = 0x63 ∷ []

abbrev no_servers : Text → Text
no_servers id = []

abbrev history : List Event
history =
    joins ann ∷ joins bob ∷ pushes bob (some (1 ∷ [])) ∷ joins cid ∷ pushes ann (some (7 ∷ [])) ∷ []

history-fresh : AreFresh no_servers history empty_room
unfolding Map.lookup Map.set step on_join receive_host_state
history-fresh = (refl, (refl, (tt, (refl, (tt, tt)))))

run-IsSettled_example : IsSettled (run no_servers history empty_room).0
run-IsSettled_example = run-IsSettled no_servers history history-fresh

history-order : (run no_servers history empty_room).0.join_order ≡ ann ∷ bob ∷ cid ∷ []
unfolding Map.lookup Map.set run step on_join receive_host_state
history-order = refl

history-pending : (run no_servers history empty_room).0.pending_host_state ≡ some (7 ∷ [])
unfolding Map.lookup Map.set run step on_join receive_host_state
history-pending = refl

run-handoff_example :
    ((step no_servers (leaves ann) (run no_servers history empty_room).0).0.host_id ≡ some bob)
    × ((step no_servers (leaves ann) (run no_servers history empty_room).0).0.pending_host_state
        ≡ none)
    × ((step no_servers (leaves ann) (run no_servers history empty_room).0).1
        ≡ broadcasts host_gone
          ∷ broadcasts (host_elected bob)
          ∷ sends bob (host_state (7 ∷ []))
          ∷ [])
run-handoff_example =
    run-handoff no_servers history ann bob (cid ∷ []) (7 ∷ []) history-fresh history-order
      history-pending
