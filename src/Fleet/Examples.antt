-- ===== src/Fleet/Examples.antt =====
-- The command engine on a short history: a create that times out, and its late acknowledgement.
use rivalis.Common.{◌+◌, ◌≡◌, true, false, List, [], ◌∷◌, some}
use rivalis.Core.Room.{text_key}
use rivalis.Handshake.Utf8.{Text}
use rivalis.Fleet.CommandEngine.{PendingCommand}
use rivalis.Fleet.Model.{Reservation}
use rivalis.Fleet.CommandEngine.Accounts.{sum, held}
use rivalis.Fleet.CommandEngine.History.{
  Event, sends, acks, times_out, disconnects, run, carried, idle,
}
use rivalis.Fleet.CommandEngine.Once.{
  settles, is_call, disposes, reserves, settled_once, disposed_once,
}

abbrev eu : Text
eu = 0x65 ∷ 0x75 ∷ []

abbrev room : Text
room = 0x72 ∷ 0x5f ∷ 0x31 ∷ []

abbrev slot : Reservation
slot = record { id = 1; instance_id = eu }

abbrev create : PendingCommand
create = record { call = 7; timer = 1; reservation = some slot; room_id_reservation = some room }

abbrev history : List Event
history =
    sends eu create true
    ∷ times_out eu 1
    ∷ acks eu (record { cmd_id = 1; is_ok = true; exists = false })
    ∷ disconnects eu
    ∷ []

settled_once_example :
    held (settles 7) (is_call 7) (run history idle).0 + sum (settles 7) (run history idle).1
    ≡ carried (is_call 7) history
settled_once_example = settled_once 7 history

disposed_once_example :
    held (disposes 1) (reserves 1) (run history idle).0 + sum (disposes 1) (run history idle).1
    ≡ carried (reserves 1) history
disposed_once_example = disposed_once 1 history
