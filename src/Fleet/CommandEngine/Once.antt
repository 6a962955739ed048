-- ===== src/Fleet/CommandEngine/Once.antt =====
-- fleet/src/orchestrator/CommandEngine.ts: settlements and disposals over a history.
use rivalis.Common.{ℕ, ◌+◌, ◌≡◌, refl, List, Option, none, some, eqb, if◌then◌else◌, arith}
use rivalis.Core.Room.{text_key}
use rivalis.Fleet.CommandEngine.{
  cmd_key, PendingCommand, Action, release, hold_until_visible, resolve, reject,
  release_reservations, hold_or_release,
}
use rivalis.Fleet.Model.{Reservation}
use rivalis.Fleet.CommandEngine.Accounts.{sum, IsAccount, held}
use rivalis.Fleet.CommandEngine.History.{Event, run, carried, idle, run-account_idle}

-- Whether an action settles a call, and whether a command is that call's.
abbrev pub settles : ℕ → Action → ℕ
settles c (resolve d) = if eqb d c then 1 else 0
settles c (reject d f) = if eqb d c then 1 else 0
settles c _ = 0

abbrev pub is_call : ℕ → PendingCommand → ℕ
is_call c p = if eqb p.call c then 1 else 0

call-IsAccount : (c : ℕ) → IsAccount (settles c) (is_call c)
unfolding sum release_reservations hold_or_release
call-IsAccount c = record {
  timers = λ t. refl;
  failures = λ f p. ground arith;
  late = λ p. ground arith;
  done = λ p. ground arith;
}

-- Whether an action disposes of a capacity reservation: it is released, or held for a room that is
-- not visible yet.
abbrev pub disposes : ℕ → Action → ℕ
disposes id (release r) = if eqb r.id id then 1 else 0
disposes id (hold_until_visible room r) = if eqb r.id id then 1 else 0
disposes id _ = 0

abbrev is_reserved_by : ℕ → Option Reservation → ℕ
is_reserved_by id none = 0
is_reserved_by id (some r) = if eqb r.id id then 1 else 0

abbrev pub reserves : ℕ → PendingCommand → ℕ
reserves id p = is_reserved_by id p.reservation

reservation-IsAccount : (id : ℕ) → IsAccount (disposes id) (reserves id)
unfolding sum release_reservations hold_or_release
reservation-IsAccount id = record {
  timers = λ t. refl;
  failures = λ f p. ground arith;
  late = λ p. ground arith;
  done = λ p. ground arith;
}

-- In every history of sends, acknowledgements, timeouts and disconnects of a new engine, each call is
-- settled exactly as often as it was sent, less what is still pending: a call sent once is settled
-- once at most, and is settled as soon as it is not pending.
pub settled_once :
    (c : ℕ) (xs : List Event)
    → held (settles c) (is_call c) (run xs idle).0 + sum (settles c) (run xs idle).1
      ≡ carried (is_call c) xs
settled_once c xs = run-account_idle (settles c) (is_call c) (call-IsAccount c) xs

-- In every history of a new engine a capacity reservation is released or held as often as commands rode on it, less
-- those that are still pending: none leaks, and none is given back twice.
pub disposed_once :
    (id : ℕ) (xs : List Event)
    → held (disposes id) (reserves id) (run xs idle).0 + sum (disposes id) (run xs idle).1
      ≡ carried (reserves id) xs
disposed_once id xs = run-account_idle (disposes id) (reserves id) (reservation-IsAccount id) xs
