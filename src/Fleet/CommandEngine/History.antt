-- ===== src/Fleet/CommandEngine/History.antt =====
-- Histories of the engine: what is sent to it, acknowledged, timed out and disconnected, in any order.
use rivalis.Common.{
  ℕ, ◌+◌, ◌≡◌, refl, Bool, false, List, [], ◌∷◌, ◌++◌, if◌then◌else◌, arith, Option-cases,
  Bool-cases, inl, inr,
}
use rivalis.Handshake.Utf8.{Text}
use rivalis.Core.Room.{text_key}
use rivalis.Common.Map
use rivalis.Common.Map.{Map}
use rivalis.Fleet.CommandEngine.{
  cmd_key, PendingCommand, Engine, Action, resolve, reject, next_cmd_id, or_empty, hold_or_release,
  failing, time_out, send, AckPayload, ack, reject_all,
}
use rivalis.Fleet.Model.{command_timeout, room_exists, command_failed}
use rivalis.Common.Totals.{total}
use rivalis.Fleet.CommandEngine.Accounts.{
  IsWellFormed, sum, sum-append, IsAccount, held, settle-account,
}
use rivalis.Fleet.CommandEngine.Settled.{settle-IsWellFormed, reject_all-account, send-account}

pub data Event : Type 0 where
  sends : Text → PendingCommand → Bool → Event
  acks : Text → AckPayload → Event
  times_out : Text → ℕ → Event
  disconnects : Text → Event

-- A command takes the next id.
unfoldable pub issue : Text → PendingCommand → Bool → Engine → Engine × List Action
issue i p sent e = let (e', k) = next_cmd_id e in send i k p sent e'

unfoldable pub step : Event → Engine → Engine × List Action
step (sends i p sent) e = issue i p sent e
step (acks i x) e = let (e', actions, found) = ack i x e in (e', actions)
step (times_out i k) e = let (e', actions, found) = time_out i k e in (e', actions)
step (disconnects i) e = reject_all i e

unfoldable pub run : List Event → Engine → Engine × List Action
run [] e = (e, [])
run (x ∷ xs) e =
    let (e', actions) = step x e in let (e'', more) = run xs e' in (e'', actions ++ more)

-- What the commands of a history carry.
unfoldable pub carried : (PendingCommand → ℕ) → List Event → ℕ
carried w [] = 0
carried w (sends i p sent ∷ xs) = w p + carried w xs
carried w (acks i x ∷ xs) = carried w xs
carried w (times_out i k ∷ xs) = carried w xs
carried w (disconnects i ∷ xs) = carried w xs

abbrev pub idle : Engine
idle = record { pending = []; cmd_seq = 0 }

idle-IsWellFormed : IsWellFormed idle
unfolding Map.lookup
idle-IsWellFormed = record { instances = tt; commands = λ i m q. cc }

next-IsWellFormed : (e : Engine) → IsWellFormed e → IsWellFormed (next_cmd_id e).0
unfolding next_cmd_id
next-IsWellFormed e v = record {
  instances = v.instances;
  commands = λ i m q. let (u, h) = v.commands i m q in (u, λ k t. omega (arith, h k t));
}

-- The next id is new to every instance.
next_fresh :
    (i : Text) (e : Engine)
    → IsWellFormed e
    → Map.has (e.cmd_seq + 1) (or_empty (Map.lookup i e.pending)) ≡ false
next_fresh i e v = elim (Option-cases (Map.lookup i e.pending)) [
  | inl q ↦ rw q (unfold Map.lookup in refl)
  | inr (m, q) ↦ elim (Bool-cases (Map.has (e.cmd_seq + 1) m)) [
    | inl t ↦ absurd (omega (arith, (v.commands i m q).1 (e.cmd_seq + 1) t))
    | inr t ↦ rw q t
  ]
]

module _ (a : Action → ℕ) (w : PendingCommand → ℕ) (acc : IsAccount a w) where
  -- A step keeps the accounts: what was held and what comes is held or disposed of.
  abbrev Keeps : Event → Engine → Engine × List Action → Type 0
  Keeps x e s = (held a w s.0 + sum a s.1 ≡ held a w e + carried w (x ∷ [])) × IsWellFormed s.0

  ack-account :
      (i : Text) (x : AckPayload) (p : PendingCommand)
      → sum a (
          if x.is_ok
          then hold_or_release p ++ resolve p.call ∷ []
          else failing (if x.exists then room_exists else command_failed) p)
        ≡ w p
  ack-account i x p = elim (Bool-cases x.is_ok) [
    | inl t ↦ rw t (acc.done p)
    | inr t ↦ rw t (acc.failures (if x.exists then room_exists else command_failed) p)
  ]

  step-account : (x : Event) (e : Engine) → IsWellFormed e → Keeps x e (step x e)
  unfolding step carried issue next_cmd_id ack time_out held
  step-account (sends i p sent) e v =
      let (r, s) =
        send-account a w acc i (e.cmd_seq + 1) p sent (record e { cmd_seq = e.cmd_seq + 1 })
          (next-IsWellFormed e v) (omega arith) (next_fresh i e v) in
      (omega (arith, r), s)
  step-account (acks i x) e v =
      let act = λ (p : PendingCommand).
        if x.is_ok
        then hold_or_release p ++ resolve p.call ∷ []
        else failing (if x.exists then room_exists else command_failed) p in
      (
        omega (arith, settle-account a w i x.cmd_id act e acc v (ack-account i x)),
        settle-IsWellFormed i x.cmd_id act e v,
      )
  step-account (times_out i k) e v =
      let act = λ (p : PendingCommand). hold_or_release p ++ reject p.call command_timeout ∷ [] in
      (omega (arith, settle-account a w i k act e acc v acc.late), settle-IsWellFormed i k act e v)
  step-account (disconnects i) e v =
      let (r, s) = reject_all-account a w acc i e v in (omega (arith, r), s)

  carried_cons :
      (x : Event) (xs : List Event) → carried w (x ∷ xs) ≡ carried w (x ∷ []) + carried w xs
  unfolding carried
  carried_cons (sends i p sent) xs = omega arith
  carried_cons (acks i x) xs = omega arith
  carried_cons (times_out i k) xs = omega arith
  carried_cons (disconnects i) xs = omega arith

  run-account :
      (xs : List Event) (e : Engine)
      → IsWellFormed e
      → held a w (run xs e).0 + sum a (run xs e).1 ≡ held a w e + carried w xs
  unfolding run
  run-account [] e v = unfold sum carried in omega arith
  run-account (x ∷ xs) e v =
      let (r, s) = step-account x e v in
      let e' = (step x e).0 in
      omega
        (arith, r, run-account xs e' s, carried_cons x xs, sum-append a (step x e).1 (run xs e').1)

  idle_lem : held a w idle ≡ 0
  unfolding held total
  idle_lem = refl

  pub run-account_idle :
      (xs : List Event) → held a w (run xs idle).0 + sum a (run xs idle).1 ≡ carried w xs
  run-account_idle xs = omega (arith, run-account xs idle idle-IsWellFormed, idle_lem)
