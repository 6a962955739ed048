-- ===== src/Fleet/Poller.antt =====
-- fleet/src/orchestrator/Poller.ts: the polls of each instance, their replies, and what is missed. A
-- request id `poll_N` is the number N. What the poller asks of the orchestrator and of the timers is a
-- list of actions; a timer's handle is a parameter.
pub mod Silence
use rivalis.Common.{
  ℕ, ◌+◌, ◌%◌, Bool, true, false, List, [], ◌∷◌, ◌++◌, Option, none, some, eqb, leb, if◌then◌else◌,
  is_some,
}
use rivalis.Common.Map
use rivalis.Common.Map.{Map}
use rivalis.Handshake.Utf8.{Text}
use rivalis.Core.Room.{text_key}

abbrev pub force_full_every_polls : ℕ
force_full_every_polls = 12

pub record PollEntry : Type 0 where
  pub timer : Option ℕ
  pub outstanding_req_id : Option ℕ
  pub missed : ℕ
  pub poll_count : ℕ

pub record Poller : Type 0 where
  pub entries : Map Text PollEntry
  pub req_seq : ℕ

pub data PollAction : Type 0 where
  sends_poll : Text → ℕ → Bool → PollAction
  stale evicts : Text → PollAction
  clears_timeout : Option ℕ → PollAction

abbrev pub no_polls : Poller
no_polls = record { entries = []; req_seq = 0 }

unfoldable pub poll : Text → Poller → Poller × List PollAction
poll instance_id p = elim (Map.lookup instance_id p.entries) [
  | none ↦ (p, [])
  | some e ↦
      let req_id = p.req_seq + 1 in
      (
        record {
          entries =
              Map.set instance_id
                (record e { poll_count = e.poll_count + 1; outstanding_req_id = some req_id })
                p.entries;
          req_seq = req_id;
        },
        sends_poll instance_id req_id (eqb (e.poll_count % force_full_every_polls) 0) ∷ [],
      )
]

unfoldable pub schedule : ℕ → Text → Poller → Poller
schedule timer instance_id p = elim (Map.lookup instance_id p.entries) [
  | none ↦ p
  | some e ↦ record p { entries = Map.set instance_id (record e { timer = some timer }) p.entries }
]

unfoldable pub start : ℕ → Text → Poller → Poller × List PollAction
start timer instance_id p =
    let fresh : PollEntry = record {
      timer = none;
      outstanding_req_id = none;
      missed = 0;
      poll_count = 0;
    } in
    let (p', actions) =
      poll instance_id (record p { entries = Map.set instance_id fresh p.entries }) in
    (schedule timer instance_id p', actions)

abbrev pub matches : Option ℕ → ℕ → Bool
matches none req_id = false
matches (some outstanding) req_id = eqb outstanding req_id

unfoldable pub reply : Text → ℕ → Poller → Poller × Bool
reply instance_id req_id p = elim (Map.lookup instance_id p.entries) [
  | none ↦ (p, false)
  | some e ↦
      if matches e.outstanding_req_id req_id
      then (
        record p {
          entries =
              Map.set instance_id (record e { outstanding_req_id = none; missed = 0 }) p.entries;
        },
        true,
      )
      else (p, false)
]

unfoldable pub forget : Text → Poller → Poller × List PollAction
forget instance_id p = elim (Map.lookup instance_id p.entries) [
  | none ↦ (p, [])
  | some e ↦ (record p { entries = Map.delete instance_id p.entries }, clears_timeout e.timer ∷ [])
]

-- A tick that finds the last poll unanswered.
unfoldable pub miss : ℕ → Text → PollEntry → Poller → Poller × List PollAction
miss timer instance_id e p =
    let missed = e.missed + 1 in
    let p' = record p { entries = Map.set instance_id (record e { missed = missed }) p.entries } in
    let marks = if eqb missed 2 then stale instance_id ∷ [] else [] in
    if leb 3 missed
    then (p', marks ++ evicts instance_id ∷ [])
    else (schedule timer instance_id p', marks)

unfoldable pub poll_again : ℕ → Text → Poller → Poller × List PollAction
poll_again timer instance_id p =
    let (p', actions) = poll instance_id p in (schedule timer instance_id p', actions)

unfoldable pub tick : ℕ → Text → Poller → Poller × List PollAction
tick timer instance_id p = elim (Map.lookup instance_id p.entries) [
  | none ↦ (p, [])
  | some e ↦
      if is_some e.outstanding_req_id
      then miss timer instance_id e p
      else poll_again timer instance_id p
]
