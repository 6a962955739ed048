-- ===== src/Fleet/Poller/Silence.antt =====
-- fleet/src/orchestrator/Poller.ts: an instance that does not answer, and one that answers late.
use rivalis.Common.{
  ℕ, ◌+◌, ◌%◌, ◌<◌, ◌≡◌, refl, true, false, [], ◌∷◌, none, some, eqb, leb, if◌then◌else◌, is_some,
  arith, ap, ◌∙◌, subst,
}
use rivalis.Common.Map
use rivalis.Handshake.Utf8.{Text}
use rivalis.Core.Room.{text_key}
use rivalis.Fleet.Poller.{
  PollEntry, Poller, sends_poll, stale, evicts, force_full_every_polls, poll, schedule, reply, miss,
  poll_again, tick,
}

-- What the entry of an instance comes to, for a given tick.
abbrev pub IsWaiting : Text → ℕ → ℕ → ℕ → Poller → Type 0
IsWaiting i req_id missed polls p =
    (e : PollEntry) × (Map.lookup i p.entries ≡ some e)
    × (e.outstanding_req_id ≡ some req_id)
    × (e.missed ≡ missed)
    × (e.poll_count ≡ polls)

schedule-IsWaiting :
    (timer : ℕ) (i : Text) (req_id missed polls : ℕ) (p : Poller)
    → IsWaiting i req_id missed polls p
    → IsWaiting i req_id missed polls (schedule timer i p)
unfolding schedule
schedule-IsWaiting timer i req_id missed polls p (e, q, a, b, c) =
    rw (q, schedule)
      (
        record e { timer = some timer },
        Map.lookup-set_self i (record e { timer = some timer }) p.entries,
        a,
        b,
        c,
      )

miss-IsWaiting :
    (timer : ℕ) (i : Text) (req_id polls : ℕ) (e : PollEntry) (p : Poller)
    → e.outstanding_req_id ≡ some req_id
    → e.poll_count ≡ polls
    → e.missed < 2
    → IsWaiting i req_id (e.missed + 1) polls (miss timer i e p).0
      × ((miss timer i e p).1 ≡ (if eqb e.missed 1 then stale i ∷ [] else []))
unfolding miss
miss-IsWaiting timer i req_id polls e p a c h =
    let t : leb 3 (e.missed + 1) ≡ false = ground arith in
    let m : eqb (e.missed + 1) 2 ≡ eqb e.missed 1 = ground arith in
    let e' : PollEntry = record e { missed = e.missed + 1 } in
    rw (t, m)
      (
        schedule-IsWaiting timer i req_id (e.missed + 1) polls
            (record p { entries = Map.set i e' p.entries })
            (e', Map.lookup-set_self i e' p.entries, a, refl, c),
        refl,
      )

tick-miss :
    (timer : ℕ) (i : Text) (req_id : ℕ) (e : PollEntry) (p : Poller)
    → Map.lookup i p.entries ≡ some e
    → e.outstanding_req_id ≡ some req_id
    → tick timer i p ≡ miss timer i e p
unfolding tick
tick-miss timer i req_id e p q a = rw (q, tick, a) refl

tick-IsWaiting :
    (timer : ℕ) (i : Text) (req_id missed polls : ℕ) (p : Poller)
    → IsWaiting i req_id missed polls p
    → missed < 2
    → IsWaiting i req_id (missed + 1) polls (tick timer i p).0
      × ((tick timer i p).1 ≡ (if eqb missed 1 then stale i ∷ [] else []))
tick-IsWaiting timer i req_id missed polls p (e, q, a, b, c) h =
    rw (tick-miss timer i req_id e p q a) (
      subst
        (λ n.
          IsWaiting i req_id (n + 1) polls (miss timer i e p).0
          × ((miss timer i e p).1 ≡ (if eqb n 1 then stale i ∷ [] else [])))
        b (miss-IsWaiting timer i req_id polls e p a c (omega (arith, b))))

tick-evicts :
    (timer : ℕ) (i : Text) (req_id polls : ℕ) (p : Poller)
    → IsWaiting i req_id 2 polls p
    → (tick timer i p).1 ≡ evicts i ∷ []
unfolding miss
tick-evicts timer i req_id polls p (e, q, a, b, c) = rw (tick-miss timer i req_id e p q a, b) refl

reply-recovers :
    (i : Text) (req_id missed polls : ℕ) (p : Poller)
    → IsWaiting i req_id missed polls p
    → ((reply i req_id p).1 ≡ true)
      × ((e : PollEntry) × (Map.lookup i (reply i req_id p).0.entries ≡ some e)
          × (e.outstanding_req_id ≡ none)
          × (e.poll_count ≡ polls))
      × ((reply i req_id p).0.req_seq ≡ p.req_seq)
unfolding reply
reply-recovers i req_id missed polls p (e, q, a, b, c) =
    let self : eqb req_id req_id ≡ true = ground arith in
    let e' : PollEntry = record e { outstanding_req_id = none; missed = 0 } in
    rw (q, reply, a, self) (refl, (e', Map.lookup-set_self i e' p.entries, refl, c), refl)

poll_again-polls :
    (timer : ℕ) (i : Text) (e : PollEntry) (p : Poller)
    → Map.lookup i p.entries ≡ some e
    → (poll_again timer i p).1
      ≡ sends_poll i (p.req_seq + 1) (eqb (e.poll_count % force_full_every_polls) 0) ∷ []
unfolding poll_again poll
poll_again-polls timer i e p q = rw (q, poll) refl

tick-polls :
    (timer : ℕ) (i : Text) (e : PollEntry) (p : Poller)
    → Map.lookup i p.entries ≡ some e
    → e.outstanding_req_id ≡ none
    → (tick timer i p).1
      ≡ sends_poll i (p.req_seq + 1) (eqb (e.poll_count % force_full_every_polls) 0) ∷ []
unfolding tick
tick-polls timer i e p q a =
    let t : is_some e.outstanding_req_id ≡ false = ap is_some a in
    rw (q, tick, t) (poll_again-polls timer i e p q)

-- An instance whose poll is outstanding and that has missed none: its first tick without a reply asks nothing of
-- anyone, the second marks it stale, the third evicts it, and none of them polls. If the reply comes after the
-- second, it is taken, and the next tick polls again, in full at every twelfth poll.
pub silence-evicts :
    (t u v : ℕ) (i : Text) (req_id polls : ℕ) (p : Poller)
    → IsWaiting i req_id 0 polls p
    → (let p₁ = tick t i p in
        let p₂ = tick u i p₁.0 in
        (p₁.1 ≡ [])
        × (p₂.1 ≡ stale i ∷ [])
        × ((tick v i p₂.0).1 ≡ evicts i ∷ [])
        × ((reply i req_id p₂.0).1 ≡ true)
        × ((tick v i (reply i req_id p₂.0).0).1
            ≡ sends_poll i (p₂.0.req_seq + 1) (eqb (polls % force_full_every_polls) 0) ∷ []))
silence-evicts t u v i req_id polls p w =
    let (w₁, a₁) = tick-IsWaiting t i req_id 0 polls p w (omega arith) in
    let p₁ = (tick t i p).0 in
    let (w₂, a₂) = tick-IsWaiting u i req_id 1 polls p₁ w₁ (omega arith) in
    let p₂ = (tick u i p₁).0 in
    let (r, (e, q, o, c), n) = reply-recovers i req_id 2 polls p₂ w₂ in
    (
      a₁,
      a₂,
      tick-evicts v i req_id polls p₂ w₂,
      r,
      tick-polls v i e (reply i req_id p₂).0 q o
          ∙ ap (λ x. sends_poll i (x + 1) (eqb (e.poll_count % force_full_every_polls) 0) ∷ []) n
          ∙ ap (λ x. sends_poll i (p₂.req_seq + 1) (eqb (x % force_full_every_polls) 0) ∷ []) c,
    )
