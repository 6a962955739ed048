-- ===== src/Fleet/CommandEngine/Settled.antt =====
-- fleet/src/orchestrator/CommandEngine.ts: the accounts of each operation.
use rivalis.Common.{
  ℕ, ◌+◌, ◌≤◌, ◌≡◌, sym, ap, subst, ◌∙◌, Bool, true, false, List, [], ◌∷◌, some, ◌==◌, leb, is_some,
  arith, Option-cases, Bool-cases, inl, inr,
}
use rivalis.Handshake.Utf8.{Text}
use rivalis.Core.Room.{text_key}
use rivalis.Common.Map
use rivalis.Common.Map.{Map}
use rivalis.Fleet.CommandEngine.{
  cmd_key, PendingCommand, Engine, Action, max_inflight_commands, or_empty, in_flight, map_for,
  settle, enrol, failing, send, reject_each, reject_all,
}
use rivalis.Fleet.Model.{instance_disconnected, instance_busy}
use rivalis.Common.Totals.{total, total-set, total-delete, weight_of}
use rivalis.Fleet.CommandEngine.Accounts.{
  delete_all, delete_all-keys, IsWellFormed, sum, sum-append, IsAccount, held, settle-account,
}

set-IsWellFormed :
    (i : Text) (m : Map ℕ PendingCommand) (e : Engine)
    → IsWellFormed e
    → Map.IsUnique m
    → ((k : ℕ) → Map.has k m ≡ true → k ≤ e.cmd_seq)
    → IsWellFormed (record e { pending = Map.set i m e.pending })
set-IsWellFormed i m e v u h = record {
  instances = Map.set-IsUnique i m e.pending v.instances;
  commands = λ j n q. elim (Bool-cases (i == j)) [
    | inl s ↦
        let z : some m ≡ some n = rw s at (sym (Map.lookup-set i j m e.pending) ∙ q) in
        let g : m ≡ n = cc in
        subst (λ x. Map.IsUnique x × ((k : ℕ) → Map.has k x ≡ true → k ≤ e.cmd_seq)) g (u, h)
    | inr s ↦ v.commands j n (rw s at (sym (Map.lookup-set i j m e.pending) ∙ q))
  ];
}

pub settle-IsWellFormed :
    (i : Text) (k : ℕ) (action : PendingCommand → List Action) (e : Engine)
    → IsWellFormed e
    → IsWellFormed (settle i k action e).0
unfolding settle
settle-IsWellFormed i k action e v = elim (Option-cases (Map.lookup i e.pending)) [
  | inl q ↦ rw (q, settle) v
  | inr (m, q) ↦ elim (Option-cases (Map.lookup k m)) [
    | inl r ↦ rw (q, settle, r) v
    | inr (p, r) ↦
        let (u, h) = v.commands i m q in
        rw (q, settle, r)
          (set-IsWellFormed i (Map.delete k m) e v (Map.delete-IsUnique k m u)
            (λ j t. h j (ground (arith, Map.lookup-delete k j m))))
  ]
]

-- After a settle the command is gone.
settle-lookup :
    (i : Text) (k : ℕ) (action : PendingCommand → List Action) (m : Map ℕ PendingCommand)
    (e : Engine)
    → Map.lookup i e.pending ≡ some m
    → Map.lookup i (settle i k action e).0.pending ≡ some (Map.delete k m)
unfolding settle
settle-lookup i k action m e q = elim (Option-cases (Map.lookup k m)) [
  | inl r ↦ rw (q, settle, r) (q ∙ ap some (sym (Map.delete_absent k m (rw r))))
  | inr (p, r) ↦ rw (q, settle, r) (Map.lookup-set_self i (Map.delete k m) e.pending)
]

map_for-lookup :
    (i : Text) (e : Engine)
    → Map.lookup i (map_for e i).pending ≡ some (or_empty (Map.lookup i e.pending))
unfolding map_for
map_for-lookup i e = Map.lookup-set_self i (or_empty (Map.lookup i e.pending)) e.pending

new_key :
    (k j : ℕ) (p : PendingCommand) (m : Map ℕ PendingCommand) (n : ℕ)
    → k ≤ n
    → (Map.has j m ≡ true → j ≤ n)
    → Map.has j (Map.set k p m) ≡ true
    → j ≤ n
new_key k j p m n b h t = ground (arith, Map.lookup-set k j p m)

no_keys : (k n : ℕ) → Map.has {V = PendingCommand} k [] ≡ true → k ≤ n
unfolding Map.lookup
no_keys k n h = cc

module _ (a : Action → ℕ) (w : PendingCommand → ℕ) (acc : IsAccount a w) where
  reject_each-account :
      (i : Text) (ids : List ℕ) (m : Map ℕ PendingCommand) (e : Engine)
      → IsWellFormed e
      → Map.lookup i e.pending ≡ some m
      → (held a w (reject_each i ids e).0 + sum a (reject_each i ids e).1 ≡ held a w e)
        × (Map.lookup i (reject_each i ids e).0.pending ≡ some (delete_all ids m))
        × IsWellFormed (reject_each i ids e).0
  unfolding reject_each delete_all sum
  reject_each-account i [] m e v q = (omega arith, q, v)
  reject_each-account i (k ∷ ids) m e v q =
      let e' = (settle i k (failing instance_disconnected) e).0 in
      let actions = (settle i k (failing instance_disconnected) e).1 in
      let (r, s, t) =
        reject_each-account i ids (Map.delete k m) e'
          (settle-IsWellFormed i k (failing instance_disconnected) e v)
          (settle-lookup i k (failing instance_disconnected) m e q) in
      (
        omega (
          arith,
          settle-account a w i k (failing instance_disconnected) e acc v
              (acc.failures instance_disconnected),
          sum-append a actions (reject_each i ids e').1,
          r,
        ),
        s,
        t,
      )

  pub reject_all-account :
      (i : Text) (e : Engine)
      → IsWellFormed e
      → (held a w (reject_all i e).0 + sum a (reject_all i e).1 ≡ held a w e)
        × IsWellFormed (reject_all i e).0
  unfolding reject_all held sum total
  reject_all-account i e v = elim (Option-cases (Map.lookup i e.pending)) [
    | inl q ↦ rw (q, reject_all) (omega arith, v)
    | inr (m, q) ↦
        let (r, s, t) = reject_each-account i (Map.keys m) m e v q in
        let e' = (reject_each i (Map.keys m) e).0 in
        let z : Map.lookup i e'.pending ≡ some [] =
          s ∙ ap some (delete_all-keys m ((v.commands i m q).0)) in
        let y : weight_of (total w) (Map.lookup i e'.pending) ≡ 0 = rw z in
        rw (q, reject_all)
          (
            omega (arith, r, y, total-delete (total w) i e'.pending t.instances),
            record {
              instances = Map.delete-IsUnique i e'.pending t.instances;
              commands = λ j n x. t.commands j n (ground (arith, Map.lookup-delete i j e'.pending));
            },
          )
  ]

  map_for-account :
      (i : Text) (e : Engine)
      → IsWellFormed e
      → (held a w (map_for e i) ≡ held a w e) × IsWellFormed (map_for e i)
  unfolding map_for held total
  map_for-account i e v = elim (Option-cases (Map.lookup i e.pending)) [
    | inl q ↦
        let y : weight_of (total w) (Map.lookup i e.pending) ≡ 0 = rw q in
        rw (q, map_for)
          (
            omega (arith, y, total-set (total w) i [] e.pending),
            set-IsWellFormed i [] e v tt (λ k. no_keys k e.cmd_seq),
          )
    | inr (m, q) ↦
        let y : weight_of (total w) (Map.lookup i e.pending) ≡ total w m = rw q in
        let (u, h) = v.commands i m q in
        rw (q, map_for)
          (omega (arith, y, total-set (total w) i m e.pending), set-IsWellFormed i m e v u h)
  ]

  enrol-account :
      (i : Text) (k : ℕ) (p : PendingCommand) (m : Map ℕ PendingCommand) (e : Engine)
      → IsWellFormed e
      → Map.lookup i e.pending ≡ some m
      → k ≤ e.cmd_seq
      → Map.has k m ≡ false
      → (held a w (enrol i k p e) ≡ held a w e + w p) × IsWellFormed (enrol i k p e)
  unfolding held enrol
  enrol-account i k p m e v q b fresh = elim (Option-cases (Map.lookup k m)) [
    | inl r ↦
        let x : weight_of (total w) (Map.lookup i e.pending) ≡ total w m = rw q in
        let y : weight_of w (Map.lookup k m) ≡ 0 = rw r in
        let (u, h) = v.commands i m q in
        rw q (
          omega (arith, x, y, total-set w k p m, total-set (total w) i (Map.set k p m) e.pending),
          set-IsWellFormed i (Map.set k p m) e v (Map.set-IsUnique k p m u)
              (λ j t. new_key k j p m e.cmd_seq b (h j) t),
        )
    | inr (o, r) ↦ let z : is_some (some o) ≡ false = rw r at fresh in cc
  ]

  -- A command whose id is new becomes pending, or is disposed of at once.
  pub send-account :
      (i : Text) (k : ℕ) (p : PendingCommand) (sent : Bool) (e : Engine)
      → IsWellFormed e
      → k ≤ e.cmd_seq
      → Map.has k (or_empty (Map.lookup i e.pending)) ≡ false
      → (held a w (send i k p sent e).0 + sum a (send i k p sent e).1 ≡ held a w e + w p)
        × IsWellFormed (send i k p sent e).0
  unfolding send sum
  send-account i k p sent e v b fresh =
      let (same, v') = map_for-account i e v in
      let (r, v'') =
        enrol-account i k p (or_empty (Map.lookup i e.pending)) (map_for e i) v'
          (map_for-lookup i e) (unfold map_for in b) fresh in
      let undo = failing instance_disconnected in
      let x =
        settle-account a w i k undo (enrol i k p (map_for e i)) acc v''
          (acc.failures instance_disconnected) in
      elim (Bool-cases (leb max_inflight_commands (in_flight (map_for e i) i))) [
        | inl t ↦ rw t (omega (arith, same, acc.failures instance_busy p), v')
        | inr t ↦ elim (Bool-cases sent) [
          | inl o ↦ rw (t, o) (omega (arith, same, r), v'')
          | inr o ↦
              rw (t, o)
                (
                  omega (arith, same, r, x),
                  settle-IsWellFormed i k undo (enrol i k p (map_for e i)) v'',
                )
        ]
      ]
