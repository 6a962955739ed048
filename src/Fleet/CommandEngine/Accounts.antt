-- ===== src/Fleet/CommandEngine/Accounts.antt =====
-- fleet/src/orchestrator/CommandEngine.ts: accounts of the settlements of commands and of the disposals of
-- reservations.
use rivalis.Common.{
  ℕ, ◌+◌, ◌≤◌, ◌≡◌, refl, ap, ◌∙◌, true, List, [], ◌∷◌, ◌++◌, some, arith, Option-cases, inl, inr,
}
use rivalis.Handshake.Utf8.{Text}
use rivalis.Core.Room.{text_key}
use rivalis.Common.Map
use rivalis.Common.Map.{Map}
use rivalis.Common.Totals.{total, weight_of, total-set, total-delete}
use rivalis.Fleet.CommandEngine.{
  cmd_key, PendingCommand, Engine, Action, clear_timeout, resolve, reject, hold_or_release, settle,
  failing,
}
use rivalis.Fleet.Model.{FleetErrorCode, command_timeout}

unfoldable pub delete_all : List ℕ → Map ℕ PendingCommand → Map ℕ PendingCommand
delete_all [] m = m
delete_all (k ∷ ks) m = delete_all ks (Map.delete k m)

pub delete_all-keys : (m : Map ℕ PendingCommand) → Map.IsUnique m → delete_all (Map.keys m) m ≡ []
unfolding delete_all Map.delete
delete_all-keys [] u = refl
delete_all-keys ((k, p) ∷ m) u =
    let e : Map.delete k ((k, p) ∷ m) ≡ m =
      ground (arith, Map.beq_refl k, Map.delete_absent k m u.0) in
    ap (delete_all (Map.keys m)) e ∙ delete_all-keys m u.1

-- Instances and ids are keys once each, and no id is ahead of the counter.
pub record IsWellFormed (e : Engine) : Type 0 where
  pub instances : Map.IsUnique e.pending
  pub commands :
      (i : Text) (m : Map ℕ PendingCommand)
      → Map.lookup i e.pending ≡ some m
      → Map.IsUnique m × ((k : ℕ) → Map.has k m ≡ true → k ≤ e.cmd_seq)

unfoldable pub sum : (Action → ℕ) → List Action → ℕ
sum a [] = 0
sum a (x ∷ xs) = a x + sum a xs

pub sum-append : (a : Action → ℕ) (xs ys : List Action) → sum a (xs ++ ys) ≡ sum a xs + sum a ys
unfolding sum
sum-append a [] ys = omega arith
sum-append a (x ∷ xs) ys = omega (arith, sum-append a xs ys)

-- Accounts of something that a pending command carries, and that actions dispose of: whatever ends a
-- command disposes of it.
pub record IsAccount (a : Action → ℕ) (w : PendingCommand → ℕ) : Type 0 where
  pub timers : (t : ℕ) → a (clear_timeout t) ≡ 0
  pub failures : (f : FleetErrorCode) (p : PendingCommand) → sum a (failing f p) ≡ w p
  pub late :
      (p : PendingCommand) → sum a (hold_or_release p ++ reject p.call command_timeout ∷ []) ≡ w p
  pub done : (p : PendingCommand) → sum a (hold_or_release p ++ resolve p.call ∷ []) ≡ w p

module _ (a : Action → ℕ) (w : PendingCommand → ℕ) where
  -- What is still pending.
  unfoldable pub held : Engine → ℕ
  held e = total (total w) e.pending

  pub settle-account :
      (i : Text) (k : ℕ) (action : PendingCommand → List Action) (e : Engine)
      → IsAccount a w
      → IsWellFormed e
      → ((p : PendingCommand) → sum a (action p) ≡ w p)
      → held (settle i k action e).0 + sum a (settle i k action e).1 ≡ held e
  unfolding settle held sum
  settle-account i k action e acc v h = elim (Option-cases (Map.lookup i e.pending)) [
    | inl q ↦ rw (q, settle) (omega arith)
    | inr (m, q) ↦ elim (Option-cases (Map.lookup k m)) [
      | inl r ↦ rw (q, settle, r) (omega arith)
      | inr (p, r) ↦
          let x : weight_of (total w) (Map.lookup i e.pending) ≡ total w m = rw q in
          let y : weight_of w (Map.lookup k m) ≡ w p = rw r in
          rw (q, settle, r)
            (omega (
              arith,
              h p,
              acc.timers p.timer,
              total-set (total w) i (Map.delete k m) e.pending,
              total-delete w k m ((v.commands i m q).0),
              x,
              y,
            ))
    ]
  ]
