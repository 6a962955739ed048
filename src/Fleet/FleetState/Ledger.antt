-- ===== src/Fleet/FleetState/Ledger.antt =====
-- A ledger of the tokens and holds that are handed out, beside the counters of FleetState.
use rivalis.Common.{
  ℕ, ◌+◌, ◌≤◌, ◌≡◌, refl, true, false, List, [], ◌∷◌, some, arith, All, All-mono, eqb_iff,
}
use rivalis.Common.Map
use rivalis.Common.Map.{Map}
use rivalis.Handshake.Utf8.{Text}
use rivalis.Core.Room.{text_key}
use rivalis.Fleet.CommandEngine.{cmd_key}
use rivalis.Fleet.Model.{Reservation}
use rivalis.Fleet.FleetState.{State, or_zero, initial}
use rivalis.Fleet.FleetState.Counts.{Counts, Counts-set, Counts-delete, decrement}
use rivalis.Common.Totals.{total}

-- A token is what it was handed out as, while it is held.
abbrev pub IsIssued : Map ℕ Text → ℕ → Reservation → Type 0
IsIssued tokens seq r =
    (r.id ≤ seq) × ((owner : Text) → Map.lookup r.id tokens ≡ some owner → owner ≡ r.instance_id)

pub record IsLedger (tokens : Map ℕ Text) (counts : Map Text ℕ) (seq : ℕ) (rs : List Reservation)
    : Type 0 where
  pub unique : Map.IsUnique tokens
  pub counted : Counts tokens counts
  pub bounded : (k : ℕ) → Map.has k tokens ≡ true → k ≤ seq
  pub issued : All (IsIssued tokens seq) rs

pub record IsHeld (holds : Map Text Text) (counts : Map Text ℕ) : Type 0 where
  pub unique : Map.IsUnique holds
  pub counted : Counts holds counts

abbrev pub IsConsistent : State → List Reservation → Type 0
IsConsistent s rs =
    IsLedger s.reservations s.reserved_by_instance s.reservation_seq rs
    × IsHeld s.pending_room_ids s.pending_by_instance

pub IsLedger-release :
    (r : Reservation) (tokens : Map ℕ Text) (counts : Map Text ℕ) (seq : ℕ) (rs : List Reservation)
    → IsLedger tokens counts seq rs
    → Map.lookup r.id tokens ≡ some r.instance_id
    → IsLedger (Map.delete r.id tokens) (decrement r.instance_id counts) seq rs
IsLedger-release r tokens counts seq rs l h = record {
  unique = Map.delete-IsUnique r.id tokens l.unique;
  counted = Counts-delete r.id r.instance_id tokens counts l.unique h l.counted;
  bounded = λ k t. l.bounded k (ground (arith, Map.lookup-delete r.id k tokens));
  issued =
      All-mono _ _ rs
        (λ x p. (p.0, λ owner q. p.1 owner (ground (arith, Map.lookup-delete r.id x.id tokens))))
        l.issued;
}

pub IsLedger-reserve :
    (i : Text) (tokens : Map ℕ Text) (counts : Map Text ℕ) (seq : ℕ) (rs : List Reservation)
    → IsLedger tokens counts seq rs
    → IsLedger
        (Map.set (seq + 1) i tokens)
        (Map.set i (or_zero (Map.lookup i counts) + 1) counts)
        (seq + 1)
        (record { id = seq + 1; instance_id = i } ∷ rs)
IsLedger-reserve i tokens counts seq rs l =
    let fresh : Map.has (seq + 1) tokens ≡ false = ground (arith, l.bounded (seq + 1)) in
    record {
      unique = Map.set-IsUnique (seq + 1) i tokens l.unique;
      counted = Counts-set (seq + 1) i tokens counts fresh l.counted;
      bounded = λ k t.
          ground (arith, Map.lookup-set (seq + 1) k i tokens, l.bounded k, eqb_iff (seq + 1) k);
      issued = (
        (omega arith, λ owner q. let z = Map.lookup-set_self (seq + 1) i tokens in cc),
        All-mono _ _ rs
            (λ x p. (
              omega (arith, p.0),
              λ owner q. p.1 owner (
                  ground
                    (arith, Map.lookup-set (seq + 1) x.id i tokens, eqb_iff (seq + 1) x.id, p.0)),
            ))
            l.issued,
      );
    }

pub initial-IsConsistent : IsConsistent initial []
unfolding Map.lookup total
initial-IsConsistent = (
  record { unique = tt; counted = λ i. refl; bounded = λ k h. cc; issued = tt },
  record { unique = tt; counted = λ i. refl },
)
