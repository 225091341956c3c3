-- ===== src/Boundary/OutcomeLog.antt =====
-- `OutcomeLog` of packages/boundary/src/sayfirst_boundary/evidence.py: the bounded log of outcomes,
-- and what its gaps say. The sink is a parameter: what it does with a record may depend on all that
-- it was handed before. `emitted` is what it took, in order; the text of an instant is an argument.
pub mod Gaps
use sayfirst_control_plane.Common.{
  ℕ, suc, ◌+◌, ◌≤◌, ◌≡◌, refl, sym, ap, ◌∙◌, subst, Bool, true, false, Option, List, [], ◌∷◌, ◌++◌,
  String, arith, if◌then◌else◌, length, length-append, nat_eqb, nat_keyed, ◌==◌, Bool-cases, inl,
  inr,
}

pub record Record : Type 0 where
  pub sequence : ℕ
  pub capability : String
  pub decision_ref : String
  pub outcome_digest : Option String
  pub at : String
  pub dropped_before : ℕ

-- `_Pending`
pub record Pending : Type 0 where
  pub sequence : ℕ
  pub capability : String
  pub decision_ref : String
  pub outcome_digest : Option String
  pub at : String

pub record OutcomeLog : Type 0 where
  pub pending : List Pending
  pub capacity : ℕ
  pub sequence : ℕ
  pub dropped : ℕ
  pub emitted : List Record

-- `OutcomeLog.__init__`, for a capacity that it does not refuse.
abbrev pub new_log : ℕ → OutcomeLog
new_log capacity = record {
  pending = [];
  capacity = capacity;
  sequence = 0;
  dropped = 0;
  emitted = [];
}

abbrev pub without_oldest : List Pending → List Pending
without_oldest [] = []
without_oldest (p ∷ ps) = ps

-- The room that a new record takes.
unfoldable pub make_room : OutcomeLog → OutcomeLog
make_room log =
    if length log.pending == log.capacity
    then record log { pending = without_oldest log.pending; dropped = log.dropped + 1 }
    else log

-- `OutcomeLog.record`
unfoldable pub record_outcome : String → String → Option String → String → OutcomeLog → OutcomeLog
unfolding make_room
record_outcome capability decision_ref outcome_digest at log =
    let roomy = make_room (record log { sequence = log.sequence + 1 }) in
    record roomy {
      pending =
          roomy.pending
          ++ record {
            sequence = roomy.sequence;
            capability = capability;
            decision_ref = decision_ref;
            outcome_digest = outcome_digest;
            at = at;
          }
            ∷ [];
    }

abbrev pub stamped : Pending → ℕ → Record
stamped p dropped = record {
  sequence = p.sequence;
  capability = p.capability;
  decision_ref = p.decision_ref;
  outcome_digest = p.outcome_digest;
  at = p.at;
  dropped_before = dropped;
}

module _ (takes : List Record → Record → Bool) where
  -- One round of the loop of `flush`: the sink takes the oldest record, or its loss is counted.
  unfoldable pub hand_over : Pending → List Pending → OutcomeLog → OutcomeLog
  hand_over p ps log =
      if takes log.emitted (stamped p log.dropped)
      then record log { pending = ps; emitted = log.emitted ++ stamped p log.dropped ∷ [] }
      else record log { pending = ps; dropped = log.dropped + 1 }

  -- The loop of `flush`, over what is held.
  unfoldable pub flush_loop : List Pending → OutcomeLog → OutcomeLog
  flush_loop [] log = log
  flush_loop (p ∷ ps) log = flush_loop ps (hand_over p ps log)

  -- `OutcomeLog.flush`
  unfoldable pub flush : OutcomeLog → OutcomeLog
  unfolding flush_loop
  flush log = flush_loop log.pending log
