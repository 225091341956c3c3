-- ===== src/Boundary/OutcomeLog/Gaps.antt =====
-- The gaps that the emitted records declare:
-- packages/boundary/src/sayfirst_boundary/evidence.py.
use sayfirst_control_plane.Common.{
  ℕ, suc, ◌+◌, ◌≤◌, ◌≡◌, refl, ap, subst, Bool, Option, List, [], ◌∷◌, ◌++◌, String, arith, length,
  length-append, nat_keyed, ◌==◌, Bool-cases, inl, inr, ==_iff,
}
use sayfirst_control_plane.Boundary.OutcomeLog.{
  Record, Pending, OutcomeLog, new_log, record_outcome, stamped, hand_over, flush_loop, flush,
  without_oldest,
}

-- Records that continue a sequence that has reached `n`, with no jump between them.
abbrev pub Runs : ℕ → List Pending → Type 0
Runs n [] = Unit
Runs n (p ∷ ps) = (p.sequence ≡ suc n) × Runs (suc n) ps

-- Each emitted record, where `i` went before it, counts as dropped all the others that were made
-- before it.
abbrev pub Tells : ℕ → List Record → Type 0
Tells i [] = Unit
Tells i (e ∷ es) = (e.sequence ≡ suc (e.dropped_before + i)) × Tells (suc i) es

-- The log is within its bound, no number is lost between what was dropped, what was emitted and
-- what is held, and every emitted record tells its gap.
pub record Counted (log : OutcomeLog) : Type 0 where
  pub bounded : length log.pending ≤ log.capacity
  pub roomy : 1 ≤ log.capacity
  pub runs : Runs (log.dropped + length log.emitted) log.pending
  pub counted : log.sequence ≡ log.dropped + length log.emitted + length log.pending
  pub tells : Tells 0 log.emitted

Runs-append :
    (n : ℕ) (ps : List Pending) (p : Pending)
    → Runs n ps
    → p.sequence ≡ suc (n + length ps)
    → Runs n (ps ++ p ∷ [])
Runs-append n [] p h e = (omega (arith, e), tt)
Runs-append n (x ∷ ps) p h e = (h.0, Runs-append (suc n) ps p h.1 (omega (arith, e)))

Tells-append :
    (i : ℕ) (es : List Record) (e : Record)
    → Tells i es
    → e.sequence ≡ suc (e.dropped_before + (i + length es))
    → Tells i (es ++ e ∷ [])
Tells-append i [] e h k = (omega (arith, k), tt)
Tells-append i (x ∷ es) e h k = (h.0, Tells-append (suc i) es e h.1 (omega (arith, k)))

Runs-without_oldest :
    (n : ℕ) (ps : List Pending) → 1 ≤ length ps → Runs n ps → Runs (suc n) (without_oldest ps)
Runs-without_oldest n [] h r = tt
Runs-without_oldest n (p ∷ ps) h r = r.1

length-without_oldest :
    (ps : List Pending) → 1 ≤ length ps → suc (length (without_oldest ps)) ≡ length ps
length-without_oldest [] h = ground arith
length-without_oldest (p ∷ ps) h = refl

pub record_outcome-Counted :
    (capability decision_ref : String) (digest : Option String) (at : String) (log : OutcomeLog)
    → Counted log
    → Counted (record_outcome capability decision_ref digest at log)
unfolding record_outcome
record_outcome-Counted capability decision_ref digest at log c =
    elim (Bool-cases (length log.pending == log.capacity)) [
      | inr room ↦
          let below : suc (length log.pending) ≤ log.capacity = ground (arith, c.bounded) in
          rw room record {
            bounded = omega (arith, length-append log.pending, below);
            roomy = c.roomy;
            runs = Runs-append _ log.pending _ c.runs (omega (arith, c.counted));
            counted = omega (arith, c.counted, length-append log.pending);
            tells = c.tells;
          }
      | inl full ↦
          let at_bound : length log.pending ≡ log.capacity =
            (==_iff (length log.pending) log.capacity).0 full in
          let shorter : suc (length (without_oldest log.pending)) ≡ length log.pending =
            length-without_oldest log.pending (omega (arith, c.roomy, at_bound)) in
          rw full record {
            bounded = omega (arith, length-append (without_oldest log.pending), shorter, at_bound);
            roomy = c.roomy;
            runs =
                Runs-append _ (without_oldest log.pending) _
                  (subst (λ n. Runs n (without_oldest log.pending)) (omega arith)
                    (Runs-without_oldest _ log.pending (omega (arith, c.roomy, at_bound)) c.runs))
                  (omega (arith, c.counted, shorter));
            counted = omega (arith, c.counted, shorter, length-append (without_oldest log.pending));
            tells = c.tells;
          }
    ]

module _ (takes : List Record → Record → Bool) where
  hand_over-Counted :
      (p : Pending) (ps : List Pending) (log : OutcomeLog)
      → log.pending ≡ p ∷ ps
      → Counted log
      → Counted (hand_over takes p ps log) × ((hand_over takes p ps log).pending ≡ ps)
  unfolding hand_over
  hand_over-Counted p ps log h c = elim (Bool-cases (takes log.emitted (stamped p log.dropped))) [
    | inl taken ↦ rw taken (
      record {
        bounded = omega (arith, c.bounded, held);
        roomy = c.roomy;
        runs =
            subst (λ n. Runs n ps)
              (omega (arith, length-append log.emitted (stamped p log.dropped ∷ []))) runs.1;
        counted =
            omega (arith, c.counted, held, length-append log.emitted (stamped p log.dropped ∷ []));
        tells = Tells-append 0 log.emitted _ c.tells (omega (arith, runs.0));
      },
      refl,
    )
    | inr refused ↦ rw refused (
      record {
        bounded = omega (arith, c.bounded, held);
        roomy = c.roomy;
        runs = subst (λ n. Runs n ps) (omega arith) runs.1;
        counted = omega (arith, c.counted, held);
        tells = c.tells;
      },
      refl,
    )
  ]
    where
      held : length log.pending ≡ suc (length ps)
      held = ap length h

      runs : Runs (log.dropped + length log.emitted) (p ∷ ps)
      runs = subst (Runs (log.dropped + length log.emitted)) h c.runs

  flush_loop-Counted :
      (ps : List Pending) (log : OutcomeLog)
      → log.pending ≡ ps
      → Counted log
      → Counted (flush_loop takes ps log) × ((flush_loop takes ps log).pending ≡ [])
  unfolding flush_loop
  flush_loop-Counted [] log h c = (c, h)
  flush_loop-Counted (p ∷ ps) log h c =
      let (d, rest) = hand_over-Counted p ps log h c in
      flush_loop-Counted ps (hand_over takes p ps log) rest d

  pub flush-Counted :
      (log : OutcomeLog)
      → Counted log
      → Counted (flush takes log) × ((flush takes log).pending ≡ [])
  unfolding flush
  flush-Counted log c = flush_loop-Counted log.pending log refl c

-- What is done to a log: an outcome is recorded, or what is held is flushed.
pub data Use : Type 0 where
  record_one : String → String → Option String → String → Use
  flush_all : Use

unfoldable pub used : (List Record → Record → Bool) → List Use → OutcomeLog → OutcomeLog
used takes [] log = log
used takes (record_one capability decision_ref digest at ∷ us) log =
    used takes us (record_outcome capability decision_ref digest at log)
used takes (flush_all ∷ us) log = used takes us (flush takes log)

-- From a log that is so counted, whatever is recorded and flushed, and whatever the sink refuses, the log keeps within its
-- capacity, every number made is dropped, emitted or held, and each emitted record declares as
-- dropped before it exactly the earlier numbers that were not emitted.
pub used-Counted :
    (takes : List Record → Record → Bool) (us : List Use) (log : OutcomeLog)
    → Counted log
    → Counted (used takes us log)
unfolding used
used-Counted takes [] log c = c
used-Counted takes (record_one capability decision_ref digest at ∷ us) log c =
    used-Counted takes us _ (record_outcome-Counted capability decision_ref digest at log c)
used-Counted takes (flush_all ∷ us) log c = used-Counted takes us _ (flush-Counted takes log c).0

pub new_log-Counted : (capacity : ℕ) → 1 ≤ capacity → Counted (new_log capacity)
new_log-Counted capacity h = record {
  bounded = omega arith;
  roomy = h;
  runs = tt;
  counted = refl;
  tells = tt;
}
