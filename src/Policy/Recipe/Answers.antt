-- ===== src/Policy/Recipe/Answers.antt =====
-- What the retrospective re-derivation confirms, against the live evaluation.
use mathlib.Core.Option.{some_inj}
use sayfirst_control_plane.Common.{
  ◌≡◌, refl, ap, true, Option, none, some, List, map, String, ==_iff, text_keyed, option_keyed,
  arith, Bool-cases, inl, inr, ◌↔◌,
}
use sayfirst_control_plane.Policy.{
  Outcome, Reason, same_outcome, DecisionQuestion, Policy, evaluate,
}
use sayfirst_control_plane.Policy.Verdicts.{evaluate-ranked, ranked}
use sayfirst_control_plane.Policy.Recipe.{
  references_read, recipe_rule, Triple, confirmed, RecordedDecision, Rederived, in_recipe,
  same_reason, same_triple, recipe_id, compared, rederive_parsed, rederive_recorded_decision,
}
use sayfirst_control_plane.Policy.Recipe.Confirms.{triple_of, evaluate_recorded_inputs-evaluate}

same_outcome_iff : (o o' : Outcome) → (same_outcome o o' ≡ true) ↔ (o ≡ o')
same_outcome_iff o o' = ground arith

same_reason_iff : (why why' : Reason) → (same_reason why why' ≡ true) ↔ (why ≡ why')
same_reason_iff why why' = ground arith

same_triple_iff : (t t' : Triple) → (same_triple t t' ≡ true) ↔ (t ≡ t')
same_triple_iff (o, why, r) (o', why', r') = (
  λ h. ground (arith, same_outcome_iff o o', same_reason_iff why why', ==_iff r r'),
  λ h. ground (arith, same_outcome_iff o o', same_reason_iff why why', ==_iff r r'),
)

-- The record of an answer to a question, as the decision service emits it.
abbrev pub recorded : DecisionQuestion → List String → Triple → RecordedDecision
recorded q refs (o, why, r) = record {
  scope = q.ask.scope;
  capability = q.ask.capability;
  principal_references = some refs;
  arguments_digest = q.ask.arguments_digest;
  outcome = o;
  reason = why;
  rule_id = r;
  evaluation_recipe = some recipe_id;
}

abbrev pub confirmation : Rederived
confirmation = record { verdict = confirmed; cause = none; expected = none }

compared_iff :
    (d : RecordedDecision) (t : Triple)
    → (compared d (some t) ≡ some confirmation) ↔ (t ≡ (d.outcome, d.reason, d.rule_id))
unfolding compared
compared_iff d t = elim (Bool-cases (same_triple t (d.outcome, d.reason, d.rule_id))) [
  | inl e ↦ rw e (λ h. (same_triple_iff t _).0 e, λ h. refl)
  | inr e ↦ rw e (λ h. cc, λ h. ground (arith, same_triple_iff t (d.outcome, d.reason, d.rule_id)))
]

abbrev answer_of : Policy → DecisionQuestion → Triple
answer_of p q = ((ranked p q).outcome, (ranked p q).reason, (ranked p q).rule_id)

-- An answer that the recipe can give, recorded with the references read for it, is confirmed from
-- the policy's rules exactly when the live evaluation answers it.
pub rederive_recorded_iff :
    (p : Policy) (q : DecisionQuestion) (o : Outcome) (why : Reason) (r : Option String)
    → in_recipe why ≡ true
    → (rederive_recorded_decision
          (recorded q (references_read p q) (o, why, r))
          (some (map recipe_rule p.rules))
        ≡ some confirmation)
      ↔ (triple_of (evaluate p q) ≡ some (o, why, r))
unfolding rederive_recorded_decision rederive_parsed
rederive_recorded_iff p q o why r h =
    let c : (compared (recorded q (references_read p q) (o, why, r)) (some (answer_of p q))
          ≡ some confirmation)
        ↔ (answer_of p q ≡ (o, why, r)) =
      compared_iff (recorded q (references_read p q) (o, why, r)) (answer_of p q) in
    rw (h, evaluate_recorded_inputs-evaluate p q, evaluate-ranked p q)
      (λ e. ap some (c.0 e), λ e. c.1 (some_inj.0 e))
