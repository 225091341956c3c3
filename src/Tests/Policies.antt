-- ===== src/Tests/Policies.antt =====
-- Two rules for one effect, asked by a member of the group that they name.
use mathlib.Core.List.{Permᴰ}
use sayfirst_control_plane.Common.{◌≡◌, ◌↔◌, refl, true, false, none, some, [], ◌∷◌, map, any}
use sayfirst_control_plane.Policy.{
  allow, deny, suspend, policy_denies, Policy, Rule, DecisionQuestion, evaluate, group, user,
  contains,
}
use sayfirst_control_plane.Policy.Verdicts.{
  evaluate-ranked, ranked, evaluate-order_free, answered, evaluate_allows_iff, gives,
}
use sayfirst_control_plane.Policy.Recipe.{
  recipe_rule, references_read, evaluate_recorded_inputs, rederive_recorded_decision,
}
use sayfirst_control_plane.Policy.Recipe.Confirms.{triple_of, evaluate_recorded_inputs-evaluate}
use sayfirst_control_plane.Policy.Recipe.References.{cites, references_read-cites}
use sayfirst_control_plane.Policy.Recipe.Answers.{recorded, confirmation, rederive_recorded_iff}

abbrev allowing : Rule
allowing = record {
  rule_id = "r1";
  capability = "pump.start";
  scope = "site";
  principals = record { kind = group; name = "operators" } ∷ [];
  outcome = allow;
  reason = "operators start pumps";
  grant_lifetime_seconds = some 60;
  arguments_digest = none;
  review_deadline_seconds = none;
}

abbrev denying : Rule
denying = record {
  rule_id = "r2";
  capability = "pump.start";
  scope = "site";
  principals = record { kind = user; name = "ann" } ∷ [];
  outcome = deny;
  reason = "not this one";
  grant_lifetime_seconds = none;
  arguments_digest = none;
  review_deadline_seconds = none;
}

abbrev policy : Policy
policy = record { format = 1; revision_reason = "first"; rules = allowing ∷ denying ∷ [] }

abbrev turned : Policy
turned = record { format = 1; revision_reason = "turned"; rules = denying ∷ allowing ∷ [] }

abbrev question : DecisionQuestion
question = record {
  ask = record {
    capability = "pump.start";
    scope = "site";
    arguments_digest = some "d1";
    correlation = none;
  };
  principal = record {
    kind = "human";
    uid = 1000;
    user_name = "ann";
    gids = 100 ∷ [];
    group_names = "operators" ∷ [];
    delegated_human = none;
  };
}

evaluate-ranked_example : evaluate policy question ≡ some (ranked policy question)
evaluate-ranked_example = evaluate-ranked policy question

evaluate-order_free_example :
    answered (evaluate policy question) ≡ answered (evaluate turned question)
evaluate-order_free_example = evaluate-order_free policy turned question (Permᴰ.swap refl refl)

evaluate_allows_iff_example : (answered (evaluate policy question) ≡ some allow) ↔ (
    gives policy question allow ≡ true
    × (gives policy question deny ≡ false × gives policy question suspend ≡ false))
evaluate_allows_iff_example = evaluate_allows_iff policy question

references_read-cites_example :
    contains "user:ann" (references_read policy question)
    ≡ any (cites question "user:ann") policy.rules
references_read-cites_example = references_read-cites policy question "user:ann"

evaluate_recorded_inputs-evaluate_example :
    evaluate_recorded_inputs
      (map recipe_rule policy.rules)
      "site"
      "pump.start"
      (references_read policy question)
      (some "d1")
    ≡ triple_of (evaluate policy question)
evaluate_recorded_inputs-evaluate_example = evaluate_recorded_inputs-evaluate policy question

rederive_recorded_iff_example :
    (rederive_recorded_decision
        (recorded question (references_read policy question) (deny, policy_denies, some "r2"))
        (some (map recipe_rule policy.rules))
      ≡ some confirmation)
    ↔ (triple_of (evaluate policy question) ≡ some (deny, policy_denies, some "r2"))
rederive_recorded_iff_example =
    rederive_recorded_iff policy question deny policy_denies (some "r2") refl
