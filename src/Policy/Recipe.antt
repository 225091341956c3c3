-- ===== src/Policy/Recipe.antt =====
-- `references_read` of the live policy, and the retrospective recipe of
-- packages/contract/src/sayfirst_contract/retrospective_policy.py that re-derives a recorded
-- decision from it. Both parsers read one row into rules that differ in the principals alone: the
-- recipe keeps each reference as the text that it was written as.
pub mod Confirms
pub mod References
pub mod Answers
use Prim.Native.String.{◌++◌ as join}
use sayfirst_control_plane.Common.{
  ℕ, ◌≡◌, Bool, true, false, not, ◌&&◌, ◌||◌, Option, none, some, List, [], ◌∷◌, ◌++◌, map, String,
  if◌then◌else◌, ◌==◌, text_keyed, option_keyed, any, select, find_first,
}
use sayfirst_control_plane.Common.Text.{sorted}
use sayfirst_control_plane.Policy.{
  Outcome, allow, deny, suspend, Reason, policy_allows, policy_denies, policy_absent,
  policy_requires_review, same_outcome, DecisionQuestion, Principal, PrincipalReference, text_of,
  reference, Rule, Policy, contains, digest_covers, strictest_first, capability_unknown,
  approval_granted, approval_rejected,
}

-- The elements of a set, once each.
unfoldable pub unique : List String → List String
unique [] = []
unique (x ∷ xs) = let rest = unique xs in if contains x rest then rest else x ∷ rest

abbrev pub held_by : Principal → List String
held_by p = reference p ∷ map (join "group:") p.group_names

-- The references that the rules for the asked scope and capability name.
unfoldable pub named_for : DecisionQuestion → List Rule → List String
named_for q [] = []
named_for q (r ∷ rs) =
    let rest = named_for q rs in
    if r.capability == q.ask.capability && r.scope == q.ask.scope
    then map text_of r.principals ++ rest
    else rest

-- `references_read`
unfoldable pub references_read : Policy → DecisionQuestion → List String
references_read p q =
    sorted (λ s. (s, ""))
      (unique (select (λ s. contains s (held_by q.principal)) (named_for q p.rules)))

-- `_Rule` of the recipe.
pub record RecipeRule : Type 0 where
  pub rule_id : String
  pub capability : String
  pub scope : String
  pub principals : List String
  pub outcome : Outcome
  pub arguments_digest : Option String

-- The rule that the recipe reads from the row of a live rule.
abbrev pub recipe_rule : Rule → RecipeRule
recipe_rule r = record {
  rule_id = r.rule_id;
  capability = r.capability;
  scope = r.scope;
  principals = map text_of r.principals;
  outcome = r.outcome;
  arguments_digest = r.arguments_digest;
}

-- The triple that the recipe answers.
abbrev pub Triple : Type 0
Triple = Outcome × Reason × Option String

unfoldable pub recipe_applies : String → String → List String → Option String → RecipeRule → Bool
recipe_applies scope capability references digest r =
    r.capability == capability
    && (r.scope == scope
        && (any (λ s. contains s references) r.principals
            && digest_covers r.arguments_digest digest))

unfoldable pub recipe_strictest : List RecipeRule → List (Outcome × Reason) → Option Triple
recipe_strictest applying [] = none
recipe_strictest applying ((o, why) ∷ rest) =
    let looser = recipe_strictest applying rest in
    elim (find_first (λ r. same_outcome r.outcome o) applying) [
      | some r ↦ some (o, why, some r.rule_id)
      | none ↦ looser
    ]

abbrev pub recipe_verdict : List RecipeRule → Option Triple
recipe_verdict [] = some (deny, policy_absent, none)
recipe_verdict (r ∷ rs) = recipe_strictest (r ∷ rs) strictest_first

-- `evaluate_recorded_inputs`, on the rules that it parsed.
unfoldable pub evaluate_recorded_inputs :
    List RecipeRule → String → String → List String → Option String → Option Triple
unfolding recipe_applies recipe_strictest
evaluate_recorded_inputs rules scope capability references digest =
    recipe_verdict (select (recipe_applies scope capability references digest) rules)

pub data Rederivation : Type 0 where
  confirmed differs unverifiable : Rederivation

pub record RecordedDecision : Type 0 where
  pub scope : String
  pub capability : String
  pub principal_references : Option (List String)
  pub arguments_digest : Option String
  pub outcome : Outcome
  pub reason : Reason
  pub rule_id : Option String
  pub evaluation_recipe : Option String

pub record Rederived : Type 0 where
  pub verdict : Rederivation
  pub cause : Option String
  pub expected : Option Triple

abbrev pub unverifiable_for : String → Rederived
unverifiable_for cause = record { verdict = unverifiable; cause = some cause; expected = none }

-- `RECIPE_REASONS`
abbrev pub in_recipe : Reason → Bool
in_recipe policy_allows = true
in_recipe policy_denies = true
in_recipe policy_absent = true
in_recipe policy_requires_review = true
in_recipe _ = false

abbrev pub same_reason : Reason → Reason → Bool
same_reason policy_allows policy_allows = true
same_reason policy_denies policy_denies = true
same_reason policy_absent policy_absent = true
same_reason policy_requires_review policy_requires_review = true
same_reason capability_unknown capability_unknown = true
same_reason approval_granted approval_granted = true
same_reason approval_rejected approval_rejected = true
same_reason _ _ = false

abbrev pub recipe_id : String
recipe_id = "sayfirst/policy-evaluation/v1"

abbrev pub same_triple : Triple → Triple → Bool
same_triple (o, why, r) (o', why', r') = same_outcome o o' && (same_reason why why' && r == r')

-- The comparison of the recorded answer with the computed one.
unfoldable pub compared : RecordedDecision → Option Triple → Option Rederived
compared d none = none
compared d (some t) =
    if same_triple t (d.outcome, d.reason, d.rule_id)
    then some (record { verdict = confirmed; cause = none; expected = none })
    else some (record { verdict = differs; cause = none; expected = some t })

unfoldable pub rederive_parsed :
    RecordedDecision → List String → Option (List RecipeRule) → Option Rederived
unfolding compared
rederive_parsed d references none = some (unverifiable_for "policy_unparseable")
rederive_parsed d references (some rules) =
    compared d (evaluate_recorded_inputs rules d.scope d.capability references d.arguments_digest)

-- `rederive_recorded_decision`, where `parsed` is what `_parse` makes of the policy's bytes, `none`
-- where it refuses them. An answer of `none` is the `AssertionError` of the evaluation.
unfoldable pub rederive_recorded_decision :
    RecordedDecision → Option (List RecipeRule) → Option Rederived
unfolding rederive_parsed
rederive_recorded_decision d parsed = elim d.evaluation_recipe [
  | none ↦ some (unverifiable_for "members_absent")
  | some recipe ↦ elim d.principal_references [
    | none ↦ some (unverifiable_for "members_absent")
    | some references ↦
        if not (recipe == recipe_id)
        then some (unverifiable_for "evaluation_recipe_unsupported")
        else if not (in_recipe d.reason)
        then some (unverifiable_for "reason_outside_recipe")
        else rederive_parsed d references parsed
  ]
]
