-- ===== src/Policy.antt =====
-- packages/control-plane/src/sayfirst_control_plane/domain/policy.py: the rules of a policy and the
-- verdict that they give. `DecisionAsk`, `Outcome` and `Reason` are those of
-- packages/contract/src/sayfirst_contract/decisions.py.
pub mod Verdicts
pub mod Recipe
use Prim.Native.String.{◌++◌ as join}
use sayfirst_control_plane.Common.{
  ℕ, ◌≡◌, Bool, true, false, ◌&&◌, ◌||◌, Option, none, some, List, [], ◌∷◌, map, String, arith,
  if◌then◌else◌, ◌==◌, text_keyed, any, select, find_first,
}

pub data Outcome : Type 0 where
  allow deny suspend : Outcome

pub data Reason : Type 0 where
  policy_allows policy_denies policy_absent policy_requires_review : Reason
  capability_unknown approval_granted approval_rejected : Reason

abbrev pub same_outcome : Outcome → Outcome → Bool
same_outcome allow allow = true
same_outcome deny deny = true
same_outcome suspend suspend = true
same_outcome _ _ = false

pub record DecisionAsk : Type 0 where
  pub capability : String
  pub scope : String
  pub arguments_digest : Option String
  pub correlation : Option String

pub record Principal : Type 0 where
  pub kind : String
  pub uid : ℕ
  pub user_name : String
  pub gids : List ℕ
  pub group_names : List String
  pub delegated_human : Option String

pub data ReferenceKind : Type 0 where
  user group : ReferenceKind

pub record PrincipalReference : Type 0 where
  pub kind : ReferenceKind
  pub name : String

-- `x in xs`
abbrev pub contains : String → List String → Bool
contains x [] = false
contains x (y ∷ ys) = (y == x) || contains x ys

-- `PrincipalReference.matches`
unfoldable pub matches : PrincipalReference → Principal → Bool
matches r p = elim r.kind [ user ↦ r.name == p.user_name | group ↦ contains r.name p.group_names ]

abbrev pub prefix : ReferenceKind → String
prefix user = "user:"
prefix group = "group:"

-- `PrincipalReference.__str__`
abbrev pub text_of : PrincipalReference → String
text_of r = join (prefix r.kind) r.name

-- `Principal.reference`
abbrev pub reference : Principal → String
reference p = join "user:" p.user_name

pub record Rule : Type 0 where
  pub rule_id : String
  pub capability : String
  pub scope : String
  pub principals : List PrincipalReference
  pub outcome : Outcome
  pub reason : String
  pub grant_lifetime_seconds : Option ℕ
  pub arguments_digest : Option String
  pub review_deadline_seconds : Option ℕ

pub record DecisionQuestion : Type 0 where
  pub ask : DecisionAsk
  pub principal : Principal

-- A digest that a rule pins is the asked one; a rule that pins none takes any.
abbrev pub digest_covers : Option String → Option String → Bool
digest_covers none asked = true
digest_covers (some d) none = false
digest_covers (some d) (some e) = d == e

-- `Rule.applies`
unfoldable pub applies : DecisionQuestion → Rule → Bool
unfolding matches
applies q r =
    r.capability == q.ask.capability
    && (r.scope == q.ask.scope
        && (any (λ ref. matches ref q.principal) r.principals
            && digest_covers r.arguments_digest q.ask.arguments_digest))

pub record Policy : Type 0 where
  pub format : ℕ
  pub revision_reason : String
  pub rules : List Rule

pub record Verdict : Type 0 where
  pub outcome : Outcome
  pub reason : Reason
  pub rule_id : Option String
  pub rule : Option Rule

abbrev pub absent : Verdict
absent = record { outcome = deny; reason = policy_absent; rule_id = none; rule = none }

abbrev pub ruled : Outcome → Reason → Rule → Verdict
ruled o why r = record { outcome = o; reason = why; rule_id = some r.rule_id; rule = some r }

-- The first applying rule of the strictest outcome; `none` is the `AssertionError` at the end.
unfoldable pub strictest : List Rule → List (Outcome × Reason) → Option Verdict
strictest applying [] = none
strictest applying ((o, why) ∷ rest) =
    let looser = strictest applying rest in
    elim (find_first (λ r. same_outcome r.outcome o) applying) [
      | some r ↦ some (ruled o why r)
      | none ↦ looser
    ]

abbrev pub strictest_first : List (Outcome × Reason)
strictest_first =
    (deny, policy_denies) ∷ (suspend, policy_requires_review) ∷ (allow, policy_allows) ∷ []

abbrev pub verdict_of : List Rule → Option Verdict
verdict_of [] = some absent
verdict_of (r ∷ rs) = strictest (r ∷ rs) strictest_first

-- `evaluate`
unfoldable pub evaluate : Policy → DecisionQuestion → Option Verdict
unfolding applies strictest
evaluate p q = verdict_of (select (applies q) p.rules)
