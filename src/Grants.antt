-- ===== src/Grants.antt =====
-- Grants: packages/control-plane/src/sayfirst_control_plane/domain/grant.py, and the values of
-- packages/contract/src/sayfirst_contract/grants.py that a boundary holds. One record stands for
-- both grants, whose members are the same; its instants are microseconds.
pub mod Minting
pub mod Connections
use Prim.Native.String.{◌++◌ as join}
use sayfirst_control_plane.Common.{
  ℕ, ◌+◌, ◌*◌, ◌≡◌, Bool, true, false, not, ◌&&◌, ◌||◌, Option, none, some, String, arith, leb, ltb,
  if◌then◌else◌, ◌==◌, ==_iff, text_keyed, option_keyed, nat_keyed, ◌↔◌, Result, ok, err, ⊤,
  refuse_if, ◌>>=◌, ◌>>◌,
}
use sayfirst_control_plane.Policy.{
  Outcome, allow, same_outcome, DecisionAsk, DecisionQuestion, reference,
}

pub record GrantConditions : Type 0 where
  pub scope : String
  pub capability : String
  pub principal_reference : String
  pub arguments_digest : Option String

pub record Grant : Type 0 where
  pub grant_id : String
  pub decision_ref : String
  pub policy_version : String
  pub issued_at : ℕ
  pub lifetime_seconds : ℕ
  pub expires_at : ℕ
  pub heartbeat_seconds : ℕ
  pub conditions : GrantConditions

-- The members of a decision that minting reads. `principal_name` and `arguments_digest` are `none`
-- where the document lacks the member or has it with another type.
pub record Decision : Type 0 where
  pub decision_ref : String
  pub scope : String
  pub capability : String
  pub outcome : Outcome
  pub policy_version : Option String
  pub principal_name : Option String
  pub arguments_digest : Option (Option String)

pub data Refusal : Type 0 where
  lifetime_out_of_range heartbeat_out_of_range expiry_off_lifetime : Refusal
  only_allow_cached version_differs conditions_lacking : Refusal

-- `timedelta(seconds=…)`
abbrev pub seconds : ℕ → ℕ
seconds s = s * 1000000

-- `Grant.__post_init__`
unfoldable pub checked_grant : Grant → Result Refusal Grant
checked_grant g = do
  refuse_if (not (leb 1 g.lifetime_seconds && leb g.lifetime_seconds 86400)) lifetime_out_of_range
  refuse_if (not (leb 1 g.heartbeat_seconds && leb g.heartbeat_seconds 60)) heartbeat_out_of_range
  refuse_if (not (g.expires_at == g.issued_at + seconds g.lifetime_seconds)) expiry_off_lifetime
  ok g

-- A member that minting needs.
abbrev pub needed : {A : Type 0} → Option A → Result Refusal A
needed none = err conditions_lacking
needed (some a) = ok a

-- `mint_grant`; the new identifier is an argument.
unfoldable pub mint_grant : String → Decision → ℕ → ℕ → String → ℕ → Result Refusal Grant
unfolding checked_grant
mint_grant grant_id decision now lifetime_seconds policy_version heartbeat_seconds = do
  refuse_if (not (same_outcome decision.outcome allow)) only_allow_cached
  refuse_if (not (decision.policy_version == some policy_version)) version_differs
  digest ← needed decision.arguments_digest
  principal_name ← needed decision.principal_name
  checked_grant record {
    grant_id = grant_id;
    decision_ref = decision.decision_ref;
    policy_version = policy_version;
    issued_at = now;
    lifetime_seconds = lifetime_seconds;
    expires_at = now + seconds lifetime_seconds;
    heartbeat_seconds = heartbeat_seconds;
    conditions = record {
      scope = decision.scope;
      capability = decision.capability;
      principal_reference = join "user:" principal_name;
      arguments_digest = digest;
    };
  }

pub data GrantState : Type 0 where
  live expired silent policy_version_changed connection_lost : GrantState

-- `grant_state`
unfoldable pub grant_state : Grant → ℕ → String → Bool → ℕ → GrantState
grant_state g now current_policy_version connection_live last_heard_at =
    if not connection_live
    then connection_lost
    else if leb g.expires_at now
    then expired
    else if leb (last_heard_at + seconds g.lifetime_seconds) now
    then silent
    else if not (current_policy_version == g.policy_version)
    then policy_version_changed
    else live

abbrev pub same_conditions : GrantConditions → GrantConditions → Bool
same_conditions c d =
    c.scope == d.scope
    && (c.capability == d.capability
        && (c.principal_reference == d.principal_reference
            && c.arguments_digest == d.arguments_digest))

-- `grant_matches`
unfoldable pub grant_matches : Grant → DecisionQuestion → Bool
grant_matches g q = same_conditions g.conditions record {
  scope = q.ask.scope;
  capability = q.ask.capability;
  principal_reference = reference q.principal;
  arguments_digest = q.ask.arguments_digest;
}
