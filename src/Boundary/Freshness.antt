-- ===== src/Boundary/Freshness.antt =====
-- Whether a held grant covers an act: `grant_use` of
-- packages/contract/src/sayfirst_contract/grants.py and `ending` of
-- packages/boundary/src/sayfirst_boundary/freshness.py.
use sayfirst_control_plane.Common.{
  ℕ, ◌+◌, ◌<◌, ◌≡◌, Bool, true, false, not, ◌||◌, Option, none, some, String, arith, leb,
  if◌then◌else◌, ◌==◌, ==_iff, text_keyed, option_keyed, ◌↔◌,
}
use sayfirst_control_plane.Policy.{DecisionAsk}
use sayfirst_control_plane.Grants.{
  Grant, GrantConditions, GrantState, live, expired, silent, connection_lost, grant_state, seconds,
  same_conditions,
}

pub data GrantUse : Type 0 where
  hit use_connection_lost use_expired use_arguments_changed use_conditions_differ : GrantUse

-- `grant_use`
unfoldable pub grant_use : Grant → DecisionAsk → String → ℕ → Bool → GrantUse
grant_use g ask principal_reference now connection_live =
    if not connection_live
    then use_connection_lost
    else if leb g.expires_at now
    then use_expired
    else if not (g.conditions.scope == ask.scope)
        || (not (g.conditions.capability == ask.capability)
            || not (g.conditions.principal_reference == principal_reference))
    then use_conditions_differ
    else if not (g.conditions.arguments_digest == ask.arguments_digest)
    then use_arguments_changed
    else hit

pub data GrantEndReason : Type 0 where
  version_changed lifetime_over daemon_stopping : GrantEndReason

pub data Ending : Type 0 where
  still_live lost over quiet policy_changed conditions_differ arguments_changed : Ending

-- `_BY_SIGNAL`
abbrev pub by_signal : GrantEndReason → Ending
by_signal version_changed = policy_changed
by_signal lifetime_over = over
by_signal daemon_stopping = lost

-- `_BY_USE`
abbrev pub by_use : GrantUse → Ending
by_use hit = still_live
by_use use_connection_lost = lost
by_use use_expired = over
by_use use_conditions_differ = conditions_differ
by_use use_arguments_changed = arguments_changed

-- `_OUTRANKS_SILENCE`
abbrev pub outranks_silence : GrantUse → Bool
outranks_silence use_connection_lost = true
outranks_silence use_expired = true
outranks_silence _ = false

pub record Held : Type 0 where
  pub grant : Grant
  pub last_heard_at : ℕ
  pub connection_live : Bool
  pub ended_by : Option GrantEndReason

-- The end of `ending`, by what `grant_use` answered.
unfoldable pub ending_by_use : Held → GrantUse → ℕ → Ending
ending_by_use held used now =
    if outranks_silence used
    then by_use used
    else if leb (held.last_heard_at + seconds held.grant.lifetime_seconds) now
    then quiet
    else by_use used

-- `ending`
unfoldable pub ending : Held → DecisionAsk → String → ℕ → Ending
unfolding ending_by_use grant_use
ending held ask principal_reference now =
    if not held.connection_live then lost else elim held.ended_by [
      | some why ↦ by_signal why
      | none ↦ ending_by_use held (grant_use held.grant ask principal_reference now true) now
    ]

-- The conditions that an ask puts to a held grant.
abbrev pub asked_conditions : DecisionAsk → String → GrantConditions
asked_conditions ask principal_reference = record {
  scope = ask.scope;
  capability = ask.capability;
  principal_reference = principal_reference;
  arguments_digest = ask.arguments_digest;
}

-- How the state of a grant reads as an ending.
abbrev pub of_state : GrantState → Ending
of_state live = still_live
of_state expired = over
of_state silent = quiet
of_state connection_lost = lost
of_state GrantState.policy_version_changed = policy_changed

-- A held grant permits an act exactly when its connection is live, no signal ended it, its lifetime
-- is not over, the plane was heard within a lifetime, and all four of its conditions are the ask's.
pub ending_live_iff :
    (held : Held) (ask : DecisionAsk) (principal_reference : String) (now : ℕ)
    → (ending held ask principal_reference now ≡ still_live) ↔ (
        (held.connection_live ≡ true)
        × (held.ended_by ≡ none)
        × (now < held.grant.expires_at)
        × (now < held.last_heard_at + seconds held.grant.lifetime_seconds)
        × (same_conditions held.grant.conditions (asked_conditions ask principal_reference) ≡ true))
unfolding ending
ending_live_iff held ask principal_reference now =
    by_members held.connection_live held.ended_by held
  where
    by_members :
        (c : Bool) (e : Option GrantEndReason) (h : Held)
        → (ending (record h { connection_live = c; ended_by = e }) ask principal_reference now
            ≡ still_live)
          ↔ ((c ≡ true)
              × (e ≡ none)
              × (now < h.grant.expires_at)
              × (now < h.last_heard_at + seconds h.grant.lifetime_seconds)
              × (same_conditions h.grant.conditions (asked_conditions ask principal_reference)
                  ≡ true))
    by_members false e h = (λ p. ground arith, λ p. ground arith)
    by_members true (some version_changed) h = (λ p. ground arith, λ p. ground arith)
    by_members true (some lifetime_over) h = (λ p. ground arith, λ p. ground arith)
    by_members true (some daemon_stopping) h = (λ p. ground arith, λ p. ground arith)
    by_members true none h = (λ p. ground arith, λ p. ground arith)

-- Where the ask matches the conditions, no signal came and the policy keeps its version, the
-- boundary's ending is the control plane's own state of the grant.
pub ending-grant_state :
    (held : Held) (ask : DecisionAsk) (principal_reference : String) (now : ℕ)
    → held.ended_by ≡ none
    → same_conditions held.grant.conditions (asked_conditions ask principal_reference) ≡ true
    → ending held ask principal_reference now
      ≡ of_state (
          grant_state held.grant now held.grant.policy_version held.connection_live
            held.last_heard_at)
unfolding ending grant_state
ending-grant_state held ask principal_reference now e m =
    ground (arith, ==_iff held.grant.policy_version held.grant.policy_version)
