-- ===== src/ApprovalStore/Acts.antt =====
-- The acts of `ApprovalStore` on a wait that it keeps: `resolve`, `claim`, `release_claim` and
-- `consume`, and the core's one caller of `resolve`.
use sayfirst_control_plane.Common.{
  ℕ, true, false, not, ◌||◌, Option, some, String, leb, if◌then◌else◌,
}
use sayfirst_control_plane.Approval.{
  Approval, ApprovalState, approved, rejected, expired, is_pending, is_approved, Key,
}
use sayfirst_control_plane.ApprovalStore.Monad.{
  already_resolved, already_claimed, not_approved, release_consumed, release_unclaimed,
  already_consumed, not_claimed, Action, pure, raise, ◌>>=◌, ◌>>◌, raise_if,
}
use sayfirst_control_plane.ApprovalStore.{keep, read, index_lapse}

-- `ApprovalResolution` of plugins/interfaces.py, and `_STATE_OF`.
pub data Resolution : Type 0 where
  approve reject : Resolution

abbrev pub state_of : Resolution → ApprovalState
state_of approve = approved
state_of reject = rejected

abbrev pub ended_unread : Approval → Approval
ended_unread kept = record kept { state = expired; resolved_at = some kept.deadline }

abbrev pub resolved_by : Approval → String → Resolution → Option String → ℕ → Approval
resolved_by kept person resolution reason now = record kept {
  state = state_of resolution;
  resolved_at = some now;
  person = some person;
  resolution_reason = reason;
  published = true;
}

-- The two ends of `resolve` for a wait that is still pending.
unfoldable pub end_late : Key → Approval → Action Approval
end_late key kept = do
  expired_wait ← keep key (ended_unread kept)
  index_lapse key expired_wait
  raise already_resolved

unfoldable pub end_by_act :
    Key → Approval → String → Resolution → Option String → ℕ → Action Approval
end_by_act key kept person resolution reason now = do
  resolved ← keep key (resolved_by kept person resolution reason now)
  index_lapse key resolved
  pure resolved

-- `resolve`
unfoldable pub resolve : String → String → String → Resolution → Option String → ℕ → Action Approval
resolve scope approval_ref person resolution reason now = do
  kept ← read scope approval_ref
  raise_if (not (is_pending kept.state)) already_resolved
  if leb kept.deadline now
      then end_late (scope, approval_ref) kept
      else end_by_act (scope, approval_ref) kept person resolution reason now

-- `claim`
unfoldable pub claim : String → String → Action Approval
claim scope approval_ref = do
  kept ← read scope approval_ref
  raise_if (not (is_approved kept.state)) not_approved
  raise_if (kept.consumed || kept.claimed) already_claimed
  keep (scope, approval_ref) (record kept { claimed = true })

-- `release_claim`
unfoldable pub release_claim : String → String → Action Approval
release_claim scope approval_ref = do
  kept ← read scope approval_ref
  raise_if kept.consumed release_consumed
  raise_if (not kept.claimed) release_unclaimed
  keep (scope, approval_ref) (record kept { claimed = false })

-- `consume`
unfoldable pub consume : String → String → ℕ → Action Approval
consume scope approval_ref now = do
  kept ← read scope approval_ref
  raise_if (not (is_approved kept.state)) not_approved
  raise_if kept.consumed already_consumed
  raise_if (not kept.claimed) not_claimed
  spent ← keep (scope, approval_ref) (record kept { consumed = true; consumed_at = some now })
  index_lapse (scope, approval_ref) spent
  pure spent

-- The core-owned facts of one judged resolution, `ResolvedApproval` of plugins/interfaces.py.
pub record ResolvedApproval : Type 0 where
  pub approval_ref : String
  pub decision_ref : String
  pub scope : String
  pub person : String
  pub resolution : Resolution
  pub reason : Option String

-- `write_resolution`, at the instant of the store's clock.
unfoldable pub write_resolution : ResolvedApproval → ℕ → Action Approval
write_resolution r now = resolve r.scope r.approval_ref r.person r.resolution r.reason now
