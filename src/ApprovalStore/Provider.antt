-- ===== src/ApprovalStore/Provider.antt =====
-- `SimpleApprovalProvider` of packages/control-plane/src/sayfirst_control_plane/application/approvals.py:
-- the shipped provider, which judges a person's act and writes nothing.
use sayfirst_control_plane.Common.{
  ℕ, ◌≡◌, refl, ◌<◌, true, false, not, Option, some, String, arith, leb, if◌then◌else◌, ◌==◌,
  ==_iff, text_keyed, pair_keyed, Result, ok, err, ap, ◌≢◌, ◌≤◌, Option-cases, inl, inr,
}
use sayfirst_control_plane.Common.Dict.{lookup}
use sayfirst_control_plane.Approval.{Approval}
use sayfirst_control_plane.ApprovalStore.Monad.{Store, StoreError}
use sayfirst_control_plane.ApprovalStore.{read}
use sayfirst_control_plane.Approval.{
  is_pending, Key, ApprovalState, pending, approved, rejected, expired,
}
use sayfirst_control_plane.Approval.Validity.{IsValid}
use sayfirst_control_plane.Common.Dict.{insert, lookup-insert_self}
use sayfirst_control_plane.ApprovalStore.{index_lapse, keep}
use sayfirst_control_plane.ApprovalStore.Records.{keep-ok, lapse_instant_total}
use sayfirst_control_plane.ApprovalStore.Keeping.{>>=-run, then_indexed}
use sayfirst_control_plane.ApprovalStore.Evolution.{then_indexed-refs}
use sayfirst_control_plane.ApprovalStore.Acts.{
  Resolution, approve, reject, ResolvedApproval, resolved_by, write_resolution, resolve, end_by_act,
}
use sayfirst_control_plane.ApprovalStore.Invariant.{Inv}

pub record ApprovalRequest : Type 0 where
  pub approval_ref : String
  pub decision_ref : String
  pub scope : String
  pub capability : String
  pub requested_at : ℕ
  pub deadline : ℕ

-- The messages of `ApprovalRequestMismatch`, and the `ValueError`s of a request and a suspension.
pub data Mismatch : Type 0 where
  not_kept other_decision act_elsewhere act_out_of_scope : Mismatch
  deadline_not_after scope_not_of_request : Mismatch

-- `ApprovalRequest.__post_init__`
unfoldable pub checked_request : ApprovalRequest → Result Mismatch ApprovalRequest
checked_request r = if leb r.deadline r.requested_at then err deadline_not_after else ok r

pub record SuspendedApproval : Type 0 where
  pub request : ApprovalRequest
  pub scope : String

-- `SuspendedApproval.__post_init__`
unfoldable pub checked_suspension : SuspendedApproval → Result Mismatch SuspendedApproval
checked_suspension s = if not (s.scope == s.request.scope) then err scope_not_of_request else ok s

pub record ApprovalAction : Type 0 where
  pub approval_ref : String
  pub scope : String
  pub person : String
  pub resolution : Resolution
  pub reason : Option String

-- What `read` answered, held against the decision; `read` raises nothing but `ApprovalUnknown`.
unfoldable pub kept_for : Result StoreError Approval → String → Result Mismatch Approval
kept_for (err e) decision_ref = err not_kept
kept_for (ok kept) decision_ref =
    if not (kept.decision_ref == decision_ref) then err other_decision else ok kept

-- `SimpleApprovalProvider.suspend`
unfoldable pub suspend_for : ApprovalRequest → Store → Result Mismatch SuspendedApproval
unfolding kept_for checked_suspension
suspend_for r s = elim (kept_for (read r.scope r.approval_ref s).0 r.decision_ref) [
  | err e ↦ err e
  | ok kept ↦ checked_suspension (record { request = r; scope = r.scope })
]

-- The answer of `resume` for the record kept.
abbrev pub judged : Approval → ApprovalAction → ResolvedApproval
judged kept action = record {
  approval_ref = kept.approval_ref;
  decision_ref = kept.decision_ref;
  scope = kept.question.scope;
  person = action.person;
  resolution = action.resolution;
  reason = action.reason;
}

-- `SimpleApprovalProvider.resume`
unfoldable pub resume :
    SuspendedApproval → ApprovalAction → Store → Result Mismatch ResolvedApproval
unfolding kept_for
resume suspended action s =
    if not (action.approval_ref == suspended.request.approval_ref)
    then err act_elsewhere
    else if not (action.scope == suspended.scope)
    then err act_out_of_scope
    else elim (kept_for (read suspended.scope suspended.request.approval_ref s).0
        suspended.request.decision_ref) [ err e ↦ err e | ok kept ↦ ok (judged kept action) ]

-- In a well-formed store, what the provider answers to an act names a wait that the store keeps, under the scope, the
-- reference and the decision that were suspended, and carries the act as the person made it.
pub resume_kept :
    (suspended : SuspendedApproval) (action : ApprovalAction) (s : Store) (r : ResolvedApproval)
    → Inv s
    → resume suspended action s ≡ ok r
    → (kept : Approval) × (lookup (action.scope, action.approval_ref) s.by_reference ≡ some kept)
      × (kept.question.scope ≡ r.scope)
      × (kept.approval_ref ≡ r.approval_ref)
      × (r.scope ≡ suspended.scope)
      × (r.approval_ref ≡ suspended.request.approval_ref)
      × (r.decision_ref ≡ suspended.request.decision_ref)
      × (kept.decision_ref ≡ r.decision_ref)
      × (r.person ≡ action.person)
      × (r.resolution ≡ action.resolution)
      × (r.reason ≡ action.reason)
unfolding resume read
resume_kept suspended action s r v h =
    elim (Option-cases (lookup (suspended.scope, suspended.request.approval_ref) s.by_reference)) [
      | inl missing ↦ absurd (ground arith)
      | inr (kept, found) ↦
          let (filed, _) = v.filed (suspended.scope, suspended.request.approval_ref) kept found in
          let here : (action.scope ≡ suspended.scope)
              × (action.approval_ref ≡ suspended.request.approval_ref)
              × (kept.decision_ref ≡ suspended.request.decision_ref) =
            ground (
              arith,
              ==_iff action.scope suspended.scope,
              ==_iff action.approval_ref suspended.request.approval_ref,
              ==_iff kept.decision_ref suspended.request.decision_ref,
            ) in
          let same : judged kept action ≡ r = ground (
            arith,
            ==_iff action.scope suspended.scope,
            ==_iff action.approval_ref suspended.request.approval_ref,
            ==_iff kept.decision_ref suspended.request.decision_ref,
          ) in
          rw (← same) (
            kept,
            rw (here.0, here.1) found,
            refl,
            refl,
            ap (λ k. k.0) filed,
            ap (λ k. k.1) filed,
            here.2,
            refl,
            refl,
            refl,
            refl,
          )
    ]

-- An act inside a pending wait is a valid end of it.
resolved_by-IsValid :
    (a : Approval) (person : String) (resolution : Resolution) (reason : Option String) (now : ℕ)
    → is_pending a.state ≡ true
    → IsValid a
    → a.requested_at ≤ now
    → now < a.deadline
    → person ≢ ""
    → IsValid (resolved_by a person resolution reason now)
resolved_by-IsValid a person resolution reason now waiting v from till named =
    by_state a.state a resolution waiting v from till
  where
    by_state :
        (t : ApprovalState) (a : Approval) (resolution : Resolution)
        → is_pending t ≡ true
        → IsValid (record a { state = t })
        → a.requested_at ≤ now
        → now < a.deadline
        → IsValid (resolved_by a person resolution reason now)
    by_state pending a approve waiting v from till = ground arith
    by_state pending a reject waiting v from till = ground arith
    by_state approved a resolution waiting v from till = ground arith
    by_state rejected a resolution waiting v from till = ground arith
    by_state expired a resolution waiting v from till = ground arith

then_indexed-ok :
    (key : Key) (a : Approval) (s : Store) → IsValid a → (then_indexed key ok a s).0 ≡ ok a
unfolding index_lapse
then_indexed-ok key a s v = let (lapse, e) = lapse_instant_total a v in rw e

-- In a well-formed store, an act on a wait that is kept and pending, at an instant from its request to before its deadline,
-- by a person with a name, is written: the writer answers the wait ended by that person with that
-- resolution at that instant, and that is what the store keeps afterwards.
pub write_resolution_ends :
    (r : ResolvedApproval) (now : ℕ) (s : Store) (kept : Approval)
    → Inv s
    → lookup (r.scope, r.approval_ref) s.by_reference ≡ some kept
    → is_pending kept.state ≡ true
    → kept.requested_at ≤ now
    → now < kept.deadline
    → r.person ≢ ""
    → ((write_resolution r now s).0 ≡ ok (resolved_by kept r.person r.resolution r.reason now))
      × (lookup (r.scope, r.approval_ref) (write_resolution r now s).1.by_reference
          ≡ some (resolved_by kept r.person r.resolution r.reason now))
unfolding write_resolution resolve read end_by_act
write_resolution_ends r now s kept v found waiting from till named =
    let valid : IsValid (resolved_by kept r.person r.resolution r.reason now) =
      resolved_by-IsValid kept r.person r.resolution r.reason now waiting
        (v.filed (r.scope, r.approval_ref) kept found).1 from till named in
    let early : leb kept.deadline now ≡ false = ground arith in
    let key : Key = (r.scope, r.approval_ref) in
    let a : Approval = resolved_by kept r.person r.resolution r.reason now in
    rw (found, waiting, early, >>=-run (keep key a) (then_indexed key ok) s (keep-ok key a s valid))
      (
        then_indexed-ok key a (record s { by_reference = insert key a s.by_reference }) valid,
        rw (then_indexed-refs key ok a (record s { by_reference = insert key a s.by_reference }))
            (lookup-insert_self key a s.by_reference),
      )
