-- ===== src/Approval.antt =====
-- packages/control-plane/src/sayfirst_control_plane/domain/approval.py. An instant is the number of
-- microseconds since the year 1, offset-aware as every caller's clock gives it; a document keeps
-- its instants as numbers, since their text is only printed.
pub mod Validity
pub mod Rendering
use sayfirst_control_plane.Common.{
  ℕ, ◌+◌, ◌≤◌, ◌<◌, ◌≡◌, ◌≢◌, ◌⊎◌, refl, Bool, true, false, not, ◌&&◌, ◌||◌, Option, none, some,
  String, arith, ltb, leb, if◌then◌else◌, is_some, Keyed, ◌==◌, ==_iff, ◌↔◌, Result, ok, err, ⊤,
  refuse_if, ◌>>=◌, ◌>>◌, nat_keyed, text_keyed, option_keyed, pair_keyed,
}

pub data ApprovalState : Type 0 where
  pending approved rejected expired : ApprovalState

-- The states that a person's act produced.
abbrev pub acted : ApprovalState → Bool
acted approved = true
acted rejected = true
acted _ = false

abbrev pub is_pending : ApprovalState → Bool
is_pending pending = true
is_pending _ = false

abbrev pub is_approved : ApprovalState → Bool
is_approved approved = true
is_approved _ = false

abbrev pub is_rejected : ApprovalState → Bool
is_rejected rejected = true
is_rejected _ = false

abbrev pub is_expired : ApprovalState → Bool
is_expired expired = true
is_expired _ = false

-- The `ValueError` of each refused construction, one constructor for each message.
pub data Complaint : Type 0 where
  empty_member deadline_not_after : Complaint
  pending_reason expired_reason consumed_unapproved claimed_unapproved consumed_unclaimed :
      Complaint
  unspent_instant spent_without_instant spent_before_act : Complaint
  pending_resolved unresolved resolved_before_request lapse_off_deadline act_after_deadline :
      Complaint
  act_without_person pending_person expired_person : Complaint
  generation_not_positive : Complaint

pub record Question : Type 0 where
  pub scope : String
  pub principal_reference : String
  pub capability : String
  pub arguments_digest : String

abbrev pub is_empty : String → Bool
is_empty s = s == ""

-- `Question.__post_init__`
unfoldable pub checked_question : Question → Result Complaint Question
checked_question q = do
  refuse_if (is_empty q.scope) empty_member
  refuse_if (is_empty q.principal_reference) empty_member
  refuse_if (is_empty q.capability) empty_member
  refuse_if (is_empty q.arguments_digest) empty_member
  ok q

pub record Approval : Type 0 where
  pub approval_ref : String
  pub decision_ref : String
  pub question : Question
  pub requested_at : ℕ
  pub deadline : ℕ
  pub state : ApprovalState
  pub resolved_at : Option ℕ
  pub person : Option String
  pub resolution_reason : Option String
  pub consumed : Bool
  pub consumed_at : Option ℕ
  pub claimed : Bool
  pub published : Bool

-- `now < t`, and false where there is no `t`.
abbrev pub before_some : ℕ → Option ℕ → Bool
before_some now none = false
before_some now (some t) = ltb now t

-- `_hold_the_spend`, on the fields that it reads.
unfoldable pub hold_the_spend : Bool → Option ℕ → Option ℕ → Result Complaint ⊤
hold_the_spend false none resolved_at = ok tt
hold_the_spend false (some s) resolved_at = err unspent_instant
hold_the_spend true none resolved_at = err spent_without_instant
hold_the_spend true (some s) resolved_at = refuse_if (before_some s resolved_at) spent_before_act

-- `_hold_the_end_of_the_wait`, on the state, the end, the beginning and the deadline.
unfoldable pub hold_the_end_of_the_wait : ApprovalState → Option ℕ → ℕ → ℕ → Result Complaint ⊤
hold_the_end_of_the_wait pending none requested_at deadline = ok tt
hold_the_end_of_the_wait pending (some t) requested_at deadline = err pending_resolved
hold_the_end_of_the_wait state none requested_at deadline = err unresolved
hold_the_end_of_the_wait state (some t) requested_at deadline = do
  refuse_if (ltb t requested_at) resolved_before_request
  refuse_if (is_expired state && not (t == deadline)) lapse_off_deadline
  refuse_if (acted state && ltb deadline t) act_after_deadline

-- `_hold_the_one_person`
unfoldable pub hold_the_one_person : ApprovalState → Option String → Result Complaint ⊤
hold_the_one_person pending none = ok tt
hold_the_one_person pending (some p) = err pending_person
hold_the_one_person expired none = ok tt
hold_the_one_person expired (some p) = err expired_person
hold_the_one_person state none = err act_without_person
hold_the_one_person state (some p) = refuse_if (is_empty p) act_without_person

-- `Approval.__post_init__`, which `dataclasses.replace` runs too.
unfoldable pub checked : Approval → Result Complaint Approval
unfolding hold_the_spend hold_the_end_of_the_wait hold_the_one_person
checked a = do
  refuse_if (leb a.deadline a.requested_at) deadline_not_after
  hold_the_end_of_the_wait a.state a.resolved_at a.requested_at a.deadline
  hold_the_one_person a.state a.person
  refuse_if (is_pending a.state && is_some a.resolution_reason) pending_reason
  refuse_if (is_expired a.state && is_some a.resolution_reason) expired_reason
  refuse_if (a.consumed && not (is_approved a.state)) consumed_unapproved
  refuse_if (a.claimed && not (is_approved a.state)) claimed_unapproved
  refuse_if (a.consumed && not a.claimed) consumed_unclaimed
  hold_the_spend a.consumed a.consumed_at a.resolved_at
  ok a

-- `Approval.state_at`
unfoldable pub state_at : Approval → ℕ → ApprovalState
state_at a now = if is_pending a.state && leb a.deadline now then expired else a.state

-- The members of the published `approval-result`; `person` is absent where it is `none`.
pub record Document : Type 0 where
  pub contract_generation : ℕ
  pub approval_ref : String
  pub decision_ref : String
  pub scope : String
  pub capability : String
  pub state : ApprovalState
  pub requested_at : ℕ
  pub deadline : ℕ
  pub resolved_at : Option ℕ
  pub resolution_reason : Option String
  pub person : Option String

abbrev pub ended_at : Option ℕ → ApprovalState → ℕ → Option ℕ
ended_at none expired deadline = some deadline
ended_at resolved_at state deadline = resolved_at

-- `Approval.to_document`
unfoldable pub to_document : Approval → ℕ → ℕ → Result Complaint Document
unfolding state_at
to_document a now generation = do
  refuse_if (ltb generation 1) generation_not_positive
  ok (record {
    contract_generation = generation;
    approval_ref = a.approval_ref;
    decision_ref = a.decision_ref;
    scope = a.question.scope;
    capability = a.question.capability;
    state = state_at a now;
    requested_at = a.requested_at;
    deadline = a.deadline;
    resolved_at = ended_at a.resolved_at (state_at a now) a.deadline;
    resolution_reason = a.resolution_reason;
    person = if acted (state_at a now) then a.person else none;
  })

-- Questions are compared member by member.
abbrev pub question_same : Question → Question → Bool
question_same p q =
    p.scope == q.scope
    && (p.principal_reference == q.principal_reference
        && (p.capability == q.capability && p.arguments_digest == q.arguments_digest))

pub question_same_iff : (p q : Question) → (question_same p q ≡ true) ↔ (p ≡ q)
question_same_iff p q = (
  λ h. ground (
    arith,
    ==_iff p.scope q.scope,
    ==_iff p.principal_reference q.principal_reference,
    ==_iff p.capability q.capability,
    ==_iff p.arguments_digest q.arguments_digest,
  ),
  λ h. ground (
    arith,
    ==_iff p.scope q.scope,
    ==_iff p.principal_reference q.principal_reference,
    ==_iff p.capability q.capability,
    ==_iff p.arguments_digest q.arguments_digest,
  ),
)

instance abbrev pub question_keyed : Keyed Question
question_keyed = record { same = question_same; same_iff = question_same_iff }

-- `(scope, approval_ref)`
abbrev pub Key : Type 0
Key = String × String

abbrev pub key_of : Approval → Key
key_of a = (a.question.scope, a.approval_ref)
