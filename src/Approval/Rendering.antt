-- ===== src/Approval/Rendering.antt =====
-- What a reader is told of an approval: `Approval.state_at` and `Approval.to_document`.
use sayfirst_control_plane.Common.{ℕ, ◌≤◌, ◌<◌, ◌≡◌, ◌≢◌, refl, none, some, arith, ok}
use sayfirst_control_plane.Approval.{
  ApprovalState, pending, approved, rejected, expired, Approval, Document, state_at, to_document,
}
use sayfirst_control_plane.Approval.Validity.{IsValid, IsNamed, Within}

-- What each state of a document says of its other members, when it was rendered at `now`.
abbrev pub Rendered : ℕ → ApprovalState → Document → Type 0
Rendered now pending d =
    (now < d.deadline) × (d.resolved_at ≡ none) × (d.person ≡ none) × (d.resolution_reason ≡ none)
Rendered now expired d =
    (d.resolved_at ≡ some d.deadline) × (d.person ≡ none) × (d.resolution_reason ≡ none)
Rendered now state d = Within d.resolved_at d.requested_at d.deadline × IsNamed d.person

told_at :
    (s : ApprovalState) (a : Approval) (now g : ℕ) (d : Document)
    → IsValid (record a { state = s })
    → to_document (record a { state = s }) now g ≡ ok d
    → Rendered now d.state d
unfolding to_document
told_at pending a now g d v h = ground arith
told_at approved a now g d v h = ground arith
told_at rejected a now g d v h = ground arith
told_at expired a now g d v h = ground arith

-- The document of a valid approval tells of no wait that has run out as pending, dates a lapse at
-- the deadline and names nobody behind it, and names a person behind every act, inside the wait.
pub to_document-Rendered :
    (a : Approval) (now g : ℕ) (d : Document)
    → IsValid a
    → to_document a now g ≡ ok d
    → Rendered now d.state d
to_document-Rendered a now g d v h = told_at a.state a now g d v h

-- The state that is read once a wait is over, or acted on, is the state read ever after.
pub state_at_stable :
    (a : Approval) (now later : ℕ)
    → now ≤ later
    → state_at a now ≢ pending
    → state_at a later ≡ state_at a now
unfolding state_at
state_at_stable a now later le h = go a.state a h
  where
    go :
        (s : ApprovalState) (b : Approval)
        → state_at (record b { state = s }) now ≢ pending
        → state_at (record b { state = s }) later ≡ state_at (record b { state = s }) now
    go pending b h = ground arith
    go approved b h = refl
    go rejected b h = refl
    go expired b h = refl
