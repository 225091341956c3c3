-- ===== src/Approval/Validity.antt =====
-- What `Approval.__post_init__` accepts, stated by the states of a wait.
use sayfirst_control_plane.Common.{
  ℕ, ◌≤◌, ◌<◌, ◌≡◌, ◌≢◌, ◌↔◌, Bool, true, false, Option, none, some, String, arith, ok, ==_iff,
  text_keyed, nat_keyed,
}
use sayfirst_control_plane.Approval.{
  ApprovalState, pending, approved, rejected, expired, Approval, checked,
}

abbrev pub Within : Option ℕ → ℕ → ℕ → Type 0
Within none lo hi = ⊥
Within (some t) lo hi = (lo ≤ t) × (t ≤ hi)

abbrev pub IsNamed : Option String → Type 0
IsNamed none = ⊥
IsNamed (some p) = p ≢ ""

-- The spend is dated exactly when it happened, and not before the act.
abbrev pub Spent : Bool → Bool → Option ℕ → Option ℕ → Type 0
Spent false claimed none resolved_at = Unit
Spent false claimed (some s) resolved_at = ⊥
Spent true claimed none resolved_at = ⊥
Spent true claimed (some s) none = claimed ≡ true
Spent true claimed (some s) (some t) = (claimed ≡ true) × (t ≤ s)

-- What each state of a wait says of the other fields.
abbrev pub Fits : ApprovalState → Approval → Type 0
Fits pending a =
    (a.resolved_at ≡ none)
    × (a.person ≡ none)
    × (a.resolution_reason ≡ none)
    × (a.claimed ≡ false)
    × (a.consumed ≡ false)
    × (a.consumed_at ≡ none)
Fits approved a =
    Within a.resolved_at a.requested_at a.deadline
    × IsNamed a.person
    × Spent a.consumed a.claimed a.consumed_at a.resolved_at
Fits rejected a =
    Within a.resolved_at a.requested_at a.deadline
    × IsNamed a.person
    × (a.claimed ≡ false)
    × (a.consumed ≡ false)
    × (a.consumed_at ≡ none)
Fits expired a =
    (a.resolved_at ≡ some a.deadline)
    × (a.person ≡ none)
    × (a.resolution_reason ≡ none)
    × (a.claimed ≡ false)
    × (a.consumed ≡ false)
    × (a.consumed_at ≡ none)

abbrev pub IsValid : Approval → Type 0
IsValid a = (a.requested_at < a.deadline) × Fits a.state a

-- A record with the fields on which validity turns given anew.
abbrev at :
    Approval → ApprovalState → Option ℕ → Option String → Option String → Bool → Option ℕ → Approval
at a s ended person reason spent spent_at = record a {
  state = s;
  resolved_at = ended;
  person = person;
  resolution_reason = reason;
  consumed = spent;
  consumed_at = spent_at;
}

from_checked :
    (s : ApprovalState) (ended : Option ℕ) (person reason : Option String) (spent : Bool)
    (spent_at : Option ℕ) (a : Approval)
    → checked (at a s ended person reason spent spent_at)
      ≡ ok (at a s ended person reason spent spent_at)
    → IsValid (at a s ended person reason spent spent_at)
unfolding checked
from_checked pending none none none false none a h = ground arith
from_checked approved (some t) (some p) r false none a h = ground (arith, ==_iff p "")
from_checked approved (some t) (some p) r true (some u) a h = ground (arith, ==_iff p "")
from_checked rejected (some t) (some p) r false none a h = ground (arith, ==_iff p "")
from_checked expired (some t) none none false none a h = ground arith
from_checked s e p r c u a h = ground arith

to_checked :
    (s : ApprovalState) (ended : Option ℕ) (person reason : Option String) (spent : Bool)
    (spent_at : Option ℕ) (a : Approval)
    → IsValid (at a s ended person reason spent spent_at)
    → checked (at a s ended person reason spent spent_at)
      ≡ ok (at a s ended person reason spent spent_at)
unfolding checked
to_checked pending none none none false none a h = ground arith
to_checked approved (some t) (some p) r false none a h = ground (arith, ==_iff p "")
to_checked approved (some t) (some p) r true (some u) a h = ground (arith, ==_iff p "")
to_checked rejected (some t) (some p) r false none a h = ground (arith, ==_iff p "")
to_checked expired (some t) none none false none a h = ground arith
to_checked s e p r c u a h = ground arith

-- An approval is constructed exactly when it is valid: its deadline follows its request, a pending
-- one carries no end, person, reason or spend, an act has its person and falls inside the wait, a
-- lapse ended at its deadline with nobody behind it, and only an approved one that was claimed is
-- spent, at an instant not before its act.
pub checked-IsValid : (a : Approval) → (checked a ≡ ok a) ↔ IsValid a
checked-IsValid a = (
  from_checked a.state a.resolved_at a.person a.resolution_reason a.consumed a.consumed_at a,
  to_checked a.state a.resolved_at a.person a.resolution_reason a.consumed a.consumed_at a,
)

-- Construction changes nothing.
pub checked-same : (a b : Approval) → checked a ≡ ok b → a ≡ b
unfolding checked
checked-same a b h = ground arith
