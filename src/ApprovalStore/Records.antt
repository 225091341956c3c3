-- ===== src/ApprovalStore/Records.antt =====
-- Single records: what the acts make of a valid one, and when it lapses.
use sayfirst_control_plane.Common.{
  subst, ℕ, ◌+◌, ◌-◌, ◌≡◌, refl, Bool, true, false, Option, none, some, arith, ok, pair_keyed,
  text_keyed,
}
use sayfirst_control_plane.Common.Dict.{insert, lookup}
use sayfirst_control_plane.Common.Heap.{Due, push, push-Due, push-Due_self, push-IsSorted}
use sayfirst_control_plane.Approval.{
  Approval, ApprovalState, Key, pending, approved, rejected, expired, is_pending,
}
use sayfirst_control_plane.Approval.Validity.{IsValid, checked-IsValid}
use sayfirst_control_plane.ApprovalStore.Monad.{Store}
use sayfirst_control_plane.ApprovalStore.{lapse_instant, keep, index_lapse}
use sayfirst_control_plane.ApprovalStore.Invariant.{Inv}
use sayfirst_control_plane.ApprovalStore.Update.{update-Inv}
use sayfirst_control_plane.ApprovalStore.Acts.{ended_unread}

-- A valid record is kept as it is.
pub keep-ok :
    (key : Key) (a : Approval) (s : Store)
    → IsValid a
    → keep key a s ≡ (ok a, record s { by_reference = insert key a s.by_reference })
unfolding keep
keep-ok key a s v = rw ((checked-IsValid a).1 v)

-- One wait-length after `t`.
abbrev pub lapse_after : ℕ → Approval → ℕ
lapse_after t a = t + (a.deadline - a.requested_at)

lapse_by_state :
    (s : ApprovalState) (ended spent_at : Option ℕ) (spent : Bool) (a : Approval)
    → IsValid
        (record a { state = s; resolved_at = ended; consumed = spent; consumed_at = spent_at })
    → (lapse : Option ℕ) × (lapse_instant
          (record a { state = s; resolved_at = ended; consumed = spent; consumed_at = spent_at })
        ≡ ok lapse)
unfolding lapse_instant
lapse_by_state pending e c u a v = (none, refl)
lapse_by_state approved e c false a v = (none, refl)
lapse_by_state approved e none true a v = absurd (ground arith)
lapse_by_state approved e (some t) true a v = (some (lapse_after t a), refl)
lapse_by_state rejected none c false a v = absurd v.1.0
lapse_by_state rejected (some t) c false a v = (some (lapse_after t a), refl)
lapse_by_state rejected e c true a v = absurd (ground arith)
lapse_by_state expired none c false a v = absurd (ground arith)
lapse_by_state expired (some t) c false a v = (some (lapse_after t a), refl)
lapse_by_state expired e c true a v = absurd (ground arith)

-- The assertions of `_lapse_instant` hold of a valid record.
pub lapse_instant_total :
    (a : Approval) → IsValid a → (lapse : Option ℕ) × (lapse_instant a ≡ ok lapse)
lapse_instant_total a v = lapse_by_state a.state a.resolved_at a.consumed_at a.consumed a v

-- A pending wait has no lapse.
pub lapse-pending : (a : Approval) → is_pending a.state ≡ true → lapse_instant a ≡ ok none
unfolding lapse_instant
lapse-pending a p = rw p

-- The fields of a pending record are those of an open wait.
ended_of_pending :
    (s : ApprovalState) (a : Approval)
    → is_pending s ≡ true
    → IsValid (record a { state = s })
    → IsValid (ended_unread a)
ended_of_pending pending a p v = ground arith
ended_of_pending approved a p v = cc
ended_of_pending rejected a p v = cc
ended_of_pending expired a p v = cc

-- A wait that ran out ends as a valid lapse.
pub ended_unread-IsValid :
    (a : Approval) → is_pending a.state ≡ true → IsValid a → IsValid (ended_unread a)
ended_unread-IsValid a p v = ended_of_pending a.state a p v

-- It lapses one wait-length after its deadline.
pub lapse-ended_unread :
    (a : Approval)
    → is_pending a.state ≡ true
    → IsValid a
    → lapse_instant (ended_unread a) ≡ ok (some (lapse_after a.deadline a))
unfolding lapse_instant
lapse-ended_unread a p v = go a.state p v
  where
    go :
        (s : ApprovalState)
        → is_pending s ≡ true
        → IsValid (record a { state = s })
        → lapse_instant (ended_unread a) ≡ ok (some (lapse_after a.deadline a))
    go pending p v = ground arith
    go approved p v = cc
    go rejected p v = cc
    go expired p v = cc

-- The lapse index takes an entry where the record has a lapse.
pub index_lapse-some :
    (key : Key) (a : Approval) (t : ℕ) (s : Store)
    → lapse_instant a ≡ ok (some t)
    → index_lapse key a s ≡ (ok tt, record s { lapsing = push t key s.lapsing })
unfolding index_lapse
index_lapse-some key a t s h = rw h

pub index_lapse-none :
    (key : Key) (a : Approval) (s : Store)
    → lapse_instant a ≡ ok none
    → index_lapse key a s ≡ (ok tt, s)
unfolding index_lapse
index_lapse-none key a s h = rw h

-- The store after the end of an overdue wait.
abbrev pub with_lapse : Key → Approval → Store → Store
with_lapse key kept s = record s {
  by_reference = insert key (ended_unread kept) s.by_reference;
  lapsing = push (lapse_after kept.deadline kept) key s.lapsing;
}

pub with_lapse-Inv :
    (key : Key) (kept : Approval) (s : Store)
    → Inv s
    → lookup key s.by_reference ≡ some kept
    → is_pending kept.state ≡ true
    → Inv (with_lapse key kept s)
with_lapse-Inv key kept s v found p =
    update-Inv key kept (ended_unread kept) s v found refl refl
      (push (lapse_after kept.deadline kept) key s.lapsing) (ended_unread-IsValid kept p valid)
      (λ q. cc)
      (λ t h.
        subst (λ u. Due key u (push (lapse_after kept.deadline kept) key s.lapsing))
          (same_lapse t h) (push-Due_self (lapse_after kept.deadline kept) key s.lapsing))
      (λ j t d. push-Due (lapse_after kept.deadline kept) t key j s.lapsing d)
      (push-IsSorted (lapse_after kept.deadline kept) key s.lapsing v.lapsing_sorted)
  where
    valid : IsValid kept
    valid = (v.filed key kept found).1

    same_lapse :
        (t : ℕ)
        → lapse_instant (ended_unread kept) ≡ ok (some t)
        → lapse_after kept.deadline kept ≡ t
    same_lapse t h = cc (h, lapse-ended_unread kept p valid)
