-- ===== src/ApprovalStore/Update.antt =====
-- A write of a new record over a kept one, and the well-formedness of the store:
-- packages/control-plane/src/sayfirst_control_plane/application/approvals.py.
use sayfirst_control_plane.Common.{
  ℕ, ◌≡◌, inl, inr, ap, ◌∙◌, true, Option, some, arith, Bool-cases, ok, ◌==◌, ==_iff, pair_keyed,
  text_keyed, subst,
}
use sayfirst_control_plane.Common.Dict.{lookup, insert, lookup-insert, lookup-insert_self}
use sayfirst_control_plane.Common.Heap.{Heap, IsSorted, Due}
use sayfirst_control_plane.Approval.{Approval, Key, is_pending, question_keyed}
use sayfirst_control_plane.Approval.Validity.{IsValid}
use sayfirst_control_plane.ApprovalStore.Monad.{Store}
use sayfirst_control_plane.ApprovalStore.{lapse_instant}
use sayfirst_control_plane.ApprovalStore.Invariant.{
  Inv, Filed, Listed, Holds, CoversWaits, CoversLapses, lookup-insert_cases,
}

module _ (key : Key) (kept a : Approval) (s : Store) (v : Inv s)
    (found : lookup key s.by_reference ≡ some kept) (same_question : a.question ≡ kept.question)
    (same_ref : a.approval_ref ≡ kept.approval_ref) where
  update-Filed : IsValid a → Filed (insert key a s.by_reference)
  update-Filed valid k b h = elim (lookup-insert_cases key k b a s.by_reference h) [
    | inl (here, e) ↦ rw (← e, ← here) (cc (v.filed key kept found).0, valid)
    | inr (_, there) ↦ v.filed k b there
  ]

  update-Listed : Listed (insert key a s.by_reference) s.by_question
  update-Listed k b h = elim (lookup-insert_cases key k b a s.by_reference h) [
    | inl (here, e) ↦ rw (← e, ← here, same_question) (v.listed key kept found)
    | inr (_, there) ↦ v.listed k b there
  ]

  update-Holds : Holds (insert key a s.by_reference) s.by_question
  update-Holds q k h = elim (Bool-cases (key == k)) [
    | inl e ↦
        let here = (==_iff key k).0 e in
        let (b, at, asked) = v.holds q k h in
        let same : b ≡ kept =
          cc (at, found, ap {B = Option Approval} (λ j. lookup j s.by_reference) here) in
        (
          a,
          subst (λ j. lookup j (insert key a s.by_reference) ≡ some a) here
              (lookup-insert_self key a s.by_reference),
          cc (same_question, same, asked),
        )
    | inr e ↦
        let (b, at, asked) = v.holds q k h in
        (b, ground (arith, lookup-insert key k a s.by_reference), asked)
  ]

  update-CoversWaits :
      (is_pending a.state ≡ true → (is_pending kept.state ≡ true) × (a.deadline ≡ kept.deadline))
      → CoversWaits (insert key a s.by_reference) s.due
  update-CoversWaits still k b h p = elim (lookup-insert_cases key k b a s.by_reference h) [
    | inl (here, e) ↦
        let waits = still (rw (← e) at p) in
        rw (← e, ← here, waits.1) (v.waits key kept found waits.0)
    | inr (_, there) ↦ v.waits k b there p
  ]

  update-CoversLapses :
      (lapsing : Heap Key)
      → ((t : ℕ) → lapse_instant a ≡ ok (some t) → Due key t lapsing)
      → ((j : Key) (t : ℕ) → Due j t s.lapsing → Due j t lapsing)
      → CoversLapses (insert key a s.by_reference) lapsing
  update-CoversLapses lapsing new old k b t h p =
      elim (lookup-insert_cases key k b a s.by_reference h) [
        | inl (here, e) ↦ subst (λ j. Due j t lapsing) here (new t (ap lapse_instant e ∙ p))
        | inr (_, there) ↦ old k t (v.lapses k b t there p)
      ]

  -- The whole invariant, from what the new record and the new index give.
  pub update-Inv :
      (lapsing : Heap Key)
      → IsValid a
      → (is_pending a.state ≡ true → (is_pending kept.state ≡ true) × (a.deadline ≡ kept.deadline))
      → ((t : ℕ) → lapse_instant a ≡ ok (some t) → Due key t lapsing)
      → ((j : Key) (t : ℕ) → Due j t s.lapsing → Due j t lapsing)
      → IsSorted lapsing
      → Inv (record s { by_reference = insert key a s.by_reference; lapsing = lapsing })
  update-Inv lapsing valid still new old in_order = record {
    filed = update-Filed valid;
    listed = update-Listed;
    holds = update-Holds;
    once = v.once;
    waits = update-CoversWaits still;
    lapses = update-CoversLapses lapsing new old;
    due_sorted = v.due_sorted;
    lapsing_sorted = in_order;
  }
