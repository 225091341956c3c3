-- ===== src/ApprovalStore/Lookup.antt =====
-- `_newest_live`: what a question is answered with.
use sayfirst_control_plane.Common.{
  ℕ, ◌≡◌, inl, inr, refl, sym, ap, ◌∙◌, subst, Bool, true, false, Option, none, some, List, [], ◌∷◌,
  arith, Bool-cases, ok, err, pair_keyed, text_keyed, Result, ◌==◌, ==_iff, ==_self,
}
use mathlib.Core.List.{reverse, reverse-cons}
use sayfirst_control_plane.Common.Dict.{Dict, lookup}
use sayfirst_control_plane.Approval.{Approval, Question, Key, key_of, question_keyed}
use sayfirst_control_plane.ApprovalStore.Monad.{Store, StoreError}
use sayfirst_control_plane.ApprovalStore.{newest_in, newest_live, references, passed_over}
use sayfirst_control_plane.ApprovalStore.Invariant.{Inv, lists}
use sayfirst_control_plane.ApprovalStore.Opening.{lists-append}

lists-reverse : (k : Key) (ks : List Key) → lists k (reverse ks) ≡ lists k ks
lists-reverse k [] = refl
lists-reverse k (j ∷ ks) =
    rw (reverse-cons j ks, lists-append k j (reverse ks), lists-reverse k ks) (ground arith)

-- What a walk over `keys` answers: the record of one of them that is not passed over, or nothing,
-- and then it passed every one over.
abbrev pub Answers :
    Bool → ℕ → Dict Key Approval → List Key → Result StoreError (Option Approval) → Type 0
Answers in_flight now refs keys (err e) = ⊥
Answers in_flight now refs keys (ok none) =
    (k : Key) (a : Approval)
    → lists k keys ≡ true
    → lookup k refs ≡ some a
    → passed_over in_flight now a ≡ true
Answers in_flight now refs keys (ok (some a)) =
    (k : Key) × (lists k keys ≡ true)
    × (lookup k refs ≡ some a)
    × (passed_over in_flight now a ≡ false)

abbrev AllKept : Dict Key Approval → List Key → Type 0
AllKept refs keys = (k : Key) → lists k keys ≡ true → (a : Approval) × (lookup k refs ≡ some a)

newest_in-Answers :
    (in_flight : Bool) (now : ℕ) (refs : Dict Key Approval) (keys : List Key)
    → AllKept refs keys
    → Answers in_flight now refs keys (newest_in in_flight now refs keys)
unfolding newest_in
newest_in-Answers in_flight now refs [] all = λ k a m h. cc
newest_in-Answers in_flight now refs (key ∷ keys) all =
    at (newest_in-Answers in_flight now refs keys (λ k m. all k (ground arith)))
      (all key (ground (arith, ==_self key)))
  where
    on :
        (r : Result StoreError (Option Approval)) (kept : Approval)
        → lookup key refs ≡ some kept
        → passed_over in_flight now kept ≡ true
        → Answers in_flight now refs keys r
        → Answers in_flight now refs (key ∷ keys) r
    on (err e) kept found passed h = h
    on (ok (some a)) kept found passed (k, m, there, stays) = (k, ground arith, there, stays)
    on (ok none) kept found passed h = λ k a m there. elim (Bool-cases (key == k)) [
      | inl here ↦
          let same : kept ≡ a =
            cc (ap {B = Option Approval} (λ j. lookup j refs) ((==_iff key k).0 here)) in
          rw (← same) passed
      | inr other ↦ h k a (ground arith) there
    ]

    at :
        Answers in_flight now refs keys (newest_in in_flight now refs keys)
        → (a : Approval) × (lookup key refs ≡ some a)
        → Answers in_flight now refs (key ∷ keys) (newest_in in_flight now refs (key ∷ keys))
    at rest (kept, found) = elim (Bool-cases (passed_over in_flight now kept)) [
      | inr stays ↦
          let run : newest_in in_flight now refs (key ∷ keys) ≡ ok (some kept) = ground arith in
          subst (Answers in_flight now refs (key ∷ keys)) (sym run)
            (key, ground (arith, ==_self key), found, stays)
      | inl passed ↦
          let run : newest_in in_flight now refs (key ∷ keys) ≡ newest_in in_flight now refs keys =
            ground arith in
          subst (Answers in_flight now refs (key ∷ keys)) (sym run)
            (on (newest_in in_flight now refs keys) kept found passed rest)
    ]

-- A record kept for the question that the walk does not pass over, or nothing, and then all the
-- records for the question are passed over.
abbrev pub AnswersFor : Bool → Question → ℕ → Store → Result StoreError (Option Approval) → Type 0
AnswersFor in_flight q now s (err e) = ⊥
AnswersFor in_flight q now s (ok none) =
    (k : Key) (a : Approval)
    → lookup k s.by_reference ≡ some a
    → a.question ≡ q
    → passed_over in_flight now a ≡ true
AnswersFor in_flight q now s (ok (some a)) =
    (lookup (key_of a) s.by_reference ≡ some a)
    × (a.question ≡ q)
    × (passed_over in_flight now a ≡ false)

-- In a well-formed store, the walk over the references of a question never fails: it answers a record
-- kept for the question that it does not pass over, and nothing only if it passes all of them over.
pub newest_live-AnswersFor :
    (in_flight : Bool) (q : Question) (now : ℕ) (s : Store)
    → Inv s
    → AnswersFor in_flight q now s (newest_live q now in_flight s).0
unfolding newest_live
newest_live-AnswersFor in_flight q now s v =
    on (newest_in in_flight now s.by_reference (reverse (references q s)))
      (newest_in-Answers in_flight now s.by_reference (reverse (references q s)) kept)
  where
    kept : AllKept s.by_reference (reverse (references q s))
    kept k m =
        let (a, there, _) = v.holds q k (sym (lists-reverse k (references q s)) ∙ m) in (a, there)

    on :
        (r : Result StoreError (Option Approval))
        → Answers in_flight now s.by_reference (reverse (references q s)) r
        → AnswersFor in_flight q now s r
    on (err e) h = h
    on (ok none) h = λ k a there asked.
        h k a
          (lists-reverse k (references q s)
            ∙ subst (λ r. lists k (references r s) ≡ true) asked (v.listed k a there))
          there
    on (ok (some a)) (k, m, there, stays) =
        let (b, there', asked) = v.holds q k (sym (lists-reverse k (references q s)) ∙ m) in
        let same : b ≡ a = cc in (rw (v.filed k a there).0 there, rw (← same) asked, stays)
