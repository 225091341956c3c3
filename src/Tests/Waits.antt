-- ===== src/Tests/Waits.antt =====
-- A wait that is opened, told of, approved, claimed, spent and forgotten, and one that runs out.
use sayfirst_control_plane.Common.{
  ℕ, ◌≤◌, ◌≡◌, ◌≢◌, ◌↔◌, refl, true, false, none, some, List, [], ◌∷◌, arith, ok, pair_keyed,
  text_keyed,
}
use sayfirst_control_plane.Common.Dict.{lookup}
use sayfirst_control_plane.Approval.{
  Question, Approval, Document, Key, pending, expired, checked, state_at, to_document,
  question_keyed,
}
use sayfirst_control_plane.Approval.Validity.{IsValid, checked-IsValid}
use sayfirst_control_plane.Approval.Rendering.{Rendered, to_document-Rendered, state_at_stable}
use sayfirst_control_plane.ApprovalStore.Monad.{Store}
use sayfirst_control_plane.ApprovalStore.{empty, newest_live, passed_over}
use sayfirst_control_plane.ApprovalStore.Sweeps.{expire_past, forget_lapsed}
use sayfirst_control_plane.ApprovalStore.Acts.{approve}
use sayfirst_control_plane.ApprovalStore.Invariant.{Inv}
use sayfirst_control_plane.ApprovalStore.Opening.{empty-Inv}
use sayfirst_control_plane.ApprovalStore.Expiry.{Swept, expire_past-Swept}
use sayfirst_control_plane.ApprovalStore.Forgetting.{Forgot, forget_lapsed-Forgot}
use sayfirst_control_plane.ApprovalStore.Lookup.{AnswersFor, newest_live-AnswersFor}
use sayfirst_control_plane.ApprovalStore.Evolution.{stands-passed_over}
use sayfirst_control_plane.ApprovalStore.Histories.{
  Command, open_one, publish_one, resolve_one, claim_one, consume_one, run, AreBuilt, InOrder,
  run-Inv,
}
use sayfirst_control_plane.ApprovalStore.Executions.{IsSingle, run-empty-IsSingle}
use sayfirst_control_plane.ApprovalStore.Spends.{spent_in, unspent, spent_in-unspent}

abbrev asked : Question
asked = record {
  scope = "site";
  principal_reference = "user:ann";
  capability = "pump.start";
  arguments_digest = "d1";
}

abbrev pub wait : Approval
wait = record {
  approval_ref = "a1";
  decision_ref = "d1";
  question = asked;
  requested_at = 10;
  deadline = 310;
  state = pending;
  resolved_at = none;
  person = none;
  resolution_reason = none;
  consumed = false;
  consumed_at = none;
  claimed = false;
  published = false;
}

abbrev key : Key
key = ("site", "a1")

wait-IsValid : IsValid wait
wait-IsValid = (omega arith, (refl, refl, refl, refl, refl, refl))

-- The wait is approved and spent.
abbrev spent : List (ℕ × Command)
spent =
    (10, open_one wait)
    ∷ (11, publish_one "site" "a1")
    ∷ (20, resolve_one "site" "a1" "bea" approve none)
    ∷ (25, claim_one "site" "a1")
    ∷ (30, consume_one "site" "a1")
    ∷ []

abbrev told : List (ℕ × Command)
told = (10, open_one wait) ∷ (11, publish_one "site" "a1") ∷ []

spent-AreBuilt : AreBuilt spent
spent-AreBuilt = (wait-IsValid, (tt, (tt, (tt, (tt, tt)))))

spent-InOrder : InOrder 0 spent
spent-InOrder = (omega arith, (omega arith, (omega arith, (omega arith, (omega arith, tt)))))

abbrev after_spend : Store
after_spend = run spent empty

abbrev pub after_telling : Store
after_telling = run told empty

after_spend-Inv : Inv after_spend
after_spend-Inv = run-Inv spent empty spent-AreBuilt empty-Inv

pub after_telling-Inv : Inv after_telling
after_telling-Inv = run-Inv told empty (wait-IsValid, (tt, tt)) empty-Inv

checked-IsValid_example : (checked wait ≡ ok wait) ↔ IsValid wait
checked-IsValid_example = checked-IsValid wait

abbrev lapsed_document : Document
lapsed_document = record {
  contract_generation = 1;
  approval_ref = "a1";
  decision_ref = "d1";
  scope = "site";
  capability = "pump.start";
  state = expired;
  requested_at = 10;
  deadline = 310;
  resolved_at = some 310;
  resolution_reason = none;
  person = none;
}

wait-to_document : to_document wait 400 1 ≡ ok lapsed_document
unfolding to_document
wait-to_document = refl

to_document-Rendered_example : Rendered 400 expired lapsed_document
to_document-Rendered_example =
    to_document-Rendered wait 400 1 lapsed_document wait-IsValid wait-to_document

wait_over : state_at wait 310 ≢ pending
unfolding state_at
wait_over h = ground arith

state_at_stable_example : state_at wait 500 ≡ state_at wait 310
state_at_stable_example = state_at_stable wait 310 500 (omega arith) wait_over

expire_past-Swept_example : Swept 310 after_telling (expire_past 310 after_telling)
expire_past-Swept_example = expire_past-Swept 310 after_telling after_telling-Inv

forget_lapsed-Forgot_example : Forgot 330 after_spend (forget_lapsed 330 after_spend)
forget_lapsed-Forgot_example = forget_lapsed-Forgot 330 after_spend after_spend-Inv

newest_live-AnswersFor_example :
    AnswersFor false asked 40 after_spend (newest_live asked 40 false after_spend).0
newest_live-AnswersFor_example = newest_live-AnswersFor false asked 40 after_spend after_spend-Inv

stands-passed_over_example : passed_over true 40 wait ≡ false
stands-passed_over_example = stands-passed_over 40 wait

run-Inv_example : Inv (run spent empty)
run-Inv_example = run-Inv spent empty spent-AreBuilt empty-Inv

run-empty-IsSingle_example : IsSingle 30 (run spent empty).by_reference
run-empty-IsSingle_example = run-empty-IsSingle spent spent-InOrder spent-AreBuilt

-- What follows the opening of the wait, with a second spend of it.
abbrev twice : List (ℕ × Command)
twice =
    (11, publish_one "site" "a1")
    ∷ (20, resolve_one "site" "a1" "bea" approve none)
    ∷ (25, claim_one "site" "a1")
    ∷ (30, consume_one "site" "a1")
    ∷ (31, consume_one "site" "a1")
    ∷ []

abbrev opened_only : Store
opened_only = run ((10, open_one wait) ∷ []) empty

spent_in-unspent_example :
    spent_in key twice opened_only ≤ unspent (lookup key opened_only.by_reference)
spent_in-unspent_example =
    spent_in-unspent key twice opened_only (tt, (tt, (tt, (tt, (tt, tt)))))
      (refl, (refl, (refl, (refl, (refl, tt)))))
      (run-Inv ((10, open_one wait) ∷ []) empty (wait-IsValid, tt) empty-Inv)
