-- ===== src/ApprovalStore/Executions.antt =====
-- Which waits stand at once, in histories of the store:
-- packages/control-plane/src/sayfirst_control_plane/application/approvals.py.
use sayfirst_control_plane.Common.{
  ℕ, ◌≤◌, ◌≡◌, ◌⊎◌, inl, inr, refl, sym, ap, ◌∙◌, subst, true, Option, none, some, List, [], ◌∷◌,
  arith, ok, err, pair_keyed, text_keyed, Result,
}
use mathlib.Core.List.{reverse}
use sayfirst_control_plane.Common.Dict.{Dict, lookup}
use sayfirst_control_plane.Approval.{Approval, Key, key_of, question_keyed}
use sayfirst_control_plane.ApprovalStore.Monad.{Store, StoreError, continue, pure}
use sayfirst_control_plane.ApprovalStore.{
  open_if_absent, open_wait, newest_live, newest_in, references, empty,
}
use sayfirst_control_plane.ApprovalStore.Invariant.{Inv, lookup-insert_cases}
use sayfirst_control_plane.ApprovalStore.Opening.{empty-Inv, open_wait-cases, opened}
use sayfirst_control_plane.ApprovalStore.Lookup.{AnswersFor, newest_live-AnswersFor}
use sayfirst_control_plane.ApprovalStore.Evolution.{
  stands, stands-passed_over, Evolves, claim-Evolves, release_claim-Evolves, publish-Evolves,
  consume-Evolves, abandon-Evolves, resolve-Evolves, expire_past-Evolves, forget_lapsed-Evolves,
}
use sayfirst_control_plane.ApprovalStore.Histories.{
  Command, open_one, publish_one, abandon_one, claim_one, release_one, consume_one, resolve_one,
  expire_all, forget_all, perform, run, AreBuilt, InOrder, perform-Inv,
}

-- What an opening does: nothing, or it adds the wait where every record of its question is passed
-- over.
pub open_if_absent-cases :
    (a : Approval) (now : ℕ) (s : Store)
    → Inv s
    → ((open_if_absent a now s).1 ≡ s)
      ⊎ ((lookup (key_of a) s.by_reference ≡ none)
          × ((open_if_absent a now s).1 ≡ opened a s)
          × AnswersFor true a.question now s (ok none))
unfolding open_if_absent newest_live
open_if_absent-cases a now s v =
    go (newest_in true now s.by_reference (reverse (references a.question s)))
      (newest_live-AnswersFor true a.question now s v)
  where
    go :
        (r : Result StoreError (Option Approval))
        → AnswersFor true a.question now s r
        → let s' = (continue (elim [ none ↦ open_wait a | some kept ↦ pure kept ]) (r, s)).1 in
          (s' ≡ s)
          ⊎ ((lookup (key_of a) s.by_reference ≡ none)
              × (s' ≡ opened a s)
              × AnswersFor true a.question now s (ok none))
    go (err e) h = absurd h
    go (ok (some kept)) h = inl refl
    go (ok none) h = elim (open_wait-cases a s) [
      | inl same ↦ inl same
      | inr (fresh, _, _, e) ↦
          inr (fresh, ap (λ (r : Result StoreError Approval × Store). r.1) e, h)
    ]

-- Every command but an opening.
perform-Evolves :
    (now : ℕ) (c : Command) (s : Store)
    → Inv s
    → ((a : Approval) × (c ≡ open_one a))
      ⊎ Evolves now s.by_reference (perform now c s).by_reference
unfolding perform
perform-Evolves now (open_one a) s v = inl (a, refl)
perform-Evolves now (publish_one scope ref) s v = inr (publish-Evolves now scope ref s)
perform-Evolves now (abandon_one scope ref) s v = inr (abandon-Evolves now scope ref s v)
perform-Evolves now (claim_one scope ref) s v = inr (claim-Evolves now scope ref s)
perform-Evolves now (release_one scope ref) s v = inr (release_claim-Evolves now scope ref s)
perform-Evolves now (consume_one scope ref) s v = inr (consume-Evolves now scope ref s now)
perform-Evolves now (resolve_one scope ref person resolution reason) s v =
    inr (resolve-Evolves now scope ref s person resolution reason v)
perform-Evolves now expire_all s v = inr (expire_past-Evolves now s v)
perform-Evolves now forget_all s v = inr (forget_lapsed-Evolves now s v)

-- The instant of the last command.
abbrev pub last_instant : ℕ → List (ℕ × Command) → ℕ
last_instant now [] = now
last_instant now ((later, c) ∷ cs) = last_instant later cs

-- Two records that stand for one question at `now` are one record.
abbrev pub IsSingle : ℕ → Dict Key Approval → Type 0
IsSingle now refs =
    (j k : Key) (a b : Approval)
    → lookup j refs ≡ some a
    → lookup k refs ≡ some b
    → a.question ≡ b.question
    → stands now a ≡ true
    → stands now b ≡ true
    → j ≡ k

stands_earlier :
    (now later : ℕ) (a : Approval) → now ≤ later → stands later a ≡ true → stands now a ≡ true
stands_earlier now later a le h = ground arith

IsSingle-later :
    (now later : ℕ) (refs : Dict Key Approval)
    → now ≤ later
    → IsSingle now refs
    → IsSingle later refs
IsSingle-later now later refs le single j k a b f g q h i =
    single j k a b f g q (stands_earlier now later a le h) (stands_earlier now later b le i)

IsSingle-Evolves :
    (now : ℕ) (before after : Dict Key Approval)
    → Evolves now before after
    → IsSingle now before
    → IsSingle now after
IsSingle-Evolves now before after e single j k a b f g q h i =
    let (a', there, fa) = e j a f in
    let (b', there', fb) = e k b g in
    single j k a' b' there there' (sym fa.0 ∙ q ∙ fb.0) (fa.1 h) (fb.1 i)

IsSingle-opened :
    (now : ℕ) (a : Approval) (s : Store)
    → AnswersFor true a.question now s (ok none)
    → IsSingle now s.by_reference
    → IsSingle now (opened a s).by_reference
IsSingle-opened now a s gone single j k b c f g q h i =
    elim (lookup-insert_cases (key_of a) j b a s.by_reference f) [
      | inl (here, e) ↦ elim (lookup-insert_cases (key_of a) k c a s.by_reference g) [
        | inl (here', _) ↦ sym here ∙ here'
        | inr (_, there) ↦
            absurd (clash k c there (sym q ∙ ap (λ (x : Approval). x.question) (sym e)) i)
      ]
      | inr (_, there) ↦ elim (lookup-insert_cases (key_of a) k c a s.by_reference g) [
        | inl (_, e) ↦ absurd (clash j b there (q ∙ ap (λ (x : Approval). x.question) (sym e)) h)
        | inr (_, there') ↦ single j k b c there there' q h i
      ]
    ]
  where
    clash :
        (l : Key) (d : Approval)
        → lookup l s.by_reference ≡ some d
        → d.question ≡ a.question
        → stands now d ≡ true
        → ⊥
    clash l d there asked live = ground (arith, gone l d there asked, stands-passed_over now d)

perform-IsSingle :
    (now : ℕ) (c : Command) (s : Store)
    → Inv s
    → IsSingle now s.by_reference
    → IsSingle now (perform now c s).by_reference
unfolding perform
perform-IsSingle now c s v single = elim (perform-Evolves now c s v) [
  | inr e ↦ IsSingle-Evolves now _ _ e single
  | inl (a, e) ↦ rw e (opening a)
]
  where
    opening : (a : Approval) → IsSingle now (perform now (open_one a) s).by_reference
    opening a = elim (open_if_absent-cases a now s v) [
      | inl same ↦ subst (λ (t : Store). IsSingle now t.by_reference) (sym same) single
      | inr (_, e, gone) ↦
          subst (λ (t : Store). IsSingle now t.by_reference) (sym e)
            (IsSingle-opened now a s gone single)
    ]

run-IsSingle :
    (now : ℕ) (cs : List (ℕ × Command)) (s : Store)
    → InOrder now cs
    → AreBuilt cs
    → Inv s
    → IsSingle now s.by_reference
    → IsSingle (last_instant now cs) (run cs s).by_reference
unfolding run
run-IsSingle now [] s o b v single = single
run-IsSingle now ((later, c) ∷ cs) s o b v single =
    run-IsSingle later cs (perform later c s) o.1 b.1 (perform-Inv later c s b.0 v)
      (perform-IsSingle later c s v (IsSingle-later now later s.by_reference o.0 single))

-- After any history that starts with an empty store, where the clock does not go back and the
-- approvals opened can be constructed, whatever the acts in between, a question has
-- at most one record that still stands for it: a wait somebody could resolve, a rejection in force,
-- or an execution that is not spent, claimed or not.
pub run-empty-IsSingle :
    (cs : List (ℕ × Command))
    → InOrder 0 cs
    → AreBuilt cs
    → IsSingle (last_instant 0 cs) (run cs empty).by_reference
run-empty-IsSingle cs o b = run-IsSingle 0 cs empty o b empty-Inv nothing
  where
    nothing : IsSingle 0 []
    nothing j k a b f g q h i = absurd (unfold lookup in ground arith)
