-- ===== src/Evidence/Grading/Claims.antt =====
-- The claims of `evaluate_grade` and `weakest`:
-- packages/control-plane/src/sayfirst_control_plane/domain/integrity_grade.py.
use sayfirst_control_plane.Common.{
  ℕ, ◌+◌, ◌≤◌, ◌≡◌, ◌≢◌, ◌↔◌, ◌⊎◌, refl, sym, ap, ◌∙◌, Bool, true, false, not, ◌&&◌, ◌||◌, any, all,
  length, is_some, none, some, List, [], ◌∷◌, ◌==◌, ==_iff, nat_keyed, option_keyed, arith,
  Bool-cases, Option-cases, inl, inr,
}
use mathlib.Core.Option.{some_inj}
use sayfirst_control_plane.Evidence.Verify.{
  Grade, unverified, observability, evidence, weakest, weakest_after,
}
use sayfirst_control_plane.Evidence.Grading.{
  CallerAccess, PathFacts, is_established, reaches, is_writable, is_searchable, inspect, is_empty,
  evaluate_grade,
}

-- A caller can write at or under a path: it can write this one, with effect on what is below, or
-- search it and write further down.
abbrev pub CanWrite : CallerAccess → List PathFacts → Type 0
CanWrite caller [] = ⊥
CanWrite caller (f ∷ rest) =
    ((is_writable caller f && reaches caller f rest) ≡ true)
    ⊎ ((is_searchable caller f ≡ true) × CanWrite caller rest)

-- Behind a path that cannot be searched nothing is reached.
inspect-unreachable :
    (caller : CallerAccess) (index : ℕ) (facts : List PathFacts)
    → inspect caller index false facts ≡ none
unfolding inspect
inspect-unreachable caller index [] = refl
inspect-unreachable caller index (f ∷ rest) = inspect-unreachable caller (index + 1) rest

inspect_iff :
    (caller : CallerAccess) (index : ℕ) (facts : List PathFacts)
    → (is_some (inspect caller index true facts) ≡ true) ↔ CanWrite caller facts
unfolding inspect
inspect_iff caller index [] = (λ h. cc h, λ h. absurd h)
inspect_iff caller index (f ∷ rest) =
    elim (Bool-cases (is_writable caller f && reaches caller f rest)) [
      | inl here ↦ rw here ((λ h. inl refl), λ h. refl)
      | inr elsewhere ↦ elim (Bool-cases (is_searchable caller f)) [
        | inl searched ↦
            rw (elsewhere, searched)
              (
                (λ h. inr (refl, (inspect_iff caller (index + 1) rest).0 h)),
                λ h. elim h [
                  | inl never ↦ absurd (cc never)
                  | inr (_, below) ↦ (inspect_iff caller (index + 1) rest).1 below
                ],
              )
        | inr shut ↦
            rw (elsewhere, shut)
              (
                (λ h.
                    absurd
                      (cc (sym (ap is_some (inspect-unreachable caller (index + 1) rest)) ∙ h))),
                λ h. elim h [ inl never ↦ absurd (cc never) | inr (never, _) ↦ absurd (cc never) ],
              )
      ]
    ]

inspect-bounded :
    (caller : CallerAccess) (index n : ℕ) (reachable : Bool) (facts : List PathFacts)
    → inspect caller index reachable facts ≡ some n
    → n ≤ index + length facts
unfolding inspect
inspect-bounded caller index n reachable [] h = cc h
inspect-bounded caller index n reachable (f ∷ rest) h =
    elim (Bool-cases (reachable && is_writable caller f && reaches caller f rest)) [
      | inl here ↦ let it : index + 1 ≡ n = some_inj.0 (rw here at h) in omega (arith, it)
      | inr elsewhere ↦
          let later =
            inspect-bounded caller (index + 1) n (reachable && is_searchable caller f) rest
              (rw elsewhere at h) in
          omega (arith, later)
    ]

-- Whether all that is needed is known of the paths.
abbrev pub AreEstablished : List PathFacts → Type 0
AreEstablished facts = (is_empty facts || any (λ f. not (is_established f)) facts) ≡ false

-- The evaluation claims no more than observability, and that exactly for root and for a caller who
-- can write at or under an established path; it never claims evidence, and counts no path twice.
pub evaluate_grade_iff :
    (caller : CallerAccess) (facts : List PathFacts) (at : ℕ)
    → (((evaluate_grade caller facts at).grade ≡ observability)
        ↔ ((caller.uid ≡ 0) ⊎ (AreEstablished facts × CanWrite caller facts)))
      × ((evaluate_grade caller facts at).grade ≢ evidence)
      × ((evaluate_grade caller facts at).paths_inspected ≤ length facts)
unfolding evaluate_grade
evaluate_grade_iff caller facts at = elim (Bool-cases (caller.uid == 0)) [
  | inl root ↦
      rw root (((λ h. inl ((==_iff caller.uid 0).0 root)), λ h. refl), (λ h. cc h), omega arith)
  | inr other ↦ elim (Bool-cases (is_empty facts || any (λ f. not (is_established f)) facts)) [
    | inl unknown ↦
        rw (other, unknown)
          (
            (
              (λ h. absurd (cc h)),
              λ h. elim h [
                | inl zero_uid ↦ absurd (cc (sym other ∙ (==_iff caller.uid 0).1 zero_uid))
                | inr (never, _) ↦ absurd (cc never)
              ],
            ),
            (λ h. cc h),
            omega arith,
          )
    | inr established ↦ elim (Option-cases (inspect caller 0 true facts)) [
      | inl none_found ↦
          rw (other, established, none_found)
            (
              (
                (λ h. absurd (cc h)),
                λ h. elim h [
                  | inl zero_uid ↦ absurd (cc (sym other ∙ (==_iff caller.uid 0).1 zero_uid))
                  | inr (_, can) ↦
                      absurd (cc (sym (ap is_some none_found) ∙ (inspect_iff caller 0 facts).1 can))
                ],
              ),
              (λ h. cc h),
              omega arith,
            )
      | inr (n, found) ↦
          rw (other, established, found)
            (
              ((λ h. inr (refl, (inspect_iff caller 0 facts).0 (ap is_some found))), λ h. refl),
              (λ h. cc h),
              omega (arith, inspect-bounded caller 0 n true facts found),
            )
    ]
  ]
]

abbrev pub is_evidence : Grade → Bool
is_evidence evidence = true
is_evidence _ = false

abbrev pub is_unverified : Grade → Bool
is_unverified unverified = true
is_unverified _ = false

abbrev pub has_none : List Grade → Bool
has_none [] = true
has_none (g ∷ gs) = false

weakest_after-claims :
    (g : Grade) (gs : List Grade)
    → (is_evidence (weakest_after g gs) ≡ all is_evidence (g ∷ gs))
      × (is_unverified (weakest_after g gs) ≡ any is_unverified (g ∷ gs))
unfolding weakest_after
weakest_after-claims unverified [] = (refl, refl)
weakest_after-claims observability [] = (refl, refl)
weakest_after-claims evidence [] = (refl, refl)
weakest_after-claims unverified (unverified ∷ gs) = weakest_after-claims unverified gs
weakest_after-claims unverified (observability ∷ gs) = weakest_after-claims unverified gs
weakest_after-claims unverified (evidence ∷ gs) = weakest_after-claims unverified gs
weakest_after-claims observability (unverified ∷ gs) = weakest_after-claims unverified gs
weakest_after-claims observability (observability ∷ gs) = weakest_after-claims observability gs
weakest_after-claims observability (evidence ∷ gs) = weakest_after-claims observability gs
weakest_after-claims evidence (unverified ∷ gs) = weakest_after-claims unverified gs
weakest_after-claims evidence (observability ∷ gs) = weakest_after-claims observability gs
weakest_after-claims evidence (evidence ∷ gs) = weakest_after-claims evidence gs

-- The grade claimed of several grades is evidence exactly when there are some and all are evidence,
-- and unverified exactly when there are none or one of them is unverified.
pub weakest-claims :
    (gs : List Grade)
    → (is_evidence (weakest gs) ≡ (not (has_none gs) && all is_evidence gs))
      × (is_unverified (weakest gs) ≡ (has_none gs || any is_unverified gs))
unfolding weakest
weakest-claims [] = (refl, refl)
weakest-claims (g ∷ gs) = weakest_after-claims g gs
