-- ===== src/Policy/Verdicts.antt =====
-- The verdict that `evaluate` answers:
-- packages/control-plane/src/sayfirst_control_plane/domain/policy.py.
use mathlib.Core.List.{Permᴰ}
use sayfirst_control_plane.Common.{
  ◌≡◌, ◌≢◌, refl, sym, ap, ◌∙◌, Bool, true, false, ◌&&◌, ◌||◌, Option, none, some, List, [], ◌∷◌,
  if◌then◌else◌, any, select, find_first, arith, Bool-cases, inl, inr, ◌⊎◌, ◌↔◌, is_some,
}
use sayfirst_control_plane.Policy.{
  Outcome, allow, deny, suspend, Reason, policy_allows, policy_denies, policy_requires_review,
  same_outcome, DecisionQuestion, Rule, Policy, strictest, verdict_of, Verdict, evaluate, applies,
  absent, ruled,
}

-- The rules for the question that give an outcome.
abbrev pub rules_of : DecisionQuestion → Outcome → Rule → Bool
rules_of q o r = applies q r && same_outcome r.outcome o

-- Whether some rule of the policy applies to the question and gives the outcome.
unfoldable pub gives : Policy → DecisionQuestion → Outcome → Bool
gives p q o = any (rules_of q o) p.rules

-- The outcome by rank: a denial over a review over a permission, and a denial where nothing applies.
unfoldable pub outcome_by_rank : Policy → DecisionQuestion → Outcome
unfolding gives
outcome_by_rank p q =
    if gives p q deny
    then deny
    else if gives p q suspend
    then suspend
    else if gives p q allow
    then allow
    else deny

find_first-any :
    (P : Rule → Bool) (rs : List Rule)
    → (find_first P rs ≡ none × any P rs ≡ false)
      ⊎ ((r : Rule) × (find_first P rs ≡ some r × (any P rs ≡ true × P r ≡ true)))
find_first-any P [] = inl (refl, refl)
find_first-any P (x ∷ xs) = elim (Bool-cases (P x)) [
  | inl e ↦ inr (x, (rw e, (rw e, e)))
  | inr e ↦ rw e (find_first-any P xs)
]

find_first-select :
    (P Q : Rule → Bool) (rs : List Rule)
    → find_first P (select Q rs) ≡ find_first (λ r. Q r && P r) rs
find_first-select P Q [] = refl
find_first-select P Q (x ∷ xs) = elim (Bool-cases (Q x)) [
  | inl e ↦ rw e (ap (λ rest. if P x then some x else rest) (find_first-select P Q xs))
  | inr e ↦ rw e (find_first-select P Q xs)
]

any-select : (P Q : Rule → Bool) (rs : List Rule) → any P (select Q rs) ≡ any (λ r. Q r && P r) rs
any-select P Q [] = refl
any-select P Q (x ∷ xs) = elim (Bool-cases (Q x)) [
  | inl e ↦ rw e (ap (λ b. P x || b) (any-select P Q xs))
  | inr e ↦ rw e (any-select P Q xs)
]

-- A verdict of the outcome where a rule was found, and else a further one.
abbrev pub found_or : Outcome → Reason → Option Rule → Verdict → Verdict
found_or o why (some r) v = ruled o why r
found_or o why none v = v

-- The first rule of the strictest outcome, from a search for the rules of each outcome.
abbrev pub by_rank : (Outcome → Option Rule) → Verdict
by_rank search_for = found_or deny policy_denies (search_for deny) (
    found_or suspend policy_requires_review (search_for suspend)
      (found_or allow policy_allows (search_for allow) absent))

-- The verdict of a policy by the rank of the outcomes alone: a denial over a review over a permission.
unfoldable pub ranked : Policy → DecisionQuestion → Verdict
ranked p q = by_rank (λ o. find_first (rules_of q o) p.rules)

same_outcome_self : (o : Outcome) → same_outcome o o ≡ true
same_outcome_self allow = refl
same_outcome_self deny = refl
same_outcome_self suspend = refl

each_outcome : (P : Outcome → Type 0) → P deny → P suspend → P allow → (o : Outcome) → P o
each_outcome P d s a deny = d
each_outcome P d s a suspend = s
each_outcome P d s a allow = a

abbrev first_of : List Rule → Outcome → Option Rule
first_of rs o = find_first (λ x. same_outcome x.outcome o) rs

first_of-head : (r : Rule) (rs : List Rule) → first_of (r ∷ rs) r.outcome ≢ none
first_of-head r rs h = ground (arith, same_outcome_self r.outcome)

abbrev or_looser : Outcome → Reason → Option Rule → Option Verdict → Option Verdict
or_looser o why none looser = looser
or_looser o why (some r) looser = some (ruled o why r)

strictest-cons :
    (rs : List Rule) (o : Outcome) (why : Reason) (rest : List (Outcome × Reason))
    → strictest rs ((o, why) ∷ rest) ≡ or_looser o why (first_of rs o) (strictest rs rest)
unfolding strictest
strictest-cons rs o why rest =
    elim (first_of rs o)
      as (λ x.
        (elim x [ some r ↦ some (ruled o why r) | none ↦ strictest rs rest ])
        ≡ or_looser o why x (strictest rs rest)) [ none ↦ refl | some r ↦ refl ]

-- A chain of searches, of which one finds a rule, ends in the verdict by rank.
chain-by_rank :
    (d s a : Option Rule)
    → ¬ (d ≡ none × (s ≡ none × a ≡ none))
    → or_looser deny policy_denies d
        (or_looser suspend policy_requires_review s (or_looser allow policy_allows a none))
      ≡ some (
          found_or deny policy_denies d
            (found_or suspend policy_requires_review s (found_or allow policy_allows a absent)))
chain-by_rank (some r) s a h = refl
chain-by_rank none (some r) a h = refl
chain-by_rank none none (some r) h = refl
chain-by_rank none none none h = absurd (h (refl, (refl, refl)))

strictest-nil : (rs : List Rule) → strictest rs [] ≡ none
unfolding strictest
strictest-nil rs = refl

verdict_of-by_rank : (rs : List Rule) → verdict_of rs ≡ some (by_rank (first_of rs))
verdict_of-by_rank [] = refl
verdict_of-by_rank (r ∷ rs) =
    strictest-cons (r ∷ rs) deny policy_denies _
    ∙ ap (or_looser deny policy_denies (first_of (r ∷ rs) deny)) (
        strictest-cons (r ∷ rs) suspend policy_requires_review _
        ∙ ap (or_looser suspend policy_requires_review (first_of (r ∷ rs) suspend)) (
            strictest-cons (r ∷ rs) allow policy_allows _
            ∙ ap (or_looser allow policy_allows (first_of (r ∷ rs) allow))
                (strictest-nil (r ∷ rs))))
    ∙ chain-by_rank _ _ _ (λ h.
      first_of-head r rs (each_outcome (λ o. first_of (r ∷ rs) o ≡ none) h.0 h.1.0 h.1.1 r.outcome))

-- `evaluate` always answers, and its verdict is the first applying rule of the strictest outcome
-- that any applying rule gives, a denial being stricter than a review and that than a permission;
-- where no rule applies it denies for want of a policy.
pub evaluate-ranked : (p : Policy) (q : DecisionQuestion) → evaluate p q ≡ some (ranked p q)
unfolding evaluate ranked
evaluate-ranked p q =
    verdict_of-by_rank (select (applies q) p.rules)
    ∙ ap (λ f. some (by_rank f))
        (λ i o. find_first-select (λ x. same_outcome x.outcome o) (applies q) p.rules i)

outcome-found_or :
    (o : Outcome) (why : Reason) (x : Option Rule) (v : Verdict)
    → (found_or o why x v).outcome ≡ (if is_some x then o else v.outcome)
outcome-found_or o why none v = refl
outcome-found_or o why (some r) v = refl

is_some-find_first : (P : Rule → Bool) (rs : List Rule) → is_some (find_first P rs) ≡ any P rs
is_some-find_first P [] = refl
is_some-find_first P (x ∷ xs) = ground (arith, is_some-find_first P xs)

any-Permᴰ : (P : Rule → Bool) (rs ss : List Rule) → Permᴰ rs ss → any P rs ≡ any P ss
any-Permᴰ P _ _ Permᴰ.nil = refl
any-Permᴰ P _ _ (Permᴰ.cons e h) = ground (arith, any-Permᴰ P _ _ h, ap P e)
any-Permᴰ P _ _ (Permᴰ.swap e e') = ground (arith, ap P e, ap P e')
any-Permᴰ P _ _ (Permᴰ.trans h k) = any-Permᴰ P _ _ h ∙ any-Permᴰ P _ _ k

outcome-ranked : (p : Policy) (q : DecisionQuestion) → (ranked p q).outcome ≡ outcome_by_rank p q
unfolding ranked outcome_by_rank gives
outcome-ranked p q = rw (
  outcome-found_or deny policy_denies (find_first (rules_of q deny) p.rules),
  outcome-found_or suspend policy_requires_review (find_first (rules_of q suspend) p.rules),
  outcome-found_or allow policy_allows (find_first (rules_of q allow) p.rules),
  is_some-find_first (rules_of q deny) p.rules,
  is_some-find_first (rules_of q suspend) p.rules,
  is_some-find_first (rules_of q allow) p.rules,
)

outcome_by_rank-Permᴰ :
    (p p' : Policy) (q : DecisionQuestion)
    → Permᴰ p.rules p'.rules
    → outcome_by_rank p q ≡ outcome_by_rank p' q
unfolding outcome_by_rank gives
outcome_by_rank-Permᴰ p p' q h = rw (
  any-Permᴰ (rules_of q deny) p.rules p'.rules h,
  any-Permᴰ (rules_of q suspend) p.rules p'.rules h,
  any-Permᴰ (rules_of q allow) p.rules p'.rules h,
)

-- The outcome that an answer states, if it is an answer.
abbrev pub answered : Option Verdict → Option Outcome
answered none = none
answered (some v) = some v.outcome

-- The outcome of a question is an invariant of the rules' order: two policies whose rules are
-- permutations of each other answer every question with the same outcome.
pub evaluate-order_free :
    (p p' : Policy) (q : DecisionQuestion)
    → Permᴰ p.rules p'.rules
    → answered (evaluate p q) ≡ answered (evaluate p' q)
evaluate-order_free p p' q h =
    rw (evaluate-ranked p q, evaluate-ranked p' q)
      (ap some (outcome-ranked p q ∙ outcome_by_rank-Permᴰ p p' q h ∙ sym (outcome-ranked p' q)))

allow_by_rank :
    (d s a : Bool)
    → (some (if d then deny else if s then suspend else if a then allow else deny) ≡ some allow)
      ↔ (a ≡ true × (d ≡ false × s ≡ false))
allow_by_rank d s a = (λ h. ground arith, λ h. ground arith)

-- `evaluate` allows a question exactly when some applying rule of the policy allows it and none
-- denies it or asks for a review.
pub evaluate_allows_iff :
    (p : Policy) (q : DecisionQuestion)
    → (answered (evaluate p q) ≡ some allow)
      ↔ (gives p q allow ≡ true × (gives p q deny ≡ false × gives p q suspend ≡ false))
unfolding outcome_by_rank
evaluate_allows_iff p q =
    rw (evaluate-ranked p q, outcome-ranked p q)
      (allow_by_rank (gives p q deny) (gives p q suspend) (gives p q allow))
