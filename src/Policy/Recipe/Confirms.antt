-- ===== src/Policy/Recipe/Confirms.antt =====
-- The recipe on what the live evaluation recorded:
-- packages/contract/src/sayfirst_contract/retrospective_policy.py.
use Prim.Native.String.{◌++◌ as join}
use text.Mathlib.TextLemmas.{append_cancel_left}
use sayfirst_control_plane.Common.{
  ◌≡◌, refl, ap, ◌∙◌, Bool, true, false, ◌&&◌, ◌||◌, Option, none, some, List, [], ◌∷◌, ◌++◌, map,
  String, ◌==◌, ==_iff, ==_self, text_keyed, option_keyed, any, select, find_first, arith,
  Bool-cases, inl, inr, ◌⊎◌,
}
use sayfirst_control_plane.Common.Text.{sorted, insert_sorted, append-ne, pair_le}
use sayfirst_control_plane.Policy.{
  Outcome, Reason, same_outcome, DecisionQuestion, Principal, PrincipalReference, user, group,
  text_of, ReferenceKind, prefix, Rule, Policy, contains, strictest_first, strictest, verdict_of,
  Verdict, evaluate, applies, matches,
}
use sayfirst_control_plane.Policy.Recipe.{
  unique, held_by, named_for, references_read, recipe_rule, RecipeRule, Triple, recipe_applies,
  recipe_strictest, recipe_verdict, evaluate_recorded_inputs,
}

contains-unique : (s : String) (xs : List String) → contains s (unique xs) ≡ contains s xs
unfolding unique
contains-unique s [] = refl
contains-unique s (x ∷ xs) = ground (arith, contains-unique s xs, contains-unique x xs, ==_iff x s)

contains-select :
    (s : String) (ys xs : List String)
    → contains s (select (λ t. contains t ys) xs) ≡ (contains s ys && contains s xs)
contains-select s ys [] = ground arith
contains-select s ys (x ∷ xs) = ground (arith, contains-select s ys xs, ==_iff x s)

contains-insert_sorted :
    (s x : String) (xs : List String)
    → contains s (insert_sorted (λ t. (t, "")) x xs) ≡ ((x == s) || contains s xs)
unfolding insert_sorted
contains-insert_sorted s x [] = refl
contains-insert_sorted s x (y ∷ ys) = elim (Bool-cases (pair_le (x, "") (y, ""))) [
  | inl e ↦ rw e
  | inr e ↦ rw e (ground (arith, contains-insert_sorted s x ys))
]

contains-sorted :
    (s : String) (xs : List String) → contains s (sorted (λ t. (t, "")) xs) ≡ contains s xs
unfolding sorted
contains-sorted s [] = refl
contains-sorted s (x ∷ xs) =
    contains-insert_sorted s x (sorted (λ t. (t, "")) xs)
    ∙ ap (λ b. (x == s) || b) (contains-sorted s xs)

-- A reference is read exactly when the caller's references and those named for the question have it.
pub references_read_iff :
    (p : Policy) (q : DecisionQuestion) (s : String)
    → contains s (references_read p q)
      ≡ (contains s (held_by q.principal) && contains s (named_for q p.rules))
unfolding references_read
references_read_iff p q s =
    contains-sorted s _
    ∙ contains-unique s _
    ∙ contains-select s (held_by q.principal) (named_for q p.rules)

contains-groups :
    (n : String) (gs : List String)
    → contains (join "group:" n) (map (join "group:") gs) ≡ contains n gs
contains-groups n [] = refl
contains-groups n (g ∷ gs) = ground (
  arith,
  contains-groups n gs,
  ==_iff (join "group:" g) (join "group:" n),
  ==_iff g n,
  append_cancel_left "group:" g n,
)

no_user_in_groups :
    (n : String) (gs : List String) → contains (join "user:" n) (map (join "group:") gs) ≡ false
no_user_in_groups n [] = refl
no_user_in_groups n (g ∷ gs) = ground (
  arith,
  no_user_in_groups n gs,
  ==_iff (join "group:" g) (join "user:" n),
  append-ne "group:" "user:" g n (omega arith) (omega arith) (omega arith),
)

held-matches_kind :
    (k : ReferenceKind) (n : String) (p : Principal)
    → contains (join (prefix k) n) (held_by p) ≡ matches (record { kind = k; name = n }) p
unfolding matches
held-matches_kind user n p = ground (
  arith,
  no_user_in_groups n p.group_names,
  ==_iff (join "user:" p.user_name) (join "user:" n),
  ==_iff n p.user_name,
  append_cancel_left "user:" p.user_name n,
)
held-matches_kind group n p = ground (
  arith,
  contains-groups n p.group_names,
  ==_iff (join "user:" p.user_name) (join "group:" n),
  append-ne "user:" "group:" p.user_name n (omega arith) (omega arith) (omega arith),
)

-- The caller holds a reference's text exactly when the reference matches the caller.
pub held-matches :
    (r : PrincipalReference) (p : Principal) → contains (text_of r) (held_by p) ≡ matches r p
held-matches r p = held-matches_kind r.kind r.name p

pub contains-append :
    (s : String) (xs ys : List String) → contains s (xs ++ ys) ≡ (contains s xs || contains s ys)
contains-append s [] ys = refl
contains-append s (x ∷ xs) ys = ground (arith, contains-append s xs ys)

module _ (q : DecisionQuestion) (refs : List String) where
  -- The references read are, among some texts, those that the caller holds.
  abbrev ReadsOf : List String → Type 0
  ReadsOf named =
      (s : String) → contains s named ≡ true → contains s refs ≡ contains s (held_by q.principal)

  any_read :
      (ps : List PrincipalReference)
      → ReadsOf (map text_of ps)
      → any (λ s. contains s refs) (map text_of ps) ≡ any (λ r. matches r q.principal) ps
  any_read [] h = refl
  any_read (r ∷ ps) h =
      ap (λ b. b || any (λ s. contains s refs) (map text_of ps))
        (h (text_of r) (ground (arith, ==_self (text_of r))) ∙ held-matches r q.principal)
      ∙ ap (λ b. matches r q.principal || b) (any_read ps (λ s e. h s (ground arith)))

  abbrev asked : Rule → Bool
  asked r = r.capability == q.ask.capability && r.scope == q.ask.scope

  abbrev recipe_test : RecipeRule → Bool
  recipe_test = recipe_applies q.ask.scope q.ask.capability refs q.ask.arguments_digest

  recipe_test-asked :
      (r : Rule)
      → (asked r ≡ true → ReadsOf (map text_of r.principals))
      → recipe_test (recipe_rule r) ≡ applies q r
  unfolding recipe_applies applies
  recipe_test-asked r h = elim (Bool-cases (asked r)) [
    | inl e ↦ ground (arith, any_read r.principals (h e))
    | inr e ↦ ground arith
  ]

  named-head :
      (r : Rule) (rs : List Rule)
      → asked r ≡ true
      → ReadsOf (named_for q (r ∷ rs))
      → ReadsOf (map text_of r.principals)
  unfolding named_for
  named-head r rs e h s c =
      h s (rw e (contains-append s (map text_of r.principals) (named_for q rs) ∙ ground arith))

  named-tail :
      (r : Rule) (rs : List Rule) → ReadsOf (named_for q (r ∷ rs)) → ReadsOf (named_for q rs)
  unfolding named_for
  named-tail r rs h s c = elim (Bool-cases (asked r)) [
    | inl e ↦
        h s (rw e (contains-append s (map text_of r.principals) (named_for q rs) ∙ ground arith))
    | inr e ↦ h s (rw e c)
  ]

  select-recipe_rule :
      (rs : List Rule)
      → ReadsOf (named_for q rs)
      → select recipe_test (map recipe_rule rs) ≡ map recipe_rule (select (applies q) rs)
  select-recipe_rule [] h = refl
  select-recipe_rule (r ∷ rs) h =
      let test : recipe_test (recipe_rule r) ≡ applies q r =
        recipe_test-asked r (λ e. named-head r rs e h) in
      let rest : select recipe_test (map recipe_rule rs) ≡ map recipe_rule (select (applies q) rs) =
        select-recipe_rule rs (named-tail r rs h) in
      elim (Bool-cases (applies q r)) [
        | inl e ↦ rw (test, e) (ap (λ l. recipe_rule r ∷ l) rest)
        | inr e ↦ rw (test, e) rest
      ]

-- The triple of a verdict.
abbrev pub triple_of : Option Verdict → Option Triple
triple_of none = none
triple_of (some v) = some (v.outcome, v.reason, v.rule_id)

find_first-recipe_rule :
    (o : Outcome) (rs : List Rule)
    → (find_first (λ r. same_outcome r.outcome o) rs ≡ none
        × find_first (λ r. same_outcome r.outcome o) (map recipe_rule rs) ≡ none)
      ⊎ ((r : Rule) × (find_first (λ x. same_outcome x.outcome o) rs ≡ some r
            × find_first (λ x. same_outcome x.outcome o) (map recipe_rule rs)
              ≡ some (recipe_rule r)))
find_first-recipe_rule o [] = inl (refl, refl)
find_first-recipe_rule o (r ∷ rs) = elim (Bool-cases (same_outcome r.outcome o)) [
  | inl e ↦ inr (r, (rw e, rw e))
  | inr e ↦ rw e (find_first-recipe_rule o rs)
]

recipe_strictest-map :
    (rs : List Rule) (ranks : List (Outcome × Reason))
    → recipe_strictest (map recipe_rule rs) ranks ≡ triple_of (strictest rs ranks)
unfolding recipe_strictest strictest
recipe_strictest-map rs [] = refl
recipe_strictest-map rs ((o, why) ∷ ranks) = elim (find_first-recipe_rule o rs) [
  | inl (e, e') ↦ rw (e, e', recipe_strictest, strictest) (recipe_strictest-map rs ranks)
  | inr (r, (e, e')) ↦ rw (e, e', recipe_strictest, strictest)
]

recipe_verdict-map :
    (rs : List Rule) → recipe_verdict (map recipe_rule rs) ≡ triple_of (verdict_of rs)
recipe_verdict-map [] = refl
recipe_verdict-map (r ∷ rs) = recipe_strictest-map (r ∷ rs) strictest_first

-- The retrospective recipe computes, from the references read and the digest asked alone, the
-- outcome, the reason and the rule's identity that the live evaluation answered for the caller.
pub evaluate_recorded_inputs-evaluate :
    (p : Policy) (q : DecisionQuestion)
    → evaluate_recorded_inputs
        (map recipe_rule p.rules)
        q.ask.scope
        q.ask.capability
        (references_read p q)
        q.ask.arguments_digest
      ≡ triple_of (evaluate p q)
unfolding evaluate_recorded_inputs evaluate
evaluate_recorded_inputs-evaluate p q =
    ap recipe_verdict (
      select-recipe_rule q (references_read p q) p.rules
        (λ s c. references_read_iff p q s ∙ ground arith))
    ∙ recipe_verdict-map (select (applies q) p.rules)
