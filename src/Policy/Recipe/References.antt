-- ===== src/Policy/Recipe/References.antt =====
-- The references that are read for a question:
-- packages/control-plane/src/sayfirst_control_plane/domain/policy.py.
use sayfirst_control_plane.Common.{
  ◌≡◌, sym, ap, ◌∙◌, Bool, ◌&&◌, List, [], ◌∷◌, map, String, ◌==◌, ==_iff, text_keyed, any, arith,
  Bool-cases, inl, inr,
}
use sayfirst_control_plane.Policy.{
  DecisionQuestion, PrincipalReference, text_of, Rule, Policy, contains, matches,
}
use sayfirst_control_plane.Policy.Recipe.{held_by, named_for, references_read}
use sayfirst_control_plane.Policy.Recipe.Confirms.{
  references_read_iff, held-matches, contains-append,
}

module _ (q : DecisionQuestion) (s : String) where
  -- A reference that matches the caller and is written so.
  abbrev pub is_callers : PrincipalReference → Bool
  is_callers r = text_of r == s && matches r q.principal

  -- A rule for the effect and the scope that are asked, one of whose principals is the caller under
  -- that reference.
  abbrev pub cites : Rule → Bool
  cites rule =
      rule.capability == q.ask.capability
      && (rule.scope == q.ask.scope && any is_callers rule.principals)

  -- The caller holds a text that is a reference's exactly where the reference matches the caller.
  callers-held :
      (r : PrincipalReference) → (contains s (held_by q.principal) && text_of r == s) ≡ is_callers r
  callers-held r = elim (Bool-cases (text_of r == s)) [
    | inr other ↦ rw other (ground arith)
    | inl same ↦
        let held : contains s (held_by q.principal) ≡ matches r q.principal =
          ap (λ t. contains t (held_by q.principal)) (sym ((==_iff (text_of r) s).0 same))
          ∙ held-matches r q.principal in
        ground (arith, held, same)
  ]

  callers-any :
      (ps : List PrincipalReference)
      → (contains s (held_by q.principal) && contains s (map text_of ps)) ≡ any is_callers ps
  callers-any [] = ground arith
  callers-any (r ∷ ps) = ground (arith, callers-held r, callers-any ps)

  cited :
      (rs : List Rule)
      → (contains s (held_by q.principal) && contains s (named_for q rs)) ≡ any cites rs
  unfolding named_for
  cited [] = ground arith
  cited (r ∷ rs) = elim (Bool-cases (r.capability == q.ask.capability && r.scope == q.ask.scope)) [
    | inl e ↦
        rw (e, contains-append s (map text_of r.principals) (named_for q rs))
          (ground (arith, e, callers-any r.principals, cited rs))
    | inr e ↦ rw e (ground (arith, e, cited rs))
  ]

-- A text is among the references read exactly when a rule for the effect and the scope that are
-- asked has a principal of that text whom the caller matches.
pub references_read-cites :
    (p : Policy) (q : DecisionQuestion) (s : String)
    → contains s (references_read p q) ≡ any (cites q s) p.rules
references_read-cites p q s = references_read_iff p q s ∙ cited q s p.rules
