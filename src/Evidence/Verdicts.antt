-- ===== src/Evidence/Verdicts.antt =====
-- `verify` on a chain that `chained` wrote:
-- packages/control-plane/src/sayfirst_control_plane/domain/evidence_chain.py.
use sayfirst_control_plane.Common.{
  ℕ, ◌≡◌, ◌≢◌, refl, sym, ap, ◌∙◌, subst, true, false, ◌&&◌, not, Option, none, some, List, [], ◌∷◌,
  ◌++◌, map, String, ◌==◌, ==_iff, text_keyed, nat_keyed, option_keyed, ltb, Result, ok, ⊤, ◌>>=◌,
  any, arith, >>=-eq-ok, refused-eq-ok, Bool-cases, inl, inr,
}
use sayfirst_control_plane.Common.Dict.{Dict, lookup, insert}
use sayfirst_control_plane.Evidence.Body.{is_named_text, entry_kinds, body_members, body_required}
use sayfirst_control_plane.Evidence.Kinds.{validate_body, validate_grade, text_or_empty}
use sayfirst_control_plane.Evidence.Value.{
  Value, Body, one_of, one_of_texts, has, has_only, has_all, value_at,
}
use sayfirst_control_plane.Evidence.Records.{EvidenceRecord, EvidenceEntry, checked_record}
use sayfirst_control_plane.Evidence.Chain.{Primitives}
use sayfirst_control_plane.Evidence.Verify.{
  Grade, grade_named, graded, grades_loop, grades, verify, verdict_on, ChainVerdict, intact,
  fault_of, out_of_order, ends_before, listed, grade_or, unverified,
}
use sayfirst_control_plane.Evidence.Verify.Intact.{Consecutive, IsIntact, fault_of_iff}
use sayfirst_control_plane.Evidence.Appending.{append_all, append_all-IsIntact}
use sayfirst_control_plane.Evidence.Writing.{passed, AllWritable, append_all-begins}

out_of_order-Consecutive : (es : List EvidenceEntry) → Consecutive es → out_of_order es ≡ false
unfolding out_of_order
out_of_order-Consecutive [] c = refl
out_of_order-Consecutive (e ∷ []) c = refl
out_of_order-Consecutive (e ∷ f ∷ rest) c = ground (arith, out_of_order-Consecutive (f ∷ rest) c.1)

-- The grade of a body that `validate_body` accepts is one of the three.
grade_of_body :
    (v : Value)
    → one_of ("unverified" ∷ "observability" ∷ "evidence" ∷ []) v ≡ true
    → (g : Grade) × (grade_named (text_or_empty v) ≡ some g)
grade_of_body (Value.text s) h = elim (Bool-cases (s == "unverified")) [
  | inl u ↦ (unverified, rw u)
  | inr u ↦ elim (Bool-cases (s == "observability")) [
    | inl o ↦ (Grade.observability, rw (u, o))
    | inr o ↦ elim (Bool-cases (s == "evidence")) [
      | inl e ↦ (Grade.evidence, rw (u, o, e))
      | inr e ↦ let none_of_them : ⊥ = ground (arith, h, u, o, e) in absurd none_of_them
    ]
  ]
]
grade_of_body Value.null h = cc
grade_of_body (Value.boolean b) h = cc
grade_of_body (Value.integer n) h = cc
grade_of_body (Value.array vs) h = cc
grade_of_body (Value.object ms) h = cc

validated_grade :
    (body : Body)
    → validate_body "grade" body ≡ ok tt
    → one_of ("unverified" ∷ "observability" ∷ "evidence" ∷ []) (value_at "grade" body) ≡ true
unfolding validate_body validate_grade
validated_grade body h =
    let (_, h) =
      refused-eq-ok
        (has body "recording_epoch" && not (is_named_text (value_at "recording_epoch" body))) _
        (validate_grade body) h in
    let (given, _) =
      refused-eq-ok
        (not (one_of ("unverified" ∷ "observability" ∷ "evidence" ∷ []) (value_at "grade" body))) _
        _ h in
    ground (arith, given)

validated_body :
    (r : EvidenceRecord) → checked_record r ≡ ok r → validate_body r.kind r.body ≡ ok tt
unfolding checked_record
validated_body r h =
    let (_, h) = refused-eq-ok (r.scope == "") _ _ h in
    let (_, h) = refused-eq-ok (not (one_of_texts entry_kinds r.kind)) _ _ h in
    let (_, h) = refused-eq-ok (r.connection_id == "") _ _ h in
    let (_, h) = refused-eq-ok (not (has_only (body_members r.kind) r.body)) _ _ h in
    let (_, h) = refused-eq-ok (not (has_all (body_required r.kind) r.body)) _ _ h in
    let (done, valid, _) = >>=-eq-ok (validate_body r.kind r.body) _ h in valid

graded-total :
    (e : EvidenceEntry) (current : Dict String Grade)
    → checked_record e.facts ≡ ok e.facts
    → (d : Dict String Grade) × (graded e current ≡ ok d)
unfolding graded
graded-total e current made = elim (Bool-cases (e.facts.kind == "grade")) [
  | inl y ↦
      let valid =
        subst (λ k. validate_body k e.facts.body ≡ ok tt) ((==_iff e.facts.kind "grade").0 y)
          (validated_body e.facts made) in
      let (g, named) =
        grade_of_body (value_at "grade" e.facts.body) (validated_grade e.facts.body valid) in
      (insert e.facts.connection_id g current, rw (y, named))
  | inr n ↦ (current, rw n)
]

-- A call that answers passes its answer on.
answered : {E A B : Type 0} (m : Result E A) (f : A → Result E B) {a : A} → m ≡ ok a → m >>= f ≡ f a
answered m f h = ap (λ m. m >>= f) h

abbrev AllMade : List EvidenceEntry → Type 0
AllMade [] = ⊤
AllMade (e ∷ es) = (checked_record e.facts ≡ ok e.facts) × AllMade es

grades_loop-total :
    (es : List EvidenceEntry) (current : Dict String Grade) (covered : Dict String (List Grade))
    → AllMade es
    → (d : Dict String (List Grade)) × (grades_loop es current covered ≡ ok d)
unfolding grades_loop
grades_loop-total [] current covered made = (covered, refl)
grades_loop-total (e ∷ es) current covered made =
    let (now, here) = graded-total e current made.0 in
    let (d, later) =
      grades_loop-total es now
        (insert e.facts.connection_id
          (listed (lookup e.facts.connection_id covered)
            ++ grade_or unverified (lookup e.facts.connection_id now) ∷ [])
          covered)
        made.1 in
    (d, answered (graded e current) (λ now. grades_loop es now _) here ∙ later)

-- A verdict on entries that can be constructed is given, with the condition of the fault found.
verdict_on-total :
    (es : List EvidenceEntry) (scope : String) (n : ℕ) (before : Dict String Grade)
    → AllMade es
    → (v : ChainVerdict) × (verdict_on es scope n none before ≡ ok v) × (v.condition ≡ intact)
unfolding verdict_on grades
verdict_on-total es scope n before made =
    let (d, loop) = grades_loop-total es before [] made in
    let found = answered (grades_loop es before []) _ loop in
    (_, answered (grades es before) _ found, refl)

AllMade-writable :
    (p : Primitives) (scope : String) (es : List EvidenceEntry) (rs : List EvidenceRecord)
    → AllWritable p scope rs
    → map (λ e. e.facts) es ≡ rs
    → AllMade es × (any (λ e. not (e.facts.scope == scope)) es ≡ false)
AllMade-writable p scope [] [] w same = (tt, refl)
AllMade-writable p scope [] (r ∷ rs) w same = cc
AllMade-writable p scope (e ∷ es) [] w same = cc
AllMade-writable p scope (e ∷ es) (r ∷ rs) w same =
    let facts : e.facts ≡ r = cc same in
    let (made, scoped) = AllMade-writable p scope es rs w.2 (cc same) in
    (
      (subst (λ f. checked_record f ≡ ok f) (sym facts) (w.0.0), made),
      rw ((==_iff e.facts.scope scope).1 (ap (λ f. f.scope) facts ∙ w.1)) scoped,
    )

-- A range that no refusal stops is verified.
verify-passes :
    (p : Primitives) (es : List EvidenceEntry) (scope : String) (n : ℕ) (to : Option ℕ)
    (before : Dict String Grade)
    → (scope == "") ≡ false
    → ltb n 1 ≡ false
    → ends_before to n ≡ false
    → any (λ e. not (e.facts.scope == scope)) es ≡ false
    → out_of_order es ≡ false
    → verify p es scope n to before ≡ verdict_on es scope n (fault_of p n to es) before
unfolding verify
verify-passes p es scope n to before named begun ends scoped ordered =
    passed (scope == "") _ _ named
    ∙ passed (ltb n 1) _ _ begun
    ∙ passed (ends_before to n) _ _ ends
    ∙ passed (any (λ e. not (e.facts.scope == scope)) es) _ _ scoped
    ∙ passed (out_of_order es) _ _ ordered

-- The numbers of an intact range follow each other.
IsIntact-Consecutive :
    (p : Primitives) (n : ℕ) (to : Option ℕ) (es : List EvidenceEntry)
    → IsIntact p n to es
    → Consecutive es
IsIntact-Consecutive p n to [] h = tt
IsIntact-Consecutive p n to (e ∷ es) h = h.1

-- A chain of records that can be constructed, all of the scope named, whose texts can be encoded and
-- whose instants can be printed, is written, with those records: the verification from its first entry
-- gives a verdict, and it says intact.
pub verify_written :
    (p : Primitives) (scope : String) (r : EvidenceRecord) (rs : List EvidenceRecord)
    (before : Dict String Grade)
    → scope ≢ ""
    → AllWritable p scope (r ∷ rs)
    → (es : List EvidenceEntry) × (v : ChainVerdict) × (append_all p (r ∷ rs) none ≡ ok es)
      × (map (λ e. e.facts) es ≡ r ∷ rs)
      × (verify p es scope 1 none before ≡ ok v)
      × (v.condition ≡ intact)
verify_written p scope r rs before named w =
    let (es, written, same) = append_all-begins p scope r rs w in
    let sound = append_all-IsIntact p r rs es written in
    let (made, scoped) = AllMade-writable p scope es (r ∷ rs) w same in
    let (v, given, says) = verdict_on-total es scope 1 before made in
    let none_found = (fault_of_iff p 1 none es).1 sound in
    let answer =
      verify-passes p es scope 1 none before (ground (arith, named, ==_iff scope "")) refl refl
        scoped (out_of_order-Consecutive es (IsIntact-Consecutive p 1 none es sound)) in
    (es, v, written, same, answer ∙ rw none_found given, says)
