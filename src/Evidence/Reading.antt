-- ===== src/Evidence/Reading.antt =====
-- A document of an entry, written and read back:
-- packages/control-plane/src/sayfirst_control_plane/domain/evidence_chain.py.
use sayfirst_control_plane.Common.{
  ℕ, zero, suc, ◌+◌, ◌≤◌, ◌≡◌, refl, ap, ◌∙◌, false, not, ◌&&◌, ◌||◌, Option, none, some, List, [],
  ◌∷◌, String, ◌==◌, text_keyed, ok, ltb, nat_keyed, is_some, refused-eq-ok, >>=-eq-ok, ◌>>◌, arith,
}
use sayfirst_control_plane.Common.Dict.{lookup}
use sayfirst_control_plane.Evidence.Value.{Body, members, elements, has_only, has_all, one_of_texts}
use sayfirst_control_plane.Evidence.Records.{
  Principal, Principals, principal, nobody, through, checked_principal, members_of, items_of,
  EvidenceRecord, EvidenceEntry, checked_entry,
}
use sayfirst_control_plane.Evidence.Writing.{passed}
use sayfirst_control_plane.Evidence.Chain.{Primitives}
use sayfirst_control_plane.Evidence.Body.{entry_kinds, body_members, body_required}
use sayfirst_control_plane.Evidence.Kinds.{validate_body}
use sayfirst_control_plane.Evidence.Documents.{
  Conversions, read_principal, read_each, objects, entry_to_document, entry_from_document,
  members_from, text_or_null, document_of, str_unless_none,
}
use sayfirst_control_plane.Evidence.Records.{checked_record, is_digest_text, is_none_or_digest}

-- How deep the principals that one acts for are nested.
unfoldable mutual
  pub depth : Principal → ℕ
  depth (principal kind id via) = suc (depth_of via)

  pub depth_of : Principals → ℕ
  depth_of nobody = 0
  depth_of (through p ps) = depth p + depth_of ps

-- Every principal can be constructed.
unfoldable mutual
  pub IsNamed : Principal → Type 0
  IsNamed (principal kind id via) = ((kind == "" || id == "") ≡ false) × AllNamed via

  pub AllNamed : Principals → Type 0
  AllNamed nobody = Unit
  AllNamed (through p ps) = IsNamed p × AllNamed ps

bodies : Principals → List Body
bodies nobody = []
bodies (through p ps) = members (members_of p) ∷ bodies ps

via-items_of : (ps : Principals) → objects (elements (items_of ps)) ≡ some (bodies ps)
unfolding objects items_of bodies
via-items_of nobody = refl
via-items_of (through p ps) = rw (via-items_of ps) refl

mutual
  unfolding read_principal depth depth_of IsNamed AllNamed members_of items_of bodies read_each
      lookup checked_principal

  pub read_principal-members_of :
      (c : Conversions) (p : Principal) (fuel : ℕ)
      → IsNamed p
      → depth p ≤ fuel
      → read_principal c fuel (members (members_of p)) ≡ ok p
  read_principal-members_of c (principal kind id via) zero named deep = absurd (omega (arith, deep))
  read_principal-members_of c (principal kind id via) (suc fuel) named deep =
      rw (via-items_of via) (
        rw (read_each-bodies c via fuel named.1 (omega (arith, deep)))
          (passed (kind == "" || id == "") _ _ named.0))

  read_each-bodies :
      (c : Conversions) (ps : Principals) (fuel : ℕ)
      → AllNamed ps
      → depth_of ps ≤ fuel
      → read_each (read_principal c fuel) (bodies ps) ≡ ok ps
  read_each-bodies c nobody fuel named deep = refl
  read_each-bodies c (through p ps) fuel named deep =
      rw
        (
          read_principal-members_of c p fuel named.0 (omega (arith, deep)),
          read_each-bodies c ps fuel named.1 (omega (arith, deep)),
        )
        refl

members-members_from : (b : Body) → members (members_from b) ≡ b
unfolding members_from
members-members_from [] = refl
members-members_from ((name, v) ∷ rest) =
    ap (λ (d : Body). (name, v) ∷ d) (members-members_from rest)

-- The entry, recorded at another instant.
abbrev pub redated : ℕ → EvidenceEntry → EvidenceEntry
redated at e = record e { facts = record e.facts { recorded_at = at } }

checked_record-redated :
    (at : ℕ) (r q : EvidenceRecord)
    → checked_record r ≡ ok q
    → checked_record (record r { recorded_at = at }) ≡ ok (record r { recorded_at = at })
unfolding checked_record
checked_record-redated at r q h =
    let (a, h) = refused-eq-ok (r.scope == "") _ _ h in
    let (b, h) = refused-eq-ok (not (one_of_texts entry_kinds r.kind)) _ _ h in
    let (d, h) = refused-eq-ok (r.connection_id == "") _ _ h in
    let (f, h) = refused-eq-ok (not (has_only (body_members r.kind) r.body)) _ _ h in
    let (g, h) = refused-eq-ok (not (has_all (body_required r.kind) r.body)) _ _ h in
    let (done, valid, _) = >>=-eq-ok (validate_body r.kind r.body) _ h in
    passed (r.scope == "") _ _ a
    ∙ passed (not (one_of_texts entry_kinds r.kind)) _ _ b
    ∙ passed (r.connection_id == "") _ _ d
    ∙ passed (not (has_only (body_members r.kind) r.body)) _ _ f
    ∙ passed (not (has_all (body_required r.kind) r.body)) _ _ g
    ∙ ap (λ m. m >> ok (record r { recorded_at = at })) valid

checked_entry-redated :
    (at : ℕ) (e : EvidenceEntry)
    → checked_entry e ≡ ok e
    → checked_entry (redated at e) ≡ ok (redated at e)
unfolding checked_entry
checked_entry-redated at e h =
    let (r, made, h) = >>=-eq-ok (checked_record e.facts) _ h in
    let (a, h) = refused-eq-ok (ltb e.sequence 1) _ _ h in
    let (b, h) = refused-eq-ok (e.sequence == 1 && is_some e.previous_hash) _ _ h in
    let (d, h) = refused-eq-ok (ltb 1 e.sequence && not (is_some e.previous_hash)) _ _ h in
    let (f, h) = refused-eq-ok (not (is_none_or_digest e.previous_hash)) _ _ h in
    let (g, h) = refused-eq-ok (not (is_digest_text e.entry_hash)) _ _ h in
    rw (checked_record-redated at e.facts r made) (
      passed (ltb e.sequence 1) _ _ a
      ∙ passed (e.sequence == 1 && is_some e.previous_hash) _ _ b
      ∙ passed (ltb 1 e.sequence && not (is_some e.previous_hash)) _ _ d
      ∙ passed (not (is_none_or_digest e.previous_hash)) _ _ f
      ∙ passed (not (is_digest_text e.entry_hash)) _ _ g)

str_unless_none-text :
    (c : Conversions) (o : Option String) → str_unless_none c (text_or_null o) ≡ o
str_unless_none-text c none = refl
str_unless_none-text c (some s) = refl

-- An entry that can be constructed, whose principals can be and whose instant is printed, is written
-- to a document and read back as it was, its instant as the one that the print is read as.
pub entry_from_document-entry_to_document :
    (p : Primitives) (c : Conversions) (e : EvidenceEntry) (fuel at : ℕ) (printed : String)
    → checked_entry e ≡ ok e
    → IsNamed e.facts.principal
    → depth e.facts.principal ≤ fuel
    → p.instant_text e.facts.recorded_at ≡ some printed
    → c.read_instant printed ≡ some at
    → (document : Body) × (entry_to_document p e ≡ ok document)
      × (entry_from_document c fuel document ≡ ok (redated at e))
unfolding entry_to_document entry_from_document document_of lookup
entry_from_document-entry_to_document p c e fuel at printed made named deep print read = (
  document_of e printed,
  rw print refl,
  rw
      (
        read,
        read_principal-members_of c e.facts.principal fuel named deep,
        members-members_from e.facts.body,
        str_unless_none-text c e.previous_hash,
      )
      (checked_entry-redated at e made),
)
