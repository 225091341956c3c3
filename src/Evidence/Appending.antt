-- ===== src/Evidence/Appending.antt =====
-- Records that `chained` appends one after another:
-- packages/control-plane/src/sayfirst_control_plane/domain/evidence_chain.py.
use sayfirst_control_plane.Common.{
  ℕ, ◌+◌, ◌≡◌, refl, sym, ap, ◌∙◌, ◌&&◌, not, Option, none, some, List, [], ◌∷◌, String, ◌==◌,
  ==_iff, text_keyed, nat_keyed, option_keyed, ltb, is_some, Result, ok, ◌>>=◌, arith, >>=-eq-ok,
  refused-eq-ok, ok_inj,
}
use sayfirst_control_plane.Evidence.Body.{entry_kinds, body_members, body_required}
use sayfirst_control_plane.Evidence.Kinds.{validate_body}
use sayfirst_control_plane.Evidence.Value.{one_of_texts, has_only, has_all}
use sayfirst_control_plane.Evidence.Records.{
  EvidenceRecord, EvidenceEntry, checked_record, checked_entry, is_digest_text, is_none_or_digest,
}
use sayfirst_control_plane.Evidence.Chain.{
  Primitives, preimage_version, hash_of, recomputed, placed, chained,
}
use sayfirst_control_plane.Evidence.Verify.Intact.{Consecutive, Linked, Sound, AllSound, IsIntact}

pub checked_record-same : (r q : EvidenceRecord) → checked_record r ≡ ok q → r ≡ q
unfolding checked_record
checked_record-same r q h =
    let (_, h) = refused-eq-ok (r.scope == "") _ _ h in
    let (_, h) = refused-eq-ok (not (one_of_texts entry_kinds r.kind)) _ _ h in
    let (_, h) = refused-eq-ok (r.connection_id == "") _ _ h in
    let (_, h) = refused-eq-ok (not (has_only (body_members r.kind) r.body)) _ _ h in
    let (_, h) = refused-eq-ok (not (has_all (body_required r.kind) r.body)) _ _ h in
    let (_, _, same) = >>=-eq-ok (validate_body r.kind r.body) _ h in cc same

-- A checked entry is the entry given, and its facts are a record that can be constructed.
checked_entry-same :
    (e f : EvidenceEntry) → checked_entry e ≡ ok f → (e ≡ f) × (checked_record e.facts ≡ ok e.facts)
unfolding checked_entry
checked_entry-same e f h =
    let (r, made, h) = >>=-eq-ok (checked_record e.facts) _ h in
    let (_, h) = refused-eq-ok (ltb e.sequence 1) _ _ h in
    let (_, h) = refused-eq-ok (e.sequence == 1 && is_some e.previous_hash) _ _ h in
    let (_, h) = refused-eq-ok (ltb 1 e.sequence && not (is_some e.previous_hash)) _ _ h in
    let (_, h) = refused-eq-ok (not (is_none_or_digest e.previous_hash)) _ _ h in
    let (_, same) = refused-eq-ok (not (is_digest_text e.entry_hash)) _ _ h in
    (cc same, made ∙ ap ok (sym (checked_record-same e.facts r made)))

module _ (p : Primitives) where
  abbrev pub entry_at : EvidenceRecord → ℕ → Option String → String → EvidenceEntry
  entry_at r sequence previous_hash entry_hash = record {
    facts = r;
    sequence = sequence;
    previous_hash = previous_hash;
    entry_hash = entry_hash;
    preimage_version = preimage_version;
  }

  -- What is placed stands where it was asked to and recomputes.
  pub placed-Sound :
      (r : EvidenceRecord) (n : ℕ) (previous_hash : Option String) (e : EvidenceEntry)
      → placed p r n previous_hash ≡ ok e
      → (e.facts ≡ r) × (e.sequence ≡ n) × (e.previous_hash ≡ previous_hash) × Sound p e
  unfolding placed recomputed
  placed-Sound r n previous_hash e h =
      let (found, hashed, h) = >>=-eq-ok (hash_of p r n previous_hash) _ h in
      let (same, made) = checked_entry-same (entry_at r n previous_hash found) e h in
      rw (← same) (refl, refl, refl, (refl, rw made hashed))

  -- What is chained follows its predecessor.
  pub chained-follows :
      (r : EvidenceRecord) (previous e : EvidenceEntry)
      → chained p r (some previous) ≡ ok e
      → (e.facts ≡ r)
        × (e.sequence ≡ previous.sequence + 1)
        × (e.previous_hash ≡ some previous.entry_hash)
        × Sound p e
        × (previous.facts.scope ≡ r.scope)
  unfolding chained
  chained-follows r previous e h =
      let (scoped, h) = refused-eq-ok (not (previous.facts.scope == r.scope)) _ _ h in
      let (found, _, h) = >>=-eq-ok (recomputed p previous) _ h in
      let (_, h) = refused-eq-ok (not (found == previous.entry_hash)) _ _ h in
      let (facts, place, named, sound) =
        placed-Sound r (previous.sequence + 1) (some previous.entry_hash) e h in
      (facts, place, named, sound, (==_iff previous.facts.scope r.scope).0 (ground arith))

  -- The writer's loop: each record is placed after the entry made before it.
  unfoldable pub append_all :
      List EvidenceRecord → Option EvidenceEntry → Result String (List EvidenceEntry)
  append_all [] previous = ok []
  append_all (r ∷ rs) previous = do
    e ← chained p r previous
    es ← append_all rs (some e)
    ok (e ∷ es)

  append_all-follows :
      (rs : List EvidenceRecord) (previous : EvidenceEntry) (es : List EvidenceEntry)
      → append_all rs (some previous) ≡ ok es
      → Consecutive (previous ∷ es) × Linked (previous ∷ es) × AllSound p es
  unfolding append_all
  append_all-follows [] previous es h = rw (← ok_inj h) (tt, tt, tt)
  append_all-follows (r ∷ rs) previous es h =
      let (e, made, h) = >>=-eq-ok (chained p r (some previous)) _ h in
      let (rest, later, h) = >>=-eq-ok (append_all rs (some e)) _ h in
      let (_, place, named, sound, _) = chained-follows r previous e made in
      let (ordered, linked, sounds) = append_all-follows rs e rest later in
      rw (← ok_inj h) ((place, ordered), (named, linked), (sound, sounds))

  -- Records that the writer chains one after another, from the first, are an intact range from
  -- number one.
  pub append_all-IsIntact :
      (r : EvidenceRecord) (rs : List EvidenceRecord) (es : List EvidenceEntry)
      → append_all (r ∷ rs) none ≡ ok es
      → IsIntact p 1 none es
  unfolding append_all chained
  append_all-IsIntact r rs es h =
      let (e, made, h) = >>=-eq-ok (chained p r none) _ h in
      let (rest, later, h) = >>=-eq-ok (append_all rs (some e)) _ h in
      let (_, place, _, sound) = placed-Sound r 1 none e made in
      let (ordered, linked, sounds) = append_all-follows rs e rest later in
      rw (← ok_inj h) (place, ordered, tt, (sound, sounds), linked)
