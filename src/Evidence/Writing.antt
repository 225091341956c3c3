-- ===== src/Evidence/Writing.antt =====
-- The records that `chained` can be given:
-- packages/control-plane/src/sayfirst_control_plane/domain/evidence_chain.py.
use sayfirst_control_plane.Common.{
  ℕ, ◌+◌, ◌≤◌, ◌<◌, ◌≡◌, refl, sym, ap, ◌∙◌, Bool, true, false, ◌&&◌, not, Option, none, some, List,
  [], ◌∷◌, map, String, ◌==◌, ==_iff, ==_self, text_keyed, nat_keyed, option_keyed, ltb, Result, ok,
  ⊤, refuse_if, all, ◌>>◌, arith,
}
use sayfirst_control_plane.Evidence.Records.{
  EvidenceRecord, EvidenceEntry, checked_record, checked_entry, is_digest_text, members_of,
}
use sayfirst_control_plane.Evidence.Chain.{
  Primitives, preimage, hash_of, placed, chained, encoded, preimage_version,
}
use sayfirst_control_plane.Evidence.Framing.{Bytes, digits, framed}
use sayfirst_control_plane.Evidence.Value.{members}
use sayfirst_control_plane.Evidence.Body.{is_hex}
use sayfirst_control_plane.Common.Text.{codes}
use sayfirst_control_plane.Evidence.Verify.Intact.{Sound}
use sayfirst_control_plane.Evidence.Appending.{chained-follows, placed-Sound, entry_at, append_all}

-- A check that does not refuse is passed.
pub passed : {E B : Type 0} (c : Bool) (e : E) (m : Result E B) → c ≡ false → refuse_if c e >> m ≡ m
passed c e m h = rw h

-- Where a record may be placed: the first has no predecessor, and any other one with a digest.
abbrev Fits : ℕ → Option String → Type 0
Fits n none = n ≡ 1
Fits n (some h) = (1 < n) × (is_digest_text h ≡ true)

module _ (p : Primitives) where
  -- A text that `encode` takes.
  abbrev IsEncodable : String → Type 0
  IsEncodable s = (b : Bytes) × (p.utf8 s ≡ some b)

  -- A record that can be constructed, whose texts can be encoded, at an instant that can be printed.
  abbrev pub IsWritable : EvidenceRecord → Type 0
  IsWritable r =
      (checked_record r ≡ ok r)
      × ((at : String) × (p.instant_text r.recorded_at ≡ some at) × IsEncodable at)
      × IsEncodable r.scope
      × IsEncodable r.kind
      × IsEncodable r.connection_id

  digits-is_ascii : (cs : List ℕ) → all is_hex cs ≡ true → all (λ c. ltb c 128) cs ≡ true
  digits-is_ascii [] h = refl
  digits-is_ascii (c ∷ cs) h = ground (arith, h, digits-is_ascii cs)

  -- A predecessor's digest can be encoded.
  encoded-total :
      (n : ℕ) (previous_hash : Option String)
      → Fits n previous_hash
      → (q : Option Bytes) × (encoded p previous_hash ≡ ok q)
  encoded-total n none fits = (none, refl)
  encoded-total n (some h) fits =
      let (b, made) = p.utf8_ascii h (digits-is_ascii (codes h) (ground (arith, fits.1))) in
      (some b, rw made)

  preimage-total :
      (r : EvidenceRecord) (n : ℕ) (previous_hash : Option String)
      → IsWritable r
      → Fits n previous_hash
      → (b : Bytes) × (preimage p r n previous_hash ≡ ok b)
  unfolding preimage
  preimage-total r n previous_hash
        (_, (_, printed, (at, shown)), (scope, scoped), (kind, known), (connection_id, connected))
        fits =
      let (v, version) = p.utf8_ascii preimage_version refl in
      let (previous, linked) = encoded-total n previous_hash fits in
      (
        framed (
            some v
            ∷ some scope
            ∷ some (digits n)
            ∷ some kind
            ∷ some at
            ∷ some connection_id
            ∷ some (p.canonical_json (members (members_of r.principal)))
            ∷ some (p.canonical_json r.body)
            ∷ previous
            ∷ []),
        rw (version, scoped, known, printed, shown, connected, linked),
      )

  checked_entry-Fits :
      (r : EvidenceRecord) (n : ℕ) (previous_hash : Option String) (h : String)
      → checked_record r ≡ ok r
      → Fits n previous_hash
      → is_digest_text h ≡ true
      → checked_entry (entry_at p r n previous_hash h) ≡ ok (entry_at p r n previous_hash h)
  unfolding checked_entry
  checked_entry-Fits r n none h made fits digest = rw made (
      passed (ltb n 1) _ _ (ground arith)
      ∙ passed (n == 1 && false) _ _ (ground arith)
      ∙ passed (ltb 1 n && true) _ _ (ground arith)
      ∙ passed (not (is_digest_text h)) _ _ (rw digest))
  checked_entry-Fits r n (some q) h made fits digest = rw made (
      passed (ltb n 1) _ _ (ground arith)
      ∙ passed (n == 1 && true) _ _ (ground arith)
      ∙ passed (ltb 1 n && false) _ _ (ground arith)
      ∙ passed (not (is_digest_text q)) _ _ (rw fits.1)
      ∙ passed (not (is_digest_text h)) _ _ (rw digest))

  placed-total :
      (r : EvidenceRecord) (n : ℕ) (previous_hash : Option String)
      → IsWritable r
      → Fits n previous_hash
      → (e : EvidenceEntry) × (placed p r n previous_hash ≡ ok e)
        × (is_digest_text e.entry_hash ≡ true)
  unfolding placed hash_of
  placed-total r n previous_hash writable fits =
      let (b, made) = preimage-total r n previous_hash writable fits in
      (
        entry_at p r n previous_hash (p.sha256 b),
        rw made
            (checked_entry-Fits r n previous_hash (p.sha256 b) writable.0 fits (p.sha256_digest b)),
        p.sha256_digest b,
      )

  chained-total :
      (r : EvidenceRecord) (previous : EvidenceEntry)
      → IsWritable r
      → Sound p previous
      → previous.facts.scope ≡ r.scope
      → 1 ≤ previous.sequence
      → is_digest_text previous.entry_hash ≡ true
      → (e : EvidenceEntry) × (chained p r (some previous) ≡ ok e)
        × (is_digest_text e.entry_hash ≡ true)
  unfolding chained
  chained-total r previous writable sound scoped begun digest =
      let (e, made, digest') =
        placed-total r (previous.sequence + 1) (some previous.entry_hash) writable
          (omega (arith, begun), digest) in
      (
        e,
        passed (not (previous.facts.scope == r.scope)) _ _
              (rw ((==_iff previous.facts.scope r.scope).1 scoped))
            ∙ rw (sound.1) (
                passed (not (previous.entry_hash == previous.entry_hash)) _ _
                  (rw (==_self previous.entry_hash)))
            ∙ made,
        digest',
      )

  abbrev pub AllWritable : String → List EvidenceRecord → Type 0
  AllWritable scope [] = ⊤
  AllWritable scope (r ∷ rs) = IsWritable r × (r.scope ≡ scope) × AllWritable scope rs

  append_all-total :
      (scope : String) (rs : List EvidenceRecord) (previous : EvidenceEntry)
      → AllWritable scope rs
      → Sound p previous
      → previous.facts.scope ≡ scope
      → 1 ≤ previous.sequence
      → is_digest_text previous.entry_hash ≡ true
      → (es : List EvidenceEntry) × (append_all p rs (some previous) ≡ ok es)
        × (map (λ e. e.facts) es ≡ rs)
  unfolding append_all
  append_all-total scope [] previous w s q b d = ([], refl, refl)
  append_all-total scope (r ∷ rs) previous w s q b d =
      let (e, made, d') = chained-total r previous w.0 s (q ∙ sym w.1) b d in
      let (facts, place, _, sound, _) = chained-follows p r previous e made in
      let (es, later, same) =
        append_all-total scope rs e w.2 sound (ap (λ f. f.scope) facts ∙ w.1) (omega (arith, place))
          d' in
      (
        e ∷ es,
        rw (made, later),
        ap {A = EvidenceRecord × List EvidenceRecord} (λ c. c.0 ∷ c.1) (λ i. (facts i, same i)),
      )

  -- The first record is placed without a predecessor.
  pub append_all-begins :
      (scope : String) (r : EvidenceRecord) (rs : List EvidenceRecord)
      → AllWritable scope (r ∷ rs)
      → (es : List EvidenceEntry) × (append_all p (r ∷ rs) none ≡ ok es)
        × (map (λ e. e.facts) es ≡ r ∷ rs)
  unfolding append_all chained
  append_all-begins scope r rs w =
      let (e, made, d) = placed-total r 1 none w.0 refl in
      let (facts, place, _, sound) = placed-Sound p r 1 none e made in
      let (es, later, same) =
        append_all-total scope rs e w.2 sound (ap (λ f. f.scope) facts ∙ w.1) (omega (arith, place))
          d in
      (
        e ∷ es,
        rw (made, later),
        ap {A = EvidenceRecord × List EvidenceRecord} (λ c. c.0 ∷ c.1) (λ i. (facts i, same i)),
      )
