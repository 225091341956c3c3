-- ===== src/Evidence/Chain.antt =====
-- The hash chain: the preimage, the hash and the two ways to append of
-- packages/control-plane/src/sayfirst_control_plane/domain/evidence_chain.py. What Python's library
-- does is a parameter: the encoding of a text, canonical JSON, SHA-256 and the text of an instant.
use sayfirst_control_plane.Common.{
  ℕ, ◌+◌, ◌≡◌, Bool, true, false, not, Option, none, some, [], ◌∷◌, String, ◌==◌, text_keyed,
  nat_keyed, if◌then◌else◌, all, ltb, Result, ok, err, refuse_if, or_raise, ◌>>=◌, ◌>>◌,
}
use sayfirst_control_plane.Common.Text.{codes}
use sayfirst_control_plane.Evidence.Value.{Body, members}
use sayfirst_control_plane.Evidence.Records.{
  members_of, EvidenceRecord, checked_record, EvidenceEntry, checked_entry, is_digest_text,
}
use sayfirst_control_plane.Evidence.Framing.{Bytes, digits, framed}

abbrev pub is_ascii : String → Bool
is_ascii s = all (λ c. ltb c 128) (codes s)

-- `utf8` is `none` where `encode` raises, on a text with lone surrogates, and `instant_text` where
-- `astimezone` does, at the edge of the calendar. `canonical_json` escapes what is not ASCII, so it
-- encodes every body. UTF-8 encodes different texts differently and every ASCII text, and a digest is
-- printed as 64 lowercase hexadecimal digits.
pub record Primitives : Type 0 where
  pub utf8 : String → Option Bytes
  pub canonical_json : Body → Bytes
  pub sha256 : Bytes → String
  pub instant_text : ℕ → Option String
  pub utf8_injective : (s t : String) (b : Bytes) → utf8 s ≡ some b → utf8 t ≡ some b → s ≡ t
  pub utf8_ascii : (s : String) → is_ascii s ≡ true → (b : Bytes) × (utf8 s ≡ some b)
  pub sha256_digest : (b : Bytes) → is_digest_text (sha256 b) ≡ true

-- `PREIMAGE_VERSION`
abbrev pub preimage_version : String
preimage_version = "sayfirst-control-plane/evidence/v1"

module _ (p : Primitives) where
  -- `text.encode()`
  abbrev pub encode : String → Result String Bytes
  encode s = or_raise (p.utf8 s) "surrogates not allowed"

  -- `previous_hash.encode() if previous_hash is not None else None`
  abbrev pub encoded : Option String → Result String (Option Bytes)
  encoded none = ok none
  encoded (some s) = do b ← encode s; ok (some b)

  -- `_instant`
  abbrev pub instant : ℕ → Result String String
  instant t = or_raise (p.instant_text t) "date value out of range"

  -- `preimage`
  unfoldable pub preimage : EvidenceRecord → ℕ → Option String → Result String Bytes
  preimage r sequence previous_hash = do
    version ← encode preimage_version
    scope ← encode r.scope
    kind ← encode r.kind
    printed ← instant r.recorded_at
    at ← encode printed
    connection_id ← encode r.connection_id
    previous ← encoded previous_hash
    ok (
        framed (
          some version
          ∷ some scope
          ∷ some (digits sequence)
          ∷ some kind
          ∷ some at
          ∷ some connection_id
          ∷ some (p.canonical_json (members (members_of r.principal)))
          ∷ some (p.canonical_json r.body)
          ∷ previous
          ∷ []))

  -- `_hash`
  unfoldable pub hash_of : EvidenceRecord → ℕ → Option String → Result String String
  unfolding preimage
  hash_of r sequence previous_hash = do
    bytes ← preimage r sequence previous_hash
    ok (p.sha256 bytes)

  -- `_hash(_record(entry), entry.sequence, entry.previous_hash)`
  unfoldable pub recomputed : EvidenceEntry → Result String String
  recomputed e = do r ← checked_record e.facts; hash_of r e.sequence e.previous_hash

  abbrev pub answers : String → Result String String → Bool
  answers expected (ok found) = found == expected
  answers expected (err e) = false

  -- `entry_verifies`
  unfoldable pub entry_verifies : EvidenceEntry → Bool
  entry_verifies e =
      if not (e.preimage_version == preimage_version)
      then false
      else answers e.entry_hash (recomputed e)

  -- The entry of a record at a place.
  unfoldable pub placed : EvidenceRecord → ℕ → Option String → Result String EvidenceEntry
  placed r sequence previous_hash = do
    entry_hash ← hash_of r sequence previous_hash
    checked_entry record {
      facts = r;
      sequence = sequence;
      previous_hash = previous_hash;
      entry_hash = entry_hash;
      preimage_version = preimage_version;
    }

  -- `chained_after_break`
  unfoldable pub chained_after_break : EvidenceRecord → EvidenceEntry → Result String EvidenceEntry
  unfolding placed
  chained_after_break r previous = do
    refuse_if (not (previous.facts.scope == r.scope)) "a chain cannot follow another scope"
    placed r (previous.sequence + 1) (some previous.entry_hash)

  -- `chained`
  unfoldable pub chained : EvidenceRecord → Option EvidenceEntry → Result String EvidenceEntry
  unfolding placed
  chained r none = placed r 1 none
  chained r (some previous) = do
    refuse_if (not (previous.facts.scope == r.scope)) "a chain cannot follow another scope"
    found ← recomputed previous
    refuse_if (not (found == previous.entry_hash))
        "the predecessor hash does not carry its sequence"
    placed r (previous.sequence + 1) (some previous.entry_hash)
