-- ===== src/Evidence/Records.antt =====
-- The records and the entries of a chain:
-- packages/control-plane/src/sayfirst_control_plane/domain/evidence_chain.py. An instant is a number
-- of microseconds, offset-aware as every clock gives it. An error is the message of the `ValueError`.
use sayfirst_control_plane.Common.{
  ℕ, Bool, true, ◌&&◌, ◌||◌, not, Option, none, some, String, ◌==◌, text_keyed, nat_keyed, ltb,
  is_some, Result, ok, refuse_if, ◌>>=◌, ◌>>◌,
}
use sayfirst_control_plane.Common.Text.{codes}
use sayfirst_control_plane.Evidence.Value.{
  Items, Members, nil, cons, end, member, text, array, object, Body, has_all, has_only,
  one_of_texts,
}
use sayfirst_control_plane.Evidence.Body.{entry_kinds, body_members, body_required, is_digest}
use sayfirst_control_plane.Evidence.Kinds.{validate_body}

-- `Principal` of the chain, with those that it acts for.
mutual
  pub data Principal : Type 0 where
    principal : String → String → Principals → Principal

  pub data Principals : Type 0 where
    nobody : Principals
    through : Principal → Principals → Principals

-- `Principal.__post_init__`
unfoldable pub checked_principal : Principal → Result String Principal
checked_principal (principal kind id via) = do
  refuse_if (kind == "" || id == "") "principal kind and id are required"
  ok (principal kind id via)

unfoldable mutual
  pub members_of : Principal → Members
  members_of (principal kind id via) =
      member "kind" (text kind) (member "id" (text id) (member "via" (array (items_of via)) end))

  pub items_of : Principals → Items
  items_of nobody = nil
  items_of (through p ps) = cons (object (members_of p)) (items_of ps)

pub record EvidenceRecord : Type 0 where
  pub scope : String
  pub kind : String
  pub recorded_at : ℕ
  pub connection_id : String
  pub principal : Principal
  pub body : Body

-- `EvidenceRecord.__post_init__`
unfoldable pub checked_record : EvidenceRecord → Result String EvidenceRecord
unfolding validate_body body_members body_required
checked_record r = do
  refuse_if (r.scope == "") "scope is required"
  refuse_if (not (one_of_texts entry_kinds r.kind)) "unknown evidence kind"
  refuse_if (r.connection_id == "") "connection_id is required"
  refuse_if (not (has_only (body_members r.kind) r.body)) "evidence body has an unknown member"
  refuse_if (not (has_all (body_required r.kind) r.body)) "evidence body lacks a required member"
  validate_body r.kind r.body
  ok r

-- An entry is a record with its place in a chain; the class inherits the record's members.
pub record EvidenceEntry : Type 0 where
  pub facts : EvidenceRecord
  pub sequence : ℕ
  pub previous_hash : Option String
  pub entry_hash : String
  pub preimage_version : String

abbrev pub is_digest_text : String → Bool
is_digest_text s = is_digest (codes s)

abbrev pub is_none_or_digest : Option String → Bool
is_none_or_digest none = true
is_none_or_digest (some s) = is_digest_text s

-- `EvidenceEntry.__post_init__`
unfoldable pub checked_entry : EvidenceEntry → Result String EvidenceEntry
unfolding checked_record
checked_entry e = do
  r ← checked_record e.facts
  refuse_if (ltb e.sequence 1) "sequence is before the first sequence"
  refuse_if (e.sequence == 1 && is_some e.previous_hash) "a genesis entry cannot name a predecessor"
  refuse_if (ltb 1 e.sequence && not (is_some e.previous_hash))
      "a later entry must name a predecessor"
  refuse_if (not (is_none_or_digest e.previous_hash)) "previous_hash is not a lowercase digest"
  refuse_if (not (is_digest_text e.entry_hash)) "entry_hash is not a lowercase digest"
  ok e
