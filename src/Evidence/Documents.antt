-- ===== src/Evidence/Documents.antt =====
-- An entry as a document and back: `entry_to_document`, `_read_principal` and `entry_from_document`
-- of packages/control-plane/src/sayfirst_control_plane/domain/evidence_chain.py. What Python makes
-- of a value that is no text by `str`, of one that is no number by `int`, and of the text of an
-- instant, are parameters.
use sayfirst_control_plane.Common.{
  ℕ, zero, suc, Option, none, some, List, [], ◌∷◌, String, text_keyed, Result, ok, err, or_raise,
  ◌>>=◌,
}
use sayfirst_control_plane.Common.Dict.{lookup}
use sayfirst_control_plane.Common.Int.{pos, negsuc}
use sayfirst_control_plane.Evidence.Value.{
  Value, Members, Body, null, end, member, integer, object, as_array, as_object,
}
use sayfirst_control_plane.Evidence.Records.{
  Principal, Principals, principal, nobody, through, checked_principal, members_of, EvidenceEntry,
  checked_entry,
}
use sayfirst_control_plane.Evidence.Chain.{Primitives}

pub record Conversions : Type 0 where
  pub str_of : Value → String
  pub int_of : Value → Option ℕ
  pub read_instant : String → Option ℕ

-- `document[name]`
abbrev pub member_at : String → Body → Result String Value
member_at name document = or_raise (lookup name document) name

-- The objects of a list, if it holds nothing else.
unfoldable pub objects : List Value → Option (List Body)
objects [] = some []
objects (v ∷ vs) = elim (as_object v) [
  | none ↦ none
  | some b ↦ elim (objects vs) [ none ↦ none | some bs ↦ some (b ∷ bs) ]
]

abbrev pub objects_of : Option (List Value) → Option (List Body)
objects_of none = none
objects_of (some vs) = objects vs

-- `document.get("via", [])`
abbrev pub via_at : Body → Option (List Body)
via_at document = elim (lookup "via" document) [ none ↦ some [] | some v ↦ objects_of (as_array v) ]

unfoldable pub read_each : (Body → Result String Principal) → List Body → Result String Principals
read_each read [] = ok nobody
read_each read (b ∷ bs) = do p ← read b; ps ← read_each read bs; ok (through p ps)

module _ (c : Conversions) where
  -- `str(value)`
  abbrev pub str : Value → String
  str (Value.text s) = s
  str v = c.str_of v

  -- `_read_principal`; the fuel is how deep Python may recurse.
  unfoldable pub read_principal : ℕ → Body → Result String Principal
  unfolding objects read_each checked_principal
  read_principal zero document = err "maximum recursion depth exceeded"
  read_principal (suc fuel) document = do
    via ← or_raise (via_at document) "principal via must be a list"
    kind ← member_at "kind" document
    id ← member_at "id" document
    ps ← read_each (read_principal fuel) via
    checked_principal (principal (str kind) (str id) ps)

-- The members of an object that is written from a body.
unfoldable pub members_from : Body → Members
members_from [] = end
members_from ((name, v) ∷ rest) = member name v (members_from rest)

abbrev pub text_or_null : Option String → Value
text_or_null none = null
text_or_null (some s) = Value.text s

-- The document of an entry whose instant is printed.
unfoldable pub document_of : EvidenceEntry → String → Body
unfolding members_of members_from
document_of e at =
    ("scope", Value.text e.facts.scope)
    ∷ ("kind", Value.text e.facts.kind)
    ∷ ("recorded_at", Value.text at)
    ∷ ("connection_id", Value.text e.facts.connection_id)
    ∷ ("principal", object (members_of e.facts.principal))
    ∷ ("body", object (members_from e.facts.body))
    ∷ ("sequence", integer (pos e.sequence))
    ∷ ("previous_hash", text_or_null e.previous_hash)
    ∷ ("entry_hash", Value.text e.entry_hash)
    ∷ ("preimage_version", Value.text e.preimage_version)
    ∷ []

-- `entry_to_document`
unfoldable pub entry_to_document : Primitives → EvidenceEntry → Result String Body
unfolding document_of
entry_to_document p e = do
  at ← or_raise (p.instant_text e.facts.recorded_at) "date value out of range"
  ok (document_of e at)

module _ (c : Conversions) where
  -- `int(value)`; a negative number is read as 0, which the entry refuses alike.
  abbrev pub int : Value → Option ℕ
  int (integer (pos n)) = some n
  int (integer (negsuc n)) = some 0
  int v = c.int_of v

  abbrev pub str_unless_none : Value → Option String
  str_unless_none null = none
  str_unless_none v = some (str c v)

  -- `entry_from_document`
  unfoldable pub entry_from_document : ℕ → Body → Result String EvidenceEntry
  unfolding read_principal checked_entry
  entry_from_document fuel document = do
    principal_value ← member_at "principal" document
    body_value ← member_at "body" document
    principal_document ←
        or_raise (as_object principal_value) "entry principal and body must be objects"
    body ← or_raise (as_object body_value) "entry principal and body must be objects"
    scope ← member_at "scope" document
    kind ← member_at "kind" document
    at ← member_at "recorded_at" document
    recorded_at ← or_raise (c.read_instant (str c at)) "invalid isoformat string"
    connection_id ← member_at "connection_id" document
    read ← read_principal c fuel principal_document
    number ← member_at "sequence" document
    sequence ← or_raise (int number) "invalid literal for int"
    previous_hash ← member_at "previous_hash" document
    entry_hash ← member_at "entry_hash" document
    preimage_version ← member_at "preimage_version" document
    checked_entry record {
      facts = record {
        scope = str c scope;
        kind = str c kind;
        recorded_at = recorded_at;
        connection_id = str c connection_id;
        principal = read;
        body = body;
      };
      sequence = sequence;
      previous_hash = str_unless_none previous_hash;
      entry_hash = str c entry_hash;
      preimage_version = str c preimage_version;
    }
