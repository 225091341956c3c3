-- ===== src/Tests/Chains.antt =====
-- A chain of two entries, under a printer of texts and a digest that are easily computed.
use Prim.Native.Char.{Char}
use package.text.Mathlib.TextEquality.{Char-path}
use sayfirst_control_plane.Common.{
  ◌≤◌, ◌%◌, ◌≡◌, ◌≢◌, ◌↔◌, ◌⊎◌, refl, ap, sym, ◌∙◌, Bool, true, false, Option, none, some, List, [],
  ◌∷◌, ◌++◌, map, arith, ok, String, length, ◌==◌, nat_keyed, text_keyed, ==_iff,
}
use sayfirst_control_plane.Common.Dict.{lookup, insert}
use sayfirst_control_plane.Common.Text.{codes, sorted}
use sayfirst_control_plane.Common.Int.{pos}
use sayfirst_control_plane.Evidence.Framing.{
  Bytes, framed, read_framed, read_framed-framed, framed_injective,
}
use sayfirst_control_plane.Evidence.Value.{Value, Body, integer, array, nil}
use sayfirst_control_plane.Evidence.Records.{
  principal, nobody, EvidenceRecord, EvidenceEntry, is_digest_text, checked_record, checked_entry,
  members_of,
}
use sayfirst_control_plane.Evidence.Chain.{
  Primitives, preimage_version, chained, hash_of, recomputed,
}
use sayfirst_control_plane.Evidence.Verify.{
  ChainVerdict, verify, intact, unverified, grades, weakest,
}
use sayfirst_control_plane.Evidence.Verify.Intact.{IsIntact, verify_intact_iff}
use sayfirst_control_plane.Evidence.Appending.{append_all, append_all-IsIntact}
use sayfirst_control_plane.Evidence.Tampering.{AllSaySame, SomeCollide, last_hash_commits}
use sayfirst_control_plane.Evidence.Documents.{Conversions, entry_to_document, entry_from_document}
use sayfirst_control_plane.Evidence.Reading.{
  IsNamed, depth, redated, entry_from_document-entry_to_document,
}
use sayfirst_control_plane.Evidence.Verdicts.{verify_written}
use sayfirst_control_plane.Evidence.Writing.{AllWritable}

abbrev parts : List (Option Bytes)
parts = some (b'a' ∷ []) ∷ none ∷ some [] ∷ []

read_framed-framed_example :
    read_framed (length parts) (framed parts ++ (b'!' ∷ [])) ≡ some (parts, b'!' ∷ [])
read_framed-framed_example = read_framed-framed parts (b'!' ∷ [])

framed_injective_example : parts ≡ parts
framed_injective_example = framed_injective parts parts refl refl

codes_injective : (s t : String) → codes s ≡ codes t → s ≡ t
codes_injective String.[] String.[] h = refl
codes_injective String.[] (String.◌∷◌ d t) h = cc
codes_injective (String.◌∷◌ c s) String.[] h = cc
codes_injective (String.◌∷◌ c s) (String.◌∷◌ d t) h =
    let heads : c ≡ d = Char-path c d (cc h) in
    let tails : s ≡ t = codes_injective s t (cc h) in
    ap {A = Char × String} (λ q. String.◌∷◌ q.0 q.1) (λ i. (heads i, tails i))

encoding_injective :
    (s t : String) (b : Bytes) → some (codes s) ≡ some b → some (codes t) ≡ some b → s ≡ t
encoding_injective s t b h k = codes_injective s t (cc (h ∙ sym k))

-- The names of a body, as bytes.
abbrev named_bytes : Body → Bytes
named_bytes [] = []
named_bytes ((name, v) ∷ rest) = codes name ++ named_bytes rest

abbrev even_digest : String
even_digest = "0000000000000000000000000000000000000000000000000000000000000000"

abbrev odd_digest : String
odd_digest = "1111111111111111111111111111111111111111111111111111111111111111"

abbrev parity : Bool → String
parity true = even_digest
parity false = odd_digest

parity-digest : (b : Bool) → is_digest_text (parity b) ≡ true
parity-digest true = refl
parity-digest false = refl

abbrev plain : Primitives
plain = record {
  utf8 = λ s. some (codes s);
  canonical_json = named_bytes;
  sha256 = λ b. parity (length b % 2 == 0);
  instant_text = λ t. some "2026-01-01T00:00:00Z";
  utf8_injective = encoding_injective;
  utf8_ascii = λ s h. (codes s, refl);
  sha256_digest = λ b. parity-digest (length b % 2 == 0);
}

abbrev composed : EvidenceRecord
composed = record {
  scope = "site";
  kind = "composition";
  recorded_at = 5;
  connection_id = "c1";
  principal = principal "user" "ann" nobody;
  body = ("providers", array nil) ∷ [];
}

abbrev seen : EvidenceRecord
seen = record {
  scope = "site";
  kind = "grade";
  recorded_at = 6;
  connection_id = "c1";
  principal = principal "user" "ann" nobody;
  body =
      ("grade", Value.text "evidence")
      ∷ ("basis", Value.text "caller_cannot_write")
      ∷ ("evaluated_at", Value.text "2026-01-01T00:00:00Z")
      ∷ ("paths_inspected", integer (pos 2))
      ∷ [];
}

site_named : ◌≢◌ {A = String} "site" ""
site_named = ground (arith, ==_iff {A = String} "site" "")

writable : AllWritable plain "site" (composed ∷ seen ∷ [])
unfolding checked_record lookup
writable = (
  (refl, ("2026-01-01T00:00:00Z", refl, (_, refl)), (_, refl), (_, refl), (_, refl)),
  refl,
  ((refl, ("2026-01-01T00:00:00Z", refl, (_, refl)), (_, refl), (_, refl), (_, refl)), refl, tt),
)

verify_written_example :
    (es : List EvidenceEntry) × (v : ChainVerdict) × (append_all plain (composed ∷ seen ∷ []) none
      ≡ ok es)
    × (map (λ e. e.facts) es ≡ composed ∷ seen ∷ [])
    × (verify plain es "site" 1 none [] ≡ ok v)
    × (v.condition ≡ intact)
verify_written_example = verify_written plain "site" composed (seen ∷ []) [] site_named writable

abbrev first_entry : EvidenceEntry
first_entry = record {
  facts = composed;
  sequence = 1;
  previous_hash = none;
  entry_hash = odd_digest;
  preimage_version = preimage_version;
}

abbrev second_entry : EvidenceEntry
second_entry = record {
  facts = seen;
  sequence = 2;
  previous_hash = some odd_digest;
  entry_hash = even_digest;
  preimage_version = preimage_version;
}

two_written : append_all plain (composed ∷ seen ∷ []) none ≡ ok (first_entry ∷ second_entry ∷ [])
unfolding append_all chained hash_of checked_entry lookup framed members_of recomputed
two_written = refl

two-IsIntact : IsIntact plain 1 none (first_entry ∷ second_entry ∷ [])
two-IsIntact =
    append_all-IsIntact plain composed (seen ∷ []) (first_entry ∷ second_entry ∷ []) two_written

append_all-IsIntact_example : IsIntact plain 1 none (first_entry ∷ second_entry ∷ [])
append_all-IsIntact_example =
    append_all-IsIntact plain composed (seen ∷ []) (first_entry ∷ second_entry ∷ []) two_written

abbrev verdict_of_two : ChainVerdict
verdict_of_two = record {
  scope = "site";
  condition = intact;
  from_sequence = 1;
  to_sequence = some 2;
  up_to = some 2;
  sequence = none;
  expected = none;
  found = none;
  version = none;
  covers_an_entry = true;
  declared_gaps = [];
  grades = record { connection_id = "c1"; grade = unverified } ∷ [];
}

two_verified :
    verify plain (first_entry ∷ second_entry ∷ []) "site" 1 (some 2) [] ≡ ok verdict_of_two
unfolding verify lookup checked_record framed members_of recomputed hash_of insert grades weakest
    sorted
two_verified = refl

verify_intact_iff_example :
    (verdict_of_two.condition ≡ intact)
    ↔ IsIntact plain 1 (some 2) (first_entry ∷ second_entry ∷ [])
verify_intact_iff_example =
    verify_intact_iff plain (first_entry ∷ second_entry ∷ []) "site" 1 (some 2) [] verdict_of_two
      two_verified

last_hash_commits_example :
    AllSaySame plain (first_entry ∷ second_entry ∷ []) (first_entry ∷ second_entry ∷ [])
    ⊎ SomeCollide plain (first_entry ∷ second_entry ∷ []) (first_entry ∷ second_entry ∷ [])
last_hash_commits_example =
    last_hash_commits plain 1 1 none none first_entry first_entry (second_entry ∷ [])
      (second_entry ∷ []) two-IsIntact two-IsIntact refl refl

-- What Python makes of values that no document of an entry holds.
abbrev conversions : Conversions
conversions = record { str_of = λ v. "?"; int_of = λ v. none; read_instant = λ s. some 4 }

ann-IsNamed : IsNamed (principal "user" "ann" nobody)
unfolding IsNamed
ann-IsNamed = (refl, tt)

ann_depth : depth (principal "user" "ann" nobody) ≤ 1
unfolding depth
ann_depth = omega arith

second_made : checked_entry second_entry ≡ ok second_entry
unfolding checked_entry checked_record lookup
second_made = refl

entry_from_document-entry_to_document_example :
    (document : Body) × (entry_to_document plain second_entry ≡ ok document)
    × (entry_from_document conversions 1 document ≡ ok (redated 4 second_entry))
entry_from_document-entry_to_document_example =
    entry_from_document-entry_to_document plain conversions second_entry 1 4 "2026-01-01T00:00:00Z"
      second_made ann-IsNamed ann_depth refl refl
