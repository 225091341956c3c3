-- ===== src/Evidence/Body.antt =====
-- The bodies that an entry may have: `_validate_body` of
-- packages/control-plane/src/sayfirst_control_plane/domain/evidence_chain.py and what it calls. An
-- error is the message of the `ValueError`. Where Python raises a `TypeError`, on a value that
-- cannot be in a set, the same check refuses.
use sayfirst_control_plane.Common.{
  ℕ, Bool, true, false, ◌&&◌, ◌||◌, not, Option, none, some, List, [], ◌∷◌, String, ◌==◌,
  text_keyed, nat_keyed, list_keyed, leb, if◌then◌else◌, is_some, all, any, length, Result, ok, err,
  ⊤, refuse_if, ◌>>◌,
}
use sayfirst_control_plane.Common.Text.{codes, sorted}
use sayfirst_control_plane.Policy.Recipe.{unique}
use sayfirst_control_plane.Evidence.Value.{
  Value, Body, as_text, as_object, as_array, as_integer, is_boolean, is_integer_from, is_named,
  value_at, has, is_text, is_null, one_of, has_all, has_only, has_exactly, null, text,
}

abbrev pub Check : Type 0
Check = Result String ⊤

abbrev pub is_hex : ℕ → Bool
is_hex c = leb b'0' c && leb c b'9' || leb b'a' c && leb c b'f'

-- `^[0-9a-f]{64}$`
abbrev pub is_digest : List ℕ → Bool
is_digest cs = length cs == 64 && all is_hex cs

-- What follows a beginning.
abbrev pub behind : List ℕ → List ℕ → Option (List ℕ)
behind [] cs = some cs
behind (p ∷ ps) [] = none
behind (p ∷ ps) (c ∷ cs) = let rest = behind ps cs in if p == c then rest else none

abbrev pub holds_of : (List ℕ → Bool) → Option (List ℕ) → Bool
holds_of p none = false
holds_of p (some cs) = p cs

-- `^sha256:[0-9a-f]{64}$`
abbrev pub is_policy_digest : String → Bool
is_policy_digest s = holds_of is_digest (behind (codes "sha256:") (codes s))

-- `.+`
abbrev pub is_line : List ℕ → Bool
is_line [] = false
is_line (c ∷ cs) = all (λ d. not (d == b'\n')) (c ∷ cs)

-- `^(?:user|group):.+$`
abbrev pub is_reference : String → Bool
is_reference s =
    holds_of is_line (behind (codes "user:") (codes s))
    || holds_of is_line (behind (codes "group:") (codes s))

-- A text, or `null`, that passes a test.
abbrev pub is_null_or : (String → Bool) → Value → Bool
is_null_or p null = true
is_null_or p (text s) = p s
is_null_or p _ = false

abbrev pub is_named_text : Value → Bool
is_named_text v = is_named (as_text v)

abbrev pub entry_kinds : List String
entry_kinds = "effect" ∷ "grade" ∷ "gap" ∷ "composition" ∷ "recovery" ∷ []

abbrev pub effect_decision_members : List String
effect_decision_members =
    "reason" ∷ "rule_id" ∷ "arguments_digest" ∷ "correlation" ∷ "correlation_source"
    ∷ "principal_references" ∷ "evaluation_recipe" ∷ "decision_position" ∷ []

-- `_REASONS`
abbrev pub published_reasons : List String
published_reasons =
    "policy_allows" ∷ "policy_denies" ∷ "policy_absent" ∷ "policy_requires_review"
    ∷ "capability_unknown" ∷ "approval_granted" ∷ "approval_rejected" ∷ []

-- `_BODY_MEMBERS`
unfoldable pub body_members : String → List String
body_members kind =
    if kind == "effect"
    then "capability" ∷ "decision_id" ∷ "outcome" ∷ "decided_at" ∷ "policy_version" ∷ "capture"
      ∷ "recording_epoch" ∷ effect_decision_members
    else if kind == "grade"
    then "grade" ∷ "basis" ∷ "evaluated_at" ∷ "paths_inspected" ∷ "recording_epoch" ∷ []
    else if kind == "gap"
    then "reason" ∷ "count" ∷ "first_at" ∷ "last_at" ∷ "kinds" ∷ "decision_ids"
      ∷ "decision_positions" ∷ "accounting" ∷ "recording_epoch" ∷ []
    else if kind == "composition"
    then "providers" ∷ "recording_epoch" ∷ []
    else "event" ∷ "epoch_id" ∷ "from_sequence" ∷ "through_sequence" ∷ "lost_event_count"
      ∷ "possibly_lost_kinds" ∷ "coverage" ∷ "store_id" ∷ "first_decision_position"
      ∷ "first_covered_sequence" ∷ "legacy_effects_without_authority" ∷ "established_at"
      ∷ "recording_epoch" ∷ []

-- `_BODY_REQUIRED`
unfoldable pub body_required : String → List String
body_required kind =
    if kind == "effect"
    then "capability" ∷ "decision_id" ∷ "outcome" ∷ "decided_at" ∷ "policy_version" ∷ []
    else if kind == "grade"
    then "grade" ∷ "basis" ∷ "evaluated_at" ∷ "paths_inspected" ∷ []
    else if kind == "gap"
    then "reason" ∷ "count" ∷ "first_at" ∷ "last_at" ∷ "kinds" ∷ []
    else if kind == "composition"
    then "providers" ∷ []
    else "event" ∷ "recording_epoch" ∷ []

-- `_RECOVERY_REQUIRED`
unfoldable pub recovery_required : String → List String
recovery_required event =
    if event == "baseline"
    then "store_id" ∷ "first_decision_position" ∷ "first_covered_sequence"
      ∷ "legacy_effects_without_authority" ∷ "established_at" ∷ []
    else if event == "clean_stop"
    then "epoch_id" ∷ "from_sequence" ∷ "through_sequence" ∷ []
    else "epoch_id" ∷ "from_sequence" ∷ "through_sequence" ∷ "lost_event_count"
      ∷ "possibly_lost_kinds" ∷ "coverage" ∷ []

-- Each of the members named, in order.
unfoldable pub each : List String → (String → Check) → Check
each [] f = ok tt
each (name ∷ rest) f = f name >> each rest f

unfoldable pub each_value : List Value → (Value → Check) → Check
each_value [] f = ok tt
each_value (v ∷ vs) f = f v >> each_value vs f

-- A positive integer that is no Boolean.
abbrev pub is_position_number : Value → Bool
is_position_number v = not (is_boolean v) && is_integer_from 1 (as_integer v)

abbrev pub is_position : Option Body → Bool
is_position none = false
is_position (some p) =
    has_exactly ("store_id" ∷ "position" ∷ []) p
    && (is_named_text (value_at "store_id" p) && is_position_number (value_at "position" p))

-- `_validate_position`
unfoldable pub validate_position : Value → Check
validate_position v =
    refuse_if (not (is_position (as_object v)))
      "a decision position names a store and a positive position"

abbrev pub is_captured_content : Body → Bool
is_captured_content v =
    is_named_text (value_at "provider" v)
    && (is_integer_from 0 (as_integer (value_at "bytes" v))
        && (not (is_integer_from 65537 (as_integer (value_at "bytes" v)))
            && (is_boolean (value_at "truncated" v)
                && (is_some (as_text (value_at "content" v))
                    && (not (has v "encoding") || is_text "base64" (value_at "encoding" v))))))

abbrev pub is_true : Value → Bool
is_true (Value.boolean b) = b
is_true _ = false

abbrev pub is_false : Value → Bool
is_false (Value.boolean b) = not b
is_false _ = false

unfoldable pub validate_capture_object : Body → Check
validate_capture_object v =
    if is_true (value_at "captured" v)
    then (do
      refuse_if
          (not (
              has_only
                ("captured" ∷ "provider" ∷ "bytes" ∷ "truncated" ∷ "content" ∷ "encoding" ∷ []) v)
            || not (has_all ("captured" ∷ "provider" ∷ "bytes" ∷ "truncated" ∷ "content" ∷ []) v))
          "captured content has unknown or missing members"
      refuse_if (not (is_captured_content v)) "captured content is invalid")
    else if is_false (value_at "captured" v)
    then (do
      refuse_if
          (not (has_exactly ("captured" ∷ "provider" ∷ "withheld" ∷ []) v)
            || not (is_some (as_text (value_at "provider" v))))
          "withheld capture is invalid"
      refuse_if
          (not (is_named_text (value_at "provider" v))
            || not (is_text "redaction_failed" (value_at "withheld" v)))
          "withheld capture is invalid")
    else err "capture must say whether content was captured"

-- `_validate_capture`
unfoldable pub validate_capture : Option Body → Check
unfolding validate_capture_object
validate_capture none = err "capture must be an object"
validate_capture (some v) = validate_capture_object v

-- The texts of a list, if it holds nothing else.
unfoldable pub texts : List Value → Option (List String)
texts [] = some []
texts (v ∷ vs) = elim (as_text v) [
  | none ↦ none
  | some s ↦ elim (texts vs) [ none ↦ none | some ss ↦ some (s ∷ ss) ]
]

abbrev pub are_references : Option (List String) → Bool
are_references none = false
are_references (some ss) = all is_reference ss && ss == sorted (λ s. (s, "")) (unique ss)

abbrev pub texts_of : Option (List Value) → Option (List String)
texts_of none = none
texts_of (some vs) = texts vs

-- `_validate_copied_decision`
unfoldable pub validate_copied_decision : Body → Check
unfolding validate_position texts
validate_copied_decision body = if not (any (has body) effect_decision_members) then ok tt else (do
  refuse_if (not (has_all effect_decision_members body))
      "an effect carries the copied decision facts together or not at all"
  refuse_if (not (one_of published_reasons (value_at "reason" body)))
      "effect reason is outside the published enumeration"
  refuse_if (not (is_null_or (λ s. not (s == "")) (value_at "rule_id" body)))
      "effect rule_id must be a non-empty string or null"
  refuse_if (not (is_null_or is_policy_digest (value_at "arguments_digest" body)))
      "effect arguments_digest must be a sha256 digest or null"
  refuse_if (not (is_null_or (λ s. leb (length (codes s)) 128) (value_at "correlation" body)))
      "effect correlation must be a string of at most 128 characters or null"
  refuse_if
      (not (
        is_text (if is_null (value_at "correlation" body) then "absent" else "boundary_supplied")
          (value_at "correlation_source" body)))
      "effect correlation_source must say who chose the correlation"
  refuse_if (not (are_references (texts_of (as_array (value_at "principal_references" body)))))
      "effect principal_references must be sorted unique references"
  refuse_if (not (is_named_text (value_at "evaluation_recipe" body)))
      "effect evaluation_recipe must be a non-empty string"
  validate_position (value_at "decision_position" body))
