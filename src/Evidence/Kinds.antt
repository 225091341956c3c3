-- ===== src/Evidence/Kinds.antt =====
-- `_validate_body` of packages/control-plane/src/sayfirst_control_plane/domain/evidence_chain.py, by
-- the kind of the entry.
use sayfirst_control_plane.Common.{
  ℕ, ◌+◌, Bool, true, false, ◌&&◌, ◌||◌, not, Option, none, some, List, [], ◌∷◌, map, String, ◌==◌,
  text_keyed, nat_keyed, leb, if◌then◌else◌, is_some, all, any, length, ok, err, refuse_if, ◌>>◌,
}
use sayfirst_control_plane.Common.Text.{pair_le}
use sayfirst_control_plane.Common.Int.{pos}
use sayfirst_control_plane.Policy.Recipe.{unique}
use sayfirst_control_plane.Evidence.Value.{
  Value, Body, as_object, as_array, as_integer, is_integer_from, value_at, has, is_text, is_null,
  one_of, one_of_texts, has_all, has_exactly, text,
}
use sayfirst_control_plane.Evidence.Body.{
  Check, entry_kinds, is_named_text, is_position_number, each, each_value, recovery_required,
  validate_position, validate_capture, validate_copied_decision, texts,
}

-- The natural number that a value is, 0 of what is none.
abbrev pub natural_or_zero : Value → ℕ
natural_or_zero (Value.integer (pos n)) = n
natural_or_zero (Value.boolean true) = 1
natural_or_zero _ = 0

abbrev pub text_or_empty : Value → String
text_or_empty (text s) = s
text_or_empty _ = ""

abbrev pub object_or_empty : Option Body → Body
object_or_empty none = []
object_or_empty (some b) = b

abbrev pub list_or_empty {ℓ} : {A : Type ℓ} → Option (List A) → List A
list_or_empty none = []
list_or_empty (some xs) = xs

-- `(item["store_id"], item["position"])`
abbrev pub place_of : Value → String × ℕ
place_of v =
    let p = object_or_empty (as_object v) in
    (text_or_empty (value_at "store_id" p), natural_or_zero (value_at "position" p))

-- Pairs are ordered as Python orders tuples.
abbrev pub place_le : String × ℕ → String × ℕ → Bool
place_le (s, m) (t, n) = pair_le (s, "") (t, "") && (not (s == t) || leb m n)

-- `ordered == sorted(ordered)`: each stands before the next.
unfoldable pub is_ascending : List (String × ℕ) → Bool
is_ascending [] = true
is_ascending (p ∷ []) = true
is_ascending (p ∷ q ∷ rest) = place_le p q && is_ascending (q ∷ rest)

-- The last checks of `_validate_named_losses`, on the two lists.
unfoldable pub validate_pairs : Body → List Value → List Value → Check
unfolding is_ascending validate_position each_value texts
validate_pairs body identities positions = do
  refuse_if
      (not (leb 1 (length identities) && leb (length identities) 8192)
        || not (length identities == length positions))
      "decision_ids and decision_positions pair one to one, bounded"
  refuse_if (not (all is_named_text identities)) "a decision id must be a non-empty string"
  refuse_if (not (length (unique (list_or_empty (texts identities))) == length identities))
      "a decision id is named twice"
  each_value positions validate_position
  refuse_if (not (is_ascending (map place_of positions))) "named losses are sorted by position"
  refuse_if
      (is_text "decision" (value_at "accounting" body)
        && not (natural_or_zero (value_at "count" body) == length identities))
      "a decision-accounted gap counts the decisions it names"

unfoldable pub validate_lists : Body → Option (List Value) → Option (List Value) → Check
validate_lists body (some identities) (some positions) = validate_pairs body identities positions
validate_lists body _ _ = err "decision_ids and decision_positions must be lists"

-- `_validate_named_losses`
unfoldable pub validate_named_losses : Body → Check
unfolding validate_lists
validate_named_losses body = do
  refuse_if
      (has body "accounting"
        && not
            (one_of ("physical_record" ∷ "decision" ∷ "event" ∷ []) (value_at "accounting" body)))
      "gap accounting is unknown"
  if not (has body "decision_ids" || has body "decision_positions") then ok tt else (do
    refuse_if (not (has body "decision_ids" && has body "decision_positions"))
        "a gap names its decisions by identity and by position together"
    validate_lists body (as_array (value_at "decision_ids" body))
        (as_array (value_at "decision_positions" body)))

-- A value that `set` takes as an element.
abbrev pub is_hashable : Value → Bool
is_hashable (Value.array vs) = false
is_hashable (Value.object ms) = false
is_hashable _ = true

-- `_validate_recovery`
unfoldable pub validate_recovery : Body → Check
unfolding recovery_required each
validate_recovery body = do
  let event = value_at "event" body
  refuse_if (not (one_of ("baseline" ∷ "clean_stop" ∷ "unclean_stop" ∷ []) event))
      "recovery event is unknown"
  refuse_if (not (has_all (recovery_required (text_or_empty event)) body))
      "a marker lacks a required member"
  each ("from_sequence" ∷ "through_sequence" ∷ "first_covered_sequence" ∷ []) (λ name.
      refuse_if (has body name && not (is_position_number (value_at name body)))
        "recovery member must be a positive integer")
  refuse_if
      (is_text "unclean_stop" event
        && (not (is_null (value_at "lost_event_count" body))
            || not (is_text "unknown" (value_at "coverage" body))))
      "an unclean stop inventories nothing and covers unknown"
  refuse_if
      (is_text "unclean_stop" event
        && not (
            all is_hashable (list_or_empty (as_array (value_at "possibly_lost_kinds" body)))
            && all
                (λ kind.
                  any (is_text kind)
                    (list_or_empty (as_array (value_at "possibly_lost_kinds" body))))
                ("effect" ∷ "grade" ∷ "composition" ∷ "gap" ∷ [])))
      "an unclean stop names every kind it may have lost"
  refuse_if
      (is_text "baseline" event
        && not (natural_or_zero (value_at "first_decision_position" body) == 1))
      "a baseline begins at position one"
  refuse_if
      (is_text "baseline" event
        && not (is_some (as_integer (value_at "legacy_effects_without_authority" body))))
      "a baseline counts the legacy effects without authority"

unfoldable pub validate_effect : Body → Check
unfolding each validate_capture validate_copied_decision
validate_effect body = do
  each ("capability" ∷ "decision_id" ∷ "decided_at" ∷ "policy_version" ∷ []) (λ name.
      refuse_if (not (is_named_text (value_at name body)))
        "effect member must be a non-empty string")
  refuse_if (not (one_of ("allow" ∷ "deny" ∷ "suspend" ∷ []) (value_at "outcome" body)))
      "effect outcome is unknown"
  if has body "capture" then validate_capture (as_object (value_at "capture" body)) else ok tt
  validate_copied_decision body

unfoldable pub validate_grade : Body → Check
validate_grade body = do
  refuse_if
      (not (one_of ("unverified" ∷ "observability" ∷ "evidence" ∷ []) (value_at "grade" body)))
      "grade is unknown"
  refuse_if
      (not (
        one_of ("caller_can_write" ∷ "caller_cannot_write" ∷ "access_not_established" ∷ [])
          (value_at "basis" body)))
      "grade basis is unknown"
  refuse_if (not (is_integer_from 0 (as_integer (value_at "paths_inspected" body))))
      "paths_inspected must be non-negative"
  refuse_if (not (is_named_text (value_at "evaluated_at" body)))
      "evaluated_at must be a non-empty string"

-- `sum(kinds.values())`
abbrev pub total : Body → ℕ
total [] = 0
total ((kind, v) ∷ rest) = natural_or_zero v + total rest

abbrev pub counts_kinds : Body → Bool
counts_kinds kinds =
    all (λ e. one_of_texts entry_kinds e.0 && is_integer_from 1 (as_integer e.1)) kinds

abbrev pub is_empty_body : Body → Bool
is_empty_body [] = true
is_empty_body _ = false

unfoldable pub validate_gap : Body → Check
unfolding each validate_named_losses
validate_gap body = do
  let kinds = object_or_empty (as_object (value_at "kinds" body))
  refuse_if
      (not (one_of ("dropped" ∷ "purged" ∷ "torn" ∷ "unflushed" ∷ []) (value_at "reason" body)))
      "gap reason is unknown"
  refuse_if (not (is_integer_from 1 (as_integer (value_at "count" body))))
      "gap count must be positive"
  refuse_if (not (is_some (as_object (value_at "kinds" body)))) "gap kinds must be an object"
  refuse_if (not (counts_kinds kinds)) "gap kinds must count known evidence kinds"
  refuse_if (is_text "torn" (value_at "reason" body) && not (is_empty_body kinds))
      "a torn gap names no kind"
  refuse_if
      (not (is_text "torn" (value_at "reason" body))
        && not (total kinds == natural_or_zero (value_at "count" body)))
      "gap kind counts must equal the total count"
  each ("first_at" ∷ "last_at" ∷ []) (λ name.
      refuse_if (not (is_named_text (value_at name body))) "gap member must be a non-empty string")
  validate_named_losses body

abbrev pub is_provider : Body → Bool
is_provider p =
    is_named_text (value_at "interface" p)
    && (is_named_text (value_at "provider" p)
        && is_integer_from 1 (as_integer (value_at "version" p)))

unfoldable pub validate_provider : Value → Check
validate_provider v = do
  refuse_if
      (not (is_some (as_object v))
        || not (
            has_exactly ("interface" ∷ "version" ∷ "provider" ∷ [])
              (object_or_empty (as_object v))))
      "a composition provider has unknown members"
  refuse_if (not (is_provider (object_or_empty (as_object v)))) "a composition provider is invalid"

unfoldable pub validate_composition : Body → Check
unfolding each_value validate_provider
validate_composition body = do
  refuse_if (not (is_some (as_array (value_at "providers" body))))
      "composition providers must be a list"
  each_value (list_or_empty (as_array (value_at "providers" body))) validate_provider

-- `_validate_body`
unfoldable pub validate_body : String → Body → Check
unfolding validate_effect validate_recovery validate_grade validate_gap validate_composition
validate_body kind body = do
  refuse_if (has body "recording_epoch" && not (is_named_text (value_at "recording_epoch" body)))
      "recording_epoch must be a non-empty string"
  if kind == "effect"
      then validate_effect body
      else if kind == "recovery"
      then validate_recovery body
      else if kind == "grade"
      then validate_grade body
      else if kind == "gap"
      then validate_gap body
      else validate_composition body
