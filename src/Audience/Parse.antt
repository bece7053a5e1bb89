-- ===== src/Audience/Parse.antt =====
-- internal/audience/parse.go. `Parse` calls itself on the parts of the message: the model takes fuel,
-- and `parse` gives as much as the message is deep.
use openjourney.Common.{
  ℕ, zero, suc, max, not, ◌||◌, List, [], ◌∷◌, none, some, ◌==◌, if◌then◌else◌, is_empty, ok, err,
  ◌>>=◌, ◌>>◌, guard,
}
use openjourney.Common.Int.{is_negative}
use openjourney.Json.{
  Json, arr, obj, Items, nil, cons, Fields, end, field, RawMessage, value, is_absent,
  unmarshal_struct,
}
use openjourney.Audience.Ast.{AstNode, AstNodes}
use openjourney.Audience.RawNode.{
  bad_json, condition_required, type_required, negative_window, negative_count, unknown_logic,
  unknown_type, missing, out_of_fuel, RawNode, Parsed, raw_fields, zero_node, any_value,
  float_value, attribute_operators, company_operators, score_operators, event_operators,
  consent_states, want, want_in,
}

unfoldable pub parse_attribute : RawNode → Parsed AstNode
parse_attribute rn = do
  want "profile_attribute" "field" rn.field_name
  want "profile_attribute" "operator" rn.operator
  want_in attribute_operators "profile_attribute" "operator" rn.operator
  val ← any_value rn.val
  ok (
      AstNode.profile_attribute
        (record { field_name = rn.field_name; operator = rn.operator; val = val }))

unfoldable pub parse_event_history : RawNode → Parsed AstNode
parse_event_history rn = do
  want "event_history" "event_type" rn.event_type
  want "event_history" "operator" rn.operator
  want_in event_operators "event_history" "operator" rn.operator
  guard (not (is_negative rn.time_window_days)) negative_window
  guard (not (is_negative rn.min_count)) negative_count
  ok (
      AstNode.event_history (record {
        event_type = rn.event_type;
        operator = rn.operator;
        time_window_days = rn.time_window_days;
        min_count = rn.min_count;
      }))

unfoldable pub parse_consent : RawNode → Parsed AstNode
parse_consent rn = do
  want "consent" "channel" rn.channel
  want "consent" "topic" rn.topic
  want_in consent_states "consent" "state" rn.state
  ok (AstNode.consent (record { channel = rn.channel; topic = rn.topic; state = rn.state }))

unfoldable pub parse_score : RawNode → Parsed AstNode
parse_score rn = do
  want "score" "model" rn.model
  want "score" "score_name" rn.score_name
  want "score" "operator" rn.operator
  want_in score_operators "score" "operator" rn.operator
  val ← float_value rn.val
  ok (
      AstNode.score (record {
        model = rn.model;
        score_name = rn.score_name;
        operator = rn.operator;
        val = val;
      }))

unfoldable pub parse_company : RawNode → Parsed AstNode
parse_company rn = do
  guard (not (is_empty rn.field_name || is_empty rn.operator)) (missing "company" "")
  want_in company_operators "company" "operator" rn.operator
  val ← any_value rn.val
  ok (AstNode.company (record { field_name = rn.field_name; operator = rn.operator; val = val }))

-- The switch over the type of a condition.
unfoldable pub parse_leaf : RawNode → Parsed AstNode
parse_leaf rn =
    if is_empty rn.type
    then err type_required
    else if rn.type == "profile_attribute"
    then parse_attribute rn
    else if rn.type == "event_history"
    then parse_event_history rn
    else if rn.type == "consent"
    then parse_consent rn
    else if rn.type == "score"
    then parse_score rn
    else if rn.type == "company"
    then parse_company rn
    else err (unknown_type rn.type)

-- The loop over the conditions, for the parser of one.
unfoldable pub parse_all : (RawMessage → Parsed AstNode) → List RawMessage → Parsed AstNodes
parse_all p [] = ok AstNodes.nil
parse_all p (c ∷ cs) = do n ← p c; ns ← parse_all p cs; ok (AstNodes.cons n ns)

-- `toNode`.
unfoldable pub to_node : (RawMessage → Parsed AstNode) → RawNode → Parsed AstNode
to_node p rn =
    if is_empty rn.logic
    then parse_leaf rn
    else if rn.logic == "and"
    then (parse_all p rn.conditions >>= λ ns. ok (AstNode.and ns))
    else if rn.logic == "or"
    then (parse_all p rn.conditions >>= λ ns. ok (AstNode.or ns))
    else if rn.logic == "not"
    then (if is_absent rn.condition
        then err condition_required
        else p rn.condition >>= λ n. ok (AstNode.not n))
    else err (unknown_logic rn.logic)

unfoldable pub parse_fuel : ℕ → RawMessage → Parsed AstNode
parse_fuel zero raw = err out_of_fuel
parse_fuel (suc fuel) raw = elim (unmarshal_struct zero_node raw_fields raw) [
  | none ↦ err bad_json
  | some rn ↦ to_node (parse_fuel fuel) rn
]

-- How deep a value is.
unfoldable mutual
  pub depth : Json → ℕ
  depth (arr vs) = suc (items_depth vs)
  depth (obj fs) = suc (fields_depth fs)
  depth _ = 1

  pub items_depth : Items → ℕ
  items_depth nil = 0
  items_depth (cons v vs) = max (depth v) (items_depth vs)

  pub fields_depth : Fields → ℕ
  fields_depth end = 0
  fields_depth (field k v fs) = max (depth v) (fields_depth fs)

abbrev pub raw_depth : RawMessage → ℕ
raw_depth (value v) = suc (depth v)
raw_depth _ = 1

-- `Parse`.
unfoldable pub parse : RawMessage → Parsed AstNode
unfolding parse_fuel depth
parse raw = parse_fuel (raw_depth raw) raw
