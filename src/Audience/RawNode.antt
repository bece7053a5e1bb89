-- ===== src/Audience/RawNode.antt =====
-- The `rawNode` of internal/audience/parse.go, its decoding, and the checks of a condition.
use openjourney.Common.{
  List, [], ◌∷◌, Option, none, some, String, if◌then◌else◌, is_empty, Result, ok, err, contains,
}
use openjourney.Common.Int.{ℤ, pos}
use openjourney.Json.Float.{float_int, fits_float, any_json}
use openjourney.Json.{
  Json, null, int, dec, arr, Items, nil, cons, Fields, RawMessage, empty, malformed, value,
  decode_field, set_string, set_int, set_raw,
}

pub record RawNode : Type 0 where
  pub logic : String
  pub conditions : List RawMessage
  pub condition : RawMessage
  pub type : String
  pub field_name : String
  pub operator : String
  pub val : RawMessage
  pub event_type : String
  pub time_window_days : ℤ
  pub min_count : ℤ
  pub channel : String
  pub topic : String
  pub state : String
  pub model : String
  pub score_name : String

pub data ParseError : Type 0 where
  bad_json condition_required type_required negative_window negative_count value_required :
      ParseError
  unknown_logic unknown_type : String → ParseError
  -- The type of the condition and the field that it lacks, or that has a value it does not know.
  missing unknown : (type name : String) → ParseError
  -- The model's own.
  out_of_fuel : ParseError

abbrev pub Parsed : Type 0 → Type 0
Parsed A = Result ParseError A

abbrev pub raw_items : Items → List RawMessage
raw_items nil = []
raw_items (cons v vs) = value v ∷ raw_items vs

abbrev pub set_raws : Json → List RawMessage → Option (List RawMessage)
set_raws null l = some []
set_raws (arr vs) l = some (raw_items vs)
set_raws _ l = none

-- `json.Unmarshal` into a `rawNode`, field by field.
unfoldable pub opt_bind : {A B : Type 0} → Option A → (A → Option B) → Option B
opt_bind none f = none
opt_bind (some a) f = f a

abbrev pub text : String → Fields → Option String
text name fs = decode_field name set_string fs ""

unfoldable pub raw_fields : Fields → Option RawNode
raw_fields fs = opt_bind (text "logic" fs) λ logic.
    opt_bind (decode_field "conditions" set_raws fs []) λ conditions.
      opt_bind (decode_field "condition" set_raw fs empty) λ condition.
        opt_bind (text "type" fs) λ type. opt_bind (text "field" fs) λ field_name.
          opt_bind (text "operator" fs) λ operator.
            opt_bind (decode_field "value" set_raw fs empty) λ val.
              opt_bind (text "event_type" fs) λ event_type.
                opt_bind (decode_field "time_window_days" set_int fs (pos 0)) λ time_window_days.
                  opt_bind (decode_field "min_count" set_int fs (pos 0)) λ min_count.
                    opt_bind (text "channel" fs) λ channel. opt_bind (text "topic" fs) λ topic.
                      opt_bind (text "state" fs) λ state. opt_bind (text "model" fs) λ model.
                        opt_bind (text "score_name" fs) λ score_name. some (record {
                          logic = logic;
                          conditions = conditions;
                          condition = condition;
                          type = type;
                          field_name = field_name;
                          operator = operator;
                          val = val;
                          event_type = event_type;
                          time_window_days = time_window_days;
                          min_count = min_count;
                          channel = channel;
                          topic = topic;
                          state = state;
                          model = model;
                          score_name = score_name;
                        })

abbrev pub zero_node : RawNode
zero_node = record {
  logic = "";
  conditions = [];
  condition = empty;
  type = "";
  field_name = "";
  operator = "";
  val = empty;
  event_type = "";
  time_window_days = pos 0;
  min_count = pos 0;
  channel = "";
  topic = "";
  state = "";
  model = "";
  score_name = "";
}

-- `json.Unmarshal` of a raw value into an `any`, if there are bytes; null leaves nil.
abbrev pub any_value : RawMessage → Parsed (Option Json)
any_value empty = ok none
any_value malformed = err bad_json
any_value (value null) = ok none
any_value (value v) = elim (any_json v) [ none ↦ err bad_json | some decoded ↦ ok (some decoded) ]

-- `json.Unmarshal` into a float64: null leaves 0, and a number out of range is an error.
abbrev pub float_value : RawMessage → Parsed Json
float_value empty = err value_required
float_value (value null) = ok (int (pos 0))
float_value (value (int n)) = elim (float_int n) [ none ↦ err bad_json | some m ↦ ok (int m) ]
float_value (value (dec s)) = if fits_float s then ok (dec s) else err bad_json
float_value _ = err bad_json

abbrev pub attribute_operators : List String
attribute_operators = "equals" ∷ "contains" ∷ "in" ∷ "greater_than" ∷ "less_than" ∷ []

abbrev pub company_operators : List String
company_operators = "equals" ∷ "contains" ∷ "in" ∷ []

abbrev pub score_operators : List String
score_operators = "greater_than" ∷ "less_than" ∷ "equals" ∷ []

abbrev pub event_operators : List String
event_operators = "has_occurred" ∷ "has_not_occurred" ∷ []

abbrev pub consent_states : List String
consent_states = "subscribed" ∷ "unsubscribed" ∷ []

-- `if s == "" { return … requires … }`.
unfoldable pub want : (type name s : String) → Parsed (Unit {0})
want type name s = if is_empty s then err (missing type name) else ok tt

unfoldable pub want_in : List String → (type name s : String) → Parsed (Unit {0})
want_in known type name s = if contains known s then ok tt else err (unknown type name)
