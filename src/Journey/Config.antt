-- ===== src/Journey/Config.antt =====
-- The configurations of nodes, internal/journey/nodes.go: `DecodeConfig` and the structs that it
-- decodes into. It returns a struct that the call beside it in the `return` fills; the model has the
-- order of evaluation that the program relies on, the call first.
pub mod Fits
use openjourney.Common.{
  Bool, false, List, [], ◌∷◌, Option, none, some, String, if◌then◌else◌, Result, ok, err,
}
use openjourney.Common.Int.{ℤ, pos}
use openjourney.Json.{
  Json, null, obj, arr, Items, nil, cons, Fields, end, RawMessage, empty, value, field, is_absent,
  decode_field, set_string, set_int, set_bool, set_raw, set_strings, unmarshal_struct,
}
use openjourney.Journey.Graph.{Node, NodeType, node_type}

pub record EntryConfig : Type 0 where
  pub trigger : String
  pub event_type : String
  pub segment_id : String
  pub schedule : String
  pub reentry_policy : String
  pub max_reentries : ℤ
  pub late_policy : String

pub record SplitBranch : Type 0 where
  pub label : String
  pub weight : ℤ
  pub segment_id : String

pub record SplitConfig : Type 0 where
  pub mode : String
  pub experiment_id : String
  pub branches : List SplitBranch

pub record MessageConfig : Type 0 where
  pub template_id : String
  pub experiment_id : String
  pub channel : String
  pub transactional : Bool

pub record WaitConfig : Type 0 where
  pub event_type : String
  pub timeout : String

-- `Set` is the map that the members of an object make, a later member before an earlier one.
pub record ActionConfig : Type 0 where
  pub action : String
  pub set : Fields

pub record GoalConfig : Type 0 where
  pub name : String
  pub event_type : String
  pub filter : RawMessage
  pub value_field : String
  pub window : String

pub record AiDecisionConfig : Type 0 where
  pub prompt_version_id : String
  pub prompt : String
  pub timeout_ms : ℤ
  pub max_cost_cents : ℤ
  pub branches : List String
  pub fallback : String

pub record ExtensionNodeConfig : Type 0 where
  pub extension_id : String
  pub extension_version : ℤ
  pub timeout_ms : ℤ
  pub branches : List String
  pub fallback : String
  pub config : RawMessage

pub data NodeConfig : Type 0 where
  entry : EntryConfig → NodeConfig
  delay : (duration : String) → NodeConfig
  condition : (dsl : RawMessage) → NodeConfig
  split : SplitConfig → NodeConfig
  message : MessageConfig → NodeConfig
  wait_event : WaitConfig → NodeConfig
  action : ActionConfig → NodeConfig
  goal : GoalConfig → NodeConfig
  exit : (reason : String) → NodeConfig
  ai_decision : AiDecisionConfig → NodeConfig
  extension : ExtensionNodeConfig → NodeConfig
  feature_flag : (flag_key : String) → NodeConfig

pub data ConfigError : Type 0 where
  -- decode %s node config
  undecodable : (type : String) → ConfigError
  unsupported_type : (type : String) → ConfigError
  unknown_type : (type : String) → ConfigError

infixl 5 ◌>>=◌
abbrev ◌>>=◌ {ℓ κ} : {A : Type ℓ} {B : Type κ} → Option A → (A → Option B) → Option B
none >>= f = none
some a >>= f = f a

abbrev text_field : String → Fields → Option String
text_field name fs = decode_field name set_string fs ""

abbrev int_field : String → Fields → Option ℤ
int_field name fs = decode_field name set_int fs (pos 0)

abbrev texts_field : String → Fields → Option (List String)
texts_field name fs = decode_field name set_strings fs []

abbrev raw_field : String → Fields → Option RawMessage
raw_field name fs = decode_field name set_raw fs empty

entry_fields : Fields → Option EntryConfig
entry_fields fs = do
  trigger ← text_field "trigger" fs
  event_type ← text_field "event_type" fs
  segment_id ← text_field "segment_id" fs
  schedule ← text_field "schedule" fs
  reentry_policy ← text_field "reentry_policy" fs
  max_reentries ← int_field "max_reentries" fs
  late_policy ← text_field "late_policy" fs
  some (record {
    trigger = trigger;
    event_type = event_type;
    segment_id = segment_id;
    schedule = schedule;
    reentry_policy = reentry_policy;
    max_reentries = max_reentries;
    late_policy = late_policy;
  })

branch_fields : Fields → Option SplitBranch
branch_fields fs = do
  label ← text_field "label" fs
  weight ← int_field "weight" fs
  segment_id ← text_field "segment_id" fs
  some (record { label = label; weight = weight; segment_id = segment_id })

abbrev no_branch : SplitBranch
no_branch = record { label = ""; weight = pos 0; segment_id = "" }

branch_items : Items → Option (List SplitBranch)
branch_items nil = some []
branch_items (cons v vs) = do
  b ← unmarshal_struct no_branch branch_fields (value v)
  bs ← branch_items vs
  some (b ∷ bs)

set_branches : Json → List SplitBranch → Option (List SplitBranch)
set_branches null l = some []
set_branches (arr vs) l = branch_items vs
set_branches _ l = none

split_fields : Fields → Option SplitConfig
split_fields fs = do
  mode ← text_field "mode" fs
  experiment_id ← text_field "experiment_id" fs
  branches ← decode_field "branches" set_branches fs []
  some (record { mode = mode; experiment_id = experiment_id; branches = branches })

message_fields : Fields → Option MessageConfig
message_fields fs = do
  template_id ← text_field "template_id" fs
  experiment_id ← text_field "experiment_id" fs
  channel ← text_field "channel" fs
  transactional ← decode_field "transactional" set_bool fs false
  some (record {
    template_id = template_id;
    experiment_id = experiment_id;
    channel = channel;
    transactional = transactional;
  })

wait_fields : Fields → Option WaitConfig
wait_fields fs = do
  event_type ← text_field "event_type" fs
  timeout ← text_field "timeout" fs
  some (record { event_type = event_type; timeout = timeout })

join_fields : Fields → Fields → Fields
join_fields end gs = gs
join_fields (field k v fs) gs = field k v (join_fields fs gs)

set_members : Json → Fields → Option Fields
set_members null fs = some end
set_members (obj gs) fs = some (join_fields fs gs)
set_members _ fs = none

action_fields : Fields → Option ActionConfig
action_fields fs = do
  kind ← text_field "action" fs
  set ← decode_field "set" set_members fs end
  some (record { action = kind; set = set })

goal_fields : Fields → Option GoalConfig
goal_fields fs = do
  name ← text_field "name" fs
  event_type ← text_field "event_type" fs
  filter ← raw_field "filter" fs
  value_field ← text_field "value_field" fs
  window ← text_field "window" fs
  some (record {
    name = name;
    event_type = event_type;
    filter = filter;
    value_field = value_field;
    window = window;
  })

ai_fields : Fields → Option AiDecisionConfig
ai_fields fs = do
  prompt_version_id ← text_field "prompt_version_id" fs
  prompt ← text_field "prompt" fs
  timeout_ms ← int_field "timeout_ms" fs
  max_cost_cents ← int_field "max_cost_cents" fs
  branches ← texts_field "branches" fs
  fallback ← text_field "fallback" fs
  some (record {
    prompt_version_id = prompt_version_id;
    prompt = prompt;
    timeout_ms = timeout_ms;
    max_cost_cents = max_cost_cents;
    branches = branches;
    fallback = fallback;
  })

extension_fields : Fields → Option ExtensionNodeConfig
extension_fields fs = do
  extension_id ← text_field "extension_id" fs
  extension_version ← int_field "extension_version" fs
  timeout_ms ← int_field "timeout_ms" fs
  branches ← texts_field "branches" fs
  fallback ← text_field "fallback" fs
  config ← raw_field "config" fs
  some (record {
    extension_id = extension_id;
    extension_version = extension_version;
    timeout_ms = timeout_ms;
    branches = branches;
    fallback = fallback;
    config = config;
  })

-- `decodeNodeConfig`: no bytes count as `{}`.
abbrev decode {ℓ} : {A : Type ℓ} → (Fields → Option A) → RawMessage → Option A
decode fields raw = elim (fields end) [
  | none ↦ none
  | some zero ↦ if is_absent raw then some zero else unmarshal_struct zero fields raw
]

abbrev pub decoded :
    {A : Type 0} → (A → NodeConfig) → Node → Option A → Result ConfigError NodeConfig
decoded make n (some a) = ok (make a)
decoded make n none = err (undecodable n.type)

unfoldable pub decode_as : NodeType → Node → Result ConfigError NodeConfig
unfolding entry_fields split_fields branch_items set_branches branch_fields message_fields
    wait_fields action_fields set_members join_fields goal_fields ai_fields extension_fields
decode_as NodeType.entry n = decoded entry n (decode entry_fields n.config)
decode_as NodeType.delay n = decoded delay n (decode (text_field "duration") n.config)
decode_as NodeType.condition n = decoded condition n (decode (raw_field "dsl") n.config)
decode_as NodeType.split n = decoded split n (decode split_fields n.config)
decode_as NodeType.message n = decoded message n (decode message_fields n.config)
decode_as NodeType.wait_event n = decoded wait_event n (decode wait_fields n.config)
decode_as NodeType.action n = decoded action n (decode action_fields n.config)
decode_as NodeType.goal n = decoded goal n (decode goal_fields n.config)
decode_as NodeType.exit n = decoded exit n (decode (text_field "reason") n.config)
decode_as NodeType.ai_decision n = decoded ai_decision n (decode ai_fields n.config)
decode_as NodeType.extension_action n = decoded extension n (decode extension_fields n.config)
decode_as NodeType.extension_condition n = decoded extension n (decode extension_fields n.config)
decode_as NodeType.feature_flag n = decoded feature_flag n (decode (text_field "flag_key") n.config)
decode_as NodeType.reserved n = err (unsupported_type n.type)
decode_as NodeType.unknown n = err (unknown_type n.type)

unfoldable pub decode_config : Node → Result ConfigError NodeConfig
unfolding decode_as node_type
decode_config n = decode_as (node_type n.type) n
