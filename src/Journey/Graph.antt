-- ===== src/Journey/Graph.antt =====
-- internal/journey/graph.go, and the node types of internal/journey/nodes.go.
pub mod Edges
use openjourney.Common.{
  Bool, true, false, ◌&&◌, ◌||◌, List, [], ◌∷◌, Option, none, some, String, ◌==◌, if◌then◌else◌,
}
use openjourney.Json.{RawMessage}

pub record Node : Type 0 where
  pub id : String
  pub type : String
  pub config : RawMessage

pub record Edge : Type 0 where
  pub from : String
  pub to : String
  pub branch : String

pub record Graph : Type 0 where
  pub entry_node_id : String
  pub nodes : List Node
  pub edges : List Edge

-- The node types that the switches tell apart. `reserved` are those that `DecodeConfig` names as
-- unsupported, `unknown` is any other text.
pub data NodeType : Type 0 where
  entry delay condition split message wait_event action goal exit ai_decision : NodeType
  extension_action extension_condition feature_flag reserved unknown : NodeType

is_reserved : String → Bool
is_reserved t =
    t == "nested_journey"
    || t == "webhook_action"
    || t == "integration_action"
    || t == "experiment"
    || t == "holdout"

unfoldable pub node_type : String → NodeType
unfolding is_reserved
node_type t =
    if t == "entry"
    then entry
    else if t == "delay"
    then delay
    else if t == "condition"
    then condition
    else if t == "split"
    then split
    else if t == "message"
    then message
    else if t == "wait_event"
    then wait_event
    else if t == "action"
    then action
    else if t == "goal"
    then goal
    else if t == "exit"
    then exit
    else if t == "ai_decision"
    then ai_decision
    else if t == "extension_action"
    then extension_action
    else if t == "extension_condition"
    then extension_condition
    else if t == "feature_flag"
    then feature_flag
    else if is_reserved t
    then reserved
    else unknown

abbrev pub is_exit : NodeType → Bool
is_exit exit = true
is_exit _ = false

abbrev pub is_entry : NodeType → Bool
is_entry entry = true
is_entry _ = false

-- The loop of `findNextNode`.
unfoldable pub find_edge : List Edge → String → String → Option String
find_edge [] from branch = none
find_edge (e ∷ es) from branch =
    if e.from == from && e.branch == branch then some e.to else find_edge es from branch

-- `outgoing[id]`: the edges from a node, in the graph's order.
unfoldable pub outgoing : List Edge → String → List Edge
outgoing [] id = []
outgoing (e ∷ es) id = let rest = outgoing es id in if e.from == id then e ∷ rest else rest
