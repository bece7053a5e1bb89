-- ===== src/Journey/Parse.antt =====
-- internal/journey/nodes.go: `ParseGraph`, the decoding of a stored graph.
use openjourney.Common.{
  Bool, true, false, List, [], ◌∷◌, Option, none, some, if◌then◌else◌, ok, err,
}
use openjourney.Json.{
  Json, null, arr, Items, nil, cons, Fields, RawMessage, empty, value, decode_field, set_string,
  set_raw, unmarshal_struct,
}
use openjourney.Journey.Graph.{Node, Edge, Graph}
use openjourney.Journey.Config.{decode_config}

infixl 5 ◌>>=◌
abbrev ◌>>=◌ {ℓ κ} : {A : Type ℓ} {B : Type κ} → Option A → (A → Option B) → Option B
none >>= f = none
some a >>= f = f a

node_fields : Fields → Option Node
node_fields fs = do
  id ← decode_field "id" set_string fs ""
  type ← decode_field "type" set_string fs ""
  config ← decode_field "config" set_raw fs empty
  some (record { id = id; type = type; config = config })

edge_fields : Fields → Option Edge
edge_fields fs = do
  from ← decode_field "from" set_string fs ""
  to ← decode_field "to" set_string fs ""
  branch ← decode_field "branch" set_string fs ""
  some (record { from = from; to = to; branch = branch })

items {ℓ} : {A : Type ℓ} → A → (Fields → Option A) → Items → Option (List A)
items blank fields nil = some []
items blank fields (cons v vs) = do
  a ← unmarshal_struct blank fields (value v)
  rest ← items blank fields vs
  some (a ∷ rest)

abbrev set_items {ℓ} : {A : Type ℓ} → A → (Fields → Option A) → Json → List A → Option (List A)
set_items blank fields null l = some []
set_items blank fields (arr vs) l = items blank fields vs
set_items blank fields _ l = none

abbrev no_node : Node
no_node = record { id = ""; type = ""; config = empty }

abbrev no_edge : Edge
no_edge = record { from = ""; to = ""; branch = "" }

graph_fields : Fields → Option Graph
graph_fields fs = do
  entry_node_id ← decode_field "entry_node_id" set_string fs ""
  nodes ← decode_field "nodes" (set_items no_node node_fields) fs []
  edges ← decode_field "edges" (set_items no_edge edge_fields) fs []
  some (record { entry_node_id = entry_node_id; nodes = nodes; edges = edges })

all_decode : List Node → Bool
all_decode [] = true
all_decode (n ∷ ns) = elim (decode_config n) [ err e ↦ false | ok c ↦ all_decode ns ]

unfoldable pub parse_graph : RawMessage → Option Graph
unfolding graph_fields node_fields edge_fields items all_decode
parse_graph raw =
    unmarshal_struct (record { entry_node_id = ""; nodes = []; edges = [] }) graph_fields raw
    >>= λ g. if all_decode g.nodes then some g else none
