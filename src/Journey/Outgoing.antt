-- ===== src/Journey/Outgoing.antt =====
-- internal/journey/validate.go: the errors of `Validate`, and `validateOutgoing`, the check of the
-- edges that leave a node.
pub mod Delete
pub mod Branches
use openjourney.Common.{
  ℕ, zero, suc, Bool, true, false, not, List, [], ◌∷◌, map, String, ◌==◌, nat_eq, if◌then◌else◌,
  is_empty, contains, length, Result, ok, err, ◌>>=◌, ◌>>◌, guard,
}
use openjourney.Journey.Graph.{Node, Edge, NodeType, node_type}
use openjourney.Journey.Config.{NodeConfig, SplitBranch, ConfigError, decode_config}
use openjourney.Journey.Schedule.{ScheduleError}

-- One constructor for each message, with what the message names.
pub data ValidationError : Type 0 where
  graph_required node_id_required : ValidationError
  duplicate_node not_the_entry invalid_config missing_segment : (id : String) → ValidationError
  config_error : ConfigError → ValidationError
  schedule_error : (id : String) → ScheduleError → ValidationError
  invalid_duration negative_duration : (id field : String) → ValidationError
  prompt_version_required timeout_required timeout_too_long cost_required :
      (id : String) → ValidationError
  extension_required version_required fallback_required : (id : String) → ValidationError
  fallback_not_declared : (id label : String) → ValidationError
  entry_count : ℕ → ValidationError
  entry_missing edge_from_missing edge_to_missing : (id : String) → ValidationError
  not_one_edge labelled_edge has_edges unreachable : (id : String) → ValidationError
  branch_count : (id : String) → ℕ → ValidationError
  empty_label : (id : String) → ValidationError
  duplicate_label unexpected_label missing_label : (id label : String) → ValidationError
  no_reachable_exit : ValidationError
  -- The model's own: the search ran out of fuel. `Reachable` shows that it does not.
  out_of_fuel : ValidationError

abbrev pub Check : Type 0 → Type 0
Check A = Result ValidationError A

abbrev pub fine : Check (Unit {0})
fine = ok tt

abbrev pub config_of : Node → Check NodeConfig
config_of n = elim (decode_config n) [ ok c ↦ ok c | err e ↦ err (config_error e) ]

-- `validateExactBranches`: the labels that are wanted, in a set; each must be declared once.
pub want_labels : String → List String → List String → Check (List String)
want_labels id want [] = ok want
want_labels id want (label ∷ labels) =
    if is_empty label
    then err (empty_label id)
    else if contains want label
    then err (duplicate_label id label)
    else want_labels id (label ∷ want) labels

-- `delete(want, label)`.
pub delete : String → List String → List String
delete label [] = []
delete label (w ∷ ws) = let rest = delete label ws in if w == label then rest else w ∷ rest

pub take_edges : String → List String → List Edge → Check (List String)
take_edges id want [] = ok want
take_edges id want (e ∷ es) =
    if contains want e.branch
    then take_edges id (delete e.branch want) es
    else err (unexpected_label id e.branch)

abbrev none_missing : String → List String → Check (Unit {0})
none_missing id [] = fine
none_missing id (label ∷ want) = err (missing_label id label)

unfoldable pub validate_exact_branches : String → List Edge → List String → Check (Unit {0})
unfolding want_labels take_edges delete
validate_exact_branches id edges labels = do
  guard (nat_eq (length edges) (length labels)) (branch_count id (length labels))
  want ← want_labels id [] labels
  left ← take_edges id want edges
  none_missing id left

-- A branch of the switch that wants one edge with no label.
unfoldable pub one_plain_edge : String → List Edge → Check (Unit {0})
one_plain_edge id (e ∷ []) = if is_empty e.branch then fine else err (labelled_edge id)
one_plain_edge id _ = err (not_one_edge id)

pub no_edges : String → List Edge → Check (Unit {0})
no_edges id [] = fine
no_edges id (e ∷ es) = err (has_edges id)

-- The checks that AI decisions and extensions share.
unfoldable pub with_fallback : String → List Edge → String → List String → Check (Unit {0})
with_fallback id edges fallback labels = do
  guard (not (is_empty fallback)) (fallback_required id)
  guard (contains labels fallback) (fallback_not_declared id fallback)
  validate_exact_branches id edges labels

abbrev split_outgoing : Node → List Edge → NodeConfig → Check (Unit {0})
split_outgoing n edges (NodeConfig.split cfg) =
    validate_exact_branches n.id edges (map SplitBranch.label cfg.branches)
split_outgoing n edges _ = err (invalid_config n.id)

abbrev pub ai_outgoing : Node → List Edge → NodeConfig → Check (Unit {0})
ai_outgoing n edges (NodeConfig.ai_decision cfg) =
    with_fallback n.id edges cfg.fallback cfg.branches
ai_outgoing n edges _ = err (invalid_config n.id)

abbrev pub extension_outgoing : Node → List Edge → NodeConfig → Check (Unit {0})
extension_outgoing n edges (NodeConfig.extension cfg) =
    with_fallback n.id edges cfg.fallback cfg.branches
extension_outgoing n edges _ = err (invalid_config n.id)

-- The switch of `validateOutgoing`; the last clause is its `default`.
unfoldable pub outgoing_as : NodeType → Node → List Edge → Check (Unit {0})
outgoing_as NodeType.entry n edges = one_plain_edge n.id edges
outgoing_as NodeType.delay n edges = one_plain_edge n.id edges
outgoing_as NodeType.action n edges = one_plain_edge n.id edges
outgoing_as NodeType.message n edges = one_plain_edge n.id edges
outgoing_as NodeType.goal n edges = one_plain_edge n.id edges
outgoing_as NodeType.condition n edges = validate_exact_branches n.id edges ("true" ∷ "false" ∷ [])
outgoing_as NodeType.split n edges = do config_of n >>= split_outgoing n edges
outgoing_as NodeType.wait_event n edges =
    validate_exact_branches n.id edges ("success" ∷ "timeout" ∷ [])
outgoing_as NodeType.ai_decision n edges = do config_of n >>= ai_outgoing n edges
outgoing_as NodeType.extension_action n edges = do config_of n >>= extension_outgoing n edges
outgoing_as NodeType.extension_condition n edges = do config_of n >>= extension_outgoing n edges
outgoing_as NodeType.exit n edges = no_edges n.id edges
outgoing_as NodeType.feature_flag n edges = config_of n >> fine
outgoing_as NodeType.reserved n edges = config_of n >> fine
outgoing_as NodeType.unknown n edges = config_of n >> fine

unfoldable pub validate_outgoing : Node → List Edge → Check (Unit {0})
unfolding outgoing_as one_plain_edge no_edges with_fallback
validate_outgoing n edges = outgoing_as (node_type n.type) n edges
