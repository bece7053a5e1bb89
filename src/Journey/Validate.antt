-- ===== src/Journey/Validate.antt =====
-- internal/journey/validate.go: `validateDurations` and `Validate`. `time.ParseDuration` is the
-- parameter `parse_duration`: a text to a number of nanoseconds, or nothing.
pub mod Sound
pub mod Timeouts
use openjourney.Common.{
  ℕ, zero, suc, ◌*◌, ◌^◌, Bool, true, false, not, ◌&&◌, List, [], ◌∷◌, Option, none, some, String,
  ◌==◌, ltb, nat_eq, if◌then◌else◌, is_empty, contains, codes, ok, err, ◌>>=◌, ◌>>◌, guard,
}
use openjourney.Common.Int.{ℤ, pos, negsuc, is_positive, u64}
use openjourney.Journey.Graph.{Node, Edge, Graph, NodeType, node_type, is_entry, is_exit, outgoing}
use openjourney.Journey.Config.{NodeConfig}
use openjourney.Journey.Schedule.{validate_schedule}
use openjourney.Journey.Reachable.{reachable_nodes}
use openjourney.Journey.Outgoing.{
  Check, fine, config_of, validate_outgoing, graph_required, node_id_required, duplicate_node,
  not_the_entry, invalid_config, missing_segment, schedule_error, invalid_duration,
  negative_duration, prompt_version_required, timeout_required, timeout_too_long, cost_required,
  extension_required, version_required, entry_count, entry_missing, edge_from_missing,
  edge_to_missing, unreachable, no_reachable_exit, out_of_fuel,
}

-- `time.Duration(ms) * time.Millisecond > limit`, for a positive `ms`: the product wraps.
abbrev pub ms_exceeds : ℤ → ℕ → Bool
ms_exceeds (pos ms) limit = let ns = u64 (ms * 1000000) in ltb ns (2 ^ 63) && ltb limit ns
ms_exceeds (negsuc ms) limit = false

-- Five and ten seconds, in nanoseconds.
abbrev pub max_ai_decision_timeout : ℕ
max_ai_decision_timeout = 5000000000

abbrev max_extension_timeout : ℕ
max_extension_timeout = 10000000000

module _ (parse_duration : String → Option ℤ) where
  validate_duration : String → String → String → Check (Unit {0})
  validate_duration id field raw = elim (parse_duration raw) [
    | none ↦ err (invalid_duration id field)
    | some (pos n) ↦ fine
    | some (negsuc n) ↦ err (negative_duration id field)
  ]

  abbrev delay_durations : Node → NodeConfig → Check (Unit {0})
  delay_durations n (NodeConfig.delay duration) = validate_duration n.id "duration" duration
  delay_durations n _ = err (invalid_config n.id)

  abbrev wait_durations : Node → NodeConfig → Check (Unit {0})
  wait_durations n (NodeConfig.wait_event cfg) = validate_duration n.id "timeout" cfg.timeout
  wait_durations n _ = err (invalid_config n.id)

abbrev pub ai_durations : Node → NodeConfig → Check (Unit {0})
ai_durations n (NodeConfig.ai_decision cfg) = do
  guard (not (is_empty cfg.prompt_version_id)) (prompt_version_required n.id)
  guard (is_positive cfg.timeout_ms) (timeout_required n.id)
  guard (not (ms_exceeds cfg.timeout_ms max_ai_decision_timeout)) (timeout_too_long n.id)
  guard (is_positive cfg.max_cost_cents) (cost_required n.id)
ai_durations n _ = err (invalid_config n.id)

abbrev extension_durations : Node → NodeConfig → Check (Unit {0})
extension_durations n (NodeConfig.extension cfg) = do
  guard (not (is_empty cfg.extension_id)) (extension_required n.id)
  guard (is_positive cfg.extension_version) (version_required n.id)
  guard (is_positive cfg.timeout_ms) (timeout_required n.id)
  guard (not (ms_exceeds cfg.timeout_ms max_extension_timeout)) (timeout_too_long n.id)
extension_durations n _ = err (invalid_config n.id)

module _ (parse_duration : String → Option ℤ) where
  -- The switch of `validateDurations`.
  pub durations_as : NodeType → Node → Check (Unit {0})
  durations_as NodeType.delay n = config_of n >>= delay_durations parse_duration n
  durations_as NodeType.wait_event n = config_of n >>= wait_durations parse_duration n
  durations_as NodeType.ai_decision n = config_of n >>= ai_durations n
  durations_as NodeType.extension_action n = config_of n >>= extension_durations n
  durations_as NodeType.extension_condition n = config_of n >>= extension_durations n
  durations_as _ n = fine

-- The checks of an entry node beside the others.
abbrev pub entry_checks : String → Node → NodeConfig → Check (Unit {0})
entry_checks entry_id n (NodeConfig.entry cfg) =
    if cfg.trigger == "scheduled"
    then (do
      guard (not (is_empty cfg.segment_id)) (missing_segment n.id)
      elim (validate_schedule (codes cfg.schedule)) [
        | ok _ ↦ fine
        | err e ↦ err (schedule_error n.id e)
      ])
    else fine
entry_checks entry_id n _ = err (invalid_config n.id)

pub check_entry : String → Node → Check (Unit {0})
check_entry entry_id n =
    if is_entry (node_type n.type)
    then (do guard (n.id == entry_id) (not_the_entry n.id); config_of n >>= entry_checks entry_id n)
    else fine

module _ (parse_duration : String → Option ℤ) where
  -- One round of the loop over the nodes, with the ids of the nodes before.
  pub check_node : String → List String → Node → Check (Unit {0})
  check_node entry_id seen n = do
    guard (not (is_empty n.id)) node_id_required
    guard (not (contains seen n.id)) (duplicate_node n.id)
    config_of n >>= λ _. check_entry entry_id n >> durations_as parse_duration (node_type n.type) n

abbrev pub count_entry : Node → ℕ → ℕ
count_entry n count = if is_entry (node_type n.type) then suc count else count

-- The loop over the nodes: the ids, and the number of entry nodes.
pub check_nodes :
    (String → Option ℤ) → String → List String → ℕ → List Node → Check (List String × ℕ)
check_nodes parse_duration entry_id seen count [] = ok (seen, count)
check_nodes parse_duration entry_id seen count (n ∷ ns) =
    check_node parse_duration entry_id seen n
    >> check_nodes parse_duration entry_id (n.id ∷ seen) (count_entry n count) ns

pub check_edges : List String → List Edge → Check (Unit {0})
check_edges ids [] = fine
check_edges ids (e ∷ es) = do
  guard (contains ids e.from) (edge_from_missing e.from)
  guard (contains ids e.to) (edge_to_missing e.to)
  check_edges ids es

pub check_outgoing : List Edge → List Node → Check (Unit {0})
check_outgoing edges [] = fine
check_outgoing edges (n ∷ ns) = validate_outgoing n (outgoing edges n.id) >> check_outgoing edges ns

pub check_reachable : List String → List Node → Check (Unit {0})
check_reachable marks [] = fine
check_reachable marks (n ∷ ns) = do
  guard (contains marks n.id) (unreachable n.id)
  check_reachable marks ns

pub find_exit : List String → List Node → Check (Unit {0})
find_exit marks [] = err no_reachable_exit
find_exit marks (n ∷ ns) =
    if contains marks n.id && is_exit (node_type n.type) then fine else find_exit marks ns

-- What `Validate` does with the set of reachable ids.
pub check_marks : Graph → Option (List String) → Check (Unit {0})
check_marks g none = err out_of_fuel
check_marks g (some marks) = do check_reachable marks g.nodes; find_exit marks g.nodes

validate_graph : (String → Option ℤ) → Graph → Check (Unit {0})
validate_graph parse_duration g = do
  (ids, entries) ← check_nodes parse_duration g.entry_node_id [] 0 g.nodes
  guard (nat_eq entries 1) (entry_count entries)
  guard (contains ids g.entry_node_id) (entry_missing g.entry_node_id)
  check_edges ids g.edges
  check_outgoing g.edges g.nodes
  check_marks g (reachable_nodes g.entry_node_id g.edges)

-- `none` is the nil pointer.
unfoldable pub validate : (String → Option ℤ) → Option Graph → Check (Unit {0})
unfolding validate_graph check_nodes check_node check_entry durations_as validate_duration
    check_edges check_outgoing check_reachable find_exit check_marks
validate parse_duration none = err graph_required
validate parse_duration (some g) = validate_graph parse_duration g
