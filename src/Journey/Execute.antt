-- ===== src/Journey/Execute.antt =====
-- internal/journey/nodes.go: `execute`, the step of a run at a node, and `findNextNode`.
-- Parameters: `hash` is that of the experiments, `parse_duration` is `time.ParseDuration`; the
-- gateway and the extension host may be nil. Times do not wrap.
pub mod Steps
pub mod Branches
pub mod Accepted
use openjourney.Common.{
  ℕ, Bool, true, false, List, [], ◌∷◌, map, Option, none, some, String, ◌==◌, if◌then◌else◌,
  is_empty, Result, ok, err,
}
use openjourney.Common.Int.{ℤ, ◌+ℤ◌}
use openjourney.Json.{Json, null, str, obj, Fields, end, field, RawMessage, empty, malformed, value}
use openjourney.Journey.Graph.{Node, Edge, Graph, NodeType, node_type, find_edge}
use openjourney.Journey.Config.{
  NodeConfig, SplitConfig, MessageConfig, WaitConfig, ActionConfig, decode_config,
}
use openjourney.Journey.Runs.{
  Time, JourneyRun, JourneyStep, JourneyTransition, MessageIntent, ExecutionResult,
}
use openjourney.Journey.Store.{
  M, Store, Event, Gateway, ExtensionHost, ExecutionError, no_edge, config_error, invalid_duration,
  bad_state, unsupported_action, unsupported_type, pure, ask, perform, ◌>>=◌, ◌>>◌,
}
use openjourney.Journey.Choose.{principal, ai_branch, extension_branch, split_branch, flag_label}
use openjourney.Journey.Message.{Choice, is_holdout, message_parts, intents}
use Prim.Native.String

abbrev pub branch_outcome : String → String
branch_outcome branch = String.◌++◌ "branch:" branch

abbrev pub no_detail : RawMessage
no_detail = value (obj end)

-- `findNextNode`.
abbrev pub next_node : Graph → Node → String → Result ExecutionError String
next_node g n branch = elim (find_edge g.edges n.id branch) [
  | none ↦ err (no_edge n.id branch)
  | some to ↦ ok to
]

-- `json.Unmarshal` of the run's state into a `map[string]any`.
abbrev pub state_map : RawMessage → Result ExecutionError Fields
state_map empty = ok end
state_map (value null) = ok end
state_map (value (obj fs)) = ok fs
state_map _ = err bad_state

-- `stateMap[key] = v`, up to the order of the members.
pub put_field : String → Json → Fields → Fields
put_field key v end = field key v end
put_field key v (field k w rest) =
    let rest' = put_field key v rest in if k == key then rest' else field k w rest'

module _ (n : Node) (run : JourneyRun) (now : Time) where
  -- The result of a step to the node `to`, at the time `available_at`.
  unfoldable pub moved : Time → String → String → RawMessage → ExecutionResult
  moved available_at to outcome detail = record {
    next_node_id = to;
    next_step = some (record {
      run_id = run.id;
      tenant_id = run.tenant_id;
      node_id = to;
      kind = "advance";
      status = "pending";
      available_at = available_at;
    });
    transition = record {
      run_id = run.id;
      tenant_id = run.tenant_id;
      from_node = some n.id;
      to_node = some to;
      node_type = n.type;
      outcome = outcome;
      detail = detail;
    };
    next_status = run.status;
    completed_at = run.completed_at;
    goal_reached = run.goal_reached;
    wait_event_type = none;
    wait_until = none;
    state = run.state;
    message_intents = [];
  }

  unfoldable pub exited : ExecutionResult
  exited = record {
    next_node_id = "";
    next_step = none;
    transition = record {
      run_id = run.id;
      tenant_id = run.tenant_id;
      from_node = some n.id;
      to_node = none;
      node_type = n.type;
      outcome = "exited";
      detail = no_detail;
    };
    next_status = "completed";
    completed_at = some now;
    goal_reached = run.goal_reached;
    wait_event_type = none;
    wait_until = none;
    state = run.state;
    message_intents = [];
  }

  unfoldable pub waiting : String → Time → ExecutionResult
  waiting event_type timeout_at = record {
    next_node_id = n.id;
    next_step = some (record {
      run_id = run.id;
      tenant_id = run.tenant_id;
      node_id = n.id;
      kind = "timeout";
      status = "pending";
      available_at = timeout_at;
    });
    transition = record {
      run_id = run.id;
      tenant_id = run.tenant_id;
      from_node = some n.id;
      to_node = none;
      node_type = n.type;
      outcome = "waiting";
      detail = no_detail;
    };
    next_status = "waiting";
    completed_at = run.completed_at;
    goal_reached = run.goal_reached;
    wait_event_type = some event_type;
    wait_until = some timeout_at;
    state = run.state;
    message_intents = [];
  }

abbrev pub as_is : ExecutionResult → ExecutionResult
as_is r = r

abbrev pub reach_goal : ExecutionResult → ExecutionResult
reach_goal r = record r { goal_reached = true }

abbrev pub update_event : Node → JourneyRun → Time → ActionConfig → Event
update_event n run now cfg = record {
  type = "profile.updated";
  external_id = run.id;
  idempotency_key = String.◌++◌ "journey-action:" (String.◌++◌ run.id (String.◌++◌ ":" n.id));
  occurred_at = now;
  payload = obj (field "attributes" (obj cfg.set) end);
}

module _ {W : Type 0} (g : Graph) (n : Node) (run : JourneyRun) (now : Time) where
  -- A step along the edge with the branch, and the change that the node makes to the result.
  unfoldable pub follow :
      (branch outcome : String)
      → RawMessage
      → (available_at : Time) → (ExecutionResult → ExecutionResult)
      → M W ExecutionResult
  follow branch outcome detail available_at change = pure (next_node g n branch) >>= λ to.
      pure (ok (change (moved n run now available_at to outcome detail)))

  -- The common case: at once, with no detail.
  abbrev pub advance : (branch outcome : String) → M W ExecutionResult
  advance branch outcome = follow branch outcome no_detail now as_is

  -- An AI decision's step, or an extension's: the detail names the activity.
  abbrev pub decide : String → (String × String) → M W ExecutionResult
  decide name (branch, activity_id) =
      follow branch (branch_outcome branch) (value (obj (field name (str activity_id) end))) now
        as_is

  -- A split's step notes the branch in the run's state.
  abbrev pub take_branch : String → M W ExecutionResult
  take_branch branch = pure (next_node g n branch) >>= λ to. pure (state_map run.state) >>= λ fs.
      pure (
        ok (record (moved n run now now to (branch_outcome branch) no_detail) {
          state = value (obj (put_field n.id (str branch) fs));
        }))

  abbrev pub send : MessageConfig → (Choice × List String) → M W ExecutionResult
  send cfg (choice, ends) =
      follow "" (if is_holdout choice then "holdout" else "intent_created") no_detail now
        λ r. record r { message_intents = intents n run now cfg choice ends }

  unfoldable pub act : Store W → ActionConfig → M W ExecutionResult
  act store cfg =
      if cfg.action == "profile_update"
      then (do
        perform "update profile attributes"
            (store.update_profile_attributes (principal run) run.profile_id cfg.set)
        perform "emit profile.updated event"
            (store.accept_events (principal run) (update_event n run now cfg ∷ []))
        advance "" "advanced")
      else pure (err (unsupported_action cfg.action))

  unfoldable pub wait : (step_kind : String) → WaitConfig → Option ℤ → M W ExecutionResult
  wait step_kind cfg none = pure (err (invalid_duration cfg.timeout))
  wait step_kind cfg (some duration) =
      if step_kind == "timeout"
      then (follow "timeout" "timeout" no_detail now λ r. record r { next_status = "active" })
      else pure (ok (waiting n run now cfg.event_type (now +ℤ duration)))

  unfoldable pub sleep : String → Option ℤ → M W ExecutionResult
  sleep raw none = pure (err (invalid_duration raw))
  sleep raw (some duration) = follow "" "waited" no_detail (now +ℤ duration) as_is

-- What a run of `execute` has beside the node: the graph, the run, the time and the kind of step,
-- and the world's parts.
pub record Env (W : Type 0) : Type 0 where
  pub hash : String → ℕ
  pub parse_duration : String → Option ℤ
  pub store : Store W
  pub gateway : Option (Gateway W)
  pub ext_host : Option (ExtensionHost W)
  pub now : Time
  pub step_kind : String

module _ {W : Type 0} (env : Env W) (g : Graph) (n : Node) (run : JourneyRun) where
  -- The cases that decode the node's configuration, by what it decodes into.
  pub configured : NodeConfig → M W ExecutionResult
  configured (NodeConfig.delay duration) =
      sleep g n run env.now duration (env.parse_duration duration)
  configured (NodeConfig.condition dsl) = do
    matched ←
        ask "evaluate condition" (env.store.evaluate_audience (principal run) run.profile_id dsl)
    let branch = if matched then "true" else "false"
    advance g n run env.now branch (branch_outcome branch)
  configured (NodeConfig.ai_decision cfg) =
      ai_branch run n env.gateway cfg >>= decide g n run env.now "ai_activity_id"
  configured (NodeConfig.extension cfg) =
      extension_branch run n env.ext_host cfg >>= decide g n run env.now "extension_activity_id"
  configured (NodeConfig.split cfg) =
      split_branch env.hash env.store run n cfg >>= take_branch g n run env.now
  configured (NodeConfig.action cfg) = act g n run env.now env.store cfg
  configured (NodeConfig.message cfg) =
      message_parts env.store run env.hash cfg >>= send g n run env.now cfg
  configured (NodeConfig.wait_event cfg) =
      wait g n run env.now env.step_kind cfg (env.parse_duration cfg.timeout)
  configured (NodeConfig.feature_flag key) = do
    branch ← flag_label env.hash env.store run key
    advance g n run env.now branch (branch_outcome branch)
  configured _ = pure (err (unsupported_type n.type))

  abbrev decoded : M W ExecutionResult
  decoded = elim (decode_config n) [ err e ↦ pure (err (config_error e)) | ok c ↦ configured c ]

  -- The switch.
  pub execute_as : NodeType → M W ExecutionResult
  execute_as NodeType.entry = advance g n run env.now "" "advanced"
  execute_as NodeType.goal = follow g n run env.now "" "goal_reached" no_detail env.now reach_goal
  execute_as NodeType.exit = pure (ok (exited n run env.now))
  execute_as NodeType.reserved = pure (err (unsupported_type n.type))
  execute_as NodeType.unknown = pure (err (unsupported_type n.type))
  execute_as _ = decoded

  unfoldable pub execute : M W ExecutionResult
  unfolding execute_as configured
  execute = execute_as (node_type n.type)
