-- ===== src/Journey/Examples.antt =====
-- The journey's theorems at a graph of four nodes: an entry, an AI decision, a delay and an exit.
use openjourney.Common.{
  In, ℕ, ◌+◌, ◌<◌, ◌≤◌, ◌≡◌, ◌≢◌, refl, inl, inr, ◌↔◌, true, false, List, [], ◌∷◌, Option, none,
  some, String, codes, contains, arith, ok, err,
}
use openjourney.Common.Int.{ℤ, pos}
use openjourney.Json.{
  decode_field, unmarshal_struct, empty, value, Json, Fields, field, end, nil, cons,
}
use openjourney.Journey.Graph.{Node, Edge, Graph, node_type, find_edge, outgoing}
use openjourney.Journey.Config.{
  NodeConfig, AiDecisionConfig, ExtensionNodeConfig, SplitConfig, decode_config,
}
use openjourney.Journey.Schedule.{is_scheduled_due, validate_schedule}
use openjourney.Journey.Schedule.Due.{IsRegular, validate_schedule-IsRegular, validate_schedule-due}
use openjourney.Journey.Reachable.{reachable_nodes}
use openjourney.Journey.Reachable.Search.{reachable_nodes-Reach}
use openjourney.Journey.Reachable.Paths.{Reach}
use openjourney.Journey.Outgoing.{validate_outgoing, fine, validate_exact_branches, missing_label}
use openjourney.Journey.Outgoing.Branches.{
  HasExactly, validate_exact_branches-HasExactly, validate_exact_branches-ne-missing,
}
use openjourney.Journey.Validate.{validate, ai_durations}
use openjourney.Journey.Validate.Sound.{IsValid, validate-IsValid}
use openjourney.Journey.Validate.Timeouts.{ai_durations_le, ai_durations_wraps}
use openjourney.Journey.Runs.{JourneyRun, ExecutionResult}
use openjourney.Journey.Store.{Store, Gateway, ExtensionHost, no_edge, ◌>>=◌, pure}
use openjourney.Journey.Choose.{ai_branch, extension_branch, split_branch}
use openjourney.Journey.Choose.Splits.{labels, split_branch-In}
use openjourney.Journey.Store.Ensures.{Ensures, Any}
use openjourney.Journey.Choose.Declared.{IsDecided, ai_branch-IsDecided, extension_branch-IsDecided}
use openjourney.Journey.Execute.{Env, execute, moved, follow}
use openjourney.Journey.Runtime.{RuntimeStore, ClaimedStep, tick_next}
use openjourney.Journey.Runtime.Settling.{IsSettled, tick_next-IsSettled}
use openjourney.Journey.Execute.Steps.{IsStep}
use openjourney.Journey.Execute.Branches.{execute-IsStep}
use openjourney.Journey.Execute.Accepted.{execute-ne-no_edge}

abbrev every_five : List ℕ
every_five = codes "*/5 * * * *"

abbrev every_five_fields : List (List ℕ)
every_five_fields = codes "*/5" ∷ codes "*" ∷ codes "*" ∷ codes "*" ∷ codes "*" ∷ []

every_five_valid : validate_schedule every_five ≡ ok every_five_fields
unfolding validate_schedule
every_five_valid = refl

validate_schedule-IsRegular_example : IsRegular (is_scheduled_due every_five)
validate_schedule-IsRegular_example = validate_schedule-IsRegular every_five every_five_valid

validate_schedule-due_example : (m : ℕ) × (m < 60) × (is_scheduled_due every_five m ≡ true)
validate_schedule-due_example = validate_schedule-due every_five every_five_valid

abbrev members : List (String × Json) → Fields
members [] = end
members ((k, v) ∷ rest) = field k v (members rest)

abbrev node : String → String → List (String × Json) → Node
node id type fs = record { id = id; type = type; config = value (Json.obj (members fs)) }

abbrev edge : String → String → String → Edge
edge from to branch = record { from = from; to = to; branch = branch }

abbrev decision : Node
decision = node "ask" "ai_decision" (
    ("prompt_version_id", Json.str "p1")
    ∷ ("timeout_ms", Json.int (pos 900))
    ∷ ("max_cost_cents", Json.int (pos 3))
    ∷ ("branches", Json.arr (cons (Json.str "slow") (cons (Json.str "stop") nil)))
    ∷ ("fallback", Json.str "stop")
    ∷ [])

abbrev flow : Graph
flow = record {
  entry_node_id = "in";
  nodes =
      node "in" "entry" []
      ∷ decision
      ∷ node "pause" "delay" (("duration", Json.str "1h") ∷ [])
      ∷ node "out" "exit" []
      ∷ [];
  edges =
      edge "in" "ask" ""
      ∷ edge "ask" "pause" "slow"
      ∷ edge "ask" "out" "stop"
      ∷ edge "pause" "out" ""
      ∷ [];
}

abbrev an_hour : String → Option ℤ
an_hour raw = some (pos 3600000000000)

flow_accepted : validate an_hour (some flow) ≡ fine
unfolding validate decode_config reachable_nodes contains decode_field unmarshal_struct
    validate_outgoing outgoing validate_exact_branches
flow_accepted = refl

validate-IsValid_example : IsValid an_hour flow
validate-IsValid_example = validate-IsValid an_hour flow flow_accepted

reachable_nodes-Reach_example :
    (marks : List String) × (reachable_nodes "in" flow.edges ≡ some marks)
    × ((v : String) → (contains marks v ≡ true) ↔ ∥ Reach flow.edges "in" v ∥₁)
reachable_nodes-Reach_example = reachable_nodes-Reach "in" flow.edges

abbrev two_edges : List Edge
two_edges = edge "ask" "pause" "slow" ∷ edge "ask" "out" "stop" ∷ []

abbrev two_labels : List String
two_labels = "stop" ∷ "slow" ∷ []

two_exact : validate_exact_branches "ask" two_edges two_labels ≡ fine
unfolding validate_exact_branches contains
two_exact = refl

validate_exact_branches-HasExactly_example : HasExactly two_edges two_labels
validate_exact_branches-HasExactly_example =
    validate_exact_branches-HasExactly "ask" two_edges two_labels two_exact

validate_exact_branches-ne-missing_example :
    validate_exact_branches "ask" two_edges two_labels ≢ err (missing_label "ask" "stop")
validate_exact_branches-ne-missing_example =
    validate_exact_branches-ne-missing "ask" two_edges two_labels "stop"

abbrev ai_config : ℕ → AiDecisionConfig
ai_config ms = record {
  prompt_version_id = "p1";
  prompt = "";
  timeout_ms = pos ms;
  max_cost_cents = pos 3;
  branches = two_labels;
  fallback = "stop";
}

ai_durations_le_example : (0 < 900) × (900 ≤ 5000)
ai_durations_le_example = ai_durations_le decision (ai_config 900) 900 refl refl (omega arith)

-- 9223372036855 milliseconds are some 292 years.
ai_durations_wraps_example :
    ai_durations decision (NodeConfig.ai_decision (ai_config 9223372036855)) ≡ fine
ai_durations_wraps_example =
    ai_durations_wraps decision (ai_config 9223372036855) 9223372036855 refl (omega arith)
      (omega arith) refl refl

-- The world counts the calls of the gateway.
abbrev no_store : Store ℕ
no_store = record {
  evaluate_audience = λ p id dsl w. ok true;
  get_experiment = λ p id w. err "none";
  assign_experiment = λ p id profile computed w. (ok computed, w);
  is_profile_in_segment = λ p s id w. ok false;
  update_profile_attributes = λ p id fs w. (ok tt, w);
  accept_events = λ p es w. (ok tt, w);
  get_profile = λ p id w. ok empty;
  list_active_device_tokens = λ p id w. ok [];
  get_first_app_id = λ p w. ok "app";
  list_active_flags = λ t a e w. ok [];
}

abbrev says_slow : Gateway ℕ
says_slow p request w = (
  ok (
      some (record {
        content = value (Json.obj (members (("branch", Json.str "slow") ∷ [])));
        activity_id = "a1";
      })),
  w + 1,
)

abbrev slow_host : ExtensionHost ℕ
slow_host p request w = (
  record {
    activity_id = "a2";
    response = ok (value (Json.obj (members (("branch", Json.str "slow") ∷ []))));
  },
  w + 1,
)

abbrev env : Env ℕ
env = record {
  hash = λ s. 7;
  parse_duration = an_hour;
  store = no_store;
  gateway = some says_slow;
  ext_host = none;
  now = pos 1000;
  step_kind = "advance";
}

abbrev run : JourneyRun
run = record {
  id = "r1";
  tenant_id = "t1";
  workspace_id = "w1";
  journey_id = "j1";
  journey_version_id = "v1";
  profile_id = "p1";
  status = "active";
  current_node_id = "ask";
  state = empty;
  wait_event_type = none;
  wait_until = none;
  goal_reached = false;
  completed_at = none;
}

ai_branch-IsDecided_example :
    IsDecided two_labels "stop" (ai_branch run decision (some says_slow) (ai_config 900))
ai_branch-IsDecided_example = ai_branch-IsDecided run decision (some says_slow) (ai_config 900)

abbrev halves : SplitConfig
halves = record {
  mode = "random";
  experiment_id = "";
  branches =
      record { label = "a"; weight = pos 50; segment_id = "" }
      ∷ record { label = "b"; weight = pos 50; segment_id = "" }
      ∷ [];
}

split_branch-In_example :
    Ensures Any
      (λ l. In l (labels halves.branches))
      (split_branch (λ s. 7) no_store run decision halves)
split_branch-In_example =
    split_branch-In (λ s. 7) no_store run decision halves
      (record { label = "a"; weight = pos 50; segment_id = "" })
      (record { label = "b"; weight = pos 50; segment_id = "" } ∷ []) refl refl

abbrev ext_config : ExtensionNodeConfig
ext_config = record {
  extension_id = "x1";
  extension_version = pos 1;
  timeout_ms = pos 900;
  branches = two_labels;
  fallback = "stop";
  config = empty;
}

extension_branch-IsDecided_example :
    IsDecided two_labels "stop" (extension_branch run decision (some slow_host) ext_config)
extension_branch-IsDecided_example =
    extension_branch-IsDecided run decision (some slow_host) ext_config

abbrev slow_result : ExecutionResult
slow_result =
    record (moved decision run (pos 1000) (pos 1000) "pause" "branch:slow"
      (value (Json.obj (members (("ai_activity_id", Json.str "a1") ∷ []))))) {
        goal_reached = false;
      }

decision_runs : (execute env flow decision run 0).0 ≡ ok slow_result
unfolding execute decode_config find_edge ai_branch follow moved contains decode_field
    unmarshal_struct node_type ◌>>=◌ pure
decision_runs = refl

execute-IsStep_example : IsStep flow decision run (pos 1000) slow_result
execute-IsStep_example = execute-IsStep env flow decision run 0 slow_result decision_runs

execute-ne-no_edge_example : (execute env flow decision run 0).0 ≢ err (no_edge "ask" "stop")
unfolding node_type
execute-ne-no_edge_example =
    execute-ne-no_edge env flow decision run flow_accepted (inr (inl refl)) refl 0 "ask" "stop"

abbrev node_json : String → String → List (String × Json) → Json
node_json id type fs = Json.obj (
    members
      (("id", Json.str id) ∷ ("type", Json.str type) ∷ ("config", Json.obj (members fs)) ∷ []))

abbrev short_graph : Json
short_graph = Json.obj (
    members (
      ("entry_node_id", Json.str "in")
      ∷ (
        "nodes",
        Json.arr (cons (node_json "in" "entry" []) (cons (node_json "out" "exit" []) nil)),
      )
      ∷ (
        "edges",
        Json.arr
            (cons (Json.obj (members (("from", Json.str "in") ∷ ("to", Json.str "out") ∷ []))) nil),
      )
      ∷ []))

abbrev first_step : ClaimedStep
first_step = record {
  id = "s1";
  run_id = "r1";
  tenant_id = "t1";
  node_id = "in";
  kind = "advance";
  available_at = some (pos 900);
}

-- A store that counts its writes.
abbrev one_step : RuntimeStore ℕ
one_step = record {
  claim_step = λ w. (ok (some first_step), w);
  get_run = λ t id w. ok run;
  get_version = λ t id w. ok (record { graph = value short_graph; late_policy = "run" });
  advance_run = λ a w. (ok tt, w + 1);
  reschedule_step = λ id t w. (ok tt, w + 1);
  fail_step = λ id f w. (ok tt, w + 100);
}

tick_next-IsSettled_example :
    ((tick_next one_step env (pos 0) 0).0 ≡ ok true)
    × IsSettled one_step first_step (tick_next one_step env (pos 0) 0).1
tick_next-IsSettled_example = tick_next-IsSettled one_step env (pos 0) first_step 0 0 refl
