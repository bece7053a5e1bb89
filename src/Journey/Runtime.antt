-- ===== src/Journey/Runtime.antt =====
-- internal/journey/runtime.go: `TickNext`, which claims a due step of some run and settles it. Logs and counters are left out; times do not wrap.
pub mod Settling
use openjourney.Common.{
  ℕ, zero, Bool, true, false, List, [], ◌∷◌, Option, none, some, String, ◌==◌, if◌then◌else◌,
  is_empty, Result, ok, err,
}
use openjourney.Common.Int.{ℤ, pos, ◌+ℤ◌, int_ltb}
use openjourney.Json.{
  Json, null, obj, arr, Items, nil, cons, Fields, end, field, RawMessage, empty, value,
  decode_field, set_string, set_raw, unmarshal_struct,
}
use openjourney.Journey.Graph.{Node, Edge, Graph, NodeType, node_type}
use openjourney.Journey.Config.{NodeConfig, ConfigError, decode_config}
use openjourney.Journey.Runs.{
  Time, JourneyRun, JourneyStep, JourneyTransition, MessageIntent, ExecutionResult,
}
use openjourney.Journey.Store.{Query, Call, Store, Gateway, ExtensionHost, ExecutionError}
use openjourney.Journey.Execute.{Env, execute}
use openjourney.Journey.Parse.{parse_graph}

-- The step that is claimed; `available_at` is nothing where the time is zero.
pub record ClaimedStep : Type 0 where
  pub id : String
  pub run_id : String
  pub tenant_id : String
  pub node_id : String
  pub kind : String
  pub available_at : Option Time

pub record Version : Type 0 where
  pub graph : RawMessage
  pub late_policy : String

-- Why a step fails.
pub data Failure : Type 0 where
  get_run get_version advance_run skip reschedule : (message : String) → Failure
  bad_graph : Failure
  node_not_found : (id : String) → Failure
  execute_node : ExecutionError → Failure

-- What the run's new state, its next step, the transition and the intents are written with.
pub record Advance : Type 0 where
  pub run : JourneyRun
  pub step_id : String
  pub next_step : Option JourneyStep
  pub transition : JourneyTransition
  pub intents : List MessageIntent

pub record RuntimeStore (W : Type 0) : Type 0 where
  pub claim_step : Call W (Option ClaimedStep)
  pub get_run : (tenant_id run_id : String) → Query W JourneyRun
  pub get_version : (tenant_id version_id : String) → Query W Version
  pub advance_run : Advance → Call W (Unit {0})
  pub reschedule_step : (step_id : String) → Time → Call W (Unit {0})
  -- The error of `FailJourneyStep` is dropped.
  pub fail_step : (step_id : String) → Failure → Call W (Unit {0})

unfoldable pub find_node : String → List Node → Option Node
find_node id [] = none
find_node id (n ∷ ns) = if n.id == id then some n else find_node id ns

-- The target of the first edge that leaves the node, whatever its branch; no text if none does.
first_target : List Edge → String → String
first_target [] id = ""
first_target (e ∷ es) id = if e.from == id then e.to else first_target es id

-- The run and the step after a late step that is skipped.
unfoldable pub skip_advance : Time → ClaimedStep → JourneyRun → Graph → Node → Advance
unfolding first_target
skip_advance now step run g n =
    let to = first_target g.edges n.id in
    record {
      run =
          if is_empty to
          then (record run { status = "completed"; completed_at = some now })
          else (record run { status = "active"; current_node_id = to });
      step_id = step.id;
      next_step =
          if is_empty to
          then none
          else some (record {
            run_id = run.id;
            tenant_id = run.tenant_id;
            node_id = to;
            kind = "advance";
            status = "pending";
            available_at = now;
          });
      transition = record {
        run_id = run.id;
        tenant_id = run.tenant_id;
        from_node = some n.id;
        to_node = some to;
        node_type = n.type;
        outcome = "skipped";
        detail = value (obj (field "reason" (Json.str "late") end));
      };
      intents = [];
    }

-- The run and the step after an execution.
unfoldable pub result_advance : ClaimedStep → JourneyRun → ExecutionResult → Advance
result_advance step run r = record {
  run = record run {
    status = r.next_status;
    current_node_id = if is_empty r.next_node_id then run.current_node_id else r.next_node_id;
    completed_at = r.completed_at;
    goal_reached = r.goal_reached;
    state = r.state;
    wait_event_type = r.wait_event_type;
    wait_until = r.wait_until;
  };
  step_id = step.id;
  next_step = r.next_step;
  transition = r.transition;
  intents = r.message_intents;
}

-- 24 hours in place of no threshold.
abbrev threshold : ℤ → ℤ
threshold (pos zero) = pos 86400000000000
threshold z = z

-- `now.Sub(available_at) > threshold`.
abbrev pub is_late : Time → ℤ → ClaimedStep → Bool
is_late now late step = elim step.available_at [
  | none ↦ false
  | some t ↦ int_ltb (t +ℤ threshold late) now
]

-- The delay of a step that is put off: a delay node's own, if it is not zero.
abbrev or_threshold : ℤ → Option ℤ → ℤ
or_threshold late (some (pos zero)) = threshold late
or_threshold late (some d) = d
or_threshold late none = threshold late

abbrev delay_of : (String → Option ℤ) → NodeType → Result ConfigError NodeConfig → Option ℤ
delay_of parse_duration NodeType.delay (ok (NodeConfig.delay raw)) = parse_duration raw
delay_of parse_duration _ _ = none

module _ {W : Type 0} (rs : RuntimeStore W) (env : Env W) (late_threshold : ℤ)
    (step : ClaimedStep) where
  -- `failStep`, which ignores the error of the store.
  unfoldable pub fail : Failure → W → W
  fail failure w = (rs.fail_step step.id failure w).1

  -- The end of a step: the store's call succeeded, or the step fails.
  unfoldable pub settle : (String → Failure) → Result String (Unit {0}) × W → W
  unfolding fail
  settle failure (ok u, w) = w
  settle failure (err message, w) = fail (failure message) w

  unfoldable pub finish : JourneyRun → Result ExecutionError ExecutionResult × W → W
  unfolding settle fail
  finish run (err e, w) = fail (execute_node e) w
  finish run (ok r, w) = settle advance_run (rs.advance_run (result_advance step run r) w)

  -- The step at its node: the policy for late steps, and the execution.
  unfoldable pub at_node : JourneyRun → Version → Graph → Node → W → W
  unfolding settle finish
  at_node run version g n w =
      let run_it = finish run (execute (record env { step_kind = step.kind }) g n run w) in
      if is_late env.now late_threshold step
      then (if version.late_policy == "skip"
          then settle skip (rs.advance_run (skip_advance env.now step run g n) w)
          else if version.late_policy == "reschedule"
          then settle reschedule (
              rs.reschedule_step step.id
                (env.now
                  +ℤ or_threshold late_threshold
                      (delay_of env.parse_duration (node_type n.type) (decode_config n)))
                w)
          else run_it)
      else run_it

  unfoldable pub process : W → W
  unfolding find_node fail
  process w = elim (rs.get_run step.tenant_id step.run_id w) [
    | err m ↦ fail (get_run m) w
    | ok run ↦ elim (rs.get_version run.tenant_id run.journey_version_id w) [
      | err m ↦ fail (get_version m) w
      | ok version ↦ elim (parse_graph version.graph) [
        | none ↦ fail bad_graph w
        | some g ↦ elim (find_node step.node_id g.nodes) [
          | none ↦ fail (node_not_found step.node_id) w
          | some n ↦ at_node run version g n w
        ]
      ]
    ]
  ]

module _ {W : Type 0} (rs : RuntimeStore W) (env : Env W) (late_threshold : ℤ) where
  abbrev pub claimed : Result String (Option ClaimedStep) × W → Result String Bool × W
  claimed (err message, w) = (err message, w)
  claimed (ok none, w) = (ok false, w)
  claimed (ok (some step), w) = (ok true, process rs env late_threshold step w)

  unfoldable pub tick_next : W → Result String Bool × W
  tick_next w = claimed (rs.claim_step w)
