-- ===== src/Journey/Execute/Branches.antt =====
-- `execute` as a whole: each step follows an edge that the node's configuration names.
use openjourney.Common.{
  ◌≡◌, refl, subst, ◌⊎◌, inl, inr, Bool, true, false, String, ok, Result-cases, if◌then◌else◌,
}
use openjourney.Journey.Graph.{Node, Graph, NodeType, node_type}
use openjourney.Journey.Graph.Edges.{IsTarget}
use openjourney.Journey.Config.{NodeConfig, decode_config}
use openjourney.Journey.Runs.{JourneyRun, ExecutionResult}
use openjourney.Journey.Store.{M, ExecutionError, config_error, unsupported_type}
use openjourney.Journey.Store.Ensures.{
  Outcome, IsOther, Any, >>=-Ensures, pure-Ensures, ask_then, ever,
}
use openjourney.Journey.Choose.{ai_branch, extension_branch, split_branch, flag_label}
use openjourney.Journey.Choose.Declared.{Declared, ai_branch-IsDecided, extension_branch-IsDecided}
use openjourney.Journey.Message.{message_parts}
use openjourney.Journey.Message.Errors.{message_parts-Runs}
use openjourney.Journey.Choose.Errors.{split_branch-Runs, flag_label-Runs}
use openjourney.Journey.Execute.{
  Env, next_node, configured, decoded, execute_as, execute, no_detail, reach_goal,
}
use openjourney.Journey.Execute.Steps.{
  IsStep, Steps, follow-Steps, advance-Steps, reach_goal-Keeps, decide-Steps, send-Steps,
  take_branch-Steps, act-Steps, sleep-Steps, wait-Steps, exited-Ends, next_node-any, next_node-any,
}

-- The branches that a step from a node with the configuration may follow.
abbrev pub Branches : NodeConfig → String → Type 0
Branches (NodeConfig.condition dsl) b = (b ≡ "true") ⊎ (b ≡ "false")
Branches (NodeConfig.ai_decision cfg) b = Declared cfg.branches cfg.fallback b
Branches (NodeConfig.extension cfg) b = Declared cfg.branches cfg.fallback b
Branches (NodeConfig.wait_event cfg) b = b ≡ "timeout"
Branches (NodeConfig.split cfg) b = Unit {0}
Branches (NodeConfig.feature_flag key) b = Unit {0}
Branches _ b = b ≡ ""

module _ {W : Type 0} (E : ExecutionError → Type 0) (other : (e : ExecutionError) → IsOther e → E e)
    (env : Env W) (g : Graph) (n : Node) (run : JourneyRun) where
  abbrev Known : NodeConfig → Type 0
  Known c = (b : String) → Branches c b → Outcome E (IsTarget g n) (next_node g n b)

  abbrev Fine : M W ExecutionResult → Type 0
  Fine m = Steps g n run env.now E m

  condition_branch :
      (dsl : _) (b : Bool) → Branches (NodeConfig.condition dsl) (if b then "true" else "false")
  condition_branch dsl true = inl refl
  condition_branch dsl false = inr refl

  configured-Fine : (c : NodeConfig) → Known c → Fine (configured env g n run c)
  unfolding configured
  configured-Fine (NodeConfig.delay duration) next =
      sleep-Steps g n run env.now E other duration (env.parse_duration duration) (next "" refl)
  configured-Fine (NodeConfig.condition dsl) next =
      ask_then E other _ _ _ _
        λ matched. advance-Steps g n run env.now E _ _ (next _ (condition_branch dsl matched))
  configured-Fine (NodeConfig.ai_decision cfg) next =
      >>=-Ensures E (λ p. Declared cfg.branches cfg.fallback p.0) _
        (ai_branch run n env.gateway cfg) _ (ever E _ _ (ai_branch-IsDecided run n env.gateway cfg))
        λ p d. decide-Steps g n run env.now E "ai_activity_id" p (next p.0 d)
  configured-Fine (NodeConfig.extension cfg) next =
      >>=-Ensures E (λ p. Declared cfg.branches cfg.fallback p.0) _
        (extension_branch run n env.ext_host cfg) _
        (ever E _ _ (extension_branch-IsDecided run n env.ext_host cfg))
        λ p d. decide-Steps g n run env.now E "extension_activity_id" p (next p.0 d)
  configured-Fine (NodeConfig.split cfg) next =
      >>=-Ensures E (λ _. Unit {0}) _ (split_branch env.hash env.store run n cfg) _
        (split_branch-Runs E other env.hash env.store run n cfg)
        λ b _. take_branch-Steps g n run env.now E other b (next b tt)
  configured-Fine (NodeConfig.action cfg) next =
      act-Steps g n run env.now E other env.store cfg (next "" refl)
  configured-Fine (NodeConfig.message cfg) next =
      >>=-Ensures E (λ _. Unit {0}) _ (message_parts env.store run env.hash cfg) _
        (message_parts-Runs E other env.hash env.store run cfg)
        λ p _. send-Steps g n run env.now E cfg p (next "" refl)
  configured-Fine (NodeConfig.wait_event cfg) next =
      wait-Steps g n run env.now E other env.step_kind cfg (env.parse_duration cfg.timeout)
        (next "timeout" refl)
  configured-Fine (NodeConfig.feature_flag key) next =
      >>=-Ensures E (λ _. Unit {0}) _ (flag_label env.hash env.store run key) _
        (flag_label-Runs E other env.hash env.store run key)
        λ b _. advance-Steps g n run env.now E b _ (next b tt)
  configured-Fine (NodeConfig.entry cfg) next =
      pure-Ensures E _ _ (other (unsupported_type n.type) tt)
  configured-Fine (NodeConfig.goal cfg) next =
      pure-Ensures E _ _ (other (unsupported_type n.type) tt)
  configured-Fine (NodeConfig.exit cfg) next =
      pure-Ensures E _ _ (other (unsupported_type n.type) tt)

  -- The edges that the execution of the node may look up: those of its configuration, or the plain
  -- one of an entry or a goal.
  abbrev pub Wanted : NodeType → Type 0
  Wanted NodeType.entry = Outcome E (IsTarget g n) (next_node g n "")
  Wanted NodeType.goal = Outcome E (IsTarget g n) (next_node g n "")
  Wanted NodeType.exit = Unit {0}
  Wanted NodeType.reserved = Unit {0}
  Wanted NodeType.unknown = Unit {0}
  Wanted _ = (c : NodeConfig) → decode_config n ≡ ok c → Known c

  decoded-Fine : ((c : NodeConfig) → decode_config n ≡ ok c → Known c) → Fine (decoded env g n run)
  decoded-Fine next = elim (Result-cases (decode_config n)) [
    | inl (c, decodes) ↦ rw (decodes, decoded) (configured-Fine c (next c decodes))
    | inr (e, fails) ↦ rw (fails, decoded) (pure-Ensures E _ _ (other (config_error e) tt))
  ]

  execute_as-Fine :
      (t : NodeType) → node_type n.type ≡ t → Wanted t → Fine (execute_as env g n run t)
  unfolding execute_as
  execute_as-Fine NodeType.entry same next = advance-Steps g n run env.now E "" "advanced" next
  execute_as-Fine NodeType.goal same next =
      follow-Steps g n run env.now E "" "goal_reached" no_detail env.now reach_goal
        (reach_goal-Keeps g n run env.now) next
  execute_as-Fine NodeType.exit same next =
      pure-Ensures E _ _ (inr (inr (exited-Ends g n run env.now (rw same refl))))
  execute_as-Fine NodeType.reserved same next =
      pure-Ensures E _ _ (other (unsupported_type n.type) tt)
  execute_as-Fine NodeType.unknown same next =
      pure-Ensures E _ _ (other (unsupported_type n.type) tt)
  execute_as-Fine _ same next = decoded-Fine next

  pub execute-Fine : Wanted (node_type n.type) → Fine (execute env g n run)
  unfolding execute
  execute-Fine next = execute_as-Fine (node_type n.type) refl next

module _ {W : Type 0} (env : Env W) (g : Graph) (n : Node) (run : JourneyRun) where
  lookups_given : (t : NodeType) → Wanted Any (λ e _. tt) env g n run t
  lookups_given NodeType.entry = next_node-any Any g n (λ e. tt) ""
  lookups_given NodeType.goal = next_node-any Any g n (λ e. tt) ""
  lookups_given NodeType.exit = tt
  lookups_given NodeType.reserved = tt
  lookups_given NodeType.unknown = tt
  lookups_given _ = λ c _ b _. next_node-any Any g n (λ e. tt) b

  -- An execution of a node that succeeds moves the run along an edge of the graph that leaves the
  -- node and leaves one pending step for the edge's target, or keeps the run waiting at the node with
  -- one pending timeout step, or, at an exit only, completes the run and leaves no step.
  pub execute-IsStep :
      (w : W) (r : ExecutionResult) → (execute env g n run w).0 ≡ ok r → IsStep g n run env.now r
  execute-IsStep w r h =
      let fine = execute-Fine Any (λ e _. tt) env g n run (lookups_given (node_type n.type)) in
      subst (Outcome Any (IsStep g n run env.now)) h (fine.at_world w)
