-- ===== src/Journey/Choose.antt =====
-- internal/journey/nodes.go: the branch that `execute` chooses at a node with several, from its
-- configuration and what the store, the gateway or the extension host answers.
pub mod Declared
pub mod Errors
pub mod Splits
use openjourney.Common.{
  ℕ, ◌+◌, Bool, true, false, ◌&&◌, List, [], ◌∷◌, map, Option, none, some, String, ◌==◌, ltb,
  if◌then◌else◌, is_empty, contains, Result, ok, err,
}
use openjourney.Common.Int.{ℤ, is_positive, u64, to_u64, milliseconds}
use openjourney.Json.{RawMessage, decode_field, set_string, unmarshal_struct, is_absent}
use openjourney.Experiment.{Variant, assign, bucket_key, bucket_of}
use openjourney.Flags.{FeatureFlag, EvaluationResult, EvaluationError, evaluate}
use openjourney.Journey.Graph.{Node}
use openjourney.Journey.Config.{SplitBranch, SplitConfig, AiDecisionConfig, ExtensionNodeConfig}
use openjourney.Journey.Runs.{JourneyRun}
use openjourney.Journey.Store.{
  M, Store, Principal, Experiment, ExperimentVariant, Gateway, AiResponse, ExtensionHost,
  Invocation, ExecutionError, unsupported_mode, flag_key_required, flag_not_found, flag_error, pure,
  ask, perform, ◌>>=◌, ◌>>◌,
}

abbrev pub principal : JourneyRun → Principal
principal run = record {
  tenant_id = run.tenant_id;
  workspace_id = run.workspace_id;
  app_id = "";
  actor_type = "";
}

-- The `branch` of the JSON object that a gateway or an extension answers.
abbrev pub output_branch : RawMessage → Option String
output_branch raw = unmarshal_struct "" (λ fs. decode_field "branch" set_string fs "") raw

-- The loop over the declared branches, for an answer that decodes.
abbrev pub if_declared : List String → String → Option String → String
if_declared branches fallback none = fallback
if_declared branches fallback (some b) = if contains branches b then b else fallback

module _ {W : Type 0} (run : JourneyRun) (n : Node) where
  -- The branch of an AI decision and the id of the activity. An error of the gateway is no error.
  abbrev ai_answer :
      AiDecisionConfig
      → Result String (Option AiResponse) × W
      → Result ExecutionError (String × String) × W
  ai_answer cfg (ok (some response), w) = (
    ok (
      if_declared cfg.branches cfg.fallback (output_branch response.content),
      response.activity_id,
    ),
    w,
  )
  ai_answer cfg (ok none, w) = (ok (cfg.fallback, ""), w)
  ai_answer cfg (err e, w) = (ok (cfg.fallback, ""), w)

  unfoldable pub ai_branch : Option (Gateway W) → AiDecisionConfig → M W (String × String)
  ai_branch none cfg w = (ok (cfg.fallback, ""), w)
  ai_branch (some gateway) cfg w =
      if (is_empty cfg.prompt_version_id)
      then (ok (cfg.fallback, ""), w)
      else if is_positive cfg.timeout_ms
      then ai_answer cfg (
          gateway (principal run)
            (record {
              prompt_version_id = cfg.prompt_version_id;
              prompt = cfg.prompt;
              branches = cfg.branches;
              timeout = milliseconds cfg.timeout_ms;
              max_cost_cents = cfg.max_cost_cents;
            })
            w)
      else (ok (cfg.fallback, ""), w)

  abbrev extension_answer :
      ExtensionNodeConfig → Invocation × W → Result ExecutionError (String × String) × W
  extension_answer cfg (invocation, w) = elim invocation.response [
    | err e ↦ (ok (cfg.fallback, invocation.activity_id), w)
    | ok raw ↦ if is_absent raw then (ok (cfg.fallback, invocation.activity_id), w) else (
      ok (if_declared cfg.branches cfg.fallback (output_branch raw), invocation.activity_id),
      w,
    )
  ]

  unfoldable pub extension_branch :
      Option (ExtensionHost W) → ExtensionNodeConfig → M W (String × String)
  extension_branch none cfg w = (ok (cfg.fallback, ""), w)
  extension_branch (some host) cfg w =
      if is_empty cfg.extension_id
      then (ok (cfg.fallback, ""), w)
      else if is_positive cfg.timeout_ms
      then extension_answer cfg (
          host (record (principal run) { actor_type = "system" })
            (record {
              extension_id = cfg.extension_id;
              run_id = run.id;
              profile_id = run.profile_id;
              node_id = n.id;
              node_type = n.type;
              config = cfg.config;
              timeout = milliseconds cfg.timeout_ms;
            })
            w)
      else (ok (cfg.fallback, ""), w)

-- The loop of a random split: the weights are summed as `uint64`.
pub random_label : ℕ → ℕ → List SplitBranch → String
random_label bucket cumulative [] = ""
random_label bucket cumulative (b ∷ bs) =
    let cumulative' = u64 (cumulative + to_u64 b.weight) in
    if ltb bucket cumulative' then b.label else random_label bucket cumulative' bs

-- `cfg.Branches[len(cfg.Branches)-1].Label`, where there is a branch.
abbrev pub last_branch : List SplitBranch → String
last_branch [] = ""
last_branch (b ∷ []) = b.label
last_branch (b ∷ c ∷ bs) = last_branch (c ∷ bs)

abbrev pub or_last_branch : List SplitBranch → String → String
or_last_branch bs branch = if is_empty branch then last_branch bs else branch

abbrev experiment_variants : Experiment → List Variant
experiment_variants exp =
    map (λ (v : ExperimentVariant). record { label = v.label; weight = v.weight }) exp.variants

unfoldable pub find_flag : String → List FeatureFlag → Option FeatureFlag
find_flag key [] = none
find_flag key (f ∷ fs) = if f.key == key then some f else find_flag key fs

abbrev flag_branch : Result (EvaluationError String) EvaluationResult → Result ExecutionError String
flag_branch (err e) = err (flag_error e)
flag_branch (ok r) = ok (if is_empty r.variant then "default" else r.variant)

module _ {W : Type 0} (hash : String → ℕ) (store : Store W) (run : JourneyRun) where
  -- `GetExperiment`, `Assign` and `AssignExperiment`: the experiment and the variant on record.
  unfoldable pub assigned : String → M W (Experiment × String)
  assigned experiment_id = do
    exp ← ask "get experiment" (store.get_experiment (principal run) experiment_id)
    let computed = (assign hash exp.seed run.profile_id (experiment_variants exp) exp.holdout_pct).0
    variant ←
        perform "record experiment assignment"
          (store.assign_experiment (principal run) exp.id run.profile_id computed)
    pure (ok (exp, variant))

  -- The loop of a split by audience: a branch without a segment is taken unless a later one matches.
  pub audience_label : String → List SplitBranch → M W String
  audience_label branch [] = pure (ok branch)
  audience_label branch (b ∷ bs) =
      if is_empty b.segment_id
      then audience_label b.label bs
      else ask "check segment membership"
          (store.is_profile_in_segment (principal run) b.segment_id run.profile_id)
        >>= λ matched. if matched then pure (ok b.label) else audience_label branch bs

  unfoldable pub split_branch : Node → SplitConfig → M W String
  unfolding random_label audience_label
  split_branch n cfg =
      if is_empty cfg.experiment_id
      then (if cfg.mode == "random"
          then pure (
              ok (
                or_last_branch cfg.branches (
                  random_label (bucket_of hash (bucket_key run.profile_id n.id) 100) 0
                    cfg.branches)))
          else if cfg.mode == "audience"
          then (audience_label "" cfg.branches >>= λ b. pure (ok (or_last_branch cfg.branches b)))
          else pure (err (unsupported_mode cfg.mode)))
      else assigned cfg.experiment_id >>= λ (exp, variant). pure (ok variant)

  -- The audience evaluator is `journeyEvalAudienceAdapter`.
  abbrev evaluated : String → FeatureFlag → M W String
  evaluated app_id flag w = (
    flag_branch (
        evaluate
          (λ profile_id dsl.
            store.evaluate_audience (record (principal run) { app_id = app_id }) profile_id dsl w)
          hash flag run.profile_id),
    w,
  )

  unfoldable pub flag_label : String → M W String
  unfolding find_flag
  flag_label key = if is_empty key then pure (err flag_key_required) else (do
    app_id ← ask "get app id" (store.get_first_app_id (principal run))
    flags ← ask "list active flags" (store.list_active_flags run.tenant_id app_id "production")
    elim (find_flag key flags) [
      | none ↦ pure (err (flag_not_found key))
      | some f ↦ evaluated app_id f
    ])
