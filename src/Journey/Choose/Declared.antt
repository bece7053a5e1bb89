-- ===== src/Journey/Choose/Declared.antt =====
-- A branch that a gateway or an extension decides is one that the node declares.
use openjourney.Common.{
  ◌≡◌, refl, ◌⊎◌, inl, inr, List, Option, none, some, String, Result, ok, err, contains,
  contains-In, In, Bool-cases, is_empty,
}
use openjourney.Common.Int.{is_positive}
use openjourney.Json.{RawMessage, is_absent}
use openjourney.Journey.Graph.{Node}
use openjourney.Journey.Config.{AiDecisionConfig, ExtensionNodeConfig}
use openjourney.Journey.Runs.{JourneyRun}
use openjourney.Journey.Store.{Gateway, AiResponse, ExtensionHost, Invocation, ExecutionError}
use openjourney.Journey.Store.Ensures.{Ensures, Outcome}
use openjourney.Journey.Choose.{
  if_declared, output_branch, ai_answer, ai_branch, extension_answer, extension_branch,
}

abbrev pub Declared : List String → String → String → Type 0
Declared branches fallback branch = (branch ≡ fallback) ⊎ In branch branches

if_declared-Declared :
    (branches : List String) (fallback : String) (o : Option String)
    → Declared branches fallback (if_declared branches fallback o)
if_declared-Declared branches fallback none = inl refl
if_declared-Declared branches fallback (some b) = elim (Bool-cases (contains branches b)) [
  | inl declared ↦ rw declared (inr (contains-In branches b declared))
  | inr foreign ↦ rw foreign (inl refl)
]

-- A decision never fails, and its branch is one that the node declares or the fallback.
abbrev pub IsDecided :
    {W : Type 0} → List String → String → (W → Result ExecutionError (String × String) × W) → Type 0
IsDecided {W} branches fallback m =
    Ensures (λ e. ⊥) (λ (p : String × String). Declared branches fallback p.0) m

module _ {W : Type 0} (run : JourneyRun) (n : Node) where
  ai_answer-Declared :
      (cfg : AiDecisionConfig) (a : Result String (Option AiResponse) × W)
      → Outcome (λ e. ⊥) (λ p. Declared cfg.branches cfg.fallback p.0) (ai_answer run n cfg a).0
  ai_answer-Declared cfg (ok (some response), w) =
      if_declared-Declared cfg.branches cfg.fallback (output_branch response.content)
  ai_answer-Declared cfg (ok none, w) = inl refl
  ai_answer-Declared cfg (err e, w) = inl refl

  pub ai_branch-IsDecided :
      (gateway : Option (Gateway W)) (cfg : AiDecisionConfig)
      → IsDecided cfg.branches cfg.fallback (ai_branch run n gateway cfg)
  unfolding ai_branch
  ai_branch-IsDecided none cfg = record { at_world = λ w. inl refl }
  ai_branch-IsDecided (some gateway) cfg = record {
    at_world = λ w. elim (Bool-cases (is_empty cfg.prompt_version_id)) [
      | inl absent ↦ rw absent (inl refl)
      | inr present ↦ elim (Bool-cases (is_positive cfg.timeout_ms)) [
        | inl timed ↦ rw (present, timed) (ai_answer-Declared cfg _)
        | inr untimed ↦ rw (present, untimed) (inl refl)
      ]
    ];
  }

  response-Declared :
      (cfg : ExtensionNodeConfig) (id : String) (r : Result String RawMessage) (w : W)
      → Outcome
          (λ e. ⊥)
          (λ p. Declared cfg.branches cfg.fallback p.0)
          (extension_answer run n cfg (record { activity_id = id; response = r }, w)).0
  response-Declared cfg id (err e) w = inl refl
  response-Declared cfg id (ok raw) w = elim (Bool-cases (is_absent raw)) [
    | inl absent ↦ rw absent (inl refl)
    | inr present ↦ rw present (if_declared-Declared cfg.branches cfg.fallback (output_branch raw))
  ]

  extension_answer-Declared :
      (cfg : ExtensionNodeConfig) (a : Invocation × W)
      → Outcome
          (λ e. ⊥)
          (λ p. Declared cfg.branches cfg.fallback p.0)
          (extension_answer run n cfg a).0
  extension_answer-Declared cfg (i, w) = response-Declared cfg i.activity_id i.response w

  pub extension_branch-IsDecided :
      (host : Option (ExtensionHost W)) (cfg : ExtensionNodeConfig)
      → IsDecided cfg.branches cfg.fallback (extension_branch run n host cfg)
  unfolding extension_branch
  extension_branch-IsDecided none cfg = record { at_world = λ w. inl refl }
  extension_branch-IsDecided (some host) cfg = record {
    at_world = λ w. elim (Bool-cases (is_empty cfg.extension_id)) [
      | inl absent ↦ rw absent (inl refl)
      | inr present ↦ elim (Bool-cases (is_positive cfg.timeout_ms)) [
        | inl timed ↦ rw (present, timed) (extension_answer-Declared cfg _)
        | inr untimed ↦ rw (present, untimed) (inl refl)
      ]
    ];
  }
