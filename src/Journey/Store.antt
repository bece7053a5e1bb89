-- ===== src/Journey/Store.antt =====
-- What the execution of a node asks of the world: the store, internal/ports/store.go, the AI gateway
-- and the extension host. Each call takes the world and returns the new one; a call that fails
-- returns a text. The implementations are parameters.
pub mod Ensures
use openjourney.Common.{ℕ, Bool, List, Option, none, some, String, Result, ok, err}
use openjourney.Common.Int.{ℤ}
use openjourney.Json.{RawMessage, Fields, Json}
use openjourney.Flags.{FeatureFlag, EvaluationError}
use openjourney.Journey.Config.{ConfigError}
use openjourney.Journey.Runs.{Time}

-- A query, which leaves the world as it is, and a call that changes it.
abbrev pub Query : Type 0 → Type 0 → Type 0
Query W A = W → Result String A

abbrev pub Call : Type 0 → Type 0 → Type 0
Call W A = W → Result String A × W

pub record Principal : Type 0 where
  pub tenant_id : String
  pub workspace_id : String
  pub app_id : String
  pub actor_type : String

pub record ExperimentVariant : Type 0 where
  pub label : String
  pub weight : ℤ
  pub template_id : Option String

pub record Experiment : Type 0 where
  pub id : String
  pub seed : String
  pub holdout_pct : ℤ
  pub variants : List ExperimentVariant

pub record Event : Type 0 where
  pub type : String
  pub external_id : String
  pub idempotency_key : String
  pub occurred_at : Time
  pub payload : Json

pub record Store (W : Type 0) : Type 0 where
  pub evaluate_audience : Principal → (profile_id : String) → (dsl : RawMessage) → Query W Bool
  pub get_experiment : Principal → (id : String) → Query W Experiment
  -- The variant that is stored for the profile, which may be an earlier one than `computed`.
  pub assign_experiment : Principal → (id profile_id computed : String) → Call W String
  pub is_profile_in_segment : Principal → (segment_id profile_id : String) → Query W Bool
  pub update_profile_attributes : Principal → (profile_id : String) → Fields → Call W (Unit {0})
  pub accept_events : Principal → List Event → Call W (Unit {0})
  -- The attributes of the profile.
  pub get_profile : Principal → (profile_id : String) → Query W RawMessage
  -- The tokens of the profile's active devices.
  pub list_active_device_tokens : Principal → (profile_id : String) → Query W (List String)
  pub get_first_app_id : Principal → Query W String
  pub list_active_flags : (tenant_id app_id environment : String) → Query W (List FeatureFlag)

-- The response of the gateway, if it is not nil: its content as the JSON that is read from it.
pub record AiResponse : Type 0 where
  pub content : RawMessage
  pub activity_id : String

pub record AiRequest : Type 0 where
  pub prompt_version_id : String
  pub prompt : String
  pub branches : List String
  pub timeout : ℤ
  pub max_cost_cents : ℤ

abbrev pub Gateway : Type 0 → Type 0
Gateway W = Principal → AiRequest → Call W (Option AiResponse)

-- `InvokeWithScope`, which returns the id of the activity beside an error too.
pub record Invocation : Type 0 where
  pub activity_id : String
  pub response : Result String RawMessage

pub record ExtensionRequest : Type 0 where
  pub extension_id : String
  pub run_id : String
  pub profile_id : String
  pub node_id : String
  pub node_type : String
  pub config : RawMessage
  pub timeout : ℤ

abbrev pub ExtensionHost : Type 0 → Type 0
ExtensionHost W = Principal → ExtensionRequest → W → Invocation × W

pub data ExecutionError : Type 0 where
  no_edge : (from branch : String) → ExecutionError
  config_error : ConfigError → ExecutionError
  invalid_duration unsupported_mode unsupported_action unsupported_type : String → ExecutionError
  store_error : (call message : String) → ExecutionError
  bad_state bad_attributes flag_key_required : ExecutionError
  flag_not_found : String → ExecutionError
  flag_error : EvaluationError String → ExecutionError

-- The execution of a node: an error leaves the changes that the calls before it made.
abbrev pub M : Type 0 → Type 0 → Type 0
M W A = W → Result ExecutionError A × W

module _ {W : Type 0} where
  infixl 5 ◌>>=◌ ◌>>◌
  unfoldable pub ◌>>=◌ : {A B : Type 0} → M W A → (A → M W B) → M W B
  ◌>>=◌ m f w = let (r, w') = m w in elim r [ ok a ↦ f a w' | err e ↦ (err e, w') ]

  abbrev pub ◌>>◌ : {A B : Type 0} → M W A → M W B → M W B
  ◌>>◌ m k = m >>= λ _. k

abbrev pub wrapped : {A : Type 0} → String → Result String A → Result ExecutionError A
wrapped name (ok a) = ok a
wrapped name (err message) = err (store_error name message)

-- A value that no call is made for, and the calls, whose errors are wrapped.
module _ {W A : Type 0} where
  unfoldable pub pure : Result ExecutionError A → M W A
  pure r w = (r, w)

  unfoldable pub ask : String → Query W A → M W A
  ask name q w = (wrapped name (q w), w)

  unfoldable pub perform : String → Call W A → M W A
  perform name c w = let (r, w') = c w in (wrapped name r, w')
