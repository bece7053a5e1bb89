-- ===== src/Journey/Runs.antt =====
-- The runs of a journey, their steps and what a step leaves behind: internal/domain/domain.go, and
-- `ExecutionResult` of internal/journey/nodes.go. A field that the database fills is left out.
-- A time is a number of nanoseconds from the epoch.
use openjourney.Common.{Bool, List, Option, String}
use openjourney.Common.Int.{ℤ}
use openjourney.Json.{RawMessage}

abbrev pub Time : Type 0
Time = ℤ

pub record JourneyRun : Type 0 where
  pub id : String
  pub tenant_id : String
  pub workspace_id : String
  pub journey_id : String
  pub journey_version_id : String
  pub profile_id : String
  pub status : String
  pub current_node_id : String
  pub state : RawMessage
  pub wait_event_type : Option String
  pub wait_until : Option Time
  pub goal_reached : Bool
  pub completed_at : Option Time

pub record JourneyStep : Type 0 where
  pub run_id : String
  pub tenant_id : String
  pub node_id : String
  pub kind : String
  pub status : String
  pub available_at : Time

pub record JourneyTransition : Type 0 where
  pub run_id : String
  pub tenant_id : String
  pub from_node : Option String
  pub to_node : Option String
  pub node_type : String
  pub outcome : String
  pub detail : RawMessage

pub record MessageIntent : Type 0 where
  pub run_id : String
  pub tenant_id : String
  pub workspace_id : String
  pub journey_id : String
  pub journey_version_id : String
  pub node_id : String
  pub profile_id : String
  pub experiment_id : Option String
  pub variant : String
  pub template_id : String
  pub channel : String
  pub endpoint : String
  pub transactional : Bool
  pub status : String
  pub available_at : Time
  pub decision : Option String
  pub reason : Option String

pub record ExecutionResult : Type 0 where
  pub next_node_id : String
  pub next_step : Option JourneyStep
  pub transition : JourneyTransition
  pub next_status : String
  pub completed_at : Option Time
  pub goal_reached : Bool
  pub wait_event_type : Option String
  pub wait_until : Option Time
  pub state : RawMessage
  pub message_intents : List MessageIntent
