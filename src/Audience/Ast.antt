-- ===== src/Audience/Ast.antt =====
-- internal/audience/ast.go. A value of any type is what a JSON decoder gives; a score's value is a
-- float64, for which the text of the JSON number stands.
use openjourney.Common.{Option, String}
use openjourney.Common.Int.{ℤ}
use openjourney.Json.{Json}

pub record ProfileAttribute : Type 0 where
  pub field_name : String
  pub operator : String
  pub val : Option Json

pub record EventHistory : Type 0 where
  pub event_type : String
  pub operator : String
  pub time_window_days : ℤ
  pub min_count : ℤ

pub record Consent : Type 0 where
  pub channel : String
  pub topic : String
  pub state : String

pub record Score : Type 0 where
  pub model : String
  pub score_name : String
  pub operator : String
  pub val : Json

pub record Company : Type 0 where
  pub field_name : String
  pub operator : String
  pub val : Option Json

mutual
  pub data AstNode : Type 0 where
    and : AstNodes → AstNode
    or : AstNodes → AstNode
    not : AstNode → AstNode
    profile_attribute : ProfileAttribute → AstNode
    event_history : EventHistory → AstNode
    consent : Consent → AstNode
    score : Score → AstNode
    company : Company → AstNode

  pub data AstNodes : Type 0 where
    nil : AstNodes
    cons : AstNode → AstNodes → AstNodes
