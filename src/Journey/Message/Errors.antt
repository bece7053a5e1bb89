-- ===== src/Journey/Message/Errors.antt =====
-- The errors of a message node, up to the lookup of the next node.
use openjourney.Common.{inl, inr, String, ◌==◌, ok, Bool-cases, is_empty, ℕ}
use openjourney.Json.{Fields, RawMessage, empty, malformed, value, null, obj}
use openjourney.Journey.Config.{MessageConfig}
use openjourney.Journey.Runs.{JourneyRun}
use openjourney.Journey.Store.{Store, ExecutionError, bad_attributes, pure}
use openjourney.Journey.Store.Ensures.{
  Outcome, IsOther, >>=-Ensures, pure-Ensures, ask_then, ask-Ensures,
}
use openjourney.Journey.Choose.{assigned}
use openjourney.Journey.Choose.Errors.{Runs, assigned-Runs}
use openjourney.Journey.Message.{attributes, endpoints, message_choice, message_parts, channel_of}

module _ {W : Type 0} (E : ExecutionError → Type 0) (other : (e : ExecutionError) → IsOther e → E e)
    (hash : String → ℕ) (store : Store W) (run : JourneyRun) where
  attributes-Outcome : (raw : RawMessage) → Outcome E (λ _. Unit {0}) (attributes raw)
  attributes-Outcome empty = tt
  attributes-Outcome malformed = other bad_attributes tt
  attributes-Outcome (value null) = tt
  attributes-Outcome (value (obj fs)) = tt
  attributes-Outcome (value _) = other bad_attributes tt

  endpoints-Runs :
      (channel : String) (attrs : Fields)
      → Runs E other hash store run (endpoints store run channel attrs)
  unfolding endpoints
  endpoints-Runs channel attrs = elim (Bool-cases (channel == "email")) [
    | inl email ↦ rw email (pure-Ensures E (λ _. Unit {0}) (ok _) tt)
    | inr no_email ↦ elim (Bool-cases (channel == "sms")) [
      | inl sms ↦ rw (no_email, sms) (pure-Ensures E (λ _. Unit {0}) (ok _) tt)
      | inr no_sms ↦ elim (Bool-cases (channel == "push")) [
        | inl push ↦ rw (no_email, no_sms, push) (ask-Ensures E other _ _)
        | inr no_push ↦ elim (Bool-cases (channel == "in_app")) [
          | inl in_app ↦
              rw (no_email, no_sms, no_push, in_app) (pure-Ensures E (λ _. Unit {0}) (ok _) tt)
          | inr custom ↦
              rw (no_email, no_sms, no_push, custom) (pure-Ensures E (λ _. Unit {0}) (ok _) tt)
        ]
      ]
    ]
  ]

  message_choice-Runs :
      (cfg : MessageConfig) → Runs E other hash store run (message_choice store run hash cfg)
  unfolding message_choice
  message_choice-Runs cfg = elim (Bool-cases (is_empty cfg.experiment_id)) [
    | inl plain ↦ rw plain (pure-Ensures E (λ _. Unit {0}) (ok _) tt)
    | inr tested ↦ rw tested (
        >>=-Ensures E (λ _. Unit {0}) _ (assigned hash store run cfg.experiment_id) _
          (assigned-Runs E other hash store run cfg.experiment_id)
          (λ p u. pure-Ensures E (λ _. Unit {0}) (ok _) tt))
  ]

  pub message_parts-Runs :
      (cfg : MessageConfig) → Runs E other hash store run (message_parts store run hash cfg)
  unfolding message_parts
  message_parts-Runs cfg =
      >>=-Ensures E (λ _. Unit {0}) _ (message_choice store run hash cfg) _
        (message_choice-Runs cfg)
        λ choice _. ask_then E other _ _ _ _ λ raw.
          >>=-Ensures E (λ _. Unit {0}) _ (pure (attributes raw)) _
            (pure-Ensures E _ _ (attributes-Outcome raw))
            λ attrs _.
              >>=-Ensures E (λ _. Unit {0}) _ (endpoints store run (channel_of cfg) attrs) _
                (endpoints-Runs (channel_of cfg) attrs)
                λ ends _. pure-Ensures E (λ _. Unit {0}) (ok _) tt
