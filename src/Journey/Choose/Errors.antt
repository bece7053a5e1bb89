-- ===== src/Journey/Choose/Errors.antt =====
-- The errors of a choice: none is that of a missing edge, which only the next node's lookup returns.
use openjourney.Common.{
  inl, inr, List, [], ◌∷◌, String, ◌==◌, Result, ok, err, Bool-cases, Option-cases, is_empty, ℕ,
}
use openjourney.Flags.{EvaluationError, EvaluationResult}
use openjourney.Journey.Graph.{Node}
use openjourney.Journey.Config.{SplitBranch, SplitConfig}
use openjourney.Journey.Runs.{JourneyRun}
use openjourney.Journey.Store.{
  M, Store, ExecutionError, unsupported_mode, flag_key_required, flag_not_found, flag_error,
}
use openjourney.Journey.Store.Ensures.{
  Outcome, Ensures, IsOther, >>=-Ensures, pure-Ensures, ask_then, perform_then,
}
use openjourney.Journey.Choose.{
  assigned, audience_label, split_branch, find_flag, flag_branch, flag_label,
}

module _ {W : Type 0} (E : ExecutionError → Type 0) (other : (e : ExecutionError) → IsOther e → E e)
    (hash : String → ℕ) (store : Store W) (run : JourneyRun) where
  abbrev pub Runs : {A : Type 0} → M W A → Type 0
  Runs m = Ensures E (λ _. Unit {0}) m

  pub assigned-Runs : (id : String) → Runs (assigned hash store run id)
  unfolding assigned
  assigned-Runs id =
      ask_then E other _ _ _ _ λ exp. perform_then E other _ _ _ _ λ variant. pure-Ensures E _ _ tt

  audience_label-Runs :
      (branch : String) (bs : List SplitBranch) → Runs (audience_label hash store run branch bs)
  unfolding audience_label
  audience_label-Runs branch [] = pure-Ensures E _ _ tt
  audience_label-Runs branch (b ∷ bs) = elim (Bool-cases (is_empty b.segment_id)) [
    | inl free ↦ rw free (audience_label-Runs b.label bs)
    | inr closed ↦ rw closed (
        ask_then E other _ _ _ _ λ matched. elim (Bool-cases matched) [
          | inl inside ↦ rw inside (pure-Ensures E (λ _. Unit {0}) (ok b.label) tt)
          | inr outside ↦ rw outside (audience_label-Runs branch bs)
        ])
  ]

  pub split_branch-Runs : (n : Node) (cfg : SplitConfig) → Runs (split_branch hash store run n cfg)
  unfolding split_branch
  split_branch-Runs n cfg = elim (Bool-cases (is_empty cfg.experiment_id)) [
    | inr listed ↦ rw listed (
        >>=-Ensures E (λ _. Unit {0}) _ (assigned hash store run cfg.experiment_id) _
          (assigned-Runs cfg.experiment_id) (λ p u. pure-Ensures E _ _ tt))
    | inl plain ↦ elim (Bool-cases (cfg.mode == "random")) [
      | inl random ↦ rw (plain, random) (pure-Ensures E _ _ tt)
      | inr not_random ↦ elim (Bool-cases (cfg.mode == "audience")) [
        | inr unknown ↦
            rw (plain, not_random, unknown)
              (pure-Ensures E _ _ (other (unsupported_mode cfg.mode) tt))
        | inl audience ↦
            rw (plain, not_random, audience)
              (>>=-Ensures E (λ _. Unit {0}) _ (audience_label hash store run "" cfg.branches) _
                (audience_label-Runs "" cfg.branches) (λ b u. pure-Ensures E _ _ tt))
      ]
    ]
  ]

  flag_branch-Outcome :
      (r : Result (EvaluationError String) EvaluationResult)
      → Outcome E (λ _. Unit {0}) (flag_branch r)
  flag_branch-Outcome (ok r) = tt
  flag_branch-Outcome (err e) = other (flag_error e) tt

  pub flag_label-Runs : (key : String) → Runs (flag_label hash store run key)
  unfolding flag_label
  flag_label-Runs key = elim (Bool-cases (is_empty key)) [
    | inl absent ↦ rw absent (pure-Ensures E _ _ (other flag_key_required tt))
    | inr present ↦ rw present (
        ask_then E other _ _ _ _ λ app_id. ask_then E other _ _ _ _ λ flags.
          elim (Option-cases (find_flag key flags)) [
            | inl missing ↦
                rw missing (pure-Ensures E (λ _. Unit {0}) _ (other (flag_not_found key) tt))
            | inr (f, found) ↦ rw found (record { at_world = λ w. flag_branch-Outcome _ })
          ])
  ]
