-- ===== src/Flags.antt =====
-- internal/flags/evaluate.go: the value of a feature flag for a profile.
-- The audience evaluator is a parameter `eval`: it answers for a rule's DSL, or fails with an `E`.
pub mod Rollout
pub mod Targeting
mod Examples
use openjourney.Common.{
  ℕ, ◌-◌, ◌*◌, ◌+◌, ◌%◌, ◌^◌, suc, Bool, true, false, not, ◌||◌, List, [], ◌∷◌, map, Option, none,
  some, String, ◌==◌, ltb, if◌then◌else◌, is_empty, Result, ok, err, ◌>>=◌,
}
use openjourney.Common.Int.{ℤ, pos, negsuc, u64}
use openjourney.Json.{RawMessage}
use openjourney.Experiment.{Variant, bucket_key, bucket_of, assign}

pub record FlagVariant : Type 0 where
  pub label : String
  pub value : RawMessage
  pub weight : ℤ

pub record TargetingRule : Type 0 where
  pub dsl : RawMessage
  pub variant : String

-- The fields of `domain.FeatureFlag` that the evaluation reads, and its key.
pub record FeatureFlag : Type 0 where
  pub key : String
  pub default_value : RawMessage
  pub variants : List FlagVariant
  pub targeting_rules : List TargetingRule
  pub rollout_pct : ℤ
  pub seed : String
  pub enabled : Bool
  pub status : String

pub record EvaluationResult : Type 0 where
  pub variant : String
  pub value : RawMessage
  pub reason : String

pub data EvaluationError (E : Type 0) : Type 0 where
  audience_rule : E → EvaluationError E
  variant_not_found : String → EvaluationError E

abbrev pub returns_default : FeatureFlag → String → EvaluationResult
returns_default flag reason = record { variant = ""; value = flag.default_value; reason = reason }

-- The loops that look a variant up by its label.
unfoldable pub find_variant : String → List FlagVariant → Option FlagVariant
find_variant label [] = none
find_variant label (v ∷ vs) = if v.label == label then some v else find_variant label vs

-- `uint64(flag.RolloutPct * 100)`, modulo 2 ^ 64.
abbrev pub rollout_threshold : ℤ → ℕ
rollout_threshold (pos n) = u64 (n * 100)
rollout_threshold (negsuc n) = u64 (2 ^ 64 - u64 (suc n * 100))

abbrev pub experiment_variant : FlagVariant → Variant
experiment_variant v = record { label = v.label; weight = v.weight }

module _ {E : Type 0} (eval : String → RawMessage → Result E Bool) where
  -- The loop over the targeting rules: `none` if no rule matches.
  pub target :
      List FlagVariant
      → String
      → List TargetingRule
      → Result (EvaluationError E) (Option EvaluationResult)
  target variants profile_id [] = ok none
  target variants profile_id (rule ∷ rules) = elim (eval profile_id rule.dsl) [
    | err e ↦ err (audience_rule e)
    | ok false ↦ target variants profile_id rules
    | ok true ↦ elim (find_variant rule.variant variants) [
      | some v ↦ ok (some (record { variant = rule.variant; value = v.value; reason = "targeted" }))
      | none ↦ err (variant_not_found rule.variant)
    ]
  ]

-- The variant that `Assign` names, as the result.
unfoldable pub serve : FeatureFlag → String → EvaluationResult
unfolding find_variant
serve flag label =
    if is_empty label || label == "holdout"
    then returns_default flag "rollout_excluded"
    else elim (find_variant label flag.variants) [
      | some v ↦ record { variant = label; value = v.value; reason = "rollout" }
      | none ↦ returns_default flag "rollout_excluded"
    ]

-- What follows the loop: the rollout.
unfoldable pub rollout : (String → ℕ) → FeatureFlag → String → EvaluationResult
rollout hash flag profile_id =
    if ltb (bucket_of hash (bucket_key flag.seed profile_id) 10000)
      (rollout_threshold flag.rollout_pct)
    then serve flag
        (assign hash flag.seed profile_id (map experiment_variant flag.variants) (pos 0)).0
    else returns_default flag "rollout_excluded"

unfoldable pub evaluate :
    {E : Type 0} (eval : String → RawMessage → Result E Bool) (hash : String → ℕ)
    → FeatureFlag
    → String
    → Result (EvaluationError E) EvaluationResult
unfolding target
evaluate eval hash flag profile_id =
    if flag.status == "disabled" || not flag.enabled
    then ok (returns_default flag "disabled")
    else target eval flag.variants profile_id flag.targeting_rules >>= λ targeted. elim targeted [
      | some result ↦ ok result
      | none ↦ ok (rollout hash flag profile_id)
    ]
