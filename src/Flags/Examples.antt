-- ===== src/Flags/Examples.antt =====
-- A flag with two variants of equal weight, evaluated under a hash that counts letters.
use Prim.Native.String.{count}
use openjourney.Common.{
  ℕ, ◌*◌, ◌≡◌, refl, ◌⊎◌, Bool, true, false, List, [], ◌∷◌, String, arith, Result, ok,
}
use openjourney.Common.Int.{pos}
use openjourney.Json.{RawMessage, value, Json}
use openjourney.Experiment.{bucket_of, assign}
use openjourney.Flags.{
  FlagVariant, FeatureFlag, EvaluationResult, rollout, serve, returns_default, evaluate,
}
use openjourney.Flags.Rollout.{IsListed, at_pct, rollout_first_only}
use openjourney.Flags.Targeting.{IsTargeted, evaluate-cases, evaluate_value, evaluate_rollout_mono}

abbrev on_off : List FlagVariant
on_off =
    record { label = "on"; value = value (Json.bool true); weight = pos 50 }
    ∷ record { label = "off"; value = value (Json.bool false); weight = pos 50 }
    ∷ []

abbrev half : FeatureFlag
half = record {
  key = "checkout";
  default_value = value Json.null;
  variants = on_off;
  targeting_rules = [];
  rollout_pct = pos 50;
  seed = "s";
  enabled = true;
  status = "published";
}

abbrev length_hash : String → ℕ
length_hash s = count s * 1000

abbrev no_audience : String → RawMessage → Result ℕ Bool
no_audience profile_id dsl = ok false

abbrev served_on : EvaluationResult
served_on = record { variant = "on"; value = value (Json.bool true); reason = "rollout" }

-- "s:ab" has four characters, and so the bucket 4000.
half_runs : evaluate no_audience length_hash half "ab" ≡ ok served_on
unfolding evaluate rollout bucket_of assign serve
half_runs = refl

evaluate-cases_example :
    (((half.status ≡ "disabled") ⊎ (half.enabled ≡ false))
      × (served_on ≡ returns_default half "disabled"))
    ⊎ ((¬ ((half.status ≡ "disabled") ⊎ (half.enabled ≡ false)))
        × IsTargeted no_audience half "ab" [] served_on)
    ⊎ ((¬ ((half.status ≡ "disabled") ⊎ (half.enabled ≡ false)))
        × Unit {0}
        × (served_on ≡ rollout length_hash half "ab"))
evaluate-cases_example = evaluate-cases no_audience half "ab" length_hash served_on half_runs

evaluate_value_example :
    ((served_on.variant ≡ "") × (served_on.value ≡ half.default_value)) ⊎ IsListed on_off served_on
evaluate_value_example = evaluate_value no_audience half "ab" length_hash served_on half_runs

evaluate_rollout_mono_example :
    evaluate no_audience length_hash (at_pct half 80) "ab" ≡ ok served_on
evaluate_rollout_mono_example =
    evaluate_rollout_mono no_audience length_hash half "ab" 50 80 served_on (omega arith)
      (omega arith) half_runs refl

half_rolls : (rollout length_hash half "ab").reason ≡ "rollout"
unfolding rollout bucket_of assign serve
half_rolls = refl

-- Each of the two variants has half of the weight, and the rollout is of half of the profiles.
rollout_first_only_example : (rollout length_hash (at_pct half 50) "ab").variant ≡ "on"
rollout_first_only_example =
    rollout_first_only length_hash half "ab"
      (record { label = "on"; value = value (Json.bool true); weight = pos 50 })
      (record { label = "off"; value = value (Json.bool false); weight = pos 50 } ∷ []) 50 refl
      (omega arith) (omega arith) (omega arith) (omega arith) half_rolls
