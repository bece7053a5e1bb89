-- ===== src/Experiment/Examples.antt =====
-- Assignments under a hash that counts letters.
use Prim.Native.String.{count}
use openjourney.Common.{ℕ, ◌-◌, ◌*◌, ◌/◌, ◌<◌, ◌≡◌, refl, true, false, List, [], ◌∷◌, String, arith}
use openjourney.Common.Int.{pos, negsuc}
use openjourney.Experiment.{Variant, bucket_of, clamp_pct, assign}
use openjourney.Experiment.Picking.{IsPicked}
use openjourney.Experiment.Assignment.{bucket_for, assign-IsPicked, assign_holdout_mono}

abbrev length_hash : String → ℕ
length_hash s = count s * 1000

abbrev arms : List Variant
arms =
    record { label = "control"; weight = pos 30 }
    ∷ record { label = "retired"; weight = negsuc 4 }
    ∷ record { label = "treatment"; weight = pos 70 }
    ∷ []

-- Buckets 4000 and 3000: the holdout is the first tenth.
assigned_treatment : assign length_hash "s" "ab" arms (pos 10) ≡ ("treatment", false)
unfolding assign
assigned_treatment = refl

assigned_control : assign length_hash "s" "a" arms (pos 10) ≡ ("control", false)
unfolding assign
assigned_control = refl

held_out : (assign length_hash "s" "ab" arms (pos 41)).1 ≡ true
unfolding assign
held_out = refl

past_holdout : clamp_pct (pos 10) * 100 < bucket_for length_hash "s" "ab"
unfolding bucket_of
past_holdout = omega arith

assign-IsPicked_example :
    (label : String) × (assign length_hash "s" "ab" arms (pos 10) ≡ (label, false))
    × IsPicked ((bucket_for length_hash "s" "ab" - 1000) * 100 / 9000) 0 arms label
assign-IsPicked_example =
    assign-IsPicked length_hash "s" "ab" arms (pos 10) (omega arith) (omega arith)
      (omega (arith, past_holdout))

assign_holdout_mono_example : (assign length_hash "s" "ab" arms (pos 60)).1 ≡ true
assign_holdout_mono_example =
    assign_holdout_mono length_hash "s" "ab" arms 41 60 (omega arith) held_out
