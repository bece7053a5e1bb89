-- ===== src/Experiment.antt =====
-- internal/experiment/assign.go: deterministic assignment of a profile to a weighted variant.
-- SHA-256 is the parameter `hash`: a text to the first eight bytes of its digest, big-endian.
pub mod Picking
pub mod Assignment
mod Examples
use openjourney.Common.{
  ℕ, ◌+◌, ◌-◌, ◌*◌, ◌/◌, ◌%◌, Bool, true, false, ◌||◌, List, [], ◌∷◌, Option, none, some, String,
  ltb, leb, nat_eq, if◌then◌else◌, is_empty,
}
use openjourney.Common.Int.{ℤ, pos, negsuc, is_positive, pos_part, u64}
use Prim.Native.String

pub record Variant : Type 0 where
  pub label : String
  pub weight : ℤ

-- `seed + ":" + profileID`.
abbrev pub bucket_key : String → String → String
bucket_key seed profile_id = String.◌++◌ seed (String.◌++◌ ":" profile_id)

-- The digest does not depend on `mod`, so computing it first changes nothing.
unfoldable pub bucket_of : (String → ℕ) → String → ℕ → ℕ
bucket_of hash key m = if nat_eq m 0 then 0 else hash key % m

-- The clamp of `holdoutPct` to 0 … 100.
abbrev pub clamp_pct : ℤ → ℕ
clamp_pct (pos n) = if leb n 100 then n else 100
clamp_pct (negsuc n) = 0

-- One round of either loop over the variants: the sum grows by a positive weight only.
pub add_weight : ℕ → Variant → ℕ
add_weight acc v = if is_positive v.weight then u64 (acc + u64 (pos_part v.weight)) else acc

-- The loop that computes `totalWeight`.
pub total_from : ℕ → List Variant → ℕ
total_from acc [] = acc
total_from acc (v ∷ vs) = total_from (add_weight acc v) vs

-- The loop that returns the first variant whose cumulative weight exceeds the bucket.
pub pick : ℕ → ℕ → List Variant → Option String
pick weighted cumulative [] = none
pick weighted cumulative (v ∷ vs) =
    let cumulative' = add_weight cumulative v in
    if ltb weighted cumulative' then some v.label else pick weighted cumulative' vs

-- `variants[len(variants)-1].Label`; Go panics on an empty slice, where the total weight is 0 and
-- the function has returned.
abbrev last_label : List Variant → String
last_label [] = ""
last_label (v ∷ []) = v.label
last_label (v ∷ w ∷ vs) = last_label (w ∷ vs)

abbrev or_last : Option String → List Variant → String
or_last (some label) vs = label
or_last none vs = last_label vs

-- `(bucket - holdoutBuckets) * totalWeight / remainingBuckets`, where `bucket` is not smaller.
abbrev pub weighted_bucket : ℕ → ℕ → ℕ → ℕ
weighted_bucket bucket held total = u64 ((bucket - held) * total) / (10000 - held)

-- What `Assign` does with the bucket of the profile.
unfoldable pub assign_bucket : ℕ → List Variant → ℤ → String × Bool
unfolding add_weight total_from pick
assign_bucket bucket variants holdout_pct =
    let held = clamp_pct holdout_pct * 100 in
    let total = total_from 0 variants in
    if ltb bucket held
    then ("holdout", true)
    else if nat_eq total 0 || nat_eq (10000 - held) 0
    then ("", false)
    else (or_last (pick (weighted_bucket bucket held total) 0 variants) variants, false)

unfoldable pub assign : (String → ℕ) → String → String → List Variant → ℤ → String × Bool
unfolding bucket_of assign_bucket
assign hash seed profile_id variants holdout_pct =
    assign_bucket (bucket_of hash (bucket_key seed profile_id) 10000) variants holdout_pct
