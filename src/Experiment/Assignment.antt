-- ===== src/Experiment/Assignment.antt =====
-- What `Assign` returns: the holdout, and the variant that owns the profile's bucket.
use native.Mathlib.Nat.{mod-lt, mod-eq_of_lt, div-lt_iff_lt-mul}
use openjourney.Common.{
  ℕ, ◌-◌, ◌*◌, ◌/◌, ◌<◌, ◌≤◌, ◌^◌, ◌≡◌, ap, ◌↔◌, List, some, String, nat_eq, true, false, arith,
  le→ltb, mul_mono,
}
use openjourney.Common.Int.{ℤ, pos, u64}
use openjourney.Experiment.{
  Variant, bucket_key, bucket_of, clamp_pct, weighted_bucket, pick, total_from, assign_bucket,
  assign,
}
use openjourney.Experiment.Picking.{weights, total_from_lem, IsPicked, pick-IsPicked}

eq_zero_of_pos : (n : ℕ) → 0 < n → nat_eq n 0 ≡ false
eq_zero_of_pos n h = ground arith

-- The bucket of a profile in the experiment with this seed.
abbrev pub bucket_for : (String → ℕ) → String → String → ℕ
bucket_for hash seed profile_id = bucket_of hash (bucket_key seed profile_id) 10000

pub bucket_of-lt : (hash : String → ℕ) (key : String) (m : ℕ) → 0 < m → bucket_of hash key m < m
unfolding bucket_of
bucket_of-lt hash key m h = ground (arith, mod-lt (hash key) {m = m})

-- The share of the total weight that lies below a bucket: a number below the total.
weighted-lt :
    (bucket held total : ℕ)
    → held ≤ bucket
    → bucket < 10000
    → 0 < total
    → (bucket - held) * total / (10000 - held) < total
weighted-lt bucket held total low high some_weight =
    (div-lt_iff_lt-mul (omega arith)).1 (grind arith)

-- `(bucket - holdoutBuckets) * totalWeight` does not wrap.
product_fits :
    (bucket held total : ℕ)
    → bucket < 10000
    → total * 10000 < 2 ^ 64
    → u64 ((bucket - held) * total) ≡ (bucket - held) * total
product_fits bucket held total high fits =
    mod-eq_of_lt (omega (arith, mul_mono (bucket - held) 10000 total (omega arith)))

assign_bucket-open :
    (bucket : ℕ) (variants : List Variant) (pct : ℤ) (total weighted : ℕ) {label : String}
    → bucket < 10000
    → clamp_pct pct * 100 ≤ bucket
    → total_from 0 variants ≡ total
    → 0 < total
    → weighted_bucket bucket (clamp_pct pct * 100) total ≡ weighted
    → pick weighted 0 variants ≡ some label
    → assign_bucket bucket variants pct ≡ (label, false)
unfolding assign_bucket
assign_bucket-open bucket variants pct total weighted high low sum positive scaled found = rw (
  le→ltb _ _ low,
  sum,
  eq_zero_of_pos _ positive,
  eq_zero_of_pos (10000 - clamp_pct pct * 100) (omega arith),
  scaled,
  found,
)

module _ (hash : String → ℕ) (seed profile_id : String) (variants : List Variant) (pct : ℤ) where
  -- `Assign` reports a holdout exactly for the profiles whose bucket, of 10,000, lies below
  -- 100 times the percentage, clamped to 0 to 100, and then names the variant "holdout".
  assign-holdout_iff :
      (((assign hash seed profile_id variants pct).1 ≡ true)
        ↔ (bucket_for hash seed profile_id < clamp_pct pct * 100))
      × ((assign hash seed profile_id variants pct).1 ≡ true
          → (assign hash seed profile_id variants pct).0 ≡ "holdout")
  unfolding assign
  assign-holdout_iff = (ground arith, ground arith)

  -- Outside the holdout, if some weight is positive and 10,000 times the sum of the positive
  -- weights fits 64 bits, `Assign` returns the label of the variant whose interval of cumulative
  -- weights holds the profile's bucket, scaled to the total weight.
  pub assign-IsPicked :
      weights variants * 10000 < 2 ^ 64
      → 0 < weights variants
      → clamp_pct pct * 100 ≤ bucket_for hash seed profile_id
      → (label : String) × (assign hash seed profile_id variants pct ≡ (label, false))
        × IsPicked
            ((bucket_for hash seed profile_id - clamp_pct pct * 100)
              * weights variants
              / (10000 - clamp_pct pct * 100))
            0
            variants
            label
  unfolding assign
  assign-IsPicked fits some_weight low =
      let bucket = bucket_for hash seed profile_id in
      let held = clamp_pct pct * 100 in
      let high = bucket_of-lt hash (bucket_key seed profile_id) 10000 (omega arith) in
      let scaled =
        ap (λ p. p / (10000 - held)) (product_fits bucket held (weights variants) high fits) in
      let total : total_from 0 variants ≡ weights variants =
        omega (arith, total_from_lem 0 variants (omega arith)) in
      let (label, found, picked) =
        pick-IsPicked ((bucket - held) * weights variants / (10000 - held)) 0 variants (omega arith)
          (omega arith)
          (omega (arith, weighted-lt bucket held (weights variants) low high some_weight)) in
      (
        label,
        assign_bucket-open bucket variants pct (weights variants)
            ((bucket - held) * weights variants / (10000 - held)) high low total some_weight scaled
            found,
        picked,
      )

  -- Where no weight is positive, `Assign` returns no variant outside the holdout.
  pub assign_no_weight :
      weights variants ≡ 0
      → clamp_pct pct * 100 ≤ bucket_for hash seed profile_id
      → assign hash seed profile_id variants pct ≡ ("", false)
  unfolding assign
  assign_no_weight none_positive low =
      let total = total_from_lem 0 variants (omega arith) in
      let zero_total : total_from 0 variants ≡ 0 = omega (arith, total) in ground arith

-- A profile in the holdout stays there when the percentage is raised.
pub assign_holdout_mono :
    (hash : String → ℕ) (seed profile_id : String) (variants : List Variant) (lower higher : ℕ)
    → lower ≤ higher
    → (assign hash seed profile_id variants (pos lower)).1 ≡ true
    → (assign hash seed profile_id variants (pos higher)).1 ≡ true
assign_holdout_mono hash seed profile_id variants lower higher h held =
    let below = (assign-holdout_iff hash seed profile_id variants (pos lower)).0.0 held in
    (assign-holdout_iff hash seed profile_id variants (pos higher)).0.1 (ground arith)
