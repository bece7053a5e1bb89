-- ===== src/Flags/Rollout.antt =====
-- The rollout of a flag: who is served a variant, and which.
use native.Mathlib.Nat.{div-lt_iff_lt-mul}
use openjourney.Common.{
  ℕ, ◌*◌, ◌-◌, ◌/◌, ◌<◌, ◌≤◌, ◌^◌, ◌≡◌, sym, ap, ◌∙◌, ◌⊎◌, inl, inr, ◌||◌, List, [], ◌∷◌, map, some,
  String, ◌==◌, eq_iff, arith, suc, mul_mono, ltb, lt→ltb, le→ltb, ltb→lt, ltb→le, In, Bool-cases,
  Option-cases, is_empty,
}
use openjourney.Common.Int.{pos}
use openjourney.Experiment.{assign}
use openjourney.Experiment.Assignment.{bucket_for, assign-IsPicked}
use openjourney.Experiment.Picking.{weights, share, IsPicked-first}
use openjourney.Flags.{
  FlagVariant, FeatureFlag, EvaluationResult, returns_default, find_variant, rollout_threshold,
  experiment_variant, serve, rollout,
}

-- A variant of the flag whose label and value the result holds.
abbrev pub IsListed : List FlagVariant → EvaluationResult → Type 0
IsListed vs r = (v : FlagVariant) × In v vs × (v.label ≡ r.variant) × (v.value ≡ r.value)

pub find_variant-In :
    (label : String) (vs : List FlagVariant) (v : FlagVariant)
    → find_variant label vs ≡ some v
    → In v vs × (v.label ≡ label)
unfolding find_variant
find_variant-In label [] v h = cc
find_variant-In label (w ∷ vs) v h =
    ground (arith, eq_iff w.label label, find_variant-In label vs v)

serve-cases :
    (flag : FeatureFlag) (label : String)
    → (serve flag label ≡ returns_default flag "rollout_excluded")
      ⊎ (IsListed flag.variants (serve flag label)
          × ((serve flag label).variant ≡ label)
          × ((serve flag label).reason ≡ "rollout"))
unfolding serve
serve-cases flag label = elim (Bool-cases (is_empty label || label == "holdout")) [
  | inl excluded ↦ inl (ground arith)
  | inr named ↦ elim (Option-cases (find_variant label flag.variants)) [
    | inl missing ↦ inl (ground arith)
    | inr (v, found) ↦
        let (listed, labelled) = find_variant-In label flag.variants v found in
        inr ((v, listed, ground arith, ground arith), ground arith, ground arith)
  ]
]

-- The label that `Assign` names for the profile, with no holdout.
abbrev pub assigned : (String → ℕ) → FeatureFlag → String → String
assigned hash flag profile_id =
    (assign hash flag.seed profile_id (map experiment_variant flag.variants) (pos 0)).0

module _ (hash : String → ℕ) (flag : FeatureFlag) (profile_id : String) where
  abbrev IsIncluded : Type 0
  IsIncluded = bucket_for hash flag.seed profile_id < rollout_threshold flag.rollout_pct

  rollout_included :
      IsIncluded → rollout hash flag profile_id ≡ serve flag (assigned hash flag profile_id)
  unfolding rollout
  rollout_included h = rw (lt→ltb _ _ h)

  rollout_excluded :
      rollout_threshold flag.rollout_pct ≤ bucket_for hash flag.seed profile_id
      → rollout hash flag profile_id ≡ returns_default flag "rollout_excluded"
  unfolding rollout
  rollout_excluded h = rw (le→ltb _ _ h)

  pub rollout-cases :
      (rollout hash flag profile_id ≡ returns_default flag "rollout_excluded")
      ⊎ (IsListed flag.variants (rollout hash flag profile_id)
          × ((rollout hash flag profile_id).variant ≡ assigned hash flag profile_id)
          × IsIncluded)
  rollout-cases =
      elim (Bool-cases
        (ltb (bucket_for hash flag.seed profile_id) (rollout_threshold flag.rollout_pct))) [
          | inr out ↦ inl (rollout_excluded (ltb→le _ _ out))
          | inl within ↦
              let e = rollout_included (ltb→lt _ _ within) in
              elim (serve-cases flag (assigned hash flag profile_id)) [
                | inl default ↦ inl (e ∙ default)
                | inr (listed, labelled, _) ↦ inr (rw e (listed, labelled, ltb→lt _ _ within))
              ]
        ]

abbrev pub at_pct : FeatureFlag → ℕ → FeatureFlag
at_pct flag pct = record flag { rollout_pct = pos pct }

reasons_differ : ◌≡◌ {A = String} "rollout_excluded" "rollout" → ⊥
reasons_differ e = ground (arith, eq_iff "rollout_excluded" "rollout")

-- A profile that the rollout serves is served the same at any higher percentage up to 100.
pub rollout_mono :
    (hash : String → ℕ) (flag : FeatureFlag) (profile_id : String) (lower higher : ℕ)
    → lower ≤ higher
    → higher ≤ 100
    → (rollout hash (at_pct flag lower) profile_id).reason ≡ "rollout"
    → rollout hash (at_pct flag higher) profile_id ≡ rollout hash (at_pct flag lower) profile_id
unfolding serve
rollout_mono hash flag profile_id lower higher h top served =
    elim (rollout-cases hash (at_pct flag lower) profile_id) [
      | inl default ↦ absurd (reasons_differ (sym (ap (λ r. r.reason) default) ∙ served))
      | inr (_, _, within) ↦
          let within' : IsIncluded hash (at_pct flag higher) profile_id = omega arith in
          rollout_included hash (at_pct flag higher) profile_id within'
          ∙ sym (rollout_included hash (at_pct flag lower) profile_id within)
    ]

-- The scaled bucket of a profile that a rollout at `pct` includes.
scaled-lt :
    (bucket total first pct : ℕ)
    → 0 < total
    → bucket < pct * 100
    → pct * total ≤ 100 * first
    → bucket * total / 10000 < first
scaled-lt bucket total first pct positive within low =
    (div-lt_iff_lt-mul (omega arith)).1
      (omega (arith, mul_mono (suc bucket) (pct * 100) total within))

-- The rollout keeps the low buckets, and `Assign` gives the low buckets to the first variants:
-- where the percentage of the rollout is at most 100 and at most the percentage of the total weight
-- that the first variant has, the first variant's share is positive, and 10,000 times the total weight
-- fits 64 bits, everybody whom the rollout serves is served the first variant.
pub rollout_first_only :
    (hash : String → ℕ) (flag : FeatureFlag) (profile_id : String) (first : FlagVariant)
    (others : List FlagVariant) (pct : ℕ)
    → flag.variants ≡ first ∷ others
    → weights (map experiment_variant flag.variants) * 10000 < 2 ^ 64
    → 0 < share (experiment_variant first)
    → pct * weights (map experiment_variant flag.variants) ≤ 100 * share (experiment_variant first)
    → pct ≤ 100
    → (rollout hash (at_pct flag pct) profile_id).reason ≡ "rollout"
    → (rollout hash (at_pct flag pct) profile_id).variant ≡ first.label
rollout_first_only hash flag profile_id first others pct listed fits positive low top served =
    elim (rollout-cases hash (at_pct flag pct) profile_id) [
      | inl default ↦ absurd (reasons_differ (sym (ap (λ r. r.reason) default) ∙ served))
      | inr (_, labelled, within) ↦
          let vs = map experiment_variant flag.variants in
          let bucket = bucket_for hash flag.seed profile_id in
          let split : vs ≡ experiment_variant first ∷ map experiment_variant others =
            ap (map experiment_variant) listed in
          let some_weight : 0 < weights vs = omega (arith, ap weights split) in
          let (label, chosen, picked) =
            assign-IsPicked hash flag.seed profile_id vs (pos 0) fits some_weight (omega arith) in
          let small : (bucket - 0) * weights vs / 10000 < share (experiment_variant first) =
            scaled-lt (bucket - 0) (weights vs) (share (experiment_variant first)) pct some_weight
              (omega arith) low in
          labelled ∙ ap (λ a. a.0) chosen ∙ IsPicked-first split picked small
    ]
