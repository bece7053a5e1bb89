-- ===== src/Experiment/Picking.antt =====
-- The two loops over the variants: the sum of the weights and the choice by cumulative weight.
use openjourney.Common.{
  ℕ, ◌+◌, ◌<◌, ◌≤◌, ◌^◌, ◌≡◌, refl, sym, ap, ◌∙◌, List, [], ◌∷◌, ◌++◌, some, String, false, arith,
  ltb, Bool-cases, inl, inr, ltb→lt, ltb→le,
}
use openjourney.Common.Int.{pos_part}
use openjourney.Experiment.{Variant, add_weight, total_from, pick}

-- The share of a variant: its weight, or 0 if that is negative.
abbrev pub share : Variant → ℕ
share v = pos_part v.weight

-- The sum of the weights, with no wrap-around.
abbrev pub weights : List Variant → ℕ
weights [] = 0
weights (v ∷ vs) = share v + weights vs

add_weight_lem : (acc : ℕ) (v : Variant) → acc + share v < 2 ^ 64 → add_weight acc v ≡ acc + share v
unfolding add_weight
add_weight_lem acc v h = ground arith

pub total_from_lem :
    (acc : ℕ) (vs : List Variant) → acc + weights vs < 2 ^ 64 → total_from acc vs ≡ acc + weights vs
unfolding total_from
total_from_lem acc [] h = omega arith
total_from_lem acc (v ∷ vs) h =
    let added = add_weight_lem acc v (omega arith) in
    let rest = total_from_lem (acc + share v) vs (omega arith) in rw added (omega (arith, rest))

-- The variant whose interval of cumulative weights holds `weighted`.
pub record IsPicked (weighted cumulative : ℕ) (vs : List Variant) (label : String) : Type 0 where
  pub before : List Variant
  pub chosen : Variant
  pub after : List Variant
  pub split : vs ≡ before ++ chosen ∷ after
  pub labelled : label ≡ chosen.label
  pub above : cumulative + weights before ≤ weighted
  pub below : weighted < cumulative + weights before + share chosen

IsPicked-cons :
    {weighted cumulative : ℕ} {v : Variant} {vs : List Variant} {label : String}
    → IsPicked weighted (cumulative + share v) vs label
    → IsPicked weighted cumulative (v ∷ vs) label
IsPicked-cons {v} p = record {
  before = v ∷ p.before;
  chosen = p.chosen;
  after = p.after;
  split = ap (λ l. v ∷ l) p.split;
  labelled = p.labelled;
  above = omega (arith, p.above);
  below = omega (arith, p.below);
}

pick_miss :
    (weighted cumulative : ℕ) (v : Variant) (vs : List Variant)
    → add_weight cumulative v ≡ cumulative + share v
    → ltb weighted (cumulative + share v) ≡ false
    → pick weighted cumulative (v ∷ vs) ≡ pick weighted (cumulative + share v) vs
unfolding pick
pick_miss weighted cumulative v vs added miss = rw added (rw miss)

-- The loop finds a variant for each bucket below the total, and so never falls off its end.
pub pick-IsPicked :
    (weighted cumulative : ℕ) (vs : List Variant)
    → cumulative + weights vs < 2 ^ 64
    → cumulative ≤ weighted
    → weighted < cumulative + weights vs
    → (label : String) × (pick weighted cumulative vs ≡ some label)
      × IsPicked weighted cumulative vs label
unfolding pick
pick-IsPicked weighted cumulative [] fits low high = absurd (omega arith)
pick-IsPicked weighted cumulative (v ∷ vs) fits low high =
    let added = add_weight_lem cumulative v (omega arith) in
    elim (Bool-cases (ltb weighted (cumulative + share v))) [
      | inl hit ↦ (
        v.label,
        rw added (rw hit),
        record {
          before = [];
          chosen = v;
          after = vs;
          split = refl;
          labelled = refl;
          above = omega arith;
          below = omega (arith, ltb→lt _ _ hit);
        },
      )
      | inr miss ↦
          let (label, found, picked) =
            pick-IsPicked weighted (cumulative + share v) vs (omega arith) (ltb→le _ _ miss)
              (omega arith) in
          (label, pick_miss weighted cumulative v vs added miss ∙ found, IsPicked-cons picked)
    ]

-- A bucket below the share of the first variant is that variant's.
pub IsPicked-first :
    {weighted : ℕ} {v : Variant} {vs all : List Variant} {label : String}
    → all ≡ v ∷ vs
    → IsPicked weighted 0 all label
    → weighted < share v
    → label ≡ v.label
IsPicked-first {weighted} {v} {vs} {all} {label} e p low = first p.before (sym e ∙ p.split) p.above
  where
    first :
        (before : List Variant)
        → v ∷ vs ≡ before ++ p.chosen ∷ p.after
        → 0 + weights before ≤ weighted
        → label ≡ v.label
    first [] split above = let same : p.chosen ≡ v = cc in p.labelled ∙ ap Variant.label same
    first (b ∷ bs) split above = let same : v ≡ b = cc in absurd (omega (arith, ap share same))
