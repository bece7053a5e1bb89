-- ===== src/Flags/Targeting.antt =====
-- What an evaluation returns, and by which rule.
use openjourney.Common.{
  ℕ, ◌≤◌, ◌≡◌, refl, sym, subst, ◌∙◌, ◌⊎◌, inl, inr, Bool, true, false, not, ◌||◌, List, [], ◌∷◌,
  ◌++◌, none, some, String, ◌==◌, eq_iff, arith, Result, ok, All, ap, Bool-cases, Option-cases,
  Result-cases, Answer-cases,
}
use openjourney.Json.{RawMessage}
use openjourney.Flags.Rollout.{IsListed, find_variant-In, rollout-cases, at_pct, rollout_mono}
use openjourney.Flags.{
  FlagVariant, TargetingRule, FeatureFlag, EvaluationResult, returns_default, find_variant, target,
  rollout, evaluate,
}

-- The first rule that matches, with the answers for the rules before it.
pub record IsTargeted {E : Type 0} (eval : String → RawMessage → Result E Bool) (flag : FeatureFlag)
    (profile_id : String) (rules : List TargetingRule) (r : EvaluationResult) : Type 0 where
  pub before : List TargetingRule
  pub rule : TargetingRule
  pub after : List TargetingRule
  pub split : rules ≡ before ++ rule ∷ after
  pub skipped : All (λ (q : TargetingRule). eval profile_id q.dsl ≡ ok false) before
  pub matched : eval profile_id rule.dsl ≡ ok true
  pub variant : FlagVariant
  pub found : find_variant rule.variant flag.variants ≡ some variant
  pub result : r ≡ record { variant = rule.variant; value = variant.value; reason = "targeted" }

disabled-ne-rollout : ◌≡◌ {A = String} "disabled" "rollout" → ⊥
disabled-ne-rollout e = ground (arith, eq_iff "disabled" "rollout")

targeted-ne-rollout : ◌≡◌ {A = String} "targeted" "rollout" → ⊥
targeted-ne-rollout e = ground (arith, eq_iff "targeted" "rollout")

module _ {E : Type 0} (eval : String → RawMessage → Result E Bool) (flag : FeatureFlag)
    (profile_id : String) where
  IsTargeted-cons :
      {rule : TargetingRule} {rules : List TargetingRule} {r : EvaluationResult}
      → eval profile_id rule.dsl ≡ ok false
      → IsTargeted eval flag profile_id rules r
      → IsTargeted eval flag profile_id (rule ∷ rules) r
  IsTargeted-cons {rule} skip t = record {
    before = rule ∷ t.before;
    rule = t.rule;
    after = t.after;
    split = ap (λ l. rule ∷ l) t.split;
    skipped = (skip, t.skipped);
    matched = t.matched;
    variant = t.variant;
    found = t.found;
    result = t.result;
  }

  target-IsTargeted :
      (rules : List TargetingRule) (r : EvaluationResult)
      → target eval flag.variants profile_id rules ≡ ok (some r)
      → IsTargeted eval flag profile_id rules r
  unfolding target
  target-IsTargeted [] r h = cc
  target-IsTargeted (rule ∷ rules) r h = elim (Answer-cases (eval profile_id rule.dsl)) [
    | inl yes' ↦ elim (Option-cases (find_variant rule.variant flag.variants)) [
      | inl missing ↦ absurd (ground arith)
      | inr (v, found) ↦ record {
        before = [];
        rule = rule;
        after = rules;
        split = refl;
        skipped = tt;
        matched = yes';
        variant = v;
        found = found;
        result = ground arith;
      }
    ]
    | inr (inl skip) ↦ IsTargeted-cons skip (target-IsTargeted rules r (ground arith))
    | inr (inr (e, failed)) ↦ absurd (ground arith)
  ]

  target-none :
      (rules : List TargetingRule)
      → target eval flag.variants profile_id rules ≡ ok none
      → All (λ (q : TargetingRule). eval profile_id q.dsl ≡ ok false) rules
  unfolding target
  target-none [] h = tt
  target-none (rule ∷ rules) h = ground (arith, target-none rules)

  -- The kill switch.
  abbrev IsOff : Type 0
  IsOff = (flag.status ≡ "disabled") ⊎ (flag.enabled ≡ false)

  abbrev NoneMatches : Type 0
  NoneMatches = All (λ (q : TargetingRule). eval profile_id q.dsl ≡ ok false) flag.targeting_rules

  -- An evaluation that succeeds comes to one of three ends: the flag is disabled and its default is
  -- returned; or it is not, and the first rule that matches decides, every rule before it having
  -- been answered with no; or no rule matches, and the rollout decides.
  pub evaluate-cases :
      (hash : String → ℕ) (r : EvaluationResult)
      → evaluate eval hash flag profile_id ≡ ok r
      → (IsOff × (r ≡ returns_default flag "disabled"))
        ⊎ ((¬ IsOff) × IsTargeted eval flag profile_id flag.targeting_rules r)
        ⊎ ((¬ IsOff) × NoneMatches × (r ≡ rollout hash flag profile_id))
  unfolding evaluate
  evaluate-cases hash r h = elim (Bool-cases (flag.status == "disabled" || not flag.enabled)) [
    | inl off ↦ inl (ground (arith, eq_iff flag.status "disabled"), ground arith)
    | inr live ↦
        let on : ¬ IsOff = ground (arith, eq_iff flag.status "disabled") in
        elim (Result-cases (target eval flag.variants profile_id flag.targeting_rules)) [
          | inr (e, failed) ↦ absurd (ground arith)
          | inl (targeted, t) ↦ elim (Option-cases targeted) [
            | inl none_matched ↦
                inr (
                  inr (on, target-none flag.targeting_rules (t ∙ ap ok none_matched), ground arith))
            | inr (r', s) ↦
                let same : r' ≡ r = ground arith in
                inr (
                  inl (
                    on,
                    target-IsTargeted flag.targeting_rules r
                        (t ∙ ap ok s ∙ ap (λ q. ok (some q)) same),
                  ))
          ]
        ]
  ]

  -- The value of a successful evaluation is the default, with no variant named, or that of a listed
  -- variant whose label the result names.
  pub evaluate_value :
      (hash : String → ℕ) (r : EvaluationResult)
      → evaluate eval hash flag profile_id ≡ ok r
      → ((r.variant ≡ "") × (r.value ≡ flag.default_value)) ⊎ IsListed flag.variants r
  evaluate_value hash r h = elim (evaluate-cases hash r h) [
    | inl (off, e) ↦ inl (ground arith, ground arith)
    | inr (inl (on, t)) ↦
        let (listed, labelled) = find_variant-In t.rule.variant flag.variants t.variant t.found in
        inr (
          t.variant,
          listed,
          labelled ∙ ap (λ q. q.variant) (sym t.result),
          ap (λ q. q.value) (sym t.result),
        )
    | inr (inr (on, unmatched, e)) ↦ elim (rollout-cases hash flag profile_id) [
      | inl out ↦ inl (ground arith, ground arith)
      | inr listed ↦ inr (subst (IsListed flag.variants) (sym e) listed.0)
    ]
  ]

  target_of_NoneMatches :
      (rules : List TargetingRule)
      → All (λ (q : TargetingRule). eval profile_id q.dsl ≡ ok false) rules
      → target eval flag.variants profile_id rules ≡ ok none
  unfolding target
  target_of_NoneMatches [] h = refl
  target_of_NoneMatches (rule ∷ rules) (no', h) = rw (no', target) (target_of_NoneMatches rules h)

  evaluate_of_rollout :
      (hash : String → ℕ)
      → ¬ IsOff
      → NoneMatches
      → evaluate eval hash flag profile_id ≡ ok (rollout hash flag profile_id)
  unfolding evaluate
  evaluate_of_rollout hash on unmatched =
      let live : (flag.status == "disabled" || not flag.enabled) ≡ false =
        ground (arith, eq_iff flag.status "disabled") in
      rw (live, target_of_NoneMatches flag.targeting_rules unmatched)

-- A profile that the rollout of a flag serves is returned the same result at any higher percentage
-- up to 100, everything else of the flag being equal.
pub evaluate_rollout_mono :
    {E : Type 0} (eval : String → RawMessage → Result E Bool) (hash : String → ℕ)
    (flag : FeatureFlag) (profile_id : String) (lower higher : ℕ) (r : EvaluationResult)
    → lower ≤ higher
    → higher ≤ 100
    → evaluate eval hash (at_pct flag lower) profile_id ≡ ok r
    → r.reason ≡ "rollout"
    → evaluate eval hash (at_pct flag higher) profile_id ≡ ok r
evaluate_rollout_mono eval hash flag profile_id lower higher r h top e served =
    elim (evaluate-cases eval (at_pct flag lower) profile_id hash r e) [
      | inl (off, d) ↦ absurd (disabled-ne-rollout (sym (ap EvaluationResult.reason d) ∙ served))
      | inr (inl (on, t)) ↦
          absurd (targeted-ne-rollout (sym (ap EvaluationResult.reason t.result) ∙ served))
      | inr (inr (on, unmatched, rolled)) ↦
          let kept = sym (ap EvaluationResult.reason rolled) ∙ served in
          evaluate_of_rollout eval (at_pct flag higher) profile_id hash on unmatched
          ∙ ap ok (rollout_mono hash flag profile_id lower higher h top kept ∙ sym rolled)
    ]
