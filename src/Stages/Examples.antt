-- ===== src/Stages/Examples.antt =====
-- Two rules that match the same profile.
use openjourney.Common.{
  ◌≡◌, refl, ◌⊎◌, true, List, [], ◌∷◌, none, some, String, Result, ok, In, contains,
}
use openjourney.Common.Int.{pos}
use openjourney.Stages.{
  StageRule, is_before, insert_rule, sort_rules, assigned_rule, assign_all, assign_rules,
  assign_stages,
}
use openjourney.Stages.Priority.{IsMatch, IsMostUrgent, assign_stages-IsMostUrgent}

abbrev lead : StageRule
lead = record {
  id = "a";
  segment_id = "visitors";
  stage = "lead";
  priority = pos 1;
  enabled = true;
}

abbrev customer : StageRule
customer = record {
  id = "b";
  segment_id = "buyers";
  stage = "customer";
  priority = pos 5;
  enabled = true;
}

abbrev both_rules : List StageRule
both_rules = lead ∷ customer ∷ []

abbrev everyone : String → Result String (List String)
everyone segment = ok ("p1" ∷ [])

assigned_customer : assign_stages everyone both_rules ≡ ok (("p1", customer) ∷ [])
unfolding assign_stages assign_rules assign_all assigned_rule sort_rules insert_rule is_before
    contains
assigned_customer = refl

assign_stages-IsMostUrgent_example :
    ((assigned_rule (("p1", customer) ∷ []) "p1" ≡ none)
      × ((s : StageRule) → In s both_rules → ¬ IsMatch everyone "p1" s))
    ⊎ ((r : StageRule) × (assigned_rule (("p1", customer) ∷ []) "p1" ≡ some r)
        × IsMostUrgent everyone "p1" both_rules r)
assign_stages-IsMostUrgent_example =
    assign_stages-IsMostUrgent everyone "p1" both_rules (("p1", customer) ∷ []) assigned_customer
