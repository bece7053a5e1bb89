-- ===== src/Stages.antt =====
-- internal/stages/stages.go, `Apply`: the order of the rules, the rule that each profile is assigned,
-- and when a profile's stage changes. Segments are resolved by a parameter.
-- The query of the app's id, between the sort and the loop, is left out.
mod Priority
mod Examples
use Prim.Native.String.{compare}
use Prim.Native.Nat.{Ordering, lt, eq, gt}
use openjourney.Common.{
  ℕ, Bool, true, false, not, ◌&&◌, ◌||◌, List, [], ◌∷◌, Option, none, some, String, ◌==◌, is_empty,
  if◌then◌else◌, Result, ok, err, ◌>>=◌, contains,
}
use openjourney.Common.Int.{ℤ, int_ltb}

pub record StageRule : Type 0 where
  pub id : String
  pub segment_id : String
  pub stage : String
  pub priority : ℤ
  pub enabled : Bool

abbrev pub text_ltb : String → String → Bool
text_ltb a b = elim (compare a b) [ lt ↦ true | eq ↦ false | gt ↦ false ]

-- Is the first rule less than the second for the sort: a higher priority, or the smaller id.
unfoldable pub is_before : StageRule → StageRule → Bool
is_before a b =
    if int_ltb b.priority a.priority
    then true
    else if int_ltb a.priority b.priority
    then false
    else text_ltb a.id b.id

-- A stable sort.
unfoldable pub insert_rule : StageRule → List StageRule → List StageRule
unfolding is_before
insert_rule r [] = r ∷ []
insert_rule r (s ∷ rules) =
    let rest = insert_rule r rules in if is_before s r then s ∷ rest else r ∷ s ∷ rules

unfoldable pub sort_rules : List StageRule → List StageRule
unfolding insert_rule
sort_rules [] = []
sort_rules (r ∷ rules) = insert_rule r (sort_rules rules)

-- The map `assigned`: a profile that is assigned already keeps its rule.
abbrev pub Assigned : Type 0
Assigned = List (String × StageRule)

unfoldable pub assigned_rule : Assigned → String → Option StageRule
assigned_rule [] profile = none
assigned_rule ((p, r) ∷ rest) profile = if p == profile then some r else assigned_rule rest profile

abbrev pub keep_or_add : Option StageRule → String → StageRule → Assigned → Assigned
keep_or_add (some s) profile r assigned = assigned
keep_or_add none profile r assigned = (profile, r) ∷ assigned

unfoldable pub assign_all : StageRule → List String → Assigned → Assigned
unfolding assigned_rule
assign_all r [] assigned = assigned
assign_all r (p ∷ profiles) assigned =
    assign_all r profiles (keep_or_add (assigned_rule assigned p) p r assigned)

abbrev pub is_active : StageRule → Bool
is_active r = r.enabled && not (is_empty r.segment_id)

module _ {E : Type 0} (resolve_segment : String → Result E (List String)) where
  unfoldable pub assign_rules : List StageRule → Assigned → Result E Assigned
  unfolding assign_all
  assign_rules [] assigned = ok assigned
  assign_rules (r ∷ rules) assigned =
      if is_active r
      then (resolve_segment r.segment_id >>= λ profiles.
          assign_rules rules (assign_all r profiles assigned))
      else assign_rules rules assigned

  -- `Apply`, up to the map of the rules that are to be applied.
  unfoldable pub assign_stages : List StageRule → Result E Assigned
  unfolding sort_rules assign_rules
  assign_stages rules = assign_rules (sort_rules rules) []

-- A profile whose attribute is the rule's stage is skipped.
abbrev pub is_changed : (stage : Option String) → StageRule → Bool
is_changed none r = true
is_changed (some stage) r = not (stage == r.stage)
