-- ===== src/Stages/Priority.antt =====
-- The rule that internal/stages/stages.go assigns a profile, by its priority.
use openjourney.Common.{
  ok_inj, ◌≡◌, refl, sym, ap, ◌∙◌, subst, ◌⊎◌, inl, inr, Bool, true, false, ◌||◌, List, [], ◌∷◌,
  Option, none, some, String, ◌==◌, eq_iff, arith, if◌then◌else◌, Result, ok, >>=-eq-ok, contains,
  In, All, All-map, All-at, Bool-cases, Option-cases,
}
use openjourney.Common.Int.{int_ltb}
use openjourney.Stages.{
  StageRule, is_before, insert_rule, sort_rules, Assigned, assigned_rule, keep_or_add, assign_all,
  is_active, assign_rules, assign_stages,
}

-- The first is no more urgent than the second.
abbrev pub AtMost : StageRule → StageRule → Type 0
AtMost a b = int_ltb b.priority a.priority ≡ false

trans-AtMost : (a b c : StageRule) → AtMost a b → AtMost b c → AtMost a c
trans-AtMost a b c ab bc = ground arith

abbrev Descends : List StageRule → Type 0
Descends [] = Unit {0}
Descends (r ∷ rules) = All (λ s. AtMost s r) rules × Descends rules

before-AtMost : (a b : StageRule) → is_before a b ≡ true → AtMost b a
unfolding is_before
before-AtMost a b h = ground arith

not_before-AtMost : (a b : StageRule) → is_before a b ≡ false → AtMost a b
unfolding is_before
not_before-AtMost a b h = ground arith

insert_rule-All :
    (P : StageRule → Type 0) (r : StageRule) (rules : List StageRule)
    → P r
    → All P rules
    → All P (insert_rule r rules)
unfolding insert_rule
insert_rule-All P r [] p all = (p, tt)
insert_rule-All P r (s ∷ rules) p (q, all) = elim (Bool-cases (is_before s r)) [
  | inl first ↦ rw first (q, insert_rule-All P r rules p all)
  | inr later ↦ rw later (p, (q, all))
]

insert_rule-Descends :
    (r : StageRule) (rules : List StageRule) → Descends rules → Descends (insert_rule r rules)
unfolding insert_rule
insert_rule-Descends r [] h = (tt, tt)
insert_rule-Descends r (s ∷ rules) (below, h) = elim (Bool-cases (is_before s r)) [
  | inl first ↦ rw first (
    insert_rule-All (λ x. AtMost x s) r rules (before-AtMost s r first) below,
    insert_rule-Descends r rules h,
  )
  | inr later ↦
      let sr = not_before-AtMost s r later in
      rw later ((sr, All-map (λ x xs. trans-AtMost x s r xs sr) rules below), (below, h))
]

sort_rules-Descends : (rules : List StageRule) → Descends (sort_rules rules)
unfolding sort_rules
sort_rules-Descends [] = tt
sort_rules-Descends (r ∷ rules) =
    insert_rule-Descends r (sort_rules rules) (sort_rules-Descends rules)

sort_rules-All :
    (P : StageRule → Type 0) (rules : List StageRule) → All P rules → All P (sort_rules rules)
unfolding sort_rules
sort_rules-All P [] all = tt
sort_rules-All P (r ∷ rules) (p, all) =
    insert_rule-All P r (sort_rules rules) p (sort_rules-All P rules all)

insert_rule-In :
    (x r : StageRule) (rules : List StageRule) → (x ≡ r) ⊎ In x rules → In x (insert_rule r rules)
unfolding insert_rule
insert_rule-In x r [] (inl e) = inl e
insert_rule-In x r [] (inr m) = absurd m
insert_rule-In x r (s ∷ rules) m = elim (Bool-cases (is_before s r)) [
  | inr later ↦ rw later m
  | inl first ↦ elim m [
    | inl e ↦ rw first (inr (insert_rule-In x r rules (inl e)))
    | inr (inl e) ↦ rw first (inl e)
    | inr (inr m') ↦ rw first (inr (insert_rule-In x r rules (inr m')))
  ]
]

sort_rules-In : (x : StageRule) (rules : List StageRule) → In x rules → In x (sort_rules rules)
unfolding sort_rules
sort_rules-In x [] m = absurd m
sort_rules-In x (r ∷ rules) (inl e) = insert_rule-In x r (sort_rules rules) (inl e)
sort_rules-In x (r ∷ rules) (inr m) =
    insert_rule-In x r (sort_rules rules) (inr (sort_rules-In x rules m))

abbrev or_rule : Option StageRule → Option StageRule → Option StageRule
or_rule (some r) other = some r
or_rule none other = other

listed_lem : (rules : List StageRule) → All (λ x. In x rules) rules
listed_lem [] = tt
listed_lem (r ∷ rules) = (inl refl, All-map (λ x m. inr m) rules (listed_lem rules))

both_ways : true ≡ false → ⊥
both_ways h = ground arith

not_idle : (s : StageRule) → is_active s ≡ true → is_active s ≡ false → ⊥
not_idle s active idle = both_ways (sym active ∙ idle)

refl-AtMost : (r : StageRule) → AtMost r r
refl-AtMost r = ground arith

or_rule-none : (o : Option StageRule) → or_rule o none ≡ o
or_rule-none none = refl
or_rule-none (some r) = refl

or_rule-if :
    (o : Option StageRule) (r : StageRule) (a b : Bool)
    → or_rule (or_rule o (if a then some r else none)) (if b then some r else none)
      ≡ or_rule o (if a || b then some r else none)
or_rule-if none r true b = refl
or_rule-if none r false b = refl
or_rule-if (some s) r a b = refl

-- One profile of the segment, and all of them.
assigned_rule-keep_or_add :
    (o : Option StageRule) (q : String) (r : StageRule) (acc : Assigned) (p : String)
    → assigned_rule acc q ≡ o
    → assigned_rule (keep_or_add o q r acc) p
      ≡ or_rule (assigned_rule acc p) (if q == p then some r else none)
unfolding assigned_rule
assigned_rule-keep_or_add (some s) q r acc p h = elim (Bool-cases (q == p)) [
  | inr apart ↦ rw apart (sym (or_rule-none (assigned_rule acc p)))
  | inl same ↦
      let e : q ≡ p = ground (arith, eq_iff q p) in
      let h' : assigned_rule acc p ≡ some s = ap (assigned_rule acc) (sym e) ∙ h in rw h'
]
assigned_rule-keep_or_add none q r acc p h = elim (Bool-cases (q == p)) [
  | inr apart ↦ rw apart (sym (or_rule-none (assigned_rule acc p)))
  | inl same ↦
      let e : q ≡ p = ground (arith, eq_iff q p) in
      let h' : assigned_rule acc p ≡ none = ap (assigned_rule acc) (sym e) ∙ h in rw (same, h')
]

assigned_rule-assign_all :
    (r : StageRule) (ps : List String) (acc : Assigned) (p : String)
    → assigned_rule (assign_all r ps acc) p
      ≡ or_rule (assigned_rule acc p) (if contains ps p then some r else none)
unfolding assign_all contains
assigned_rule-assign_all r [] acc p = sym (or_rule-none (assigned_rule acc p))
assigned_rule-assign_all r (q ∷ ps) acc p =
    assigned_rule-assign_all r ps (keep_or_add (assigned_rule acc q) q r acc) p
    ∙ ap (λ o. or_rule o (if contains ps p then some r else none))
        (assigned_rule-keep_or_add (assigned_rule acc q) q r acc p refl)
    ∙ or_rule-if (assigned_rule acc p) r (q == p) (contains ps p)

module _ {E : Type 0} (resolve_segment : String → Result E (List String)) (p : String) where
  lacks :
      (ps qs : List String)
      → (let r : Result E (List String) = ok ps in r) ≡ ok qs
      → contains ps p ≡ false
      → contains qs p ≡ true
      → ⊥
  lacks ps qs e out_of has =
      let same : ps ≡ qs = cc in both_ways (sym has ∙ ap (λ l. contains l p) (sym same) ∙ out_of)

  -- The rule is enabled, and its segment has the profile.
  abbrev pub IsMatch : StageRule → Type 0
  IsMatch r =
      (is_active r ≡ true)
      × ((profiles : List String) × (resolve_segment r.segment_id ≡ ok profiles)
          × (contains profiles p ≡ true))

  -- What the rules so far leave: nobody matches, or one that does is the most urgent.
  abbrev pub IsMostUrgent : List StageRule → StageRule → Type 0
  IsMostUrgent rules r =
      In r rules × IsMatch r × ((s : StageRule) → In s rules → IsMatch s → AtMost s r)

  assigned_kept :
      (rules : List StageRule) (acc out : Assigned) (r : StageRule)
      → assign_rules resolve_segment rules acc ≡ ok out
      → assigned_rule acc p ≡ some r
      → assigned_rule out p ≡ some r
  unfolding assign_rules
  assigned_kept [] acc out r h had = ap (λ a. assigned_rule a p) (sym (ok_inj h)) ∙ had
  assigned_kept (s ∷ rules) acc out r h had = elim (Bool-cases (is_active s)) [
    | inr idle ↦ assigned_kept rules acc out r (rw (idle, assign_rules) at h) had
    | inl active ↦
        let (ps, found, h1) =
          >>=-eq-ok (resolve_segment s.segment_id) _ (rw (active, assign_rules) at h) in
        assigned_kept rules (assign_all s ps acc) out r h1 (
          assigned_rule-assign_all s ps acc p
          ∙ ap (λ o. or_rule o (if contains ps p then some s else none)) had)
  ]

  Outcome : List StageRule → Option StageRule → Type 0
  Outcome rules none = (s : StageRule) → In s rules → IsMatch s → ⊥
  Outcome rules (some r) = IsMostUrgent rules r

  -- A rule in front that does not match changes nothing.
  skip-Outcome :
      (s : StageRule) (rules : List StageRule) (o : Option StageRule)
      → ¬ IsMatch s
      → Outcome rules o
      → Outcome (s ∷ rules) o
  unfolding Outcome
  skip-Outcome s rules none idle rest =
      λ t t_in m. elim t_in [ inl e ↦ idle (subst IsMatch e m) | inr listed ↦ rest t listed m ]
  skip-Outcome s rules (some r) idle (listed, matched, least) = (
    inr listed,
    matched,
    λ t t_in m. elim t_in [
      | inl e ↦ absurd (idle (subst IsMatch e m))
      | inr t_in' ↦ least t t_in' m
    ],
  )

  first-Outcome :
      (s : StageRule) (rules : List StageRule)
      → All (λ t. AtMost t s) rules
      → IsMatch s
      → Outcome (s ∷ rules) (some s)
  unfolding Outcome
  first-Outcome s rules below matched = (
    inl refl,
    matched,
    λ t t_in m. elim t_in [
      | inl e ↦ subst (λ x. AtMost x s) (sym e) (refl-AtMost s)
      | inr t_in' ↦ All-at (λ x. AtMost x s) t rules below t_in'
    ],
  )

  assign_rules-Outcome :
      (rules : List StageRule) (acc out : Assigned)
      → Descends rules
      → assign_rules resolve_segment rules acc ≡ ok out
      → assigned_rule acc p ≡ none
      → Outcome rules (assigned_rule out p)
  unfolding assign_rules Outcome
  assign_rules-Outcome [] acc out sorted h free =
      let e : assigned_rule out p ≡ none = ap (λ a. assigned_rule a p) (sym (ok_inj h)) ∙ free in
      rw e (λ s m. absurd m)
  assign_rules-Outcome (s ∷ rules) acc out (below, sorted) h free =
      elim (Bool-cases (is_active s)) [
        | inr idle ↦
            skip-Outcome s rules _ (λ (active, _). not_idle s active idle)
              (assign_rules-Outcome rules acc out sorted (rw (idle, assign_rules) at h) free)
        | inl active ↦
            let (ps, found, h1) =
              >>=-eq-ok (resolve_segment s.segment_id) _ (rw (active, assign_rules) at h) in
            let now : assigned_rule (assign_all s ps acc) p
                ≡ (if contains ps p then some s else none) =
              assigned_rule-assign_all s ps acc p
              ∙ ap (λ o. or_rule o (if contains ps p then some s else none)) free in
            elim (Bool-cases (contains ps p)) [
              | inl has ↦
                  let e : assigned_rule out p ≡ some s =
                    assigned_kept rules (assign_all s ps acc) out s h1
                      (now ∙ ap (λ b. if b then some s else none) has) in
                  subst (Outcome (s ∷ rules)) (sym e)
                    (first-Outcome s rules below (active, (ps, found, has)))
              | inr out_of ↦
                  skip-Outcome s rules _
                    (λ (_, (qs, found', has)). lacks ps qs (sym found ∙ found') out_of has)
                    (assign_rules-Outcome rules (assign_all s ps acc) out sorted h1
                      (now ∙ ap (λ b. if b then some s else none) out_of))
            ]
      ]

-- If no segment fails to resolve, a profile that no enabled rule matches is assigned no rule, and any
-- other is assigned a rule of the workspace that is enabled, whose segment has the profile, and whose
-- priority is the highest of all the rules that match the profile.
pub assign_stages-IsMostUrgent :
    {E : Type 0} (resolve_segment : String → Result E (List String)) (p : String)
    (rules : List StageRule) (out : Assigned)
    → assign_stages resolve_segment rules ≡ ok out
    → ((assigned_rule out p ≡ none)
        × ((s : StageRule) → In s rules → ¬ IsMatch resolve_segment p s))
      ⊎ ((r : StageRule) × (assigned_rule out p ≡ some r) × IsMostUrgent resolve_segment p rules r)
unfolding assign_stages assigned_rule Outcome
assign_stages-IsMostUrgent resolve_segment p rules out h =
    let result =
      assign_rules-Outcome resolve_segment p (sort_rules rules) [] out (sort_rules-Descends rules) h
        refl in
    elim (Option-cases (assigned_rule out p)) [
      | inl free ↦
          let nobody : Outcome resolve_segment p (sort_rules rules) none =
            subst (Outcome resolve_segment p (sort_rules rules)) free result in
          inl (free, λ s listed m. nobody s (sort_rules-In s rules listed) m)
      | inr (r, given) ↦
          let urgent : Outcome resolve_segment p (sort_rules rules) (some r) =
            subst (Outcome resolve_segment p (sort_rules rules)) given result in
          let (listed, matched, least) = urgent in
          inr (
            r,
            given,
            (
              All-at (λ x. In x rules) r (sort_rules rules)
                  (sort_rules-All (λ x. In x rules) rules (listed_lem rules)) listed,
              matched,
              λ s s_in m. least s (sort_rules-In s rules s_in) m,
            ),
          )
    ]
