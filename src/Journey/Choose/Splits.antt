-- ===== src/Journey/Choose/Splits.antt =====
-- The branch of a split by random or by audience is one that the split lists.
use openjourney.Common.{
  ℕ, ◌+◌, ◌≡◌, refl, sym, subst, ◌⊎◌, inl, inr, true, false, List, [], ◌∷◌, map, String, ◌==◌,
  eq_iff, ok, err, ltb, In, Bool-cases, is_empty, arith,
}
use openjourney.Common.Int.{u64, to_u64}
use openjourney.Journey.Graph.{Node}
use openjourney.Journey.Config.{SplitBranch, SplitConfig}
use openjourney.Journey.Runs.{JourneyRun}
use openjourney.Journey.Store.{M, Store, unsupported_mode}
use openjourney.Journey.Store.Ensures.{Ensures, Any, monotone, >>=-Ensures, pure-Ensures, ask_then}
use openjourney.Journey.Choose.{
  random_label, audience_label, last_branch, or_last_branch, split_branch,
}

abbrev pub labels : List SplitBranch → List String
labels bs = map SplitBranch.label bs

-- A label of the list, or the one that was held before.
abbrev IsKept : String → List SplitBranch → String → Type 0
IsKept before bs l = (l ≡ before) ⊎ In l (labels bs)

last_branch-In :
    (b : SplitBranch) (bs : List SplitBranch) → In (last_branch (b ∷ bs)) (labels (b ∷ bs))
last_branch-In b [] = inl refl
last_branch-In b (c ∷ bs) = inr (last_branch-In c bs)

or_last_branch-In :
    (b : SplitBranch) (bs : List SplitBranch) (l : String)
    → IsKept "" (b ∷ bs) l
    → In (or_last_branch (b ∷ bs) l) (labels (b ∷ bs))
or_last_branch-In b bs l kept = elim (Bool-cases (is_empty l)) [
  | inl blank ↦
      let taken : or_last_branch (b ∷ bs) l ≡ last_branch (b ∷ bs) = rw blank refl in
      subst (λ x. In x (labels (b ∷ bs))) (sym taken) (last_branch-In b bs)
  | inr named ↦ elim kept [
    | inl empty_text ↦ absurd (ground (arith, eq_iff l ""))
    | inr listed ↦
        let taken : or_last_branch (b ∷ bs) l ≡ l = rw named refl in
        subst (λ x. In x (labels (b ∷ bs))) (sym taken) listed
  ]
]

random_label-hit :
    (bucket cumulative : ℕ) (b : SplitBranch) (bs : List SplitBranch)
    → ltb bucket (u64 (cumulative + to_u64 b.weight)) ≡ true
    → random_label bucket cumulative (b ∷ bs) ≡ b.label
unfolding random_label
random_label-hit bucket cumulative b bs hit = rw hit refl

random_label-miss :
    (bucket cumulative : ℕ) (b : SplitBranch) (bs : List SplitBranch)
    → ltb bucket (u64 (cumulative + to_u64 b.weight)) ≡ false
    → random_label bucket cumulative (b ∷ bs)
      ≡ random_label bucket (u64 (cumulative + to_u64 b.weight)) bs
unfolding random_label
random_label-miss bucket cumulative b bs miss = rw miss refl

random_label_nil : (bucket cumulative : ℕ) → random_label bucket cumulative [] ≡ ""
unfolding random_label
random_label_nil bucket cumulative = refl

random_label-IsKept :
    (bucket cumulative : ℕ) (bs : List SplitBranch)
    → IsKept "" bs (random_label bucket cumulative bs)
random_label-IsKept bucket cumulative [] = inl (random_label_nil bucket cumulative)
random_label-IsKept bucket cumulative (b ∷ bs) =
    let cumulative' = u64 (cumulative + to_u64 b.weight) in
    elim (Bool-cases (ltb bucket cumulative')) [
      | inl hit ↦ inr (inl (random_label-hit bucket cumulative b bs hit))
      | inr miss ↦
          let same = random_label-miss bucket cumulative b bs miss in
          subst (IsKept "" (b ∷ bs)) (sym same) (elim (random_label-IsKept bucket cumulative' bs) [
            | inl blank ↦ inl blank
            | inr listed ↦ inr (inr listed)
          ])
    ]

-- What is kept from a shorter list is kept from the longer one, if what was held before is.
widen :
    {W : Type 0} (b : SplitBranch) (before held : String) (bs : List SplitBranch) (m : M W String)
    → IsKept before (b ∷ bs) held
    → Ensures Any (IsKept held bs) m
    → Ensures Any (IsKept before (b ∷ bs)) m
widen b before held bs m kept q = monotone Any (IsKept held bs) (IsKept before (b ∷ bs)) m wider q
  where
    wider : (l : String) → IsKept held bs l → IsKept before (b ∷ bs) l
    wider l (inl same) = subst (IsKept before (b ∷ bs)) (sym same) kept
    wider l (inr listed) = inr (inr listed)

module _ {W : Type 0} (hash : String → ℕ) (store : Store W) (run : JourneyRun) where
  audience_label-IsKept :
      (before : String) (bs : List SplitBranch)
      → Ensures Any (IsKept before bs) (audience_label hash store run before bs)
  unfolding audience_label
  audience_label-IsKept before [] = pure-Ensures Any _ _ (inl refl)
  audience_label-IsKept before (b ∷ bs) = elim (Bool-cases (is_empty b.segment_id)) [
    | inl free ↦
        rw free (widen b before b.label bs _ (inr (inl refl)) (audience_label-IsKept b.label bs))
    | inr closed ↦ rw closed (
        ask_then Any (λ e o. tt) _ _ _ _
          λ matched. elim (Bool-cases matched) [
            | inl inside ↦
                rw inside (pure-Ensures Any (IsKept before (b ∷ bs)) (ok b.label) (inr (inl refl)))
            | inr outside ↦
                rw outside (widen b before before bs _ (inl refl) (audience_label-IsKept before bs))
          ])
  ]

  -- A split by random or by audience that lists a branch chooses one of its labels, if it chooses,
  -- whatever the weights are and whatever the store answers.
  pub split_branch-In :
      (n : Node) (cfg : SplitConfig) (b : SplitBranch) (bs : List SplitBranch)
      → cfg.branches ≡ b ∷ bs
      → is_empty cfg.experiment_id ≡ true
      → Ensures Any (λ l. In l (labels cfg.branches)) (split_branch hash store run n cfg)
  unfolding split_branch
  split_branch-In n cfg b bs given plain = elim (Bool-cases (cfg.mode == "random")) [
    | inl random ↦
        rw (plain, random, given)
          (pure-Ensures Any (λ l. In l (labels (b ∷ bs))) (ok _)
            (or_last_branch-In b bs _ (random_label-IsKept _ 0 (b ∷ bs))))
    | inr not_random ↦ elim (Bool-cases (cfg.mode == "audience")) [
      | inl audience ↦
          rw (plain, not_random, audience, given)
            (>>=-Ensures Any (IsKept "" (b ∷ bs)) (λ l. In l (labels (b ∷ bs)))
              (audience_label hash store run "" (b ∷ bs)) _ (audience_label-IsKept "" (b ∷ bs))
              λ l kept. pure-Ensures Any _ _ (or_last_branch-In b bs l kept))
      | inr unknown ↦
          rw (plain, not_random, unknown, given)
            (pure-Ensures Any (λ l. In l (labels (b ∷ bs))) (err (unsupported_mode cfg.mode)) tt)
    ]
  ]
