-- ===== src/Journey/Schedule/Due.antt =====
-- When a schedule that validation accepts is due.
use mathlib.Core.Path.{fun_ext}
use openjourney.Common.{
  ℕ, zero, suc, ◌%◌, ◌≤◌, ◌<◌, ◌≡◌, refl, ap, subst, ◌∙◌, ◌↔◌, ◌⊎◌, inl, inr, Bool, true, false,
  List, [], ◌∷◌, Option, none, some, arith, nat_eq_iff, ok, Bool-cases, Option-cases, all,
}
use openjourney.Common.Int.{ℤ, pos, negsuc}
use openjourney.Json.{same_codes}
use openjourney.Journey.Schedule.{
  Codes, is_space, star, after_slash, atoi, within, check_minute, check_fields, fields_from,
  validate_schedule, minute_due, is_scheduled_due,
}

-- Due at every minute, at the multiples of an interval from 1 to 59, or at one minute of the hour.
abbrev pub IsRegular : (ℕ → Bool) → Type 0
IsRegular due =
    ((m : ℕ) → due m ≡ true)
    ⊎ ((k : ℕ) × (1 ≤ k) × (k ≤ 59) × ((m : ℕ) → (due m ≡ true) ↔ (m % k ≡ 0)))
    ⊎ ((n : ℕ) × (n ≤ 59) × ((m : ℕ) → (due m ≡ true) ↔ (m ≡ n)))

within-some :
    (lo : ℕ) (o : Option ℤ)
    → within lo o ≡ true
    → (n : ℕ) × (o ≡ some (pos n)) × (lo ≤ n) × (n ≤ 59)
within-some lo none h = cc
within-some lo (some (negsuc n)) h = cc
within-some lo (some (pos n)) h = (n, refl, ground arith, ground arith)

module _ (field : Codes) where
  due_star : same_codes field star ≡ true → IsRegular (minute_due field)
  unfolding minute_due
  due_star h = inl (λ m. rw h)

  due_interval :
      {interval : Codes} (k : ℕ)
      → same_codes field star ≡ false
      → after_slash field ≡ some interval
      → atoi interval ≡ some (pos k)
      → 1 ≤ k
      → (m : ℕ) → (minute_due field m ≡ true) ↔ (m % k ≡ 0)
  unfolding minute_due
  due_interval zero plain slash read low m = absurd (omega arith)
  due_interval (suc k) plain slash read low m = rw (plain, slash, read) (nat_eq_iff (m % suc k) 0)

  due_exact :
      (n : ℕ)
      → same_codes field star ≡ false
      → after_slash field ≡ none
      → atoi field ≡ some (pos n)
      → (m : ℕ) → (minute_due field m ≡ true) ↔ (m ≡ n)
  unfolding minute_due
  due_exact n plain slash read m = rw (plain, slash, read) (nat_eq_iff m n)

  module _ {fields out : List Codes} (h : check_minute fields field ≡ ok out) where
    accepted_star : same_codes field star ≡ true → out ≡ fields
    unfolding check_minute
    accepted_star every = ground arith

    accepted_exact :
        same_codes field star ≡ false
        → after_slash field ≡ none
        → (out ≡ fields) × (n : ℕ) × (atoi field ≡ some (pos n)) × (0 ≤ n) × (n ≤ 59)
    unfolding check_minute
    accepted_exact plain slash =
        let (n, read, low, top) = within-some 0 (atoi field) (ground arith) in
        (ground arith, n, read, low, top)

    accepted_interval :
        {interval : Codes}
        → same_codes field star ≡ false
        → after_slash field ≡ some interval
        → (out ≡ fields) × (k : ℕ) × (atoi interval ≡ some (pos k)) × (1 ≤ k) × (k ≤ 59)
    unfolding check_minute
    accepted_interval {interval} plain slash =
        let (k, read, low, top) = within-some 1 (atoi interval) (ground arith) in
        (ground arith, k, read, low, top)

  check_minute-IsRegular :
      (fields out : List Codes)
      → check_minute fields field ≡ ok out
      → (out ≡ fields) × IsRegular (minute_due field)
  check_minute-IsRegular fields out h = elim (Bool-cases (same_codes field star)) [
    | inl every ↦ (accepted_star h every, due_star every)
    | inr plain ↦ elim (Option-cases (after_slash field)) [
      | inl no_slash ↦
          let (same, n, read, low, top) = accepted_exact h plain no_slash in
          (same, inr (inr (n, top, due_exact n plain no_slash read)))
      | inr (interval, slash) ↦
          let (same, k, read, low, top) = accepted_interval h plain slash in
          (same, inr (inl (k, low, top, due_interval k plain slash read low)))
    ]
  ]

check_fields-IsRegular :
    (fields out : List Codes)
    → check_fields fields ≡ ok out
    → (minute : Codes) × (rest : List Codes) × (out ≡ minute ∷ rest) × IsRegular (minute_due minute)
unfolding check_fields
check_fields-IsRegular (a ∷ b ∷ c ∷ d ∷ e ∷ []) out h =
    elim (Bool-cases (all (λ f. same_codes f star) (b ∷ c ∷ d ∷ e ∷ []))) [
      | inr other ↦ absurd (ground arith)
      | inl stars ↦
          let (same, regular) =
            check_minute-IsRegular a (a ∷ b ∷ c ∷ d ∷ e ∷ []) out (ground arith) in
          (a, b ∷ c ∷ d ∷ e ∷ [], same, regular)
    ]
check_fields-IsRegular _ out h = cc

star-same : same_codes star star ≡ true
unfolding same_codes
star-same = refl

module _ (schedule : Codes) {fields : List Codes} (h : validate_schedule schedule ≡ ok fields) where
  accepted_fields :
      (minute : Codes) × (rest : List Codes) × (fields ≡ minute ∷ rest)
      × IsRegular (minute_due minute)
  unfolding validate_schedule
  accepted_fields = elim (Bool-cases (all is_space schedule)) [
    | inl blank ↦ (star, star ∷ star ∷ star ∷ star ∷ [], ground arith, due_star star star-same)
    | inr written ↦ check_fields-IsRegular (fields_from [] schedule) fields (ground arith)
  ]

  due_by_minute :
      (minute : Codes) (rest : List Codes)
      → fields ≡ minute ∷ rest
      → minute_due minute ≡ is_scheduled_due schedule
  unfolding is_scheduled_due
  due_by_minute minute rest e = fun_ext (λ m. rw (h ∙ ap ok e, is_scheduled_due))

  -- A schedule that `validateSchedule` accepts is due at every minute, or at the multiples of an
  -- interval of 1 to 59, or at exactly one minute of the hour from 0 to 59.
  pub validate_schedule-IsRegular : IsRegular (is_scheduled_due schedule)
  validate_schedule-IsRegular =
      let (minute, rest, e, regular) = accepted_fields in
      subst IsRegular (due_by_minute minute rest e) regular

  -- So no accepted schedule is never due: some minute of each hour is.
  pub validate_schedule-due : (m : ℕ) × (m < 60) × (is_scheduled_due schedule m ≡ true)
  validate_schedule-due = elim validate_schedule-IsRegular [
    | inl every ↦ (0, omega arith, every 0)
    | inr (inl (k, low, top, due)) ↦ (0, omega arith, (due 0).1 (omega arith))
    | inr (inr (n, top, due)) ↦ (n, omega arith, (due n).1 refl)
  ]
