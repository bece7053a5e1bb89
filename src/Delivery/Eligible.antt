-- ===== src/Delivery/Eligible.antt =====
-- When internal/policy/policy.go lets a message be sent.
use openjourney.Common.{
  ok_inj, ◌≡◌, ◌≢◌, refl, sym, ap, ◌∙◌, ◌↔◌, inl, inr, Bool, true, false, String, ◌==◌, eq_iff,
  arith, if◌then◌else◌, Result, ok, err, ◌>>=◌, Bool-cases,
}
use openjourney.Common.Int.{ℤ, is_positive, int_ltb}
use openjourney.Delivery.Policy.{
  Recipient, Caps, StoreError, not_found, other, Snapshot, Verdict, PolicyStore, Check, no_snapshot,
  topic_of, suppression_answer, consent_answer, answer_24h, answer_7d, returned, check_suppression,
  check_consent, check_24h, check_7d, evaluate_policy,
}

-- A cap that is set is above the count, and the count has no error.
abbrev pub IsBelow : Result StoreError ℤ → ℤ → Type 0
IsBelow answer cap =
    is_positive cap ≡ true → (sends : ℤ) × (answer ≡ ok sends) × (int_ltb sends cap ≡ true)

-- A check passes exactly under the condition, and a verdict that it returns is not to send.
data Decided (c : Check) (P : Type 0) : Type 0 where
  passes : (s : Snapshot) → c ≡ ok s → P → Decided c P
  returns : (v : Verdict) → c ≡ err v → v.decision ≢ "sent" → ¬ P → Decided c P

other_decision : (x y : String) → (x == y) ≡ false → x ≢ y
other_decision x y apart e = ground (arith, eq_iff x y)

if-Decided :
    (b : Bool) (c d : Check) (P : Type 0)
    → (b ≡ true → Decided c P)
    → (b ≡ false → Decided d P)
    → Decided (if b then c else d) P
if-Decided true c d P yes_case no_case = yes_case refl
if-Decided false c d P yes_case no_case = no_case refl

not_both : true ≡ false → ⊥
not_both h = ground arith

over_under : {a b : ℤ} (cap : ℤ) → int_ltb a cap ≡ false → a ≡ b → int_ltb b cap ≡ true → ⊥
over_under cap over e under = not_both (sym under ∙ ap (λ n. int_ltb n cap) (sym e) ∙ over)

suppression_lem :
    (a : Result StoreError Bool) (s : Snapshot) → Decided (suppression_answer a s) (a ≡ ok false)
suppression_lem (err e) s =
    Decided.returns _ refl (other_decision "send_failed" "sent" refl) λ h. ground arith
suppression_lem (ok true) s =
    Decided.returns _ refl (other_decision "suppressed" "sent" refl) λ h. ground arith
suppression_lem (ok false) s = Decided.passes _ refl refl

consent_lem :
    (a : Result StoreError String) (s : Snapshot)
    → Decided (consent_answer a s) (a ≡ ok "subscribed")
consent_lem (err not_found) s =
    Decided.returns _ refl (other_decision "no_consent" "sent" refl) λ h. ground arith
consent_lem (err (other e)) s =
    Decided.returns _ refl (other_decision "send_failed" "sent" refl) λ h. ground arith
consent_lem (ok state) s =
    if-Decided (state == "subscribed") _ _ _
      (λ same. Decided.passes _ refl (ap ok (ground (arith, eq_iff state "subscribed"))))
      (λ apart.
        Decided.returns _ refl (other_decision "no_consent" "sent" refl)
          λ h. other_decision state "subscribed" apart (ok_inj h))

below_24h :
    (a : Result StoreError ℤ) (cap : ℤ) (s : Snapshot)
    → Decided (answer_24h a cap s) ((sends : ℤ) × (a ≡ ok sends) × (int_ltb sends cap ≡ true))
below_24h (err e) cap s =
    Decided.returns _ refl (other_decision "send_failed" "sent" refl) λ (n, h, _). ground arith
below_24h (ok sends) cap s =
    if-Decided (int_ltb sends cap) _ _ _ (λ under. Decided.passes _ refl (sends, refl, under))
      (λ over.
        Decided.returns _ refl (other_decision "fatigued" "sent" refl)
          λ (n, h, under). over_under cap over (ok_inj h) under)

below_7d :
    (a : Result StoreError ℤ) (cap : ℤ) (s : Snapshot)
    → Decided (answer_7d a cap s) ((sends : ℤ) × (a ≡ ok sends) × (int_ltb sends cap ≡ true))
below_7d (err e) cap s =
    Decided.returns _ refl (other_decision "send_failed" "sent" refl) λ (n, h, _). ground arith
below_7d (ok sends) cap s =
    if-Decided (int_ltb sends cap) _ _ _ (λ under. Decided.passes _ refl (sends, refl, under))
      (λ over.
        Decided.returns _ refl (other_decision "fatigued" "sent" refl)
          λ (n, h, under). over_under cap over (ok_inj h) under)

-- A check of a cap, which is left out where the cap is not set.
capped_lem :
    (c : Check) (cap : ℤ) (s : Snapshot) (a : Result StoreError ℤ)
    → Decided c ((sends : ℤ) × (a ≡ ok sends) × (int_ltb sends cap ≡ true))
    → Decided (if is_positive cap then c else ok s) (IsBelow a cap)
capped_lem c cap s a decided = elim (Bool-cases (is_positive cap)) [
  | inr unset ↦ Decided.passes s (rw unset) λ set. ground arith
  | inl set ↦ elim decided [
    | passes s' e p ↦ Decided.passes s' (rw (set, e)) λ again. p
    | returns v e not_sent p ↦ Decided.returns v (rw (set, e)) not_sent λ h. p (h set)
  ]
]

-- Two checks in a row.
then_lem :
    (c : Check) (P : Type 0) (next : Snapshot → Check) (Q : Type 0)
    → Decided c P
    → ((s : Snapshot) → Decided (next s) Q)
    → Decided (c >>= next) (P × Q)
then_lem c P next Q (passes s e p) rest = elim (rest s) [
  | passes s' e' q ↦ Decided.passes s' (rw (e, e')) (p, q)
  | returns v e' not_sent q ↦ Decided.returns v (rw (e, e')) not_sent λ (_, h). q h
]
then_lem c P next Q (returns v e not_sent p) rest = Decided.returns v (rw e) not_sent λ (h, _). p h

returned_lem : (c : Check) (P : Type 0) → Decided c P → ((returned c).decision ≡ "sent") ↔ P
returned_lem c P (passes s e p) = (λ h. p, λ h. rw e)
returned_lem c P (returns v e not_sent p) = (λ h. absurd (not_sent (rw e at h)), λ h. absurd (p h))

-- `Evaluate` decides to send if and only if the store answers that the endpoint is not suppressed and
-- that the latest consent for the topic, "marketing" if there is none, is "subscribed" and, for each
-- cap that is positive, gives a count of sends in the window that is below the cap.
pub evaluate_policy-sent_iff :
    (store : PolicyStore) (recipient : Recipient) (caps : Caps)
    → ((evaluate_policy store recipient caps).decision ≡ "sent") ↔ (
        (store.is_suppressed caps.channel recipient.endpoint ≡ ok false)
        × ((store.latest_consent recipient.profile_id caps.channel (topic_of caps)
              ≡ ok "subscribed")
            × (IsBelow (store.sent_count_since recipient.profile_id 24) caps.max_sends_24h
                × IsBelow (store.sent_count_since recipient.profile_id 168) caps.max_sends_7d)))
unfolding evaluate_policy check_suppression check_consent check_24h check_7d
evaluate_policy-sent_iff store recipient caps = returned_lem _ _ (
    then_lem _ _ _ _
      (suppression_lem (store.is_suppressed caps.channel recipient.endpoint) no_snapshot)
      λ s1.
        then_lem _ _ _ _
          (consent_lem (store.latest_consent recipient.profile_id caps.channel (topic_of caps)) s1)
          λ s2.
            then_lem _ _ _ _
              (capped_lem _ caps.max_sends_24h s2 _
                (below_24h (store.sent_count_since recipient.profile_id 24) caps.max_sends_24h s2))
              λ s3.
                capped_lem _ caps.max_sends_7d s3 _
                  (below_7d (store.sent_count_since recipient.profile_id 168) caps.max_sends_7d s3))
