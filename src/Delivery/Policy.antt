-- ===== src/Delivery/Policy.antt =====
-- internal/policy/policy.go. `Evaluate` asks the store as it goes, and returns early with a verdict.
use openjourney.Common.{
  ℕ, Bool, true, false, Option, none, some, String, ◌==◌, is_empty, if◌then◌else◌, Result, ok, err,
  ◌>>=◌,
}
use openjourney.Common.Int.{ℤ, is_positive, int_ltb}

pub record Recipient : Type 0 where
  pub profile_id : String
  pub external_id : String
  pub endpoint : String

pub record Caps : Type 0 where
  pub channel : String
  pub topic : String
  pub max_sends_24h : ℤ
  pub max_sends_7d : ℤ

-- `ports.ErrNotFound`, and any other error by its text.
pub data StoreError : Type 0 where
  not_found : StoreError
  other : String → StoreError

pub data Reason : Type 0 where
  suppression_failed consent_failed count_24h_failed count_7d_failed : StoreError → Reason
  endpoint_suppressed no_consent_found eligible : Reason
  consent_state : String → Reason
  limit_24h limit_7d : (sends cap : ℤ) → Reason

-- `snapshot`: each key, once it is set.
pub record Snapshot : Type 0 where
  pub suppressed : Option Bool
  pub consent : Option String
  pub sends_24h : Option (ℤ × ℤ)
  pub sends_7d : Option (ℤ × ℤ)

pub record Verdict : Type 0 where
  pub decision : String
  pub reason : Reason
  pub snapshot : Snapshot

-- The queries: counts are since so many hours before now.
pub record PolicyStore : Type 0 where
  pub is_suppressed : (channel endpoint : String) → Result StoreError Bool
  pub latest_consent : (profile channel topic : String) → Result StoreError String
  pub sent_count_since : (profile : String) (hours_ago : ℕ) → Result StoreError ℤ

abbrev pub no_snapshot : Snapshot
no_snapshot = record { suppressed = none; consent = none; sends_24h = none; sends_7d = none }

abbrev pub verdict : String → Reason → Snapshot → Verdict
verdict decision reason snapshot = record {
  decision = decision;
  reason = reason;
  snapshot = snapshot;
}

-- A check: the snapshot that it makes, or the verdict that it returns.
abbrev pub Check : Type 0
Check = Result Verdict Snapshot

abbrev pub topic_of : Caps → String
topic_of caps = if is_empty caps.topic then "marketing" else caps.topic

abbrev pub suppression_answer : Result StoreError Bool → Snapshot → Check
suppression_answer (err e) s = err (verdict "send_failed" (suppression_failed e) s)
suppression_answer (ok true) s =
    err (verdict "suppressed" endpoint_suppressed (record s { suppressed = some true }))
suppression_answer (ok false) s = ok (record s { suppressed = some false })

abbrev pub consent_answer : Result StoreError String → Snapshot → Check
consent_answer (err not_found) s =
    err (verdict "no_consent" no_consent_found (record s { consent = some "missing" }))
consent_answer (err (other e)) s = err (verdict "send_failed" (consent_failed (other e)) s)
consent_answer (ok state) s =
    let after = record s { consent = some state } in
    if state == "subscribed"
    then ok after
    else err (verdict "no_consent" (consent_state state) after)

abbrev pub answer_24h : Result StoreError ℤ → ℤ → Snapshot → Check
answer_24h (err e) cap s = err (verdict "send_failed" (count_24h_failed e) s)
answer_24h (ok sends) cap s =
    let after = record s { sends_24h = some (sends, cap) } in
    if int_ltb sends cap then ok after else err (verdict "fatigued" (limit_24h sends cap) after)

abbrev pub answer_7d : Result StoreError ℤ → ℤ → Snapshot → Check
answer_7d (err e) cap s = err (verdict "send_failed" (count_7d_failed e) s)
answer_7d (ok sends) cap s =
    let after = record s { sends_7d = some (sends, cap) } in
    if int_ltb sends cap then ok after else err (verdict "fatigued" (limit_7d sends cap) after)

abbrev pub returned : Check → Verdict
returned (err v) = v
returned (ok s) = verdict "sent" eligible s

module _ (store : PolicyStore) (recipient : Recipient) (caps : Caps) where
  unfoldable pub check_suppression : Snapshot → Check
  check_suppression s = suppression_answer (store.is_suppressed caps.channel recipient.endpoint) s

  unfoldable pub check_consent : Snapshot → Check
  check_consent s =
      consent_answer (store.latest_consent recipient.profile_id caps.channel (topic_of caps)) s

  unfoldable pub check_24h : Snapshot → Check
  check_24h s =
      if is_positive caps.max_sends_24h
      then answer_24h (store.sent_count_since recipient.profile_id 24) caps.max_sends_24h s
      else ok s

  unfoldable pub check_7d : Snapshot → Check
  check_7d s =
      if is_positive caps.max_sends_7d
      then answer_7d (store.sent_count_since recipient.profile_id 168) caps.max_sends_7d s
      else ok s

  -- `Evaluate`.
  unfoldable pub evaluate_policy : Verdict
  unfolding check_suppression check_consent check_24h check_7d
  evaluate_policy = returned (
      check_suppression no_snapshot >>= λ s1.
      check_consent s1 >>= λ s2. check_24h s2 >>= λ s3. check_7d s3)
