-- ===== src/Delivery/Examples.antt =====
-- A recipient, an evening and some texts.
use openjourney.Common.{
  ℕ, ◌+◌, ◌*◌, ◌%◌, ◌/◌, ◌≤◌, ◌<◌, ◌≡◌, refl, ◌⊎◌, ◌↔◌, true, false, none, some, ok, codes, length,
  arith,
}
use openjourney.Common.Int.{pos}
use openjourney.Delivery.Policy.{
  Recipient, Caps, PolicyStore, topic_of, evaluate_policy, check_suppression, check_consent,
  check_24h, check_7d,
}
use openjourney.Delivery.Eligible.{IsBelow, evaluate_policy-sent_iff}
use openjourney.Delivery.QuietHours.{Zone, is_in_quiet_hours}
use openjourney.Delivery.NextOpen.{is_quiet, is_in_quiet_hours-end}
use openjourney.Delivery.Sms.{is_gsm7, is_gsm7_extended, is_ucs2, gsm7_count, analyze_sms}
use openjourney.Delivery.Segments.{IsLeast, analyze_sms-IsLeast}

abbrev ada : Recipient
ada = record { profile_id = "p1"; external_id = "e1"; endpoint = "ada@example.org" }

abbrev two_a_day : Caps
two_a_day = record { channel = "email"; topic = ""; max_sends_24h = pos 2; max_sends_7d = pos 0 }

abbrev one_sent : PolicyStore
one_sent = record {
  is_suppressed = λ channel endpoint. ok false;
  latest_consent = λ profile channel topic. ok "subscribed";
  sent_count_since = λ profile hours_ago. ok (pos 1);
}

sent_to_ada : (evaluate_policy one_sent ada two_a_day).decision ≡ "sent"
unfolding evaluate_policy check_suppression check_consent check_24h check_7d
sent_to_ada = refl

evaluate_policy-sent_iff_example : ((evaluate_policy one_sent ada two_a_day).decision ≡ "sent") ↔ (
    (one_sent.is_suppressed "email" "ada@example.org" ≡ ok false)
    × ((one_sent.latest_consent "p1" "email" (topic_of two_a_day) ≡ ok "subscribed")
        × (IsBelow (one_sent.sent_count_since "p1" 24) (pos 2)
            × IsBelow (one_sent.sent_count_since "p1" 168) (pos 0))))
evaluate_policy-sent_iff_example = evaluate_policy-sent_iff one_sent ada two_a_day

-- A time is a number of hours.
abbrev hours : Zone ℕ
hours = record { day = λ t. t / 24; hour = λ t. t % 24; date = λ day hour. day * 24 + hour }

is_in_quiet_hours-end_example :
    (let answer = is_in_quiet_hours (λ name. some hours) hours 23 none (some 22) (some 8) "" in
      ((answer ≡ ok (false, 23)) × (is_quiet 22 8 23 ≡ false))
      ⊎ ((days : ℕ) × (answer ≡ ok (true, (0 + days) * 24 + 8))
          × (23 < 24 * days + 8)
          × ((h : ℕ) → 23 ≤ h → h < 24 * days + 8 → is_quiet 22 8 (h % 24) ≡ true)
          × (is_quiet 22 8 8 ≡ false)))
is_in_quiet_hours-end_example =
    is_in_quiet_hours-end (λ name. some hours) hours 23 none 22 8 "" (omega arith) (omega arith)
      (omega arith) (omega arith)

-- The euro sign is one character of two units, and é is one of the basic set.
euro_two : gsm7_count (codes "5 €") ≡ 4
unfolding gsm7_count is_gsm7_extended
euro_two = refl

accent_basic : is_ucs2 (codes "café €") ≡ false
unfolding is_ucs2 is_gsm7
accent_basic = refl

han_wide : analyze_sms (codes "你好") ≡ (true, 2, 1)
unfolding analyze_sms is_ucs2 is_gsm7
han_wide = refl

analyze_sms-IsLeast_example :
    (let (ucs2, count, segments) = analyze_sms (codes "5 €") in
      IsLeast ucs2 count segments
      × ((length (codes "5 €") ≤ count)
          × ((count ≤ 2 * length (codes "5 €")) × (ucs2 ≡ true → count ≡ length (codes "5 €")))))
analyze_sms-IsLeast_example = analyze_sms-IsLeast (codes "5 €")
