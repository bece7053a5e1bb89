-- ===== src/Journey/Validate/Timeouts.antt =====
-- The bound on the timeout of an AI decision.
use openjourney.Common.{
  ℕ, ◌*◌, ◌^◌, ◌<◌, ◌≤◌, ◌≡◌, refl, subst, true, false, not, is_empty, arith, guard, guard-eq-ok,
  >>=-eq-ok,
}
use openjourney.Common.Int.{pos, is_positive}
use openjourney.Journey.Graph.{Node}
use openjourney.Journey.Config.{NodeConfig, AiDecisionConfig}
use openjourney.Journey.Outgoing.{fine}
use openjourney.Journey.Validate.{ai_durations, ms_exceeds, max_ai_decision_timeout}

-- What the check of an AI decision's timeout says of a number of milliseconds.
not_exceeds :
    (ms : ℕ)
    → ms_exceeds (pos ms) max_ai_decision_timeout ≡ false
    → ms * 1000000 < 2 ^ 63
    → ms ≤ 5000
not_exceeds ms h small = ground arith

exceeds_wraps :
    (ms : ℕ)
    → 2 ^ 63 ≤ ms * 1000000
    → ms * 1000000 < 2 ^ 64
    → ms_exceeds (pos ms) max_ai_decision_timeout ≡ false
exceeds_wraps ms low high = ground arith

module _ (n : Node) (cfg : AiDecisionConfig) (ms : ℕ) (given : cfg.timeout_ms ≡ pos ms) where
  -- An AI decision that passes the check has a timeout of 1 to 5000 milliseconds, if its number of
  -- nanoseconds is below 2 ^ 63.
  pub ai_durations_le :
      ai_durations n (NodeConfig.ai_decision cfg) ≡ fine
      → ms * 1000000 < 2 ^ 63
      → (0 < ms) × (ms ≤ 5000)
  ai_durations_le h small =
      let (_, _, h1) = >>=-eq-ok (guard (not (is_empty cfg.prompt_version_id)) _) _ h in
      let (_, positive, h2) = >>=-eq-ok (guard (is_positive cfg.timeout_ms) _) _ h1 in
      let (_, short, _) =
        >>=-eq-ok (guard (not (ms_exceeds cfg.timeout_ms max_ai_decision_timeout)) _) _ h2 in
      let positive' : is_positive (pos ms) ≡ true = rw given at (guard-eq-ok _ _ positive) in
      let short' : not (ms_exceeds (pos ms) max_ai_decision_timeout) ≡ true =
        subst (λ z. not (ms_exceeds z max_ai_decision_timeout) ≡ true) given
          (guard-eq-ok _ _ short) in
      (ground arith, not_exceeds ms (ground arith) small)

  -- A timeout whose number of nanoseconds is at least 2 ^ 63 and below 2 ^ 64 passes the check, if
  -- the prompt version is named and the cost is positive.
  pub ai_durations_wraps :
      2 ^ 63 ≤ ms * 1000000
      → ms * 1000000 < 2 ^ 64
      → is_empty cfg.prompt_version_id ≡ false
      → is_positive cfg.max_cost_cents ≡ true
      → ai_durations n (NodeConfig.ai_decision cfg) ≡ fine
  ai_durations_wraps low high named priced =
      let short = exceeds_wraps ms low high in
      let positive : is_positive (pos ms) ≡ true = ground arith in
      rw (named, given, positive, short, priced) refl
