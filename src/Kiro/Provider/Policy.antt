-- ===== src/Kiro/Provider/Policy.antt =====
-- src/model/config.rs and src/kiro/provider.rs: how often a call is tried, and the wait between.
use kiro_rs_tool.Prelude.{
  ℕ, ◌*◌, min, max, Bool, true, false, ◌&&◌, ◌||◌, not, Option, none, some, ltb, leb, ◌⊎◌, inl, inr,
  String, if◌then◌else◌,
}

pub data RetryMode : Type 0 where
  turbo fast balanced steady polite custom : RetryMode

pub record RetryPolicy : Type 0 where
  pub rate_limit_cooldown_ms : ℕ
  pub max_request_retries : ℕ
  pub base_backoff_ms : ℕ
  pub max_backoff_ms : ℕ
  pub credential_switch_on_429 : Bool
  pub respect_retry_after : Bool

abbrev fast_policy : RetryPolicy
fast_policy = record {
  rate_limit_cooldown_ms = 3000;
  max_request_retries = 9;
  base_backoff_ms = 200;
  max_backoff_ms = 2000;
  credential_switch_on_429 = true;
  respect_retry_after = false;
}

unfoldable pub preset : RetryMode → RetryPolicy
preset turbo = record {
  rate_limit_cooldown_ms = 1000;
  max_request_retries = 12;
  base_backoff_ms = 100;
  max_backoff_ms = 1000;
  credential_switch_on_429 = true;
  respect_retry_after = false;
}
preset fast = fast_policy
preset balanced = record {
  rate_limit_cooldown_ms = 10000;
  max_request_retries = 9;
  base_backoff_ms = 500;
  max_backoff_ms = 5000;
  credential_switch_on_429 = true;
  respect_retry_after = false;
}
preset steady = record {
  rate_limit_cooldown_ms = 30000;
  max_request_retries = 6;
  base_backoff_ms = 1000;
  max_backoff_ms = 10000;
  credential_switch_on_429 = true;
  respect_retry_after = true;
}
preset polite = record {
  rate_limit_cooldown_ms = 60000;
  max_request_retries = 4;
  base_backoff_ms = 2000;
  max_backoff_ms = 30000;
  credential_switch_on_429 = false;
  respect_retry_after = true;
}
preset custom = fast_policy

-- The error of `validate`, if there is one.
unfoldable pub validate : RetryPolicy → Option String
validate p =
    if not (leb 500 p.rate_limit_cooldown_ms && leb p.rate_limit_cooldown_ms 120000)
    then some "rateLimitCooldownMs 必须在 500..=120000 之间"
    else if not (leb 1 p.max_request_retries && leb p.max_request_retries 30)
    then some "maxRequestRetries 必须在 1..=30 之间"
    else if not (leb 50 p.base_backoff_ms && leb p.base_backoff_ms 30000)
    then some "baseBackoffMs 必须在 50..=30000 之间"
    else if ltb p.max_backoff_ms p.base_backoff_ms || ltb 120000 p.max_backoff_ms
    then some "maxBackoffMs 必须在 baseBackoffMs..=120000 之间"
    else none

unfoldable pub validated : RetryPolicy → RetryPolicy ⊎ String
unfolding validate
validated p = elim (validate p) [ none ↦ inl p | some e ↦ inr e ]

unfoldable pub effective : RetryMode → Option RetryPolicy → RetryPolicy ⊎ String
unfolding preset validated
effective custom none = inr "custom 模式需要 retryPolicy"
effective custom (some p) = validated p
effective turbo p = validated (preset turbo)
effective fast p = validated (preset fast)
effective balanced p = validated (preset balanced)
effective steady p = validated (preset steady)
effective polite p = validated (preset polite)

abbrev pub max_total_retries : ℕ
max_total_retries = 30

unfoldable pub max_retries : ℕ → RetryPolicy → ℕ
max_retries total_credentials p =
    min (max total_credentials 1 * p.max_request_retries) max_total_retries

-- With the delay that the header `Retry-After` gives.
unfoldable pub retry_after_delay : Option ℕ → RetryPolicy → Option ℕ
retry_after_delay header p = if not p.respect_retry_after then none else header
