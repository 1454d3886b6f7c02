-- ===== src/Tests/Provider.antt =====
-- src/kiro/provider.rs: a call that fails twice on its way, and the theorems at work on it.
use kiro_rs_tool.Prelude.{
  ℕ, zero, suc, ◌≤◌, ◌<◌, ◌≡◌, refl, none, some, [], ◌∷◌, inl, inr, arith, true, false, length,
}
use kiro_rs_tool.Prelude.Text.{codes}
use kiro_rs_tool.Kiro.TokenManager.Entry.{CredentialEntry, MultiTokenManager}
use kiro_rs_tool.Kiro.TokenManager.Select.{current_hit, is_balanced}
use kiro_rs_tool.Kiro.TokenManager.Report.{report_success}
use kiro_rs_tool.Kiro.TokenManager.Health.{IsSound}
use kiro_rs_tool.Kiro.Provider.Policy.{RetryPolicy, max_retries}
use kiro_rs_tool.Kiro.Provider.Endpoint.{KiroEndpoint}
use kiro_rs_tool.Kiro.Provider.Acquire.{ready, refresh_failed}
use kiro_rs_tool.Kiro.Provider.Call.{
  KiroProvider, Response, Hop, CallState, CallResult, no_reply, reply, called, endpoint_for,
  is_success, call_api_with_retry,
}
use kiro_rs_tool.Kiro.Provider.Call.Recovers.{
  IsPassing, HasToken, IsSuccess, IsTransient, call_api_recovers,
}
use kiro_rs_tool.Kiro.Provider.Call.Waits.{rounds}
use kiro_rs_tool.Kiro.Provider.Mcp.{call_mcp_with_retry}
use kiro_rs_tool.Kiro.Provider.Mcp.Ends.{calls_return}

abbrev endpoint : KiroEndpoint
endpoint = record {
  is_monthly_request_limit = λ body. false;
  is_bearer_token_invalid = λ body. false;
  is_account_throttled = λ body. false;
  is_client_validation_error = λ body. false;
  is_gateway_timeout = λ body. false;
}

abbrev provider : KiroProvider
provider = record {
  endpoints = ("ide", endpoint) ∷ [];
  default_endpoint = "ide";
  account_throttle_failover = true;
  account_throttle_cooldown_secs = 1800;
}

abbrev policy : RetryPolicy
policy = record {
  rate_limit_cooldown_ms = 3000;
  max_request_retries = 9;
  base_backoff_ms = 200;
  max_backoff_ms = 2000;
  credential_switch_on_429 = true;
  respect_retry_after = false;
}

abbrev only : CredentialEntry
only = record {
  id = 1;
  credentials = record { priority = 0; subscription_title = none; endpoint = none };
  failure_count = 2;
  total_failure_count = 2;
  refresh_failure_count = 0;
  disabled = false;
  disabled_reason = none;
  success_count = 0;
  last_used_at = none;
  throttled_until = none;
  rate_limited_until = none;
}

abbrev manager : MultiTokenManager
manager = record { entries = only ∷ []; current_id = 1; load_balancing_mode = "priority" }

abbrev unavailable : Response
unavailable = record { status = 503; retry_after = none; body = codes "busy" }

abbrev fine : Response
fine = record { status = 200; retry_after = none; body = [] }

abbrev hops : ℕ → Hop
hops zero = record {
  now = 100;
  tokens = ready ∷ ready ∷ ready ∷ [];
  built = true;
  answer = no_reply;
  refreshed = false;
}
hops (suc zero) = record {
  now = 200;
  tokens = ready ∷ ready ∷ ready ∷ [];
  built = true;
  answer = reply unavailable;
  refreshed = false;
}
hops (suc (suc j)) = record {
  now = 300;
  tokens = ready ∷ refresh_failed ∷ ready ∷ [];
  built = true;
  answer = reply fine;
  refreshed = false;
}

hit_at : (j : ℕ) → current_hit manager (hops j).now ≡ some only
unfolding current_hit is_balanced
hit_at zero = refl
hit_at (suc zero) = refl
hit_at (suc (suc j)) = refl

hops-IsPassing : (j : ℕ) → j < 2 → IsPassing endpoint (hops j)
unfolding IsPassing HasToken IsTransient
hops-IsPassing zero h = ((ready ∷ ready ∷ [], inl refl), refl, inl refl)
hops-IsPassing (suc zero) h = (
  (ready ∷ ready ∷ [], inl refl),
  refl,
  inr (unavailable, refl, (inr (omega arith, omega arith, λ e. omega arith), refl, refl)),
)
hops-IsPassing (suc (suc j)) h = absurd (omega arith)

last_succeeds : IsSuccess (hops 2)
unfolding IsSuccess HasToken is_success
last_succeeds = ((refresh_failed ∷ ready ∷ [], inl refl), fine, refl, refl, refl)

call_api_recovers_example :
    (t : CallState) × (call_api_with_retry provider policy none hops manager ≡ some (called 1, t))
    × (t.manager ≡ report_success manager 1 300)
    × (length t.trace ≡ 3)
unfolding endpoint_for max_retries
call_api_recovers_example =
    call_api_recovers provider policy none endpoint only manager hops 2 refl (omega arith)
      (λ j h. hit_at j) hops-IsPassing last_succeeds

enough_at : (j : ℕ) → 3 ≤ rounds (hops j).tokens
enough_at zero = omega arith
enough_at (suc zero) = omega arith
enough_at (suc (suc j)) = omega arith

manager-IsSound : IsSound manager
manager-IsSound = ground arith

calls_return_example :
    ((r : CallResult) × (t : CallState) × (call_api_with_retry provider policy none hops manager
        ≡ some (r, t))
      × IsSound t.manager
      × (length t.manager.entries ≡ 1))
    × ((r : CallResult) × (t : CallState) × (call_mcp_with_retry provider policy hops manager
          ≡ some (r, t))
        × IsSound t.manager
        × (length t.manager.entries ≡ 1))
calls_return_example = calls_return provider policy none hops manager enough_at manager-IsSound
