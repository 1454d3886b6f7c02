-- ===== src/Kiro/Provider/Call/Returns.antt =====
-- src/kiro/provider.rs: a call always comes back, and leaves a sound pool.
use kiro_rs_tool.Prelude.{
  ℕ, zero, suc, ◌+◌, ◌*◌, ◌≤◌, ◌≡◌, refl, String, Bool, true, false, not, ◌&&◌, ◌||◌, Option, none,
  some, ltb, ◌==◌, max, if◌then◌else◌,
}
use kiro_rs_tool.Kiro.TokenManager.Entry.{MultiTokenManager, max_failures_per_credential}
use kiro_rs_tool.Kiro.TokenManager.Report.{report_rate_limited}
use kiro_rs_tool.Kiro.Provider.Policy.{RetryPolicy}
use kiro_rs_tool.Kiro.Provider.Endpoint.{KiroEndpoint}
use kiro_rs_tool.Kiro.Provider.Acquire.{CallError, Acquired, acquired, refused}
use kiro_rs_tool.Kiro.TokenManager.Tokens.{force_refresh_token_for}
use kiro_rs_tool.Kiro.Provider.Call.{
  KiroProvider, Response, Reply, no_reply, reply, Hop, CallState, Verdict, done, stop, again,
  once_more, endpoint_for, is_success, is_server_error, is_client_error, emit, reported,
  auth_failure, after_refresh, contains_id, auth_failed_on, remaining_checks, rate_limited_manager,
  rate_limited_on, throttled_on, on_failure, on_reply, on_endpoint, on_acquired, with_context,
  attempt_api, CallResult, called, failed, on_verdict, call_loop, cooldown_of,
}
use kiro_rs_tool.Kiro.Provider.Call.Pool.{
  Keeps, success-Keeps, failure-Keeps, quota-Keeps, throttled-Keeps, limited-Keeps, forced-Keeps,
}
use kiro_rs_tool.Kiro.Provider.Call.Waits.{rounds, Comes, context-Comes}

module _ (n : ℕ) where
  -- A verdict with a state whose pool is kept.
  abbrev pub Leaves : Verdict × CallState → Type 0
  Leaves x = Keeps n x.1.manager

  pub if_Leaves :
      (b : Bool) (x y : Verdict × CallState) → Leaves x → Leaves y → Leaves (if b then x else y)
  if_Leaves true x y p q = p
  if_Leaves false x y p q = q

  auth_failure-Leaves :
      (now id : ℕ) (r : Response) (s : CallState)
      → Keeps n s.manager
      → Leaves (auth_failure now r id s)
  unfolding auth_failure reported
  auth_failure-Leaves now id r s k = failure-Keeps n s.manager k id now

  after_refresh-Leaves :
      (x : Bool × MultiTokenManager) (now id : ℕ) (r : Response) (s : CallState)
      → Keeps n x.1
      → Leaves (after_refresh x now r id s)
  unfolding after_refresh
  after_refresh-Leaves (true, m) now id r s k = k
  after_refresh-Leaves (false, m) now id r s k =
      auth_failure-Leaves now id r (record s { manager = m }) k

  pub auth_failed-Leaves :
      (endpoint : KiroEndpoint) (now id : ℕ) (refreshed : Bool) (r : Response) (s : CallState)
      → Keeps n s.manager
      → Leaves (auth_failed_on endpoint now refreshed r id s)
  unfolding auth_failed_on
  auth_failed-Leaves endpoint now id refreshed r s k =
      if_Leaves (endpoint.is_bearer_token_invalid r.body && not (contains_id id s.force_refreshed))
        _ _
        (after_refresh-Leaves (force_refresh_token_for s.manager id refreshed) now id r _
          (forced-Keeps n s.manager k id refreshed))
        (auth_failure-Leaves now id r s k)

  remaining-Leaves :
      (attempt id : ℕ) (r : Response) (s : CallState)
      → Keeps n s.manager
      → Leaves (remaining_checks attempt r id s)
  unfolding remaining_checks emit
  remaining-Leaves attempt id r s k =
      if_Leaves (r.status == 408 || is_server_error r.status) _ _ k
        (if_Leaves (is_client_error r.status) _ _ k k)

  pub limited_manager-Keeps :
      (policy : RetryPolicy) (now id : ℕ) (r : Response) (m : MultiTokenManager) (b : Bool)
      → Keeps n m
      → Keeps n (if b then (report_rate_limited m id (cooldown_of policy r) now).1 else m)
  limited_manager-Keeps policy now id r m true k = limited-Keeps n m k id (cooldown_of policy r) now
  limited_manager-Keeps policy now id r m false k = k

  rate_limited-Leaves :
      (policy : RetryPolicy) (tries attempt now id : ℕ) (r : Response) (s : CallState)
      → Keeps n s.manager
      → Leaves (rate_limited_on policy tries attempt now r id s)
  unfolding rate_limited_on rate_limited_manager emit
  rate_limited-Leaves policy tries attempt now id r s k =
      let kept =
        limited_manager-Keeps policy now id r s.manager policy.credential_switch_on_429 k in
      if_Leaves (ltb (attempt + 1) tries) _ _ kept (remaining-Leaves attempt id r _ kept)

  throttled-Leaves :
      (p : KiroProvider) (attempt now id : ℕ) (r : Response) (s : CallState)
      → Keeps n s.manager
      → Leaves (throttled_on p attempt now r id s)
  unfolding throttled_on emit
  throttled-Leaves p attempt now id r s k =
      throttled-Keeps n s.manager k id (max p.account_throttle_cooldown_secs 1 * 1000) now

  failure-Leaves :
      (p : KiroProvider) (policy : RetryPolicy) (tries attempt now id : ℕ) (endpoint : KiroEndpoint)
      (refreshed : Bool) (r : Response) (s : CallState)
      → Keeps n s.manager
      → Leaves (on_failure p policy tries attempt endpoint now refreshed r id s)
  unfolding on_failure emit reported
  failure-Leaves p policy tries attempt now id endpoint refreshed r s k =
      if_Leaves (r.status == 402 && endpoint.is_monthly_request_limit r.body) _ _
        (quota-Keeps n s.manager k id now)
        (if_Leaves (r.status == 400) _ _ k (
          if_Leaves (r.status == 401 || r.status == 403) _ _
            (auth_failed-Leaves endpoint now id refreshed r _ k)
            (if_Leaves
              (r.status == 429
                && p.account_throttle_failover
                && endpoint.is_account_throttled r.body)
              _ _ (throttled-Leaves p attempt now id r s k)
              (if_Leaves (endpoint.is_client_validation_error r.body) _ _ k (
                if_Leaves (r.status == 524 || endpoint.is_gateway_timeout r.body) _ _ k (
                  if_Leaves (r.status == 429) _ _
                    (rate_limited-Leaves policy tries attempt now id r s k)
                    (remaining-Leaves attempt id r s k)))))))

  reply-Leaves :
      (p : KiroProvider) (policy : RetryPolicy) (tries attempt now id : ℕ) (endpoint : KiroEndpoint)
      (refreshed : Bool) (answer : Reply) (s : CallState)
      → Keeps n s.manager
      → Leaves (on_reply p policy tries attempt endpoint now refreshed answer id s)
  unfolding on_reply emit
  reply-Leaves p policy tries attempt now id endpoint refreshed no_reply s k = k
  reply-Leaves p policy tries attempt now id endpoint refreshed (reply r) s k =
      if_Leaves (is_success r.status) _ _ (success-Keeps n s.manager k id now)
        (failure-Leaves p policy tries attempt now id endpoint refreshed r s k)

  endpoint-Leaves :
      (p : KiroProvider) (policy : RetryPolicy) (tries attempt id : ℕ) (o : Option KiroEndpoint)
      (h : Hop) (s : CallState)
      → Keeps n s.manager
      → Leaves (on_endpoint p policy tries attempt o h id s)
  unfolding on_endpoint emit
  endpoint-Leaves p policy tries attempt id none h s k = failure-Keeps n s.manager k id h.now
  endpoint-Leaves p policy tries attempt id (some endpoint) h s k =
      if_Leaves h.built _ _
        (reply-Leaves p policy tries attempt h.now id endpoint h.refreshed h.answer s k) k

  acquired-Leaves :
      (p : KiroProvider) (policy : RetryPolicy) (tries attempt : ℕ) (a : Acquired) (h : Hop)
      (s : CallState)
      → Keeps n s.manager
      → Leaves (on_acquired p policy tries attempt a h s)
  unfolding on_acquired emit
  acquired-Leaves p policy tries attempt (refused e) h s k = k
  acquired-Leaves p policy tries attempt (acquired e) h s k =
      endpoint-Leaves p policy tries attempt e.id (endpoint_for p e.credentials) h s k

  attempt-Leaves :
      (p : KiroProvider) (policy : RetryPolicy) (model : Option String) (tries attempt : ℕ)
      (h : Hop) (s : CallState)
      → max (n * max_failures_per_credential) 1 ≤ rounds h.tokens
      → Keeps n s.manager
      → (x : Verdict × CallState) × (attempt_api p policy model tries attempt h s ≡ some x)
        × Leaves x
  unfolding attempt_api with_context Comes
  attempt-Leaves p policy model tries attempt h s enough k =
      let (a, m, comes, l) = context-Comes n s.manager model h.now h.tokens enough k in
      (
        on_acquired p policy tries attempt a h (record s { manager = m }),
        rw comes refl,
        acquired-Leaves p policy tries attempt a h (record s { manager = m }) l,
      )

  abbrev pub Answers : Option (CallResult × CallState) → Type 0
  Answers o = (r : CallResult) × (t : CallState) × (o ≡ some (r, t)) × Keeps n t.manager

  pub verdict-Answers :
      (x : Verdict × CallState) (last : CallError)
      (next : CallError → CallState → Option (CallResult × CallState))
      → Leaves x
      → ((e : CallError) (t : CallState) → Keeps n t.manager → Answers (next e t))
      → Answers (on_verdict (some x) last next)
  unfolding on_verdict
  verdict-Answers (done id, s) last next k h = (called id, s, refl, k)
  verdict-Answers (stop e, s) last next k h = (failed e, s, refl, k)
  verdict-Answers (again e, s) last next k h = h e s k
  verdict-Answers (once_more, s) last next k h = h last s k

  pub call_loop-Answers :
      (p : KiroProvider) (policy : RetryPolicy) (model : Option String) (tries : ℕ) (hops : ℕ → Hop)
      (left attempt : ℕ) (last : CallError) (s : CallState)
      → ((j : ℕ) → max (n * max_failures_per_credential) 1 ≤ rounds (hops j).tokens)
      → Keeps n s.manager
      → Answers (call_loop p policy model tries hops left attempt last s)
  unfolding call_loop
  call_loop-Answers p policy model tries hops zero attempt last s enough k =
      (failed last, s, refl, k)
  call_loop-Answers p policy model tries hops (suc left) attempt last s enough k =
      let (x, tried, l) =
        attempt-Leaves p policy model tries attempt (hops attempt) s (enough attempt) k in
      rw tried (
        verdict-Answers x last _ l
          λ e t k'. call_loop-Answers p policy model tries hops left (attempt + 1) e t enough k')
