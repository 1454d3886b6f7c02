-- ===== src/Kiro/Provider/Mcp/Ends.antt =====
-- src/kiro/provider.rs: a call of a tool comes back as well.
use kiro_rs_tool.Prelude.{
  ℕ, zero, suc, ◌+◌, ◌*◌, ◌≤◌, ◌≡◌, refl, String, Bool, ◌&&◌, ◌||◌, Option, none, some, [], ltb,
  ◌==◌, max, length,
}
use kiro_rs_tool.Kiro.TokenManager.Entry.{MultiTokenManager, max_failures_per_credential}
use kiro_rs_tool.Kiro.TokenManager.Health.{IsSound}
use kiro_rs_tool.Kiro.Provider.Policy.{RetryPolicy, max_retries}
use kiro_rs_tool.Kiro.Provider.Endpoint.{KiroEndpoint}
use kiro_rs_tool.Kiro.Provider.Acquire.{CallError, retries_used, Acquired, acquired, refused}
use kiro_rs_tool.Kiro.Provider.Call.{
  KiroProvider, Response, Reply, no_reply, reply, Hop, CallState, again, endpoint_for, is_success,
  is_server_error, is_client_error, reported, rate_limited_manager, CallResult, failed, on_verdict,
  call_api_with_retry,
}
use kiro_rs_tool.Kiro.Provider.Call.Pool.{Keeps, success-Keeps, failure-Keeps, quota-Keeps}
use kiro_rs_tool.Kiro.Provider.Call.Waits.{rounds, Comes, context-Comes}
use kiro_rs_tool.Kiro.Provider.Call.Returns.{
  if_Leaves, auth_failed-Leaves, limited_manager-Keeps, Leaves, Answers, verdict-Answers,
  call_loop-Answers,
}
use kiro_rs_tool.Kiro.Provider.Mcp.{
  remaining_mcp, rate_limited_mcp, failure_mcp, reply_mcp, endpoint_mcp, acquired_mcp, loop_mcp,
  call_mcp_with_retry,
}

module _ (n : ℕ) where
  remaining-Leaves :
      (r : Response) (s : CallState) → Keeps n s.manager → Leaves n (remaining_mcp r s)
  unfolding remaining_mcp
  remaining-Leaves r s k =
      if_Leaves n (r.status == 408 || is_server_error r.status) _ _ k
        (if_Leaves n (is_client_error r.status) _ _ k k)

  rate_limited-Leaves :
      (policy : RetryPolicy) (tries attempt now id : ℕ) (r : Response) (s : CallState)
      → Keeps n s.manager
      → Leaves n (rate_limited_mcp policy tries attempt now r id s)
  unfolding rate_limited_mcp rate_limited_manager
  rate_limited-Leaves policy tries attempt now id r s k =
      let kept =
        limited_manager-Keeps n policy now id r s.manager policy.credential_switch_on_429 k in
      if_Leaves n (ltb (attempt + 1) tries) _ _ kept (remaining-Leaves r _ kept)

  failure-Leaves :
      (policy : RetryPolicy) (tries attempt now id : ℕ) (endpoint : KiroEndpoint) (refreshed : Bool)
      (r : Response) (s : CallState)
      → Keeps n s.manager
      → Leaves n (failure_mcp policy tries attempt endpoint now refreshed r id s)
  unfolding failure_mcp reported
  failure-Leaves policy tries attempt now id endpoint refreshed r s k =
      if_Leaves n (r.status == 402 && endpoint.is_monthly_request_limit r.body) _ _
        (quota-Keeps n s.manager k id now)
        (if_Leaves n (r.status == 400) _ _ k (
          if_Leaves n (r.status == 401 || r.status == 403) _ _
            (auth_failed-Leaves n endpoint now id refreshed r s k)
            (if_Leaves n (r.status == 429) _ _
              (rate_limited-Leaves policy tries attempt now id r s k) (remaining-Leaves r s k))))

  reply-Leaves :
      (policy : RetryPolicy) (tries attempt now id : ℕ) (endpoint : KiroEndpoint) (refreshed : Bool)
      (answer : Reply) (s : CallState)
      → Keeps n s.manager
      → Leaves n (reply_mcp policy tries attempt endpoint now refreshed answer id s)
  unfolding reply_mcp
  reply-Leaves policy tries attempt now id endpoint refreshed no_reply s k = k
  reply-Leaves policy tries attempt now id endpoint refreshed (reply r) s k =
      if_Leaves n (is_success r.status) _ _ (success-Keeps n s.manager k id now)
        (failure-Leaves policy tries attempt now id endpoint refreshed r s k)

  endpoint-Leaves :
      (policy : RetryPolicy) (tries attempt id : ℕ) (o : Option KiroEndpoint) (h : Hop)
      (s : CallState)
      → Keeps n s.manager
      → Leaves n (endpoint_mcp policy tries attempt o h id s)
  unfolding endpoint_mcp
  endpoint-Leaves policy tries attempt id none h s k = failure-Keeps n s.manager k id h.now
  endpoint-Leaves policy tries attempt id (some endpoint) h s k =
      if_Leaves n h.built _ _
        (reply-Leaves policy tries attempt h.now id endpoint h.refreshed h.answer s k) k

  judged :
      (p : KiroProvider) (policy : RetryPolicy) (tries attempt : ℕ) (h : Hop) (s : CallState)
      (last : CallError) (next : CallError → CallState → Option (CallResult × CallState))
      (a : Acquired) (m : MultiTokenManager)
      → Keeps n m
      → ((e : CallError) (t : CallState) → Keeps n t.manager → Answers n (next e t))
      → Answers n (on_verdict (acquired_mcp p policy tries attempt (some (a, m)) h s) last next)
  unfolding acquired_mcp
  judged p policy tries attempt h s last next (refused e) m l later =
      verdict-Answers n (again e, record s { manager = m }) last next l later
  judged p policy tries attempt h s last next (acquired e) m l later =
      let o = endpoint_for p e.credentials in
      verdict-Answers n (endpoint_mcp policy tries attempt o h e.id (record s { manager = m })) last
        next (endpoint-Leaves policy tries attempt e.id o h (record s { manager = m }) l) later

  loop-Answers :
      (p : KiroProvider) (policy : RetryPolicy) (tries : ℕ) (hops : ℕ → Hop) (left attempt : ℕ)
      (last : CallError) (s : CallState)
      → ((j : ℕ) → max (n * max_failures_per_credential) 1 ≤ rounds (hops j).tokens)
      → Keeps n s.manager
      → Answers n (loop_mcp p policy tries hops left attempt last s)
  unfolding loop_mcp Comes
  loop-Answers p policy tries hops zero attempt last s enough k = (failed last, s, refl, k)
  loop-Answers p policy tries hops (suc left) attempt last s enough k =
      let h = hops attempt in
      let (a, m, comes, l) = context-Comes n s.manager none h.now h.tokens (enough attempt) k in
      rw comes (
        judged p policy tries attempt h s last _ a m l
          λ e t l'. loop-Answers p policy tries hops left (attempt + 1) e t enough l')

-- If in every attempt at least three tokens for each credential are answered for, not counting those
-- that were reloaded from a file, a call comes back with a result, that of a model and that of a tool.
-- From a sound pool both leave a sound pool with as many credentials, whatever the service answered.
pub calls_return :
    (p : KiroProvider) (policy : RetryPolicy) (model : Option String) (hops : ℕ → Hop)
    (m : MultiTokenManager)
    → ((j : ℕ) → max (length m.entries * max_failures_per_credential) 1 ≤ rounds (hops j).tokens)
    → IsSound m
    → ((r : CallResult) × (t : CallState) × (call_api_with_retry p policy model hops m
          ≡ some (r, t))
        × IsSound t.manager
        × (length t.manager.entries ≡ length m.entries))
      × ((r : CallResult) × (t : CallState) × (call_mcp_with_retry p policy hops m ≡ some (r, t))
          × IsSound t.manager
          × (length t.manager.entries ≡ length m.entries))
unfolding call_api_with_retry call_mcp_with_retry Keeps
calls_return p policy model hops m enough sound =
    let n = length m.entries in
    let tries = max_retries n policy in
    let start : CallState = record { manager = m; force_refreshed = []; trace = [] } in
    let (r, t, ends, k) =
      call_loop-Answers n p policy model tries hops tries 0 (retries_used tries) start enough
        (sound, refl) in
    let (r', t', ends', k') =
      loop-Answers n p policy tries hops tries 0 (retries_used tries) start enough (sound, refl) in
    ((r, t, ends, k.0, k.1), (r', t', ends', k'.0, k'.1))
