-- ===== src/Kiro/Provider/Mcp.antt =====
-- src/kiro/provider.rs: `call_mcp_with_retry`, for the calls of tools. It chooses without a model and
-- keeps no trace.
pub mod Ends
use kiro_rs_tool.Prelude.{
  ℕ, zero, suc, ◌+◌, String, Bool, true, false, ◌&&◌, ◌||◌, Option, none, some, List, [], ltb, ◌==◌,
  if◌then◌else◌, length,
}
use kiro_rs_tool.Kiro.TokenManager.Entry.{MultiTokenManager}
use kiro_rs_tool.Kiro.TokenManager.Report.{report_success, report_failure, report_quota_exhausted}
use kiro_rs_tool.Kiro.Provider.Policy.{RetryPolicy, max_retries}
use kiro_rs_tool.Kiro.Provider.Endpoint.{KiroEndpoint}
use kiro_rs_tool.Kiro.Provider.Acquire.{
  CallError, unknown_endpoint, unreachable, no_client, upstream, all_exhausted, retries_used,
  Acquired, acquired, refused, acquire_context,
}
use kiro_rs_tool.Kiro.Provider.Call.{
  KiroProvider, Response, Reply, no_reply, reply, Hop, CallState, Verdict, done, stop, again,
  CallResult, failed, endpoint_for, is_success, is_client_error, is_server_error, reported,
  auth_failed_on, rate_limited_manager, on_verdict,
}

-- What is left to check. After a plain 429 on the last attempt it is reached, too.
unfoldable pub remaining_mcp : Response → CallState → Verdict × CallState
unfolding is_server_error is_client_error
remaining_mcp r s =
    if r.status == 408 || is_server_error r.status
    then (again (upstream r.status r.body), s)
    else if is_client_error r.status
    then (stop (upstream r.status r.body), s)
    else (again (upstream r.status r.body), s)

unfoldable pub rate_limited_mcp :
    RetryPolicy → ℕ → ℕ → ℕ → Response → ℕ → CallState → Verdict × CallState
unfolding rate_limited_manager remaining_mcp
rate_limited_mcp policy max_tries attempt now r id s =
    let t = record s { manager = rate_limited_manager policy now r id s.manager } in
    if ltb (attempt + 1) max_tries then (again (upstream r.status r.body), t) else remaining_mcp r t

unfoldable pub failure_mcp :
    RetryPolicy → ℕ → ℕ → KiroEndpoint → ℕ → Bool → Response → ℕ → CallState → Verdict × CallState
unfolding reported auth_failed_on rate_limited_mcp remaining_mcp report_quota_exhausted
failure_mcp policy max_tries attempt endpoint now refreshed r id s =
    if r.status == 402 && endpoint.is_monthly_request_limit r.body
    then reported (report_quota_exhausted s.manager id now) (upstream r.status r.body)
        (all_exhausted r.status r.body) s
    else if r.status == 400
    then (stop (upstream r.status r.body), s)
    else if r.status == 401 || r.status == 403
    then auth_failed_on endpoint now refreshed r id s
    else if r.status == 429
    then rate_limited_mcp policy max_tries attempt now r id s
    else remaining_mcp r s

unfoldable pub reply_mcp :
    RetryPolicy → ℕ → ℕ → KiroEndpoint → ℕ → Bool → Reply → ℕ → CallState → Verdict × CallState
unfolding report_success failure_mcp is_success
reply_mcp policy max_tries attempt endpoint now refreshed no_reply id s = (again unreachable, s)
reply_mcp policy max_tries attempt endpoint now refreshed (reply r) id s =
    if is_success r.status
    then (done id, record s { manager = report_success s.manager id now })
    else failure_mcp policy max_tries attempt endpoint now refreshed r id s

unfoldable pub endpoint_mcp :
    RetryPolicy → ℕ → ℕ → Option KiroEndpoint → Hop → ℕ → CallState → Verdict × CallState
unfolding report_failure reply_mcp
endpoint_mcp policy max_tries attempt none h id s =
    (again unknown_endpoint, record s { manager = (report_failure s.manager id h.now).1 })
endpoint_mcp policy max_tries attempt (some endpoint) h id s =
    if h.built
    then reply_mcp policy max_tries attempt endpoint h.now h.refreshed h.answer id s
    else (stop no_client, s)

unfoldable pub acquired_mcp :
    KiroProvider
    → RetryPolicy
    → ℕ
    → ℕ
    → Option (Acquired × MultiTokenManager)
    → Hop
    → CallState
    → Option (Verdict × CallState)
unfolding endpoint_for endpoint_mcp
acquired_mcp p policy max_tries attempt none h s = none
acquired_mcp p policy max_tries attempt (some (refused e, m)) h s =
    some (again e, record s { manager = m })
acquired_mcp p policy max_tries attempt (some (acquired e, m)) h s = some (
    endpoint_mcp policy max_tries attempt (endpoint_for p e.credentials) h e.id
      (record s { manager = m }))

unfoldable pub loop_mcp :
    KiroProvider
    → RetryPolicy
    → ℕ
    → (ℕ → Hop)
    → ℕ
    → ℕ
    → CallError
    → CallState
    → Option (CallResult × CallState)
unfolding acquired_mcp acquire_context on_verdict
loop_mcp p policy max_tries hops zero attempt last s = some (failed last, s)
loop_mcp p policy max_tries hops (suc left) attempt last s =
    let h = hops attempt in
    on_verdict
      (acquired_mcp p policy max_tries attempt (acquire_context s.manager none h.now h.tokens) h s)
      last (loop_mcp p policy max_tries hops left (attempt + 1))

unfoldable pub call_mcp_with_retry :
    KiroProvider → RetryPolicy → (ℕ → Hop) → MultiTokenManager → Option (CallResult × CallState)
unfolding max_retries loop_mcp
call_mcp_with_retry p policy hops m =
    let tries = max_retries (length m.entries) policy in
    loop_mcp p policy tries hops tries 0 (retries_used tries)
      (record { manager = m; force_refreshed = []; trace = [] })
