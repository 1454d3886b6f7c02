-- ===== src/Kiro/Provider/Call.antt =====
-- src/kiro/provider.rs: the attempts of a call. What happens outside in an attempt is a `Hop`, and the
-- waits between attempts are left out. Of a record of the trace the model keeps the attempt, the
-- credential, the status and the outcome.
pub mod Current
pub mod Recovers
pub mod Pool
pub mod Waits
pub mod Returns
use kiro_rs_tool.Prelude.{
  ℕ, zero, suc, ◌+◌, ◌-◌, ◌*◌, String, Bool, true, false, not, ◌&&◌, ◌||◌, Option, none, some, List,
  [], ◌∷◌, ◌++◌, ltb, leb, ◌==◌, max, if◌then◌else◌, length, any,
}
use kiro_rs_tool.Prelude.Map
use kiro_rs_tool.Prelude.Map.{string_eq}
use kiro_rs_tool.Kiro.TokenManager.Entry.{CredentialEntry, KiroCredentials, MultiTokenManager}
use kiro_rs_tool.Kiro.TokenManager.Report.{
  report_success, report_failure, report_quota_exhausted, report_account_throttled,
  report_rate_limited,
}
use kiro_rs_tool.Kiro.Provider.Policy.{RetryPolicy, max_retries, retry_after_delay}
use kiro_rs_tool.Kiro.Provider.Endpoint.{KiroEndpoint}
use kiro_rs_tool.Kiro.Provider.Acquire.{
  CallError, no_valid_token, all_disabled, unknown_endpoint, unreachable, no_client, upstream,
  all_exhausted, all_throttled, retries_used, TokenAnswer, Acquired, acquired, refused,
  acquire_context,
}
use kiro_rs_tool.Kiro.TokenManager.Tokens.{force_refresh_token_for}

-- The parts of the provider, and of the configuration of the manager, that a call reads.
pub record KiroProvider : Type 0 where
  pub endpoints : List (String × KiroEndpoint)
  pub default_endpoint : String
  pub account_throttle_failover : Bool
  pub account_throttle_cooldown_secs : ℕ

-- `retry_after` is the delay that the header gives.
pub record Response : Type 0 where
  pub status : ℕ
  pub retry_after : Option ℕ
  pub body : List ℕ

pub data Reply : Type 0 where
  no_reply : Reply
  reply : Response → Reply

pub record Hop : Type 0 where
  pub now : ℕ
  pub tokens : List TokenAnswer
  -- Whether the HTTP client and the request could be built.
  pub built : Bool
  pub answer : Reply
  -- Whether a forced refresh of the token succeeds.
  pub refreshed : Bool

pub data Outcome : Type 0 where
  success quota_exhausted account_throttled auth_failed transient network_error bad_request
        unknown :
      Outcome

pub record TraceAttempt : Type 0 where
  pub attempt : ℕ
  pub credential_id : ℕ
  pub http_status : Option ℕ
  pub outcome : Outcome

pub record CallState : Type 0 where
  pub manager : MultiTokenManager
  pub force_refreshed : List ℕ
  pub trace : List TraceAttempt

-- A success with the credential it is charged to; an error that ends the call; or another attempt,
-- with an error to remember or without.
pub data Verdict : Type 0 where
  done : ℕ → Verdict
  stop again : CallError → Verdict
  once_more : Verdict

unfoldable pub endpoint_for : KiroProvider → KiroCredentials → Option KiroEndpoint
endpoint_for p c =
    Map.lookup (elim c.endpoint [ none ↦ p.default_endpoint | some name ↦ name ]) p.endpoints

unfoldable pub is_success : ℕ → Bool
is_success status = leb 200 status && leb status 299

unfoldable pub is_client_error : ℕ → Bool
is_client_error status = leb 400 status && leb status 499

unfoldable pub is_server_error : ℕ → Bool
is_server_error status = leb 500 status && leb status 599

unfoldable pub emit : ℕ → ℕ → Option ℕ → Outcome → CallState → CallState
emit attempt id status outcome s = record s {
  trace =
      s.trace
      ++ (record { attempt = attempt; credential_id = id; http_status = status; outcome = outcome }
          ∷ []);
}

-- What a report answers: go on while a credential is left.
unfoldable pub reported :
    Bool × MultiTokenManager → CallError → CallError → CallState → Verdict × CallState
reported (has_available, m) error last s =
    (if has_available then again error else stop last, record s { manager = m })

unfoldable pub contains_id : ℕ → List ℕ → Bool
contains_id id ids = any (λ j. j == id) ids

unfoldable pub auth_failure : ℕ → Response → ℕ → CallState → Verdict × CallState
unfolding reported report_failure
auth_failure now r id s =
    reported (report_failure s.manager id now) (upstream r.status r.body)
      (all_exhausted r.status r.body) s

unfoldable pub after_refresh :
    Bool × MultiTokenManager → ℕ → Response → ℕ → CallState → Verdict × CallState
unfolding auth_failure
after_refresh (true, m) now r id s = (once_more, record s { manager = m })
after_refresh (false, m) now r id s = auth_failure now r id (record s { manager = m })

-- 401 and 403: one forced refresh for each credential, then a failure.
unfoldable pub auth_failed_on :
    KiroEndpoint → ℕ → Bool → Response → ℕ → CallState → Verdict × CallState
unfolding contains_id force_refresh_token_for after_refresh auth_failure
auth_failed_on endpoint now refreshed r id s =
    if endpoint.is_bearer_token_invalid r.body && not (contains_id id s.force_refreshed)
    then after_refresh (force_refresh_token_for s.manager id refreshed) now r id
        (record s { force_refreshed = id ∷ s.force_refreshed })
    else auth_failure now r id s

-- The checks that are left for a response: a passing fault of the service, a fault of the request,
-- or anything else.
unfoldable pub remaining_checks : ℕ → Response → ℕ → CallState → Verdict × CallState
unfolding emit is_server_error is_client_error
remaining_checks attempt r id s =
    if r.status == 408 || is_server_error r.status
    then (again (upstream r.status r.body), emit attempt id (some r.status) transient s)
    else if is_client_error r.status
    then (stop (upstream r.status r.body), emit attempt id (some r.status) bad_request s)
    else (again (upstream r.status r.body), emit attempt id (some r.status) unknown s)

unfoldable pub cooldown_of : RetryPolicy → Response → ℕ
unfolding retry_after_delay
cooldown_of policy r = elim (retry_after_delay r.retry_after policy) [
  | none ↦ policy.rate_limit_cooldown_ms
  | some delay ↦ delay
]

-- The manager after a plain 429.
unfoldable pub rate_limited_manager :
    RetryPolicy → ℕ → Response → ℕ → MultiTokenManager → MultiTokenManager
unfolding cooldown_of report_rate_limited
rate_limited_manager policy now r id m =
    if policy.credential_switch_on_429
    then (report_rate_limited m id (cooldown_of policy r) now).1
    else m

-- A plain 429: on the last attempt the code goes on to the remaining checks.
unfoldable pub rate_limited_on :
    RetryPolicy → ℕ → ℕ → ℕ → Response → ℕ → CallState → Verdict × CallState
unfolding rate_limited_manager emit remaining_checks
rate_limited_on policy max_tries attempt now r id s =
    let t =
      emit attempt id (some 429) transient
        (record s { manager = rate_limited_manager policy now r id s.manager }) in
    if ltb (attempt + 1) max_tries
    then (again (upstream r.status r.body), t)
    else remaining_checks attempt r id t

-- 429 of an account under suspicion.
unfoldable pub throttled_on : KiroProvider → ℕ → ℕ → Response → ℕ → CallState → Verdict × CallState
unfolding emit report_account_throttled
throttled_on p attempt now r id s =
    let (remaining, m) =
      report_account_throttled s.manager id (max p.account_throttle_cooldown_secs 1 * 1000) now in
    let t = emit attempt id (some 429) account_throttled (record s { manager = m }) in
    (
      if remaining == 0
          then stop (all_throttled r.status r.body)
          else again (upstream r.status r.body),
      t,
    )

-- A response that is no success, in the order of the code.
unfoldable pub on_failure :
    KiroProvider
    → RetryPolicy
    → ℕ
    → ℕ
    → KiroEndpoint
    → ℕ
    → Bool
    → Response
    → ℕ
    → CallState
    → Verdict × CallState
unfolding emit reported auth_failed_on throttled_on rate_limited_on remaining_checks
    report_quota_exhausted
on_failure p policy max_tries attempt endpoint now refreshed r id s =
    if r.status == 402 && endpoint.is_monthly_request_limit r.body
    then reported (report_quota_exhausted s.manager id now) (upstream r.status r.body)
        (all_exhausted r.status r.body) (emit attempt id (some r.status) quota_exhausted s)
    else if r.status == 400
    then (stop (upstream r.status r.body), emit attempt id (some 400) bad_request s)
    else if r.status == 401 || r.status == 403
    then auth_failed_on endpoint now refreshed r id (emit attempt id (some r.status) auth_failed s)
    else if r.status == 429 && p.account_throttle_failover && endpoint.is_account_throttled r.body
    then throttled_on p attempt now r id s
    else if endpoint.is_client_validation_error r.body
    then (stop (upstream r.status r.body), emit attempt id (some r.status) bad_request s)
    else if r.status == 524 || endpoint.is_gateway_timeout r.body
    then (stop (upstream r.status r.body), emit attempt id (some r.status) transient s)
    else if r.status == 429
    then rate_limited_on policy max_tries attempt now r id s
    else remaining_checks attempt r id s

unfoldable pub on_reply :
    KiroProvider
    → RetryPolicy
    → ℕ
    → ℕ
    → KiroEndpoint
    → ℕ
    → Bool
    → Reply
    → ℕ
    → CallState
    → Verdict × CallState
unfolding emit report_success on_failure is_success
on_reply p policy max_tries attempt endpoint now refreshed no_reply id s =
    (again unreachable, emit attempt id none network_error s)
on_reply p policy max_tries attempt endpoint now refreshed (reply r) id s =
    if is_success r.status
    then (
      done id,
      record (emit attempt id (some r.status) success s) {
        manager = report_success s.manager id now;
      },
    )
    else on_failure p policy max_tries attempt endpoint now refreshed r id s

unfoldable pub on_endpoint :
    KiroProvider
    → RetryPolicy
    → ℕ
    → ℕ
    → Option KiroEndpoint
    → Hop
    → ℕ
    → CallState
    → Verdict × CallState
unfolding emit report_failure on_reply
on_endpoint p policy max_tries attempt none h id s = (
  again unknown_endpoint,
  record (emit attempt id none unknown s) { manager = (report_failure s.manager id h.now).1 },
)
on_endpoint p policy max_tries attempt (some endpoint) h id s =
    if h.built
    then on_reply p policy max_tries attempt endpoint h.now h.refreshed h.answer id s
    else (stop no_client, s)

unfoldable pub on_acquired :
    KiroProvider → RetryPolicy → ℕ → ℕ → Acquired → Hop → CallState → Verdict × CallState
unfolding emit endpoint_for on_endpoint
on_acquired p policy max_tries attempt (refused e) h s = (again e, emit attempt 0 none unknown s)
on_acquired p policy max_tries attempt (acquired e) h s =
    on_endpoint p policy max_tries attempt (endpoint_for p e.credentials) h e.id s

-- With the result of `acquire_context` and the manager that it leaves.
unfoldable pub with_context :
    KiroProvider
    → RetryPolicy
    → ℕ
    → ℕ
    → Option (Acquired × MultiTokenManager)
    → Hop
    → CallState
    → Option (Verdict × CallState)
unfolding on_acquired
with_context p policy max_tries attempt none h s = none
with_context p policy max_tries attempt (some (a, m)) h s =
    some (on_acquired p policy max_tries attempt a h (record s { manager = m }))

unfoldable pub attempt_api :
    KiroProvider
    → RetryPolicy
    → Option String
    → ℕ
    → ℕ
    → Hop
    → CallState
    → Option (Verdict × CallState)
unfolding acquire_context with_context
attempt_api p policy model max_tries attempt h s =
    with_context p policy max_tries attempt (acquire_context s.manager model h.now h.tokens) h s

pub data CallResult : Type 0 where
  called : ℕ → CallResult
  failed : CallError → CallResult

-- What a verdict makes of the rest of the loop.
unfoldable pub on_verdict :
    Option (Verdict × CallState)
    → CallError
    → (CallError → CallState → Option (CallResult × CallState))
    → Option (CallResult × CallState)
on_verdict none last next = none
on_verdict (some (done id, s)) last next = some (called id, s)
on_verdict (some (stop e, s)) last next = some (failed e, s)
on_verdict (some (again e, s)) last next = next e s
on_verdict (some (once_more, s)) last next = next last s

-- The loop over the attempts from one on, with the attempts left and the error to answer with.
unfoldable pub call_loop :
    KiroProvider
    → RetryPolicy
    → Option String
    → ℕ
    → (ℕ → Hop)
    → ℕ
    → ℕ
    → CallError
    → CallState
    → Option (CallResult × CallState)
unfolding attempt_api on_verdict
call_loop p policy model max_tries hops zero attempt last s = some (failed last, s)
call_loop p policy model max_tries hops (suc left) attempt last s =
    on_verdict (attempt_api p policy model max_tries attempt (hops attempt) s) last
      (call_loop p policy model max_tries hops left (attempt + 1))

-- `call_api_with_retry`; `none` if it waits for a token for ever.
unfoldable pub call_api_with_retry :
    KiroProvider
    → RetryPolicy
    → Option String
    → (ℕ → Hop)
    → MultiTokenManager
    → Option (CallResult × CallState)
unfolding max_retries call_loop
call_api_with_retry p policy model hops m =
    let tries = max_retries (length m.entries) policy in
    call_loop p policy model tries hops tries 0 (retries_used tries)
      (record { manager = m; force_refreshed = []; trace = [] })
