-- ===== src/Kiro/Provider/Call/Recovers.antt =====
-- src/kiro/provider.rs: a call that meets only passing faults on its way to a success.
use kiro_rs_tool.Prelude.{
  ℕ, zero, suc, ◌+◌, ◌≤◌, ◌<◌, ◌≡◌, ◌≢◌, refl, subst, sym, ap, ◌∙◌, String, Bool, true, false,
  Option, none, some, List, [], ◌∷◌, if◌then◌else◌, length, length-append, ◌⊎◌, inl, inr, arith,
}
use kiro_rs_tool.Kiro.TokenManager.Entry.{CredentialEntry, MultiTokenManager}
use kiro_rs_tool.Kiro.TokenManager.Select.{current_hit}
use kiro_rs_tool.Kiro.TokenManager.Report.{report_success}
use kiro_rs_tool.Kiro.TokenManager.Tokens.{token_ready}
use kiro_rs_tool.Kiro.Provider.Call.Current.{
  Same, acquire_current, AtHand, AtHand-AtHand, current_hit-AtHand, report_success-AtHand,
}
use kiro_rs_tool.Kiro.Provider.Policy.{RetryPolicy, max_retries}
use kiro_rs_tool.Kiro.Provider.Endpoint.{KiroEndpoint}
use kiro_rs_tool.Kiro.Provider.Acquire.{
  CallError, unreachable, upstream, retries_used, TokenAnswer, ready, api_key, Acquired, acquired,
  acquire_context,
}
use kiro_rs_tool.Kiro.Provider.Call.{
  KiroProvider, Response, Reply, no_reply, reply, Hop, CallState, TraceAttempt, Outcome, done,
  again, endpoint_for, is_success, is_client_error, is_server_error, emit, transient, network_error,
  success, remaining_checks, on_failure, on_reply, on_endpoint, on_acquired, with_context,
  attempt_api, called, on_verdict, call_loop, call_api_with_retry,
}

-- A fault of the service that the call takes for a passing one.
unfoldable pub IsTransient : KiroEndpoint → Response → Type 0
IsTransient endpoint r =
    ((r.status ≡ 408) ⊎ ((500 ≤ r.status) × (r.status ≤ 599) × (r.status ≢ 524)))
    × (endpoint.is_client_validation_error r.body ≡ false)
    × (endpoint.is_gateway_timeout r.body ≡ false)

remaining_transient :
    (attempt id : ℕ) (r : Response) (s : CallState)
    → (r.status ≡ 408) ⊎ ((500 ≤ r.status) × (r.status ≤ 599) × (r.status ≢ 524))
    → remaining_checks attempt r id s
      ≡ (again (upstream r.status r.body), emit attempt id (some r.status) transient s)
unfolding remaining_checks is_server_error is_client_error
remaining_transient attempt id r s h = ground arith

on_failure_transient :
    (p : KiroProvider) (policy : RetryPolicy) (tries attempt now id : ℕ) (endpoint : KiroEndpoint)
    (refreshed : Bool) (r : Response) (s : CallState)
    → IsTransient endpoint r
    → on_failure p policy tries attempt endpoint now refreshed r id s
      ≡ (again (upstream r.status r.body), emit attempt id (some r.status) transient s)
unfolding on_failure IsTransient
on_failure_transient p policy tries attempt now id endpoint refreshed r s (status, valid, timely) =
    ground (arith, remaining_transient attempt id r s status)

-- The token is at hand: it is valid or could be refreshed, or it is an API key.
unfoldable pub HasToken : Hop → Type 0
HasToken h = (rest : List TokenAnswer) × ((h.tokens ≡ ready ∷ rest) ⊎ (h.tokens ≡ api_key ∷ rest))

-- In the hop the token is at hand, the request can be built, and the service cannot be reached or
-- answers with a passing fault.
unfoldable pub IsPassing : KiroEndpoint → Hop → Type 0
IsPassing endpoint h =
    HasToken h
    × (h.built ≡ true)
    × ((h.answer ≡ no_reply) ⊎ ((r : Response) × (h.answer ≡ reply r) × IsTransient endpoint r))

-- In the hop the token is at hand, the request can be built, and it succeeds.
unfoldable pub IsSuccess : Hop → Type 0
IsSuccess h =
    HasToken h
    × (r : Response) × (h.built ≡ true)
    × (h.answer ≡ reply r)
    × (is_success r.status ≡ true)

-- An attempt that leaves the manager as it is, up to a token that it found valid, and adds one record
-- to the trace.
abbrev Tries : MultiTokenManager → ℕ → ℕ → CallState → Type 0
Tries m id n s = AtHand m id s.manager × (length s.trace ≡ n)

emit-Tries :
    (m : MultiTokenManager) (n attempt id : ℕ) (status : Option ℕ) (o : Outcome) (s : CallState)
    → Tries m id n s
    → Tries m id (suc n) (emit attempt id status o s)
unfolding emit
emit-Tries m n attempt id status o s (same, len) =
    let r : TraceAttempt = record {
      attempt = attempt;
      credential_id = id;
      http_status = status;
      outcome = o;
    } in
    (same, omega (arith, length-append s.trace (r ∷ [])))

-- A passing fault is no success.
not_success :
    {A : Type 0} (endpoint : KiroEndpoint) (x y z : A) (r : Response)
    → IsTransient endpoint r
    → y ≡ z
    → (if is_success r.status then x else y) ≡ z
unfolding is_success IsTransient
not_success endpoint x y z r fault e = ground arith

module _ (p : KiroProvider) (policy : RetryPolicy) (model : Option String) (tries : ℕ)
    (endpoint : KiroEndpoint) (e : CredentialEntry) (m : MultiTokenManager)
    (known : endpoint_for p e.credentials ≡ some endpoint) where
  replied :
      (attempt now : ℕ) (refreshed : Bool) (answer : Reply) (s : CallState) (n : ℕ)
      → (answer ≡ no_reply) ⊎ ((r : Response) × (answer ≡ reply r) × IsTransient endpoint r)
      → Tries m e.id n s
      → (err : CallError) × (t : CallState) × (on_reply p policy tries attempt endpoint now
            refreshed answer e.id s
          ≡ (again err, t))
        × Tries m e.id (suc n) t
  unfolding on_reply is_success
  replied attempt now refreshed answer s n (inl none_came) v = (
    unreachable,
    emit attempt e.id none network_error s,
    rw none_came refl,
    emit-Tries m n attempt e.id none network_error s v,
  )
  replied attempt now refreshed answer s n (inr (r, came, fault)) v = (
    upstream r.status r.body,
    emit attempt e.id (some r.status) transient s,
    rw came (
        not_success endpoint _ _ _ r fault
          (on_failure_transient p policy tries attempt now e.id endpoint refreshed r s fault)),
    emit-Tries m n attempt e.id (some r.status) transient s v,
  )

  -- With the credential that a round has chosen.
  with_current :
      (attempt : ℕ) (h : Hop) (s : CallState) (x : CredentialEntry) (m' : MultiTokenManager)
      → Same e x
      → h.built ≡ true
      → with_context p policy tries attempt (some (acquired x, m')) h s
        ≡ some (
            on_reply p policy tries attempt endpoint h.now h.refreshed h.answer e.id
              (record s { manager = m' }))
  unfolding with_context on_acquired on_endpoint
  with_current attempt h s x m' (id, credentials) built =
      let known' : endpoint_for p x.credentials ≡ some endpoint =
        ap (endpoint_for p) credentials ∙ known in
      rw known' (rw (built, id) refl)

  attempt_token :
      (attempt : ℕ) (h : Hop) (s : CallState) (tokens : List TokenAnswer)
      (o : Option (Acquired × MultiTokenManager))
      → h.tokens ≡ tokens
      → acquire_context s.manager model h.now tokens ≡ o
      → attempt_api p policy model tries attempt h s ≡ with_context p policy tries attempt o h s
  unfolding attempt_api
  attempt_token attempt h s tokens o valid goes =
      ap (λ a. with_context p policy tries attempt a h s)
        (ap (acquire_context s.manager model h.now) valid ∙ goes)

  -- An attempt with the current credential comes down to its reply.
  attempt_current :
      (attempt : ℕ) (h : Hop) (s : CallState) (x : CredentialEntry)
      → current_hit s.manager h.now ≡ some x
      → Same e x
      → HasToken h
      → h.built ≡ true
      → (m' : MultiTokenManager) × (attempt_api p policy model tries attempt h s
          ≡ some (
              on_reply p policy tries attempt endpoint h.now h.refreshed h.answer e.id
                (record s { manager = m' })))
        × AtHand s.manager e.id m'
  unfolding attempt_api HasToken
  attempt_current attempt h s x hit same (rest, inl valid) built =
      let (goes, _) = acquire_current s.manager model h.now x rest hit in
      (
        token_ready x.id s.manager,
        attempt_token attempt h s _ _ valid goes
            ∙ with_current attempt h s x (token_ready x.id s.manager) same built,
        inr (ap (λ i. token_ready i s.manager) same.0),
      )
  attempt_current attempt h s x hit same (rest, inr valid) built =
      let (_, goes) = acquire_current s.manager model h.now x rest hit in
      (
        s.manager,
        attempt_token attempt h s _ _ valid goes ∙ with_current attempt h s x s.manager same built,
        inl refl,
      )

  -- The same, from a state whose manager is as it was up to tokens.
  attempt_Tries :
      (attempt : ℕ) (h : Hop) (s : CallState) (n : ℕ)
      → current_hit m h.now ≡ some e
      → HasToken h
      → h.built ≡ true
      → Tries m e.id n s
      → (s' : CallState) × (attempt_api p policy model tries attempt h s
          ≡ some (on_reply p policy tries attempt endpoint h.now h.refreshed h.answer e.id s'))
        × Tries m e.id n s'
  attempt_Tries attempt h s n hit token built v =
      let (x, there, same) = current_hit-AtHand m s.manager e.id h.now e v.0 hit in
      let (m', goes, hand) = attempt_current attempt h s x there same token built in
      (record s { manager = m' }, goes, (AtHand-AtHand m s.manager m' e.id v.0 hand, v.1))

  tried :
      (attempt : ℕ) (h : Hop) (s : CallState) (n : ℕ)
      → current_hit m h.now ≡ some e
      → IsPassing endpoint h
      → Tries m e.id n s
      → (err : CallError) × (t : CallState) × (attempt_api p policy model tries attempt h s
          ≡ some (again err, t))
        × Tries m e.id (suc n) t
  unfolding IsPassing
  tried attempt h s n hit (token, built, answer) v =
      let (s', goes, v') = attempt_Tries attempt h s n hit token built v in
      let (err, t, replies, w) = replied attempt h.now h.refreshed h.answer s' n answer v' in
      (err, t, goes ∙ ap (λ x. some x) replies, w)

  -- The manager after the success, and the trace.
  abbrev Ended : ℕ → ℕ → CallState → Type 0
  Ended now n t = (t.manager ≡ report_success m e.id now) × (length t.trace ≡ n)

  succeeds :
      (attempt : ℕ) (h : Hop) (s : CallState) (n : ℕ)
      → current_hit m h.now ≡ some e
      → IsSuccess h
      → Tries m e.id n s
      → (t : CallState) × (attempt_api p policy model tries attempt h s ≡ some (done e.id, t))
        × Ended h.now (suc n) t
  unfolding IsSuccess on_reply emit
  succeeds attempt h s n hit (token, r, built, came, well) v =
      let (s', goes, v') = attempt_Tries attempt h s n hit token built v in
      let sent = emit attempt e.id (some r.status) success s' in
      let w = emit-Tries m n attempt e.id (some r.status) success s' v' in
      (
        record sent { manager = report_success s'.manager e.id h.now },
        goes ∙ rw came (rw well refl),
        (report_success-AtHand m s'.manager e.id h.now v'.0, w.1),
      )

  -- The loop, with `ahead` passing hops before the success at `end`.
  recovers :
      (hops : ℕ → Hop) (end ahead left attempt n : ℕ) (last : CallError) (s : CallState)
      → ahead < left
      → attempt + ahead ≡ end
      → ((j : ℕ) → j ≤ end → current_hit m (hops j).now ≡ some e)
      → ((j : ℕ) → attempt ≤ j → j < end → IsPassing endpoint (hops j))
      → IsSuccess (hops end)
      → Tries m e.id n s
      → (t : CallState) × (call_loop p policy model tries hops left attempt last s
          ≡ some (called e.id, t))
        × Ended (hops end).now (suc (n + ahead)) t
  unfolding call_loop on_verdict
  recovers hops end ahead zero attempt n last s room meets hit passing final v =
      absurd (omega arith)
  recovers hops end zero (suc left) attempt n last s room meets hit passing final v =
      let here : end ≡ attempt = omega arith in
      let (t, ends, w) =
        succeeds attempt (hops attempt) s n (hit attempt (omega arith))
          (subst (λ j. IsSuccess (hops j)) here final) v in
      (
        t,
        rw ends refl,
        (w.0 ∙ ap (λ j. report_success m e.id (hops j).now) (sym here), w.1 ∙ omega arith),
      )
  recovers hops end (suc ahead) (suc left) attempt n last s room meets hit passing final v =
      let (err, t, goes_on, w) =
        tried attempt (hops attempt) s n (hit attempt (omega arith))
          (passing attempt (omega arith) (omega arith)) v in
      let (u, ends, x) =
        recovers hops end ahead left (attempt + 1) (suc n) err t (omega arith) (omega arith) hit
          (λ j low high. passing j (omega arith) high) final w in
      (u, rw goes_on ends, (x.0, x.1 ∙ omega arith))

-- While the current credential stays available and its token is at hand, a call that meets only an
-- unreachable service and passing faults before its attempt number `end` succeeds, with `end` below
-- the number of retries, ends with that success. It is charged to the current credential, the pool is otherwise as it was,
-- and the trace has one record for each attempt.
pub call_api_recovers :
    (p : KiroProvider) (policy : RetryPolicy) (model : Option String) (endpoint : KiroEndpoint)
    (e : CredentialEntry) (m : MultiTokenManager) (hops : ℕ → Hop) (end : ℕ)
    → endpoint_for p e.credentials ≡ some endpoint
    → end < max_retries (length m.entries) policy
    → ((j : ℕ) → j ≤ end → current_hit m (hops j).now ≡ some e)
    → ((j : ℕ) → j < end → IsPassing endpoint (hops j))
    → IsSuccess (hops end)
    → (t : CallState) × (call_api_with_retry p policy model hops m ≡ some (called e.id, t))
      × (t.manager ≡ report_success m e.id (hops end).now)
      × (length t.trace ≡ end + 1)
unfolding call_api_with_retry
call_api_recovers p policy model endpoint e m hops end known room hit passing final =
    let tries = max_retries (length m.entries) policy in
    let start : CallState = record { manager = m; force_refreshed = []; trace = [] } in
    let (t, ends, w) =
      recovers p policy model tries endpoint e m known hops end end tries 0 0 (retries_used tries)
        start room (omega arith) hit (λ j low high. passing j high) final (inl refl, refl) in
    (t, ends, w.0, w.1 ∙ omega arith)
