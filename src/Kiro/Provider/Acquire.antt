-- ===== src/Kiro/Provider/Acquire.antt =====
-- src/kiro/token_manager.rs: `acquire_context`, with the tokens that are refreshed on the way. What
-- becomes of a token is given by a list of answers, one for each round; without an answer the call
-- is still waiting.
use kiro_rs_tool.Prelude.{
  ℕ, ◌+◌, ◌*◌, max, String, true, Option, none, some, List, [], ◌∷◌, leb, if◌then◌else◌, length,
}
use kiro_rs_tool.Kiro.TokenManager.Entry.{
  CredentialEntry, MultiTokenManager, max_failures_per_credential,
}
use kiro_rs_tool.Kiro.TokenManager.Select.{choose}
use kiro_rs_tool.Kiro.TokenManager.Tokens.{token_ready, try_reload_credential_from_file}
use kiro_rs_tool.Kiro.TokenManager.Report.{report_refresh_failure, report_refresh_token_invalid}

pub data CallError : Type 0 where
  no_valid_token all_disabled unknown_endpoint unreachable no_client : CallError
  upstream all_exhausted all_throttled : ℕ → List ℕ → CallError
  retries_used : ℕ → CallError

-- The token of the chosen credential: valid or refreshed; an API key; its refresh failed; it was
-- revoked; it was revoked, but its file held another one.
pub data TokenAnswer : Type 0 where
  ready api_key refresh_failed revoked reloaded : TokenAnswer

pub data Acquired : Type 0 where
  acquired : CredentialEntry → Acquired
  refused : CallError → Acquired

-- What a round does with its token, given the next round, without and with a failure counted.
unfoldable pub on_token :
    TokenAnswer
    → ℕ
    → CredentialEntry
    → MultiTokenManager
    → (MultiTokenManager → Option (Acquired × MultiTokenManager))
    → (MultiTokenManager → Option (Acquired × MultiTokenManager))
    → Option (Acquired × MultiTokenManager)
unfolding token_ready try_reload_credential_from_file
on_token ready now e m again counted = some (acquired e, token_ready e.id m)
on_token api_key now e m again counted = some (acquired e, m)
on_token reloaded now e m again counted = again (try_reload_credential_from_file m e.id true).1
on_token refresh_failed now e m again counted =
    let (has_available, m') = report_refresh_failure m e.id now in
    if has_available then counted m' else some (refused all_disabled, m')
on_token revoked now e m again counted =
    let (has_available, m') = report_refresh_token_invalid m e.id now in
    if has_available then counted m' else some (refused all_disabled, m')

-- The credential that a round has chosen, if any.
unfoldable pub on_choice :
    Option CredentialEntry × MultiTokenManager
    → (CredentialEntry → MultiTokenManager → Option (Acquired × MultiTokenManager))
    → Option (Acquired × MultiTokenManager)
on_choice (none, m) next = some (refused all_disabled, m)
on_choice (some e, m) next = next e m

unfoldable pub acquire_loop :
    Option String
    → ℕ
    → ℕ
    → List TokenAnswer
    → ℕ
    → MultiTokenManager
    → Option (Acquired × MultiTokenManager)
unfolding choose on_choice on_token
acquire_loop model now max_attempts [] count m =
    if leb max_attempts count
    then some (refused no_valid_token, m)
    else on_choice (choose m model now) (λ e m'. none)
acquire_loop model now max_attempts (a ∷ answers) count m =
    if leb max_attempts count
    then some (refused no_valid_token, m)
    else on_choice (choose m model now) λ e m'.
      on_token a now e m' (acquire_loop model now max_attempts answers count)
        (acquire_loop model now max_attempts answers (count + 1))

unfoldable pub acquire_context :
    MultiTokenManager → Option String → ℕ → List TokenAnswer → Option (Acquired × MultiTokenManager)
unfolding acquire_loop
acquire_context m model now answers =
    acquire_loop model now (max (length m.entries * max_failures_per_credential) 1) answers 0 m
