-- ===== src/Kiro/TokenManager/Tokens.antt =====
-- src/kiro/token_manager.rs: what the methods that renew a token, and those that add a credential or give
-- it another token, write to the entries. The token itself is not kept: whether it is valid, could be
-- refreshed, or is another one's, is an argument.
use kiro_rs_tool.Prelude.{
  ℕ, ◌+◌, String, Bool, true, false, not, Option, none, some, List, [], ◌∷◌, ◌++◌, max,
  if◌then◌else◌,
}
use kiro_rs_tool.Kiro.TokenManager.Entry.{
  KiroCredentials, CredentialEntry, MultiTokenManager, find_entry,
}
use kiro_rs_tool.Kiro.TokenManager.Report.{update}
use kiro_rs_tool.Kiro.TokenManager.Admin.{AdminError, AdminResult, with_entry, persisted}

unfoldable pub refreshed_entry : CredentialEntry → CredentialEntry
refreshed_entry e = record e { refresh_failure_count = 0 }

-- The end of `try_ensure_token`, of a credential that is no API key.
unfoldable pub token_ready : ℕ → MultiTokenManager → MultiTokenManager
unfolding refreshed_entry
token_ready id m = update m id refreshed_entry

unfoldable pub reloaded_entry : CredentialEntry → CredentialEntry
reloaded_entry e = record e {
  disabled = false;
  disabled_reason = none;
  refresh_failure_count = 0;
  failure_count = 0;
}

-- `another` tells whether the file holds another token for the credential.
unfoldable pub try_reload_credential_from_file :
    MultiTokenManager → ℕ → Bool → Bool × MultiTokenManager
unfolding reloaded_entry
try_reload_credential_from_file m id another =
    if another then (true, update m id reloaded_entry) else (false, m)

unfoldable pub refresh_found :
    Option CredentialEntry → Bool → ℕ → MultiTokenManager → Bool × MultiTokenManager
refresh_found none refreshed id m = (false, m)
refresh_found (some e) false id m = (false, m)
refresh_found (some e) true id m = (true, update m id (λ e. record e { refresh_failure_count = 0 }))

unfoldable pub force_refresh_token_for : MultiTokenManager → ℕ → Bool → Bool × MultiTokenManager
unfolding refresh_found
force_refresh_token_for m id refreshed = refresh_found (find_entry id m.entries) refreshed id m

-- What the new token is refused for, if it is: its form, or that another credential has it.
unfoldable pub update_refresh_token :
    MultiTokenManager → ℕ → Option String → Option String → AdminResult
unfolding with_entry refreshed_entry persisted
update_refresh_token m id invalid saved = with_entry m id λ e.
    if not e.disabled then (some (AdminError.not_disabled id), m) else (elim invalid [
      | some text ↦ (some (AdminError.invalid_token text), m)
      | none ↦ persisted saved (update m id refreshed_entry)
    ])

abbrev pub max_id : List CredentialEntry → ℕ
max_id [] = 0
max_id (e ∷ es) = max e.id (max_id es)

unfoldable pub new_entry : ℕ → KiroCredentials → CredentialEntry
new_entry id credentials = record {
  id = id;
  credentials = credentials;
  failure_count = 0;
  total_failure_count = 0;
  refresh_failure_count = 0;
  disabled = false;
  disabled_reason = none;
  success_count = 0;
  last_used_at = none;
  throttled_until = none;
  rate_limited_until = none;
}

-- `invalid` is what the credential is refused for: its form, a duplicate, or its first refresh.
unfoldable pub add_credential :
    MultiTokenManager → KiroCredentials → Option String → Option String → AdminResult
unfolding new_entry persisted
add_credential m credentials (some text) saved = (some (AdminError.invalid_token text), m)
add_credential m credentials none saved =
    persisted saved
      (record m { entries = m.entries ++ new_entry (max_id m.entries + 1) credentials ∷ [] })
