-- ===== src/Kiro/TokenManager/Report.antt =====
-- src/kiro/token_manager.rs: what the result of an upstream call does to its credential. The debounced
-- write of the statistics after each report is not modelled.
use kiro_rs_tool.Prelude.{
  ℕ, ◌+◌, Bool, true, false, not, ◌&&◌, Option, none, some, ltb, leb, ◌==◌, if◌then◌else◌, filter,
  any, length,
}
use kiro_rs_tool.Prelude.Search.{min_by}
use kiro_rs_tool.Kiro.TokenManager.Entry.{
  DisabledReason, too_many_failures, too_many_refresh_failures, quota_exceeded,
  invalid_refresh_token, CredentialEntry, MultiTokenManager, max_failures_per_credential, cooling,
  is_available, is_enabled, find_entry, update_entry, higher_priority, best_enabled,
}

abbrev pub any_enabled : MultiTokenManager → Bool
any_enabled m = any is_enabled m.entries

-- The credential `id` with what a method writes to it.
abbrev pub update : MultiTokenManager → ℕ → (CredentialEntry → CredentialEntry) → MultiTokenManager
update m id f = record m { entries = update_entry id f m.entries }

-- Switch to the best enabled credential, if there is one; the answer says whether.
unfoldable pub fail_over_to : Option CredentialEntry → MultiTokenManager → Bool × MultiTokenManager
fail_over_to none m = (false, m)
fail_over_to (some next) m = (true, record m { current_id = next.id })

unfoldable pub fail_over : MultiTokenManager → Bool × MultiTokenManager
unfolding fail_over_to
fail_over m = fail_over_to (best_enabled m.entries) m

-- A report on a credential that is missing or disabled changes nothing.
unfoldable pub on_enabled :
    Option CredentialEntry
    → MultiTokenManager
    → (CredentialEntry → Bool × MultiTokenManager)
    → Bool × MultiTokenManager
on_enabled none m f = (any_enabled m, m)
on_enabled (some e) m f = if e.disabled then (any_enabled m, m) else f e

unfoldable pub with_enabled :
    MultiTokenManager → ℕ → (CredentialEntry → Bool × MultiTokenManager) → Bool × MultiTokenManager
unfolding on_enabled
with_enabled m id f = on_enabled (find_entry id m.entries) m f

unfoldable pub succeeded : ℕ → CredentialEntry → CredentialEntry
succeeded now e = record e {
  failure_count = 0;
  refresh_failure_count = 0;
  success_count = e.success_count + 1;
  last_used_at = some now;
  throttled_until = none;
  rate_limited_until = none;
}

unfoldable pub report_success : MultiTokenManager → ℕ → ℕ → MultiTokenManager
unfolding succeeded
report_success m id now = update m id (succeeded now)

unfoldable pub failed : ℕ → CredentialEntry → CredentialEntry
failed now e = record e {
  failure_count = e.failure_count + 1;
  total_failure_count = e.total_failure_count + 1;
  last_used_at = some now;
}

unfoldable pub disable : DisabledReason → CredentialEntry → CredentialEntry
disable reason e = record e { disabled = true; disabled_reason = some reason }

-- The count that the entry has reached decides.
unfoldable pub count_failure :
    MultiTokenManager → ℕ → ℕ → CredentialEntry → Bool × MultiTokenManager
unfolding failed disable
count_failure m id now e =
    if leb max_failures_per_credential (e.failure_count + 1)
    then (let m' = update m id (λ e. disable too_many_failures (failed now e)) in
        (any_enabled m', (fail_over m').1))
    else (let m' = update m id (failed now) in (any_enabled m', m'))

unfoldable pub report_failure : MultiTokenManager → ℕ → ℕ → Bool × MultiTokenManager
unfolding with_enabled count_failure fail_over
report_failure m id now = with_enabled m id (count_failure m id now)

unfoldable pub exhausted : ℕ → CredentialEntry → CredentialEntry
exhausted now e = record e {
  disabled = true;
  disabled_reason = some quota_exceeded;
  last_used_at = some now;
  failure_count = max_failures_per_credential;
  total_failure_count = e.total_failure_count + 1;
}

unfoldable pub report_quota_exhausted : MultiTokenManager → ℕ → ℕ → Bool × MultiTokenManager
unfolding with_enabled exhausted fail_over
report_quota_exhausted m id now = with_enabled m id λ e. fail_over (update m id (exhausted now))

unfoldable pub refresh_failed : ℕ → CredentialEntry → CredentialEntry
refresh_failed now e = record e {
  last_used_at = some now;
  refresh_failure_count = e.refresh_failure_count + 1;
}

unfoldable pub count_refresh_failure :
    MultiTokenManager → ℕ → ℕ → CredentialEntry → Bool × MultiTokenManager
unfolding refresh_failed disable
count_refresh_failure m id now e =
    if ltb (e.refresh_failure_count + 1) max_failures_per_credential
    then (let m' = update m id (refresh_failed now) in (any_enabled m', m'))
    else fail_over (update m id (λ e. disable too_many_refresh_failures (refresh_failed now e)))

unfoldable pub report_refresh_failure : MultiTokenManager → ℕ → ℕ → Bool × MultiTokenManager
unfolding with_enabled count_refresh_failure fail_over
report_refresh_failure m id now = with_enabled m id (count_refresh_failure m id now)

unfoldable pub token_invalid : ℕ → CredentialEntry → CredentialEntry
token_invalid now e = record e {
  last_used_at = some now;
  disabled = true;
  disabled_reason = some invalid_refresh_token;
}

unfoldable pub report_refresh_token_invalid : MultiTokenManager → ℕ → ℕ → Bool × MultiTokenManager
unfolding with_enabled token_invalid fail_over
report_refresh_token_invalid m id now =
    with_enabled m id λ e. fail_over (update m id (token_invalid now))

-- The later of the cooldown that is set and the new one.
abbrev pub extend : Option ℕ → ℕ → Option ℕ
extend none until = some until
extend (some prev) until = if ltb until prev then some prev else some until

unfoldable pub throttled : ℕ → CredentialEntry → CredentialEntry
throttled until e = record e {
  throttled_until = extend e.throttled_until until;
  total_failure_count = e.total_failure_count + 1;
}

-- The answer counts the credentials that are enabled and not throttled; a rate limit is not
-- looked at here.
unfoldable pub report_account_throttled : MultiTokenManager → ℕ → ℕ → ℕ → ℕ × MultiTokenManager
unfolding throttled
report_account_throttled m id cooldown now =
    let m' = update m id (throttled (now + cooldown)) in
    (length (filter (λ e. not e.disabled && not (cooling e.throttled_until now)) m'.entries), m')

unfoldable pub rate_limited : ℕ → CredentialEntry → CredentialEntry
rate_limited until e = record e {
  rate_limited_until = extend e.rate_limited_until until;
  total_failure_count = e.total_failure_count + 1;
}

-- `cooldown_remaining_ms(until).is_none()` is that the cooldown is not running.
abbrev pub other_available : ℕ → ℕ → CredentialEntry → Bool
other_available id now e = not (e.id == id) && is_available now e

unfoldable pub move_on : Option CredentialEntry → MultiTokenManager → MultiTokenManager
move_on none m = m
move_on (some next) m = record m { current_id = next.id }

unfoldable pub report_rate_limited : MultiTokenManager → ℕ → ℕ → ℕ → Bool × MultiTokenManager
unfolding rate_limited move_on
report_rate_limited m id cooldown now =
    let m' = update m id (rate_limited (now + cooldown)) in
    (
      any (other_available id now) m'.entries,
      (if m.current_id == id
          then move_on (min_by higher_priority (filter (other_available id now) m'.entries)) m'
          else m'),
    )
