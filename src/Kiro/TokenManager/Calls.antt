-- ===== src/Kiro/TokenManager/Calls.antt =====
-- src/kiro/token_manager.rs: the manager as a machine whose steps are the calls of its methods.
use kiro_rs_tool.Prelude.{ℕ, String, Bool, Option, arith}
use kiro_rs_tool.Kiro.TokenManager.Entry.{KiroCredentials, MultiTokenManager}
use kiro_rs_tool.Kiro.TokenManager.Select.{switch_to_next, choose}
use kiro_rs_tool.Kiro.TokenManager.Report.{
  report_success, report_failure, report_quota_exhausted, report_refresh_failure,
  report_refresh_token_invalid, report_account_throttled, report_rate_limited,
}
use kiro_rs_tool.Kiro.TokenManager.Admin.{
  set_disabled, clear_throttle, disable_quota_exceeded, set_priority, set_endpoint,
  reset_and_enable, reset_success_count, delete_credential,
}
use kiro_rs_tool.Kiro.TokenManager.Tokens.{
  token_ready, try_reload_credential_from_file, force_refresh_token_for, update_refresh_token,
  add_credential,
}
use kiro_rs_tool.Kiro.TokenManager.Admin.{is_invalid_config}
use kiro_rs_tool.Kiro.TokenManager.Health.{
  IsSound, update-IsSound, report_success-IsSound, report_failure-IsSound,
  report_quota_exhausted-IsSound, report_refresh_failure-IsSound,
  report_refresh_token_invalid-IsSound, report_account_throttled-IsSound,
  report_rate_limited-IsSound,
}
use kiro_rs_tool.Kiro.TokenManager.Sound.{
  with_entry-IsSound, persisted-IsSound, admin_update-IsSound, select_highest_priority-entries,
  choose-IsSound, if_IsSound, reset_success_count-IsSound, delete_credential-IsSound,
  token_ready-IsSound, reload-IsSound, force-IsSound, update_refresh_token-IsSound,
  add_credential-IsSound,
}

-- One call of the manager: a report on a credential, a method of the Admin API, or what happens to a
-- token.
pub data Call : Type 0 where
  success failure quota_exhausted refresh_failure refresh_token_invalid : ℕ → Call
  account_throttled rate_limit : ℕ → ℕ → Call
  next_credential : Call
  acquire_choice : Option String → Call
  admin_disabled : ℕ → Bool → Call
  admin_clear_throttle admin_quota_exceeded admin_reset admin_delete : ℕ → Call
  admin_priority : ℕ → ℕ → Call
  admin_endpoint : ℕ → Option String → Call
  admin_reset_successes : Option ℕ → Call
  token_used : ℕ → Call
  reload_from_file force_refresh : ℕ → Bool → Call
  admin_refresh_token : ℕ → Option String → Call
  admin_add : KiroCredentials → Option String → Call

-- The manager after a call, at a time and with the answer of the write to disk.
pub step : Option String → ℕ → Call → MultiTokenManager → MultiTokenManager
step saved now (success id) m = report_success m id now
step saved now (failure id) m = (report_failure m id now).1
step saved now (quota_exhausted id) m = (report_quota_exhausted m id now).1
step saved now (refresh_failure id) m = (report_refresh_failure m id now).1
step saved now (refresh_token_invalid id) m = (report_refresh_token_invalid m id now).1
step saved now (account_throttled id cooldown) m = (report_account_throttled m id cooldown now).1
step saved now (rate_limit id cooldown) m = (report_rate_limited m id cooldown now).1
step saved now next_credential m = (switch_to_next m).1
step saved now (acquire_choice model) m = (choose m model now).1
step saved now (admin_disabled id disabled) m = (set_disabled m id disabled saved).1
step saved now (admin_clear_throttle id) m = (clear_throttle m id).1
step saved now (admin_quota_exceeded id) m = (disable_quota_exceeded m id saved).1
step saved now (admin_reset id) m = (reset_and_enable m id saved).1
step saved now (admin_delete id) m = (delete_credential m id saved).1
step saved now (admin_priority id priority) m = (set_priority m id priority saved).1
step saved now (admin_endpoint id endpoint) m = (set_endpoint m id endpoint saved).1
step saved now (admin_reset_successes id) m = (reset_success_count m id).1
step saved now (token_used id) m = token_ready id m
step saved now (reload_from_file id another) m = (try_reload_credential_from_file m id another).1
step saved now (force_refresh id refreshed) m = (force_refresh_token_for m id refreshed).1
step saved now (admin_refresh_token id invalid) m = (update_refresh_token m id invalid saved).1
step saved now (admin_add credentials invalid) m = (add_credential m credentials invalid saved).1

-- From a sound manager every report on a credential, every choice and every change of an entry, be it
-- by the Admin API or by a token that was renewed, reloaded, replaced or added, leads to a sound
-- manager, whatever the disk and the token service answer: a credential is disabled exactly when it
-- has a reason, and while it is enabled it has failed fewer than three times in a row in calls and in
-- refreshes.
pub step-IsSound :
    (saved : Option String) (now : ℕ) (c : Call) (m : MultiTokenManager)
    → IsSound m
    → IsSound (step saved now c m)
unfolding step
step-IsSound saved now (success id) m v = report_success-IsSound m id now v
step-IsSound saved now (failure id) m v = report_failure-IsSound m id now v
step-IsSound saved now (quota_exhausted id) m v = report_quota_exhausted-IsSound m id now v
step-IsSound saved now (refresh_failure id) m v = report_refresh_failure-IsSound m id now v
step-IsSound saved now (refresh_token_invalid id) m v =
    report_refresh_token_invalid-IsSound m id now v
step-IsSound saved now (account_throttled id cooldown) m v =
    report_account_throttled-IsSound m id cooldown now v
step-IsSound saved now (rate_limit id cooldown) m v =
    report_rate_limited-IsSound m id cooldown now v
step-IsSound saved now next_credential m v = unfold switch_to_next in ground arith
step-IsSound saved now (acquire_choice model) m v = choose-IsSound m model now v
step-IsSound saved now (admin_disabled id disabled) m v =
    unfold set_disabled in
    with_entry-IsSound m id _ v λ _. admin_update-IsSound m id _ saved v λ e k. ground arith
step-IsSound saved now (admin_clear_throttle id) m v =
    unfold clear_throttle in
    with_entry-IsSound m id _ v λ _. update-IsSound id _ m.entries (λ e _ k. k) v
step-IsSound saved now (admin_quota_exceeded id) m v =
    unfold disable_quota_exceeded in
    with_entry-IsSound m id _ v λ _. admin_update-IsSound m id _ saved v λ e k. tt
step-IsSound saved now (admin_reset id) m v =
    unfold reset_and_enable in
    with_entry-IsSound m id _ v λ e.
      if_IsSound (is_invalid_config e) _ _ v
        (admin_update-IsSound m id _ saved v λ e k. (omega arith, omega arith))
step-IsSound saved now (admin_delete id) m v = delete_credential-IsSound m id saved v
step-IsSound saved now (admin_priority id priority) m v =
    unfold set_priority in
    with_entry-IsSound m id _ v λ _.
      persisted-IsSound saved _
        (rw select_highest_priority-entries (update-IsSound id _ m.entries (λ e _ k. k) v))
step-IsSound saved now (admin_endpoint id endpoint) m v =
    unfold set_endpoint in
    with_entry-IsSound m id _ v λ _. admin_update-IsSound m id _ saved v λ e k. k
step-IsSound saved now (admin_reset_successes id) m v = reset_success_count-IsSound m id v
step-IsSound saved now (token_used id) m v = token_ready-IsSound id m v
step-IsSound saved now (reload_from_file id another) m v = reload-IsSound id another m v
step-IsSound saved now (force_refresh id refreshed) m v = force-IsSound id refreshed m v
step-IsSound saved now (admin_refresh_token id invalid) m v =
    update_refresh_token-IsSound m id invalid saved v
step-IsSound saved now (admin_add credentials invalid) m v =
    add_credential-IsSound m credentials invalid saved v
