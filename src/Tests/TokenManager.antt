-- ===== src/Tests/TokenManager.antt =====
-- src/kiro/token_manager.rs: runs on a pool of two credentials.
use kiro_rs_tool.Prelude.{◌≡◌, ◌↔◌, refl, true, false, inl, none, some, [], ◌∷◌, arith}
use kiro_rs_tool.Prelude.Search.{lower_contains, upper_contains, contains}
use kiro_rs_tool.Prelude.Search.Least.{IsIn}
use kiro_rs_tool.Kiro.TokenManager.Entry.{
  manual, CredentialEntry, MultiTokenManager, find_entry, is_available, supports_opus,
}
use kiro_rs_tool.Kiro.TokenManager.Select.{
  is_opus, is_balanced, may_serve, select_next_credential, choose, current_hit, choose_from,
  select_or_heal, use_best, heal,
}
use kiro_rs_tool.Kiro.TokenManager.Select.Laws.{
  preferred, worn_out, select_next_credential-least, select_next_credential-none,
  choose-is_available, choose-none,
}
use kiro_rs_tool.Kiro.TokenManager.Report.{
  any_enabled, report_failure, report_quota_exhausted, report_refresh_failure,
  report_refresh_token_invalid, report_rate_limited,
}
use kiro_rs_tool.Kiro.TokenManager.Failover.{
  Failed, report_answers, report_failure_entry, report_rate_limited_entry,
}
use kiro_rs_tool.Kiro.TokenManager.Health.{IsSound}
use kiro_rs_tool.Kiro.TokenManager.Calls.{failure, step, step-IsSound}

abbrev first : CredentialEntry
first = record {
  id = 1;
  credentials = record { priority = 0; subscription_title = some "KIRO FREE"; endpoint = none };
  failure_count = 2;
  total_failure_count = 5;
  refresh_failure_count = 0;
  disabled = false;
  disabled_reason = none;
  success_count = 7;
  last_used_at = some 90;
  throttled_until = none;
  rate_limited_until = none;
}

abbrev second : CredentialEntry
second = record first {
  id = 2;
  credentials = record { priority = 5; subscription_title = some "KIRO PRO"; endpoint = none };
  failure_count = 0;
  success_count = 3;
}

abbrev pool : MultiTokenManager
pool = record { entries = first ∷ second ∷ []; current_id = 1; load_balancing_mode = "priority" }

-- The second credential alone, and it is off.
abbrev off : CredentialEntry
off = record second { disabled = true; disabled_reason = some manual }

abbrev empty_pool : MultiTokenManager
empty_pool = record pool { entries = off ∷ [] }

pool-IsSound : IsSound pool
pool-IsSound = ground arith

-- An Opus request passes by the free subscription.
opus_selected : select_next_credential pool (some "claude-Opus-4") 100 ≡ some second
unfolding select_next_credential is_opus is_balanced lower_contains contains supports_opus
    upper_contains
opus_selected = refl

nothing_selected : select_next_credential empty_pool none 100 ≡ none
unfolding select_next_credential is_opus is_balanced
nothing_selected = refl

select_next_credential-least_example :
    IsIn second pool.entries
    × (may_serve 100 (is_opus (some "claude-Opus-4")) second ≡ true)
    × ((e' : CredentialEntry)
        → IsIn e' pool.entries
        → may_serve 100 (is_opus (some "claude-Opus-4")) e' ≡ true
        → preferred pool e' second ≡ false)
select_next_credential-least_example =
    select_next_credential-least pool (some "claude-Opus-4") 100 second opus_selected

select_next_credential-none_example :
    (select_next_credential empty_pool none 100 ≡ none)
    ↔ ((e : CredentialEntry) → IsIn e empty_pool.entries → may_serve 100 (is_opus none) e ≡ false)
select_next_credential-none_example = select_next_credential-none empty_pool none 100

opus_chosen : (choose pool (some "claude-Opus-4") 100).0 ≡ some first
unfolding choose choose_from current_hit is_balanced
opus_chosen = refl

choose-is_available_example :
    IsIn first (choose pool (some "claude-Opus-4") 100).1.entries × (is_available 100 first ≡ true)
choose-is_available_example = choose-is_available pool (some "claude-Opus-4") 100 first opus_chosen

nothing_chosen : (choose empty_pool none 100).0 ≡ none
unfolding choose choose_from current_hit select_or_heal use_best heal select_next_credential is_opus
    is_balanced
nothing_chosen = refl

off_there : IsIn off (choose empty_pool none 100).1.entries
unfolding choose choose_from current_hit select_or_heal use_best heal select_next_credential is_opus
    is_balanced
off_there = inl refl

choose-none_example : (may_serve 100 (is_opus none) off ≡ false) × (worn_out off ≡ false)
choose-none_example = choose-none empty_pool none 100 off nothing_chosen off_there

step-IsSound_example : IsSound (step none 100 (failure 1) pool)
step-IsSound_example = step-IsSound none 100 (failure 1) pool pool-IsSound

report_answers_example :
    ((report_failure pool 1 100).0 ≡ any_enabled (report_failure pool 1 100).1)
    × ((report_quota_exhausted pool 1 100).0 ≡ any_enabled (report_quota_exhausted pool 1 100).1)
    × ((report_refresh_failure pool 1 100).0 ≡ any_enabled (report_refresh_failure pool 1 100).1)
    × ((report_refresh_token_invalid pool 1 100).0
        ≡ any_enabled (report_refresh_token_invalid pool 1 100).1)
report_answers_example = report_answers pool 1 100

-- The third failure in a row of the first credential.
report_failure_entry_example :
    (e' : CredentialEntry) × (find_entry 1 (report_failure pool 1 100).1.entries ≡ some e')
    × Failed 100 first e'
    × (find_entry 2 (report_failure pool 1 100).1.entries ≡ find_entry 2 pool.entries)
report_failure_entry_example = report_failure_entry pool 1 100 2 first refl refl (ground arith)

report_rate_limited_entry_example :
    (e' : CredentialEntry) × (find_entry 1 (report_rate_limited pool 1 30 100).1.entries ≡ some e')
    × (is_available 110 e' ≡ false)
    × (e'.disabled ≡ first.disabled)
    × (e'.failure_count ≡ first.failure_count)
    × (e'.refresh_failure_count ≡ first.refresh_failure_count)
    × (find_entry 2 (report_rate_limited pool 1 30 100).1.entries ≡ find_entry 2 pool.entries)
report_rate_limited_entry_example =
    report_rate_limited_entry pool 1 30 100 110 2 first refl (omega arith) (ground arith)
