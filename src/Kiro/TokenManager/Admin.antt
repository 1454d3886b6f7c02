-- ===== src/Kiro/TokenManager/Admin.antt =====
-- src/kiro/token_manager.rs: the methods of the Admin API. `saved` is what `persist_credentials`
-- answers: the text of the error, if there is one; the state in memory has changed by then.
use kiro_rs_tool.Prelude.{
  ℕ, String, Bool, true, false, not, Option, none, some, List, [], ◌∷◌, ◌==◌, if◌then◌else◌, filter,
  length,
}
use kiro_rs_tool.Kiro.TokenManager.Entry.{
  DisabledReason, manual, quota_exceeded, invalid_config, CredentialEntry, MultiTokenManager,
  find_entry,
}
use kiro_rs_tool.Kiro.TokenManager.Select.{select_highest_priority}
use kiro_rs_tool.Kiro.TokenManager.Report.{update}

-- `anyhow::Result<()>`: the errors are told apart, and their texts left out.
pub data AdminError : Type 0 where
  not_found : ℕ → AdminError
  invalid_configuration : ℕ → AdminError
  not_disabled : ℕ → AdminError
  not_saved : String → AdminError
  invalid_token : String → AdminError

-- `none` is `Ok(())`.
abbrev pub AdminResult : Type 0
AdminResult = Option AdminError × MultiTokenManager

unfoldable pub persisted : Option String → MultiTokenManager → AdminResult
persisted none m = (none, m)
persisted (some e) m = (some (not_saved e), m)

unfoldable pub on_entry :
    Option CredentialEntry → ℕ → MultiTokenManager → (CredentialEntry → AdminResult) → AdminResult
on_entry none id m f = (some (not_found id), m)
on_entry (some e) id m f = f e

-- `find(..).ok_or_else(..)?`
unfoldable pub with_entry : MultiTokenManager → ℕ → (CredentialEntry → AdminResult) → AdminResult
unfolding on_entry persisted
with_entry m id f = on_entry (find_entry id m.entries) id m f

unfoldable pub enable_entry : CredentialEntry → CredentialEntry
enable_entry e = record e {
  disabled = false;
  failure_count = 0;
  refresh_failure_count = 0;
  disabled_reason = none;
  throttled_until = none;
  rate_limited_until = none;
}

unfoldable pub disable_entry : DisabledReason → CredentialEntry → CredentialEntry
disable_entry reason e = record e { disabled = true; disabled_reason = some reason }

unfoldable pub set_disabled : MultiTokenManager → ℕ → Bool → Option String → AdminResult
unfolding with_entry enable_entry disable_entry
set_disabled m id disabled saved =
    with_entry m id
      λ _. persisted saved (update m id (if disabled then disable_entry manual else enable_entry))

unfoldable pub clear_throttle : MultiTokenManager → ℕ → AdminResult
unfolding with_entry
clear_throttle m id =
    with_entry m id
      λ _. (none, update m id (λ e. record e { throttled_until = none; rate_limited_until = none }))

unfoldable pub disable_quota_exceeded : MultiTokenManager → ℕ → Option String → AdminResult
unfolding with_entry disable_entry
disable_quota_exceeded m id saved =
    with_entry m id λ _. persisted saved (update m id (disable_entry quota_exceeded))

unfoldable pub prioritise : ℕ → CredentialEntry → CredentialEntry
prioritise priority e = record e { credentials = record e.credentials { priority = priority } }

unfoldable pub set_priority : MultiTokenManager → ℕ → ℕ → Option String → AdminResult
unfolding with_entry prioritise
set_priority m id priority saved =
    with_entry m id
      λ _. persisted saved (select_highest_priority (update m id (prioritise priority)))

unfoldable pub set_endpoint : MultiTokenManager → ℕ → Option String → Option String → AdminResult
unfolding with_entry
set_endpoint m id endpoint saved = with_entry m id λ _.
    persisted saved
      (update m id (λ e. record e { credentials = record e.credentials { endpoint = endpoint } }))

unfoldable pub is_invalid_config : CredentialEntry → Bool
is_invalid_config e = elim e.disabled_reason [ some invalid_config ↦ true | _ ↦ false ]

unfoldable pub reset_entry : CredentialEntry → CredentialEntry
reset_entry e = record e {
  failure_count = 0;
  total_failure_count = 0;
  refresh_failure_count = 0;
  disabled = false;
  disabled_reason = none;
  throttled_until = none;
}

unfoldable pub reset_and_enable : MultiTokenManager → ℕ → Option String → AdminResult
unfolding with_entry is_invalid_config reset_entry
reset_and_enable m id saved = with_entry m id λ e.
    if is_invalid_config e
    then (some (invalid_configuration id), m)
    else persisted saved (update m id reset_entry)

unfoldable pub clear_successes : List CredentialEntry → List CredentialEntry
clear_successes [] = []
clear_successes (e ∷ es) = record e { success_count = 0 } ∷ clear_successes es

-- The answer is the number of credentials that were reset, or that there is none with this id.
unfoldable pub reset_success_count : MultiTokenManager → Option ℕ → Option ℕ × MultiTokenManager
unfolding clear_successes
reset_success_count m none =
    (some (length m.entries), record m { entries = clear_successes m.entries })
reset_success_count m (some id) = elim (find_entry id m.entries) [
  | none ↦ (none, m)
  | some e ↦ (some 1, update m id (λ e. record e { success_count = 0 }))
]

pub is_empty : List CredentialEntry → Bool
is_empty [] = true
is_empty (e ∷ es) = false

unfoldable pub forget_current : MultiTokenManager → MultiTokenManager
unfolding is_empty
forget_current m = if is_empty m.entries then record m { current_id = 0 } else m

unfoldable pub delete_credential : MultiTokenManager → ℕ → Option String → AdminResult
unfolding with_entry forget_current
delete_credential m id saved = with_entry m id λ e.
    if not e.disabled
    then (some (not_disabled id), m)
    else (let m' = record m { entries = filter (λ e. not (e.id == id)) m.entries } in
        persisted saved
          (forget_current (if m.current_id == id then select_highest_priority m' else m')))
