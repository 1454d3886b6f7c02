-- ===== src/Kiro/TokenManager/Sound.antt =====
-- src/kiro/token_manager.rs: the choice of a credential, the Admin API and the renewal of tokens keep
-- the manager sound.
use kiro_rs_tool.Prelude.{
  ℕ, String, ◌≡◌, Bool, true, false, not, Option, none, some, List, [], ◌∷◌, ◌++◌, ◌==◌,
  if◌then◌else◌, filter, All, arith, Option-cases, inl, inr,
}
use kiro_rs_tool.Kiro.TokenManager.Entry.{
  KiroCredentials, CredentialEntry, MultiTokenManager, find_entry,
}
use kiro_rs_tool.Kiro.TokenManager.Select.{
  select_highest_priority, heal, heal_entry, heal_entries, choose,
}
use kiro_rs_tool.Kiro.TokenManager.Report.{update}
use kiro_rs_tool.Kiro.TokenManager.Admin.{
  AdminResult, with_entry, reset_success_count, clear_successes, delete_credential,
}
use kiro_rs_tool.Kiro.TokenManager.Tokens.{
  refreshed_entry, token_ready, reloaded_entry, try_reload_credential_from_file, refresh_found,
  force_refresh_token_for, update_refresh_token, new_entry, add_credential,
}
use kiro_rs_tool.Kiro.TokenManager.Select.{choose_from, select_or_heal, use_best}
use kiro_rs_tool.Kiro.TokenManager.Admin.{persisted, forget_current, on_entry}
use kiro_rs_tool.Kiro.TokenManager.Health.{IsHealthy, IsSound, update-IsSound}

-- A method of the Admin API leaves the manager alone where there is no such credential.
pub with_entry-IsSound :
    (m : MultiTokenManager) (id : ℕ) (f : CredentialEntry → AdminResult)
    → IsSound m
    → ((e : CredentialEntry) → IsSound (f e).1)
    → IsSound (with_entry m id f).1
unfolding with_entry
with_entry-IsSound m id f v h = elim (Option-cases (find_entry id m.entries)) [
  | inl missing ↦ rw (missing, on_entry) v
  | inr (e, found) ↦ rw (found, on_entry) (h e)
]

pub persisted-IsSound :
    (saved : Option String) (m : MultiTokenManager) → IsSound m → IsSound (persisted saved m).1
unfolding persisted
persisted-IsSound saved m v = ground arith

-- An update that makes a healthy entry of any healthy entry.
pub admin_update-IsSound :
    (m : MultiTokenManager) (id : ℕ) (f : CredentialEntry → CredentialEntry) (saved : Option String)
    → IsSound m
    → ((e : CredentialEntry) → IsHealthy e → IsHealthy (f e))
    → IsSound (persisted saved (update m id f)).1
admin_update-IsSound m id f saved v h =
    persisted-IsSound saved (update m id f) (update-IsSound id f m.entries (λ e _. h e) v)

pub select_highest_priority-entries :
    (m : MultiTokenManager) → (select_highest_priority m).entries ≡ m.entries
unfolding select_highest_priority
select_highest_priority-entries m = ground arith

All-filter :
    (p : CredentialEntry → Bool) (es : List CredentialEntry)
    → All IsHealthy es
    → All IsHealthy (filter p es)
All-filter p [] v = tt
All-filter p (e ∷ es) v = ground (arith, All-filter p es v.1)

clear_successes-IsSound :
    (es : List CredentialEntry) → All IsHealthy es → All IsHealthy (clear_successes es)
unfolding clear_successes
clear_successes-IsSound [] v = tt
clear_successes-IsSound (e ∷ es) v = (v.0, clear_successes-IsSound es v.1)

heal_entries-IsSound :
    (es : List CredentialEntry) → All IsHealthy es → All IsHealthy (heal_entries es)
unfolding heal_entries heal_entry
heal_entries-IsSound [] v = tt
heal_entries-IsSound (e ∷ es) v = (ground (arith, v.0), heal_entries-IsSound es v.1)

heal-IsSound : (m : MultiTokenManager) → IsSound m → IsSound (heal m)
unfolding heal
heal-IsSound m v = ground (arith, heal_entries-IsSound m.entries v)

pub choose-IsSound :
    (m : MultiTokenManager) (model : Option String) (now : ℕ)
    → IsSound m
    → IsSound (choose m model now).1
unfolding choose choose_from select_or_heal use_best
choose-IsSound m model now v = ground (arith, heal-IsSound m v)

pub if_IsSound :
    (b : Bool) (r s : AdminResult) → IsSound r.1 → IsSound s.1 → IsSound (if b then r else s).1
if_IsSound true r s v w = v
if_IsSound false r s v w = w

forget_current-IsSound : (m : MultiTokenManager) → IsSound m → IsSound (forget_current m)
unfolding forget_current
forget_current-IsSound m v = ground arith

pub reset_success_count-IsSound :
    (m : MultiTokenManager) (id : Option ℕ) → IsSound m → IsSound (reset_success_count m id).1
unfolding reset_success_count
reset_success_count-IsSound m none v = clear_successes-IsSound m.entries v
reset_success_count-IsSound m (some id) v = elim (Option-cases (find_entry id m.entries)) [
  | inl missing ↦ rw (missing, reset_success_count) v
  | inr (e, found) ↦ rw (found, reset_success_count) (update-IsSound id _ m.entries (λ e _ k. k) v)
]

pub delete_credential-IsSound :
    (m : MultiTokenManager) (id : ℕ) (saved : Option String)
    → IsSound m
    → IsSound (delete_credential m id saved).1
unfolding delete_credential
delete_credential-IsSound m id saved v = with_entry-IsSound m id _ v λ e.
    if_IsSound (not e.disabled) _ _ v
      (persisted-IsSound saved _ (forget_current-IsSound _ (switched (m.current_id == id))))
  where
    rest : MultiTokenManager
    rest = record m { entries = filter (λ e. not (e.id == id)) m.entries }

    switched : (b : Bool) → IsSound (if b then select_highest_priority rest else rest)
    switched true = rw select_highest_priority-entries (All-filter _ m.entries v)
    switched false = All-filter _ m.entries v

refreshed_entry-IsHealthy : (e : CredentialEntry) → IsHealthy e → IsHealthy (refreshed_entry e)
unfolding refreshed_entry
refreshed_entry-IsHealthy e v = ground (arith, v)

pub token_ready-IsSound : (id : ℕ) (m : MultiTokenManager) → IsSound m → IsSound (token_ready id m)
unfolding token_ready
token_ready-IsSound id m v =
    update-IsSound id refreshed_entry m.entries (λ e _. refreshed_entry-IsHealthy e) v

pub reload-IsSound :
    (id : ℕ) (another : Bool) (m : MultiTokenManager)
    → IsSound m
    → IsSound (try_reload_credential_from_file m id another).1
unfolding try_reload_credential_from_file reloaded_entry
reload-IsSound id false m v = v
reload-IsSound id true m v = update-IsSound id _ m.entries (λ e _ _. (omega arith, omega arith)) v

refresh_found-IsSound :
    (o : Option CredentialEntry) (refreshed : Bool) (id : ℕ) (m : MultiTokenManager)
    → IsSound m
    → IsSound (refresh_found o refreshed id m).1
unfolding refresh_found refreshed_entry
refresh_found-IsSound none refreshed id m v = v
refresh_found-IsSound (some e) false id m v = v
refresh_found-IsSound (some e) true id m v =
    update-IsSound id _ m.entries (λ e _. refreshed_entry-IsHealthy e) v

pub force-IsSound :
    (id : ℕ) (refreshed : Bool) (m : MultiTokenManager)
    → IsSound m
    → IsSound (force_refresh_token_for m id refreshed).1
unfolding force_refresh_token_for
force-IsSound id refreshed m v = refresh_found-IsSound (find_entry id m.entries) refreshed id m v

pub update_refresh_token-IsSound :
    (m : MultiTokenManager) (id : ℕ) (invalid saved : Option String)
    → IsSound m
    → IsSound (update_refresh_token m id invalid saved).1
unfolding update_refresh_token
update_refresh_token-IsSound m id none saved v = with_entry-IsSound m id _ v λ e.
    if_IsSound (not e.disabled) _ _ v
      (admin_update-IsSound m id refreshed_entry saved v refreshed_entry-IsHealthy)
update_refresh_token-IsSound m id (some text) saved v =
    with_entry-IsSound m id _ v λ e. if_IsSound (not e.disabled) _ _ v v

All-append :
    (es : List CredentialEntry) (e : CredentialEntry)
    → All IsHealthy es
    → IsHealthy e
    → All IsHealthy (es ++ e ∷ [])
All-append [] e v h = (h, tt)
All-append (x ∷ es) e v h = (v.0, All-append es e v.1 h)

pub add_credential-IsSound :
    (m : MultiTokenManager) (credentials : KiroCredentials) (invalid saved : Option String)
    → IsSound m
    → IsSound (add_credential m credentials invalid saved).1
unfolding add_credential new_entry
add_credential-IsSound m credentials none saved v =
    persisted-IsSound saved _ (All-append m.entries _ v (omega arith, omega arith))
add_credential-IsSound m credentials (some text) saved v = v
