-- ===== src/Kiro/TokenManager/Select.antt =====
-- src/kiro/token_manager.rs: which credential serves the next call.
pub mod Laws
use kiro_rs_tool.Prelude.{
  ℕ, ◌+◌, ◌-◌, String, Bool, true, false, not, ◌&&◌, ◌||◌, Option, none, some, List, [], ◌∷◌, ltb,
  ◌==◌, if◌then◌else◌, find, filter, any, length,
}
use kiro_rs_tool.Prelude.Map
use kiro_rs_tool.Prelude.Map.{string_eq}
use kiro_rs_tool.Prelude.Search.{min_by, lower_contains}
use kiro_rs_tool.Kiro.TokenManager.Entry.{
  DisabledReason, too_many_failures, CredentialEntry, MultiTokenManager, supports_opus, cooling,
  is_available, is_enabled, find_entry, higher_priority, best_enabled,
}

pub available_count : MultiTokenManager → ℕ → ℕ
available_count m now = length (filter (is_available now) m.entries)

remaining : ℕ → Option ℕ → Option ℕ
remaining now none = none
remaining now (some t) = if ltb now t then some (t - now) else none

shorter : Option ℕ → Option ℕ → Option ℕ
shorter none b = b
shorter (some a) none = some a
shorter (some a) (some b) = if ltb b a then some b else some a

shortest_delay : ℕ → List CredentialEntry → Option ℕ
unfolding remaining shorter
shortest_delay now [] = none
shortest_delay now (e ∷ es) =
    shorter (if is_enabled e then remaining now e.rate_limited_until else none)
      (shortest_delay now es)

-- The shortest running rate-limit cooldown of an enabled credential.
unfoldable pub next_rate_limit_delay : MultiTokenManager → ℕ → Option ℕ
unfolding shortest_delay
next_rate_limit_delay m now = shortest_delay now m.entries

unfoldable pub is_opus : Option String → Bool
is_opus none = false
is_opus (some model) = lower_contains model "opus"

-- The test of the filter in `select_next_credential`.
abbrev pub may_serve : ℕ → Bool → CredentialEntry → Bool
may_serve now opus e = is_available now e && (not opus || supports_opus e.credentials)

-- `(success_count, priority)` in lexicographic order.
abbrev pub less_used : CredentialEntry → CredentialEntry → Bool
less_used a b =
    ltb a.success_count b.success_count
    || (a.success_count == b.success_count && higher_priority a b)

unfoldable pub is_balanced : MultiTokenManager → Bool
is_balanced m = string_eq.beq m.load_balancing_mode "balanced"

unfoldable pub select_next_credential :
    MultiTokenManager → Option String → ℕ → Option CredentialEntry
unfolding is_opus is_balanced
select_next_credential m model now =
    let available = filter (may_serve now (is_opus model)) m.entries in
    if is_balanced m then min_by less_used available else min_by higher_priority available

-- The credential that `current_id` names, if it is available.
unfoldable pub current_hit : MultiTokenManager → ℕ → Option CredentialEntry
current_hit m now =
    if is_balanced m then none else find (λ e. e.id == m.current_id && is_available now e) m.entries

abbrev pub failed_too_often : CredentialEntry → Bool
failed_too_often e = elim e.disabled_reason [ some too_many_failures ↦ true | _ ↦ false ]

unfoldable pub heal_entry : CredentialEntry → CredentialEntry
heal_entry e =
    if failed_too_often e
    then record e { disabled = false; disabled_reason = none; failure_count = 0 }
    else e

unfoldable pub heal_entries : List CredentialEntry → List CredentialEntry
heal_entries [] = []
heal_entries (e ∷ es) = heal_entry e ∷ heal_entries es

-- Every credential that failures alone have disabled starts anew.
unfoldable pub heal : MultiTokenManager → MultiTokenManager
unfolding heal_entries heal_entry
heal m =
    if any (λ e. e.disabled && failed_too_often e) m.entries
    then record m { entries = heal_entries m.entries }
    else m

unfoldable pub use_best :
    Option CredentialEntry → MultiTokenManager → Option CredentialEntry × MultiTokenManager
use_best none m = (none, m)
use_best (some e) m = (some e, record m { current_id = e.id })

unfoldable pub select_or_heal :
    Option CredentialEntry
    → MultiTokenManager
    → Option String
    → ℕ
    → Option CredentialEntry × MultiTokenManager
unfolding use_best
select_or_heal (some e) m model now = use_best (some e) m
select_or_heal none m model now = use_best (select_next_credential (heal m) model now) (heal m)

unfoldable pub choose_from :
    Option CredentialEntry
    → MultiTokenManager
    → Option String
    → ℕ
    → Option CredentialEntry × MultiTokenManager
unfolding select_or_heal
choose_from (some e) m model now = (some e, m)
choose_from none m model now = select_or_heal (select_next_credential m model now) m model now

-- The choice at the top of the loop of `acquire_context`; `none` where it gives up.
unfoldable pub choose :
    MultiTokenManager → Option String → ℕ → Option CredentialEntry × MultiTokenManager
unfolding choose_from
choose m model now = choose_from (current_hit m now) m model now

-- `select_highest_priority`
unfoldable pub select_highest_priority : MultiTokenManager → MultiTokenManager
select_highest_priority m = elim (best_enabled m.entries) [
  | none ↦ m
  | some best ↦ if best.id == m.current_id then m else record m { current_id = best.id }
]

-- `switch_to_next`
unfoldable pub switch_to_next : MultiTokenManager → Bool × MultiTokenManager
switch_to_next m =
    elim (min_by higher_priority
      (filter (λ e. not e.disabled && not (e.id == m.current_id)) m.entries)) [
        | some next ↦ (true, record m { current_id = next.id })
        | none ↦ (any (λ e. e.id == m.current_id && not e.disabled) m.entries, m)
      ]
