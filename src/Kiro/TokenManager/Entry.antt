-- ===== src/Kiro/TokenManager/Entry.antt =====
-- src/kiro/token_manager.rs: the entries of the manager, its state, and what every method does with
-- them. A method reads the clock once, as the argument `now`; an `Instant`, and the RFC 3339 text of
-- `last_used_at`, are numbers. Of a credential only what the methods read or set is kept.
use kiro_rs_tool.Prelude.{
  ℕ, String, Bool, true, false, not, ◌&&◌, Option, none, some, List, [], ◌∷◌, ltb, ◌==◌,
  if◌then◌else◌, find, filter,
}
use kiro_rs_tool.Prelude.Search.{min_by, upper_contains}

pub data DisabledReason : Type 0 where
  manual too_many_failures too_many_refresh_failures quota_exceeded invalid_refresh_token
        invalid_config :
      DisabledReason

pub record KiroCredentials : Type 0 where
  pub priority : ℕ
  pub subscription_title : Option String
  pub endpoint : Option String

-- A title that has not been fetched yet allows Opus.
unfoldable pub supports_opus : KiroCredentials → Bool
supports_opus c = elim c.subscription_title [
  | none ↦ true
  | some title ↦ not (upper_contains title "FREE")
]

pub record CredentialEntry : Type 0 where
  pub id : ℕ
  pub credentials : KiroCredentials
  pub failure_count : ℕ
  pub total_failure_count : ℕ
  pub refresh_failure_count : ℕ
  pub disabled : Bool
  pub disabled_reason : Option DisabledReason
  pub success_count : ℕ
  pub last_used_at : Option ℕ
  pub throttled_until : Option ℕ
  pub rate_limited_until : Option ℕ

pub record MultiTokenManager : Type 0 where
  pub entries : List CredentialEntry
  pub current_id : ℕ
  pub load_balancing_mode : String

abbrev pub max_failures_per_credential : ℕ
max_failures_per_credential = 3

-- `until.map(|t| t > now).unwrap_or(false)`
abbrev pub cooling : Option ℕ → ℕ → Bool
cooling none now = false
cooling (some t) now = ltb now t

-- `!e.disabled` and neither cooldown is running.
abbrev pub is_available : ℕ → CredentialEntry → Bool
is_available now e =
    not e.disabled
    && (not (cooling e.throttled_until now) && not (cooling e.rate_limited_until now))

abbrev pub is_enabled : CredentialEntry → Bool
is_enabled e = not e.disabled

abbrev pub find_entry : ℕ → List CredentialEntry → Option CredentialEntry
find_entry id = find (λ e. e.id == id)

-- `iter_mut().find(|e| e.id == id)`, with what the code writes to the entry.
abbrev pub update_entry :
    ℕ → (CredentialEntry → CredentialEntry) → List CredentialEntry → List CredentialEntry
update_entry id f [] = []
update_entry id f (e ∷ es) = if e.id == id then f e ∷ es else e ∷ update_entry id f es

abbrev pub higher_priority : CredentialEntry → CredentialEntry → Bool
higher_priority a b = ltb a.credentials.priority b.credentials.priority

-- The enabled entry of the least priority number, of several the first.
abbrev pub best_enabled : List CredentialEntry → Option CredentialEntry
best_enabled es = min_by higher_priority (filter is_enabled es)
