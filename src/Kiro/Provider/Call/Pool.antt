-- ===== src/Kiro/Provider/Call/Pool.antt =====
-- src/kiro/provider.rs: the methods of the pool that a call uses keep it sound, and keep all of its
-- credentials.
use kiro_rs_tool.Prelude.{
  ℕ, suc, ◌+◌, ◌≡◌, refl, ap, ◌∙◌, String, Bool, true, false, Option, none, some, List, [], ◌∷◌,
  leb, ltb, length, arith, Option-cases, Bool-cases, inl, inr,
}
use kiro_rs_tool.Kiro.TokenManager.Entry.{
  CredentialEntry, MultiTokenManager, find_entry, update_entry, max_failures_per_credential,
}
use kiro_rs_tool.Kiro.TokenManager.Select.{
  choose, choose_from, select_or_heal, use_best, heal, heal_entries,
}
use kiro_rs_tool.Kiro.TokenManager.Report.{
  update, fail_over, fail_over_to, on_enabled, with_enabled, report_success, report_failure,
  count_failure, report_quota_exhausted, report_refresh_failure, count_refresh_failure,
  report_refresh_token_invalid, report_account_throttled, report_rate_limited, move_on, throttled,
  rate_limited,
}
use kiro_rs_tool.Kiro.TokenManager.Health.{
  IsSound, report_success-IsSound, report_failure-IsSound, report_quota_exhausted-IsSound,
  report_refresh_failure-IsSound, report_refresh_token_invalid-IsSound,
  report_account_throttled-IsSound, report_rate_limited-IsSound,
}
use kiro_rs_tool.Kiro.TokenManager.Sound.{
  choose-IsSound, token_ready-IsSound, reload-IsSound, force-IsSound,
}
use kiro_rs_tool.Kiro.TokenManager.Tokens.{
  token_ready, refreshed_entry, try_reload_credential_from_file, refresh_found,
  force_refresh_token_for,
}

abbrev size : MultiTokenManager → ℕ
size m = length m.entries

length-update_entry :
    (id : ℕ) (f : CredentialEntry → CredentialEntry) (es : List CredentialEntry)
    → length (update_entry id f es) ≡ length es
length-update_entry id f [] = refl
length-update_entry id f (e ∷ es) = ground (arith, length-update_entry id f es)

length-heal_entries : (es : List CredentialEntry) → length (heal_entries es) ≡ length es
unfolding heal_entries
length-heal_entries [] = refl
length-heal_entries (e ∷ es) = ap (λ n. suc n) (length-heal_entries es)

size-heal : (m : MultiTokenManager) → size (heal m) ≡ size m
unfolding heal
size-heal m = ground (arith, length-heal_entries m.entries)

size-choose :
    (m : MultiTokenManager) (model : Option String) (now : ℕ) → size (choose m model now).1 ≡ size m
unfolding choose choose_from select_or_heal use_best
size-choose m model now = ground (arith, size-heal m)

size-fail_over : (m : MultiTokenManager) → size (fail_over m).1 ≡ size m
unfolding fail_over fail_over_to
size-fail_over m = ground arith

size-with_enabled :
    (m : MultiTokenManager) (id : ℕ) (f : CredentialEntry → Bool × MultiTokenManager)
    → ((e : CredentialEntry) → size (f e).1 ≡ size m)
    → size (with_enabled m id f).1 ≡ size m
unfolding with_enabled on_enabled
size-with_enabled m id f h = elim (Option-cases (find_entry id m.entries)) [
  | inl missing ↦ rw missing refl
  | inr (e, found) ↦ rw found (ground (arith, h e))
]

size-update :
    (m : MultiTokenManager) (id : ℕ) (f : CredentialEntry → CredentialEntry)
    → size (update m id f) ≡ size m
size-update m id f = length-update_entry id f m.entries

-- An update, and the switch to another credential after it.
size-fail_over-update :
    (m : MultiTokenManager) (id : ℕ) (f : CredentialEntry → CredentialEntry)
    → size (fail_over (update m id f)).1 ≡ size m
size-fail_over-update m id f = size-fail_over (update m id f) ∙ size-update m id f

size-report_failure :
    (m : MultiTokenManager) (id now : ℕ) → size (report_failure m id now).1 ≡ size m
unfolding report_failure count_failure
size-report_failure m id now = size-with_enabled m id _ λ e.
    elim (Bool-cases (leb max_failures_per_credential (e.failure_count + 1))) [
      | inl last ↦ rw last (size-fail_over-update m id _)
      | inr few ↦ rw few (size-update m id _)
    ]

size-report_quota_exhausted :
    (m : MultiTokenManager) (id now : ℕ) → size (report_quota_exhausted m id now).1 ≡ size m
unfolding report_quota_exhausted
size-report_quota_exhausted m id now = size-with_enabled m id _ λ e. size-fail_over-update m id _

size-report_refresh_failure :
    (m : MultiTokenManager) (id now : ℕ) → size (report_refresh_failure m id now).1 ≡ size m
unfolding report_refresh_failure count_refresh_failure
size-report_refresh_failure m id now = size-with_enabled m id _ λ e.
    elim (Bool-cases (ltb (e.refresh_failure_count + 1) max_failures_per_credential)) [
      | inl few ↦ rw few (size-update m id _)
      | inr last ↦ rw last (size-fail_over-update m id _)
    ]

size-report_refresh_token_invalid :
    (m : MultiTokenManager) (id now : ℕ) → size (report_refresh_token_invalid m id now).1 ≡ size m
unfolding report_refresh_token_invalid
size-report_refresh_token_invalid m id now =
    size-with_enabled m id _ λ e. size-fail_over-update m id _

size-report_account_throttled :
    (m : MultiTokenManager) (id cooldown now : ℕ)
    → size (report_account_throttled m id cooldown now).1 ≡ size m
unfolding report_account_throttled
size-report_account_throttled m id cooldown now = size-update m id (throttled (now + cooldown))

size-report_rate_limited :
    (m : MultiTokenManager) (id cooldown now : ℕ)
    → size (report_rate_limited m id cooldown now).1 ≡ size m
unfolding report_rate_limited move_on
size-report_rate_limited m id cooldown now =
    ground (arith, size-update m id (rate_limited (now + cooldown)))

size-reload :
    (m : MultiTokenManager) (id : ℕ) (another : Bool)
    → size (try_reload_credential_from_file m id another).1 ≡ size m
unfolding try_reload_credential_from_file
size-reload m id false = refl
size-reload m id true = size-update m id _

size-refresh_found :
    (o : Option CredentialEntry) (refreshed : Bool) (id : ℕ) (m : MultiTokenManager)
    → size (refresh_found o refreshed id m).1 ≡ size m
unfolding refresh_found
size-refresh_found none refreshed id m = refl
size-refresh_found (some e) false id m = refl
size-refresh_found (some e) true id m = size-update m id _

-- Sound, with a number of credentials.
unfoldable pub Keeps : ℕ → MultiTokenManager → Type 0
Keeps n m = IsSound m × (size m ≡ n)

module _ (n : ℕ) (m : MultiTokenManager) (k : Keeps n m) where
  pub choose-Keeps : (model : Option String) (now : ℕ) → Keeps n (choose m model now).1
  unfolding Keeps
  choose-Keeps model now = (choose-IsSound m model now k.0, size-choose m model now ∙ k.1)

  pub success-Keeps : (id now : ℕ) → Keeps n (report_success m id now)
  unfolding Keeps report_success
  success-Keeps id now = (report_success-IsSound m id now k.0, size-update m id _ ∙ k.1)

  pub failure-Keeps : (id now : ℕ) → Keeps n (report_failure m id now).1
  unfolding Keeps
  failure-Keeps id now = (report_failure-IsSound m id now k.0, size-report_failure m id now ∙ k.1)

  pub quota-Keeps : (id now : ℕ) → Keeps n (report_quota_exhausted m id now).1
  unfolding Keeps
  quota-Keeps id now =
      (report_quota_exhausted-IsSound m id now k.0, size-report_quota_exhausted m id now ∙ k.1)

  pub refresh-Keeps : (id now : ℕ) → Keeps n (report_refresh_failure m id now).1
  unfolding Keeps
  refresh-Keeps id now =
      (report_refresh_failure-IsSound m id now k.0, size-report_refresh_failure m id now ∙ k.1)

  pub revoked-Keeps : (id now : ℕ) → Keeps n (report_refresh_token_invalid m id now).1
  unfolding Keeps
  revoked-Keeps id now = (
    report_refresh_token_invalid-IsSound m id now k.0,
    size-report_refresh_token_invalid m id now ∙ k.1,
  )

  pub throttled-Keeps :
      (id cooldown now : ℕ) → Keeps n (report_account_throttled m id cooldown now).1
  unfolding Keeps
  throttled-Keeps id cooldown now = (
    report_account_throttled-IsSound m id cooldown now k.0,
    size-report_account_throttled m id cooldown now ∙ k.1,
  )

  pub limited-Keeps : (id cooldown now : ℕ) → Keeps n (report_rate_limited m id cooldown now).1
  unfolding Keeps
  limited-Keeps id cooldown now = (
    report_rate_limited-IsSound m id cooldown now k.0,
    size-report_rate_limited m id cooldown now ∙ k.1,
  )

  pub ready-Keeps : (id : ℕ) → Keeps n (token_ready id m)
  unfolding Keeps token_ready
  ready-Keeps id = (token_ready-IsSound id m k.0, size-update m id refreshed_entry ∙ k.1)

  pub reloaded-Keeps :
      (id : ℕ) (another : Bool) → Keeps n (try_reload_credential_from_file m id another).1
  unfolding Keeps
  reloaded-Keeps id another = (reload-IsSound id another m k.0, size-reload m id another ∙ k.1)

  pub forced-Keeps :
      (id : ℕ) (refreshed : Bool) → Keeps n (force_refresh_token_for m id refreshed).1
  unfolding Keeps force_refresh_token_for
  forced-Keeps id refreshed = (
    force-IsSound id refreshed m k.0,
    size-refresh_found (find_entry id m.entries) refreshed id m ∙ k.1,
  )
