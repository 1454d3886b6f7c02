-- ===== src/Kiro/TokenManager/Health.antt =====
-- src/kiro/token_manager.rs: what every method keeps true of the entries.
use kiro_rs_tool.Prelude.{
  ℕ, ◌+◌, ◌<◌, ◌≡◌, sym, some-eq, ◌∙◌, subst, Bool, true, false, Option, none, some, List, [], ◌∷◌,
  ltb, leb, ◌==◌, All, arith, Bool-cases, Option-cases, inl, inr,
}
use kiro_rs_tool.Kiro.TokenManager.Entry.{
  DisabledReason, too_many_failures, too_many_refresh_failures, CredentialEntry, MultiTokenManager,
  find_entry, update_entry, max_failures_per_credential,
}
use kiro_rs_tool.Kiro.TokenManager.Report.{
  update, fail_over, on_enabled, with_enabled, succeeded, failed, disable, exhausted,
  refresh_failed, token_invalid, throttled, rate_limited, report_success, report_failure,
  report_quota_exhausted, report_refresh_failure, report_refresh_token_invalid,
  report_account_throttled, report_rate_limited,
}

-- A credential that is disabled has a reason, and one that is enabled has none and has failures to
-- spare of both kinds. One that failed calls have disabled has refresh failures to spare, so that
-- healing it makes a healthy one.
abbrev pub Health : Bool → Option DisabledReason → ℕ → ℕ → Type 0
Health false none failures refreshes =
    (failures < max_failures_per_credential) × (refreshes < max_failures_per_credential)
Health false (some reason) failures refreshes = ⊥
Health true none failures refreshes = ⊥
Health true (some too_many_failures) failures refreshes = refreshes < max_failures_per_credential
Health true (some reason) failures refreshes = Unit

abbrev pub IsHealthy : CredentialEntry → Type 0
IsHealthy e = Health e.disabled e.disabled_reason e.failure_count e.refresh_failure_count

abbrev pub IsSound : MultiTokenManager → Type 0
IsSound m = All IsHealthy m.entries

pub update-IsSound :
    (id : ℕ) (f : CredentialEntry → CredentialEntry) (es : List CredentialEntry)
    → ((e : CredentialEntry) → find_entry id es ≡ some e → IsHealthy e → IsHealthy (f e))
    → All IsHealthy es
    → All IsHealthy (update_entry id f es)
update-IsSound id f [] h v = tt
update-IsSound id f (e ∷ es) h v = elim (Bool-cases (e.id == id)) [
  | inl hit ↦ rw hit (h e (rw hit) v.0, v.1)
  | inr miss ↦ rw miss (v.0, update-IsSound id f es (λ e' found. h e' (rw miss found)) v.1)
]

pub report_success-IsSound :
    (m : MultiTokenManager) (id now : ℕ) → IsSound m → IsSound (report_success m id now)
unfolding report_success
report_success-IsSound m id now v =
    update-IsSound id (succeeded now) m.entries (λ e _ k. ground arith) v

-- What `with_enabled` hands to a report is an enabled entry.
with_enabled-IsSound :
    (m : MultiTokenManager) (id : ℕ) (f : CredentialEntry → Bool × MultiTokenManager)
    → IsSound m
    → ((e : CredentialEntry)
        → find_entry id m.entries ≡ some e
        → e.disabled ≡ false
        → IsSound (f e).1)
    → IsSound (with_enabled m id f).1
unfolding with_enabled
with_enabled-IsSound m id f v h = elim (Option-cases (find_entry id m.entries)) [
  | inl missing ↦ rw (missing, on_enabled) v
  | inr (e, found) ↦ elim (Bool-cases e.disabled) [
    | inl off ↦ rw (found, on_enabled, off) v
    | inr on ↦ rw (found, on_enabled) (simp on (h e found on))
  ]
]

fail_over-entries : (m : MultiTokenManager) → (fail_over m).1.entries ≡ m.entries
unfolding fail_over
fail_over-entries m = ground arith

-- Where the entry that was found is enabled, so is the one that is written, the same one.
pub update_found-IsSound :
    (m : MultiTokenManager) (id : ℕ) (f : CredentialEntry → CredentialEntry) (e : CredentialEntry)
    → IsSound m
    → find_entry id m.entries ≡ some e
    → (IsHealthy e → IsHealthy (f e))
    → IsSound (update m id f)
update_found-IsSound m id f e v found h =
    update-IsSound id f m.entries
      (λ e' found' k.
        let same = some-eq (sym found ∙ found') in
        subst (λ (x : CredentialEntry). IsHealthy x → IsHealthy (f x)) same h k)
      v

pub report_failure-IsSound :
    (m : MultiTokenManager) (id now : ℕ) → IsSound m → IsSound (report_failure m id now).1
unfolding report_failure
report_failure-IsSound m id now v = with_enabled-IsSound m id _ v λ e found on.
    elim (Bool-cases (leb max_failures_per_credential (e.failure_count + 1))) [
      | inl third ↦
          rw (third, fail_over-entries)
            (update_found-IsSound m id (λ e. disable too_many_failures (failed now e)) e v found
              (λ k. ground arith))
      | inr spare ↦ rw spare (update_found-IsSound m id (failed now) e v found (λ k. ground arith))
    ]

pub report_quota_exhausted-IsSound :
    (m : MultiTokenManager) (id now : ℕ) → IsSound m → IsSound (report_quota_exhausted m id now).1
unfolding report_quota_exhausted
report_quota_exhausted-IsSound m id now v = with_enabled-IsSound m id _ v λ e found on.
    rw fail_over-entries (update_found-IsSound m id (exhausted now) e v found (λ k. ground arith))

pub report_refresh_failure-IsSound :
    (m : MultiTokenManager) (id now : ℕ) → IsSound m → IsSound (report_refresh_failure m id now).1
unfolding report_refresh_failure
report_refresh_failure-IsSound m id now v = with_enabled-IsSound m id _ v λ e found on.
    elim (Bool-cases (ltb (e.refresh_failure_count + 1) max_failures_per_credential)) [
      | inl spare ↦
          rw spare (update_found-IsSound m id (refresh_failed now) e v found (λ k. ground arith))
      | inr third ↦
          rw (third, fail_over-entries)
            (update_found-IsSound m id
              (λ e. disable too_many_refresh_failures (refresh_failed now e)) e v found
              (λ k. ground arith))
    ]

pub report_refresh_token_invalid-IsSound :
    (m : MultiTokenManager) (id now : ℕ)
    → IsSound m
    → IsSound (report_refresh_token_invalid m id now).1
unfolding report_refresh_token_invalid
report_refresh_token_invalid-IsSound m id now v = with_enabled-IsSound m id _ v λ e found on.
    rw fail_over-entries
      (update_found-IsSound m id (token_invalid now) e v found (λ k. ground arith))

pub report_account_throttled-IsSound :
    (m : MultiTokenManager) (id cooldown now : ℕ)
    → IsSound m
    → IsSound (report_account_throttled m id cooldown now).1
unfolding report_account_throttled
report_account_throttled-IsSound m id cooldown now v =
    update-IsSound id (throttled (now + cooldown)) m.entries (λ e _ k. k) v

pub report_rate_limited-IsSound :
    (m : MultiTokenManager) (id cooldown now : ℕ)
    → IsSound m
    → IsSound (report_rate_limited m id cooldown now).1
unfolding report_rate_limited
report_rate_limited-IsSound m id cooldown now v =
    let kept : IsSound (update m id (rate_limited (now + cooldown))) =
      update-IsSound id (rate_limited (now + cooldown)) m.entries (λ e _ k. k) v in
    ground (arith, kept)
