-- ===== src/Kiro/TokenManager/Failover.antt =====
-- src/kiro/token_manager.rs: what a report does to its credential, to the others and to the answer.
use kiro_rs_tool.Prelude.{
  ℕ, ◌+◌, ◌<◌, ◌≡◌, ◌≢◌, ◌≤◌, ◌↔◌, refl, sym, ◌∙◌, ap, Bool, true, false, some, List, [], ◌∷◌, ltb,
  leb, if◌then◌else◌, filter, any, arith, Bool-cases, Option-cases, inl, inr,
}
use kiro_rs_tool.Prelude.Search.{min_by}
use kiro_rs_tool.Kiro.TokenManager.Entry.{
  too_many_failures, CredentialEntry, MultiTokenManager, find_entry, update_entry,
  max_failures_per_credential, is_enabled, is_available, higher_priority,
}
use kiro_rs_tool.Kiro.TokenManager.Report.{
  update, fail_over, count_failure, count_refresh_failure, fail_over_to, with_enabled, on_enabled,
  any_enabled, failed, disable, exhausted, token_invalid, rate_limited, report_failure,
  report_quota_exhausted, report_refresh_failure, report_refresh_token_invalid, report_rate_limited,
}

-- A record that a report writes keeps its id.
find_entry-update :
    (id : ℕ) (f : CredentialEntry → CredentialEntry) (es : List CredentialEntry)
    (e : CredentialEntry)
    → ((x : CredentialEntry) → (f x).id ≡ x.id)
    → find_entry id es ≡ some e
    → find_entry id (update_entry id f es) ≡ some (f e)
find_entry-update id f [] e keeps h = cc
find_entry-update id f (x ∷ es) e keeps h =
    ground (arith, keeps x, find_entry-update id f es e keeps)

find_entry-update_ne :
    (id j : ℕ) (f : CredentialEntry → CredentialEntry) (es : List CredentialEntry)
    → ((x : CredentialEntry) → (f x).id ≡ x.id)
    → j ≢ id
    → find_entry j (update_entry id f es) ≡ find_entry j es
find_entry-update_ne id j f [] keeps h = refl
find_entry-update_ne id j f (x ∷ es) keeps h =
    ground (arith, keeps x, find_entry-update_ne id j f es keeps h)

any-filter :
    (es : List CredentialEntry) → any is_enabled es ≡ any (λ _. true) (filter is_enabled es)
any-filter [] = refl
any-filter (e ∷ es) = ground (arith, any-filter es)

fail_over_to-any :
    (xs : List CredentialEntry) (m : MultiTokenManager)
    → (fail_over_to (min_by higher_priority xs) m).0 ≡ any (λ _. true) xs
unfolding fail_over_to
fail_over_to-any [] m = refl
fail_over_to-any (x ∷ xs) m = refl

fail_over-any : (m : MultiTokenManager) → (fail_over m).0 ≡ any_enabled m
unfolding fail_over
fail_over-any m = fail_over_to-any (filter is_enabled m.entries) m ∙ sym (any-filter m.entries)

fail_over-entries : (m : MultiTokenManager) → (fail_over m).1.entries ≡ m.entries
unfolding fail_over
fail_over-entries m = ground arith

fail_over-answer : (m : MultiTokenManager) → (fail_over m).0 ≡ any_enabled (fail_over m).1
fail_over-answer m = rw fail_over-entries (fail_over-any m)

with_enabled_on :
    (m : MultiTokenManager) (id : ℕ) (f : CredentialEntry → Bool × MultiTokenManager)
    (e : CredentialEntry)
    → find_entry id m.entries ≡ some e
    → e.disabled ≡ false
    → with_enabled m id f ≡ f e
unfolding with_enabled
with_enabled_on m id f e found on = rw (found, on_enabled) (simp on)

-- An answer that is right on an enabled entry is right.
with_enabled-answer :
    (m : MultiTokenManager) (id : ℕ) (f : CredentialEntry → Bool × MultiTokenManager)
    → ((e : CredentialEntry) → (f e).0 ≡ any_enabled (f e).1)
    → (with_enabled m id f).0 ≡ any_enabled (with_enabled m id f).1
unfolding with_enabled
with_enabled-answer m id f h = elim (Option-cases (find_entry id m.entries)) [
  | inl missing ↦ rw (missing, on_enabled) refl
  | inr (e, found) ↦ elim (Bool-cases e.disabled) [
    | inl off ↦ rw (found, on_enabled) (simp off)
    | inr on ↦ rw (found, on_enabled) (simp on (h e))
  ]
]

count_failure-answer :
    (m : MultiTokenManager) (id now : ℕ) (e : CredentialEntry)
    → (count_failure m id now e).0 ≡ any_enabled (count_failure m id now e).1
unfolding count_failure
count_failure-answer m id now e =
    elim (Bool-cases (leb max_failures_per_credential (e.failure_count + 1))) [
      | inl third ↦ rw third (sym (ap (any is_enabled) (fail_over-entries _)))
      | inr spare ↦ rw spare refl
    ]

count_refresh_failure-answer :
    (m : MultiTokenManager) (id now : ℕ) (e : CredentialEntry)
    → (count_refresh_failure m id now e).0 ≡ any_enabled (count_refresh_failure m id now e).1
unfolding count_refresh_failure
count_refresh_failure-answer m id now e =
    elim (Bool-cases (ltb (e.refresh_failure_count + 1) max_failures_per_credential)) [
      | inl spare ↦ rw spare refl
      | inr third ↦ rw third (fail_over-answer _)
    ]

-- Each of the four reports that can disable a credential answers `true` exactly when some
-- credential is enabled in the manager that it leaves, whichever credential it was given.
pub report_answers :
    (m : MultiTokenManager) (id now : ℕ)
    → ((report_failure m id now).0 ≡ any_enabled (report_failure m id now).1)
      × ((report_quota_exhausted m id now).0 ≡ any_enabled (report_quota_exhausted m id now).1)
      × ((report_refresh_failure m id now).0 ≡ any_enabled (report_refresh_failure m id now).1)
      × ((report_refresh_token_invalid m id now).0
          ≡ any_enabled (report_refresh_token_invalid m id now).1)
unfolding report_failure report_quota_exhausted report_refresh_failure report_refresh_token_invalid
report_answers m id now = (
  with_enabled-answer m id _ (count_failure-answer m id now),
  with_enabled-answer m id _ (λ e. fail_over-answer (update m id (exhausted now))),
  with_enabled-answer m id _ (count_refresh_failure-answer m id now),
  with_enabled-answer m id _ (λ e. fail_over-answer (update m id (token_invalid now))),
)

-- The entry of a credential after a failed call.
abbrev after_failure : ℕ → CredentialEntry → CredentialEntry
after_failure now e =
    if leb max_failures_per_credential (e.failure_count + 1)
    then disable too_many_failures (failed now e)
    else failed now e

count_failure_entries :
    (m : MultiTokenManager) (id now : ℕ) (e : CredentialEntry)
    → (find_entry id m.entries ≡ some e
        → find_entry id (count_failure m id now e).1.entries ≡ some (after_failure now e))
      × ((j : ℕ)
          → j ≢ id
          → find_entry j (count_failure m id now e).1.entries ≡ find_entry j m.entries)
unfolding count_failure
count_failure_entries m id now e =
    elim (Bool-cases (leb max_failures_per_credential (e.failure_count + 1))) [
      | inl third ↦
          rw (third, fail_over-entries)
            (
              λ found.
                  find_entry-update id (λ e. disable too_many_failures (failed now e)) m.entries e
                    (λ x. unfold disable failed in refl) found,
              λ j ne.
                  find_entry-update_ne id j (λ e. disable too_many_failures (failed now e))
                    m.entries (λ x. unfold disable failed in refl) ne,
            )
      | inr spare ↦ rw spare (
        λ found. find_entry-update id (failed now) m.entries e (λ x. unfold failed in refl) found,
        λ j ne. find_entry-update_ne id j (failed now) m.entries (λ x. unfold failed in refl) ne,
      )
    ]

-- What a failed call makes of an enabled credential, field by field.
pub record Failed (now : ℕ) (e e' : CredentialEntry) : Type 0 where
  pub failure_count : e'.failure_count ≡ e.failure_count + 1
  pub total_failure_count : e'.total_failure_count ≡ e.total_failure_count + 1
  pub disabled : (e'.disabled ≡ true) ↔ (3 ≤ e.failure_count + 1)
  pub third : 3 ≤ e.failure_count + 1 → e'.disabled_reason ≡ some too_many_failures
  pub earlier : e.failure_count + 1 < 3 → e'.disabled_reason ≡ e.disabled_reason
  pub last_used_at : e'.last_used_at ≡ some now
  pub credentials : e'.credentials ≡ e.credentials
  pub refresh_failure_count : e'.refresh_failure_count ≡ e.refresh_failure_count
  pub success_count : e'.success_count ≡ e.success_count
  pub throttled_until : e'.throttled_until ≡ e.throttled_until
  pub rate_limited_until : e'.rate_limited_until ≡ e.rate_limited_until

after_failure-Failed :
    (now : ℕ) (e : CredentialEntry) → e.disabled ≡ false → Failed now e (after_failure now e)
unfolding failed disable
after_failure-Failed now e on = record {
  failure_count = ground arith;
  total_failure_count = ground arith;
  disabled = ground (arith, on);
  third = ground arith;
  earlier = ground arith;
  last_used_at = ground arith;
  credentials = ground arith;
  refresh_failure_count = ground arith;
  success_count = ground arith;
  throttled_until = ground arith;
  rate_limited_until = ground arith;
}

-- A failed call of an enabled credential adds one to its count of failures in a row and to its count of
-- all failures, and records the time. If it is the third in a row, the credential is disabled for
-- that reason; otherwise it stays enabled. Its other fields stay as they are, and so does every other
-- credential.
pub report_failure_entry :
    (m : MultiTokenManager) (id now j : ℕ) (e : CredentialEntry)
    → find_entry id m.entries ≡ some e
    → e.disabled ≡ false
    → j ≢ id
    → (e' : CredentialEntry) × (find_entry id (report_failure m id now).1.entries ≡ some e')
      × Failed now e e'
      × (find_entry j (report_failure m id now).1.entries ≡ find_entry j m.entries)
unfolding report_failure
report_failure_entry m id now j e found on ne =
    let (own, others) = count_failure_entries m id now e in
    (
      after_failure now e,
      rw (with_enabled_on m id (count_failure m id now) e found on) (own found),
      after_failure-Failed now e on,
      rw (with_enabled_on m id (count_failure m id now) e found on) (others j ne),
    )

report_rate_limited-entries :
    (m : MultiTokenManager) (id cooldown now : ℕ)
    → (report_rate_limited m id cooldown now).1.entries
      ≡ update_entry id (rate_limited (now + cooldown)) m.entries
unfolding report_rate_limited
report_rate_limited-entries m id cooldown now = ground arith

rate_limited-is_available :
    (until t : ℕ) (e : CredentialEntry) → t < until → is_available t (rate_limited until e) ≡ false
unfolding rate_limited
rate_limited-is_available until t e h = ground arith

-- A rate limit of a credential makes it unavailable until the cooldown has passed, and neither
-- disables it nor counts towards disabling it; the other credentials stay as they are.
pub report_rate_limited_entry :
    (m : MultiTokenManager) (id cooldown now t j : ℕ) (e : CredentialEntry)
    → find_entry id m.entries ≡ some e
    → t < now + cooldown
    → j ≢ id
    → let m' = (report_rate_limited m id cooldown now).1 in
      (e' : CredentialEntry) × (find_entry id m'.entries ≡ some e')
      × (is_available t e' ≡ false)
      × (e'.disabled ≡ e.disabled)
      × (e'.failure_count ≡ e.failure_count)
      × (e'.refresh_failure_count ≡ e.refresh_failure_count)
      × (find_entry j m'.entries ≡ find_entry j m.entries)
unfolding rate_limited
report_rate_limited_entry m id cooldown now t j e found before ne = rw report_rate_limited-entries (
  rate_limited (now + cooldown) e,
  find_entry-update id (rate_limited (now + cooldown)) m.entries e (λ x. refl) found,
  rate_limited-is_available (now + cooldown) t e before,
  refl,
  refl,
  refl,
  find_entry-update_ne id j (rate_limited (now + cooldown)) m.entries (λ x. refl) ne,
)
