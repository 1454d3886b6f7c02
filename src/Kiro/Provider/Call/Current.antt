-- ===== src/Kiro/Provider/Call/Current.antt =====
-- src/kiro/provider.rs: the current credential, while its tokens are at hand.
use kiro_rs_tool.Prelude.{
  ℕ, ◌*◌, ◌≡◌, refl, subst, ap, ◌∙◌, String, Bool, true, false, Option, none, some, List, [], ◌∷◌,
  leb, max, if◌then◌else◌, length, ◌⊎◌, inl, inr, arith, find, ◌==◌, ◌&&◌, Bool-cases, some-eq,
}
use kiro_rs_tool.Kiro.TokenManager.Entry.{
  CredentialEntry, MultiTokenManager, max_failures_per_credential, update_entry, is_available,
}
use kiro_rs_tool.Kiro.TokenManager.Select.{is_balanced, current_hit, choose, choose_from}
use kiro_rs_tool.Kiro.TokenManager.Report.{report_success, succeeded}
use kiro_rs_tool.Kiro.TokenManager.Tokens.{token_ready, refreshed_entry}
use kiro_rs_tool.Kiro.Provider.Acquire.{
  TokenAnswer, ready, api_key, acquired, on_choice, on_token, acquire_loop, acquire_context,
}

-- Two updates in a row, of which the second writes over all that the first wrote.
update_entry-update_entry :
    (id : ℕ) (f g : CredentialEntry → CredentialEntry) (es : List CredentialEntry)
    → ((x : CredentialEntry) → (f x).id ≡ x.id)
    → ((x : CredentialEntry) → g (f x) ≡ g x)
    → update_entry id g (update_entry id f es) ≡ update_entry id g es
update_entry-update_entry id f g [] keeps over = refl
update_entry-update_entry id f g (x ∷ es) keeps over = elim (Bool-cases (x.id == id)) [
  | inl hit ↦
      let hit' : ((f x).id == id) ≡ true = ap (λ i. i == id) (keeps x) ∙ hit in
      rw (hit, hit') (ap (λ y. y ∷ es) (over x))
  | inr miss ↦ rw (miss, miss) (ap (λ ys. x ∷ ys) (update_entry-update_entry id f g es keeps over))
]

token_ready-token_ready :
    (id : ℕ) (m : MultiTokenManager) → token_ready id (token_ready id m) ≡ token_ready id m
unfolding token_ready refreshed_entry
token_ready-token_ready id m =
    ap (λ es. record m { entries = es })
      (update_entry-update_entry id refreshed_entry refreshed_entry m.entries (λ x. refl)
        (λ x. refl))

report_success-token_ready :
    (id now : ℕ) (m : MultiTokenManager)
    → report_success (token_ready id m) id now ≡ report_success m id now
unfolding token_ready refreshed_entry report_success succeeded
report_success-token_ready id now m =
    ap (λ es. record m { entries = es })
      (update_entry-update_entry id refreshed_entry (succeeded now) m.entries (λ x. refl)
        (λ x. refl))

-- The same credential, whatever its counts.
abbrev pub Same : CredentialEntry → CredentialEntry → Type 0
Same e x = (x.id ≡ e.id) × (x.credentials ≡ e.credentials)

find-refreshed :
    (id current now : ℕ) (es : List CredentialEntry) (e : CredentialEntry)
    → find (λ x. x.id == current && is_available now x) es ≡ some e
    → (x : CredentialEntry) × (find
          (λ x. x.id == current && is_available now x)
          (update_entry id refreshed_entry es)
        ≡ some x)
      × Same e x
unfolding refreshed_entry
find-refreshed id current now [] e h = absurd (ground (arith, h))
find-refreshed id current now (y ∷ es) e h =
    let test : CredentialEntry → Bool = λ x. x.id == current && is_available now x in
    let found : (b : Bool) → test y ≡ b → (if b then some y else find test es) ≡ some e =
      λ b eq. subst (λ b. (if b then some y else find test es) ≡ some e) eq h in
    elim (Bool-cases (test y)) [
      | inl here ↦
          let same : y ≡ e = some-eq (found true here) in
          elim (Bool-cases (y.id == id)) [
            | inl hit ↦ (
              refreshed_entry y,
              rw (hit, here) refl,
              (ap (λ x. x.id) same, ap (λ x. x.credentials) same),
            )
            | inr miss ↦
                (y, rw (miss, here) refl, (ap (λ x. x.id) same, ap (λ x. x.credentials) same))
          ]
      | inr later ↦ elim (Bool-cases (y.id == id)) [
        | inl hit ↦ (e, rw (hit, later) (found false later), (refl, refl))
        | inr miss ↦
            let (x, there, same) = find-refreshed id current now es e (found false later) in
            (x, rw (miss, later) there, same)
      ]
    ]

current_hit-token_ready :
    (m : MultiTokenManager) (id now : ℕ) (e : CredentialEntry)
    → current_hit m now ≡ some e
    → (x : CredentialEntry) × (current_hit (token_ready id m) now ≡ some x) × Same e x
unfolding token_ready current_hit is_balanced
current_hit-token_ready m id now e h =
    let test : CredentialEntry → Bool = λ x. x.id == m.current_id && is_available now x in
    let found : (b : Bool)
        → is_balanced m ≡ b
        → (if b then none else find test m.entries) ≡ some e =
      λ b eq. subst (λ b. (if b then none else find test m.entries) ≡ some e) eq h in
    elim (Bool-cases (is_balanced m)) [
      | inl mode ↦ absurd (ground (arith, found true mode))
      | inr mode ↦
          let (x, there, same) =
            find-refreshed id m.current_id now m.entries e (found false mode) in
          let next = find test (update_entry id refreshed_entry m.entries) in
          (x, ap (λ (b : Bool). if b then none else next) mode ∙ there, same)
    ]

-- The credential of a round, and the manager, where its token is at hand.
pub acquire_current :
    (m : MultiTokenManager) (model : Option String) (now : ℕ) (e : CredentialEntry)
    (rest : List TokenAnswer)
    → current_hit m now ≡ some e
    → (acquire_context m model now (ready ∷ rest) ≡ some (acquired e, token_ready e.id m))
      × (acquire_context m model now (api_key ∷ rest) ≡ some (acquired e, m))
unfolding acquire_context acquire_loop on_token on_choice choose choose_from
acquire_current m model now e rest hit =
    let few : leb (max (length m.entries * max_failures_per_credential) 1) 0 ≡ false =
      ground arith in
    (rw few (rw hit refl), rw few (rw hit refl))

-- The manager, or the one that a valid token of a credential leaves.
abbrev pub AtHand : MultiTokenManager → ℕ → MultiTokenManager → Type 0
AtHand m id m' = (m' ≡ m) ⊎ (m' ≡ token_ready id m)

pub AtHand-AtHand :
    (m m' m'' : MultiTokenManager) (id : ℕ) → AtHand m id m' → AtHand m' id m'' → AtHand m id m''
AtHand-AtHand m m' m'' id (inl e) (inl f) = inl (f ∙ e)
AtHand-AtHand m m' m'' id (inl e) (inr f) = inr (f ∙ ap (token_ready id) e)
AtHand-AtHand m m' m'' id (inr e) (inl f) = inr (f ∙ e)
AtHand-AtHand m m' m'' id (inr e) (inr f) =
    inr (f ∙ ap (token_ready id) e ∙ token_ready-token_ready id m)

-- The current credential is still there, and its success leaves the same manager.
pub current_hit-AtHand :
    (m m' : MultiTokenManager) (id now : ℕ) (e : CredentialEntry)
    → AtHand m id m'
    → current_hit m now ≡ some e
    → (x : CredentialEntry) × (current_hit m' now ≡ some x) × Same e x
current_hit-AtHand m m' id now e (inl same) hit =
    (e, ap (λ x. current_hit x now) same ∙ hit, (refl, refl))
current_hit-AtHand m m' id now e (inr same) hit =
    let (x, there, like) = current_hit-token_ready m id now e hit in
    (x, ap (λ x. current_hit x now) same ∙ there, like)

pub report_success-AtHand :
    (m m' : MultiTokenManager) (id now : ℕ)
    → AtHand m id m'
    → report_success m' id now ≡ report_success m id now
report_success-AtHand m m' id now (inl same) = ap (λ x. report_success x id now) same
report_success-AtHand m m' id now (inr same) =
    ap (λ x. report_success x id now) same ∙ report_success-token_ready id now m
