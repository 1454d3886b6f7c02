-- ===== src/Kiro/Provider/Call/Waits.antt =====
-- src/kiro/token_manager.rs: `acquire_context` always comes back, and leaves a sound pool.
use kiro_rs_tool.Prelude.{
  ℕ, suc, ◌+◌, ◌*◌, ◌≤◌, ◌≡◌, refl, String, Bool, true, false, Option, none, some, List, [], ◌∷◌,
  leb, max, if◌then◌else◌, length, arith,
}
use kiro_rs_tool.Kiro.TokenManager.Entry.{
  CredentialEntry, MultiTokenManager, max_failures_per_credential,
}
use kiro_rs_tool.Kiro.TokenManager.Select.{choose}
use kiro_rs_tool.Kiro.TokenManager.Report.{report_refresh_failure, report_refresh_token_invalid}
use kiro_rs_tool.Kiro.TokenManager.Tokens.{token_ready}
use kiro_rs_tool.Kiro.Provider.Acquire.{
  all_disabled, no_valid_token, TokenAnswer, ready, api_key, reloaded, refresh_failed, revoked,
  Acquired, acquired, refused, on_token, on_choice, acquire_loop, acquire_context,
}
use kiro_rs_tool.Kiro.Provider.Call.Pool.{
  Keeps, choose-Keeps, refresh-Keeps, revoked-Keeps, ready-Keeps, reloaded-Keeps,
}

-- The answers that count as a round.
abbrev pub rounds : List TokenAnswer → ℕ
rounds [] = 0
rounds (reloaded ∷ answers) = rounds answers
rounds (ready ∷ answers) = suc (rounds answers)
rounds (api_key ∷ answers) = suc (rounds answers)
rounds (refresh_failed ∷ answers) = suc (rounds answers)
rounds (revoked ∷ answers) = suc (rounds answers)

module _ (n : ℕ) where
  unfoldable pub Comes : Option (Acquired × MultiTokenManager) → Type 0
  Comes o = (a : Acquired) × (m : MultiTokenManager) × (o ≡ some (a, m)) × Keeps n m

  if_Comes :
      (b : Bool) (x y : Option (Acquired × MultiTokenManager))
      → Comes x
      → (b ≡ false → Comes y)
      → Comes (if b then x else y)
  if_Comes true x y p q = p
  if_Comes false x y p q = q refl

  choice-Comes :
      (x : Option CredentialEntry × MultiTokenManager)
      (next : CredentialEntry → MultiTokenManager → Option (Acquired × MultiTokenManager))
      → Keeps n x.1
      → ((e : CredentialEntry) (m : MultiTokenManager) → Keeps n m → Comes (next e m))
      → Comes (on_choice x next)
  unfolding on_choice Comes
  choice-Comes (none, m) next k h = (refused all_disabled, m, refl, k)
  choice-Comes (some e, m) next k h = h e m k

  -- A report on the token, and the next round if a credential is left.
  counted-Comes :
      (x : Bool × MultiTokenManager)
      (counted : MultiTokenManager → Option (Acquired × MultiTokenManager))
      → Keeps n x.1
      → ((m : MultiTokenManager) → Keeps n m → Comes (counted m))
      → Comes (if x.0 then counted x.1 else some (refused all_disabled, x.1))
  unfolding Comes
  counted-Comes (true, m) counted k h = h m k
  counted-Comes (false, m) counted k h = (refused all_disabled, m, refl, k)

  loop-Comes :
      (model : Option String) (now max_attempts : ℕ) (answers : List TokenAnswer) (count : ℕ)
      (m : MultiTokenManager)
      → max_attempts ≤ count + rounds answers
      → Keeps n m
      → Comes (acquire_loop model now max_attempts answers count m)
  unfolding acquire_loop on_token Comes
  loop-Comes model now max_attempts [] count m enough k =
      let over : leb max_attempts count ≡ true = ground arith in
      rw over (refused no_valid_token, m, refl, k)
  loop-Comes model now max_attempts (ready ∷ answers) count m enough k =
      if_Comes (leb max_attempts count) _ _ (refused no_valid_token, m, refl, k)
        λ _.
          choice-Comes (choose m model now) _ (choose-Keeps n m k model now)
            λ e m' k'. (acquired e, token_ready e.id m', refl, ready-Keeps n m' k' e.id)
  loop-Comes model now max_attempts (api_key ∷ answers) count m enough k =
      if_Comes (leb max_attempts count) _ _ (refused no_valid_token, m, refl, k)
        λ _.
          choice-Comes (choose m model now) _ (choose-Keeps n m k model now)
            λ e m' k'. (acquired e, m', refl, k')
  loop-Comes model now max_attempts (reloaded ∷ answers) count m enough k =
      if_Comes (leb max_attempts count) _ _ (refused no_valid_token, m, refl, k)
        λ _. choice-Comes (choose m model now) _ (choose-Keeps n m k model now) λ e m' k'.
          loop-Comes model now max_attempts answers count _ enough
            (reloaded-Keeps n m' k' e.id true)
  loop-Comes model now max_attempts (refresh_failed ∷ answers) count m enough k =
      if_Comes (leb max_attempts count) _ _ (refused no_valid_token, m, refl, k)
        λ _. choice-Comes (choose m model now) _ (choose-Keeps n m k model now) λ e m' k'.
          counted-Comes (report_refresh_failure m' e.id now) _ (refresh-Keeps n m' k' e.id now)
            λ x l. loop-Comes model now max_attempts answers (count + 1) x (omega arith) l
  loop-Comes model now max_attempts (revoked ∷ answers) count m enough k =
      if_Comes (leb max_attempts count) _ _ (refused no_valid_token, m, refl, k)
        λ _. choice-Comes (choose m model now) _ (choose-Keeps n m k model now) λ e m' k'.
          counted-Comes (report_refresh_token_invalid m' e.id now) _
            (revoked-Keeps n m' k' e.id now)
            λ x l. loop-Comes model now max_attempts answers (count + 1) x (omega arith) l

  pub context-Comes :
      (m : MultiTokenManager) (model : Option String) (now : ℕ) (answers : List TokenAnswer)
      → max (n * max_failures_per_credential) 1 ≤ rounds answers
      → Keeps n m
      → Comes (acquire_context m model now answers)
  unfolding acquire_context Keeps
  context-Comes m model now answers enough k =
      let tries = max (length m.entries * max_failures_per_credential) 1 in
      loop-Comes model now tries answers 0 m (rw k.1 (omega arith)) k
