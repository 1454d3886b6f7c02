-- ===== src/Kiro/TokenManager/Select/Laws.antt =====
-- src/kiro/token_manager.rs: the credential that is selected is available and the best of those that are.
use kiro_rs_tool.Prelude.{
  ℕ, String, ◌≡◌, ◌↔◌, sym, ap, ◌∙◌, subst, inl, inr, ◌&&◌, Bool, true, false, Option, none, some,
  List, [], ◌∷◌, filter, any, arith, if◌then◌else◌, Bool-cases, Option-cases, find, ◌==◌,
}
use kiro_rs_tool.Prelude.Search.{min_by}
use kiro_rs_tool.Prelude.Search.Least.{
  IsIn, IsIn-filter, filter-IsIn, IsOrder, min_by-IsIn, min_by-none, min_by-least,
}
use kiro_rs_tool.Kiro.TokenManager.Entry.{
  CredentialEntry, MultiTokenManager, is_available, higher_priority,
}
use kiro_rs_tool.Kiro.TokenManager.Select.{
  may_serve, is_opus, is_balanced, less_used, select_next_credential, current_hit, choose, heal,
  failed_too_often, heal_entry, heal_entries, use_best, select_or_heal, choose_from,
}

higher_priority-IsOrder : IsOrder higher_priority
higher_priority-IsOrder = record {
  irreflexive = λ a. ground arith;
  transitive = λ a b c h k. ground arith;
}

less_used-IsOrder : IsOrder less_used
less_used-IsOrder = record {
  irreflexive = λ a. ground arith;
  transitive = λ a b c h k. ground arith;
}

-- The order of the load balancing mode.
abbrev pub preferred : MultiTokenManager → CredentialEntry → CredentialEntry → Bool
preferred m = if is_balanced m then less_used else higher_priority

preferred-IsOrder : (m : MultiTokenManager) → IsOrder (preferred m)
preferred-IsOrder m = elim (Bool-cases (is_balanced m)) [
  | inl h ↦ rw h less_used-IsOrder
  | inr h ↦ rw h higher_priority-IsOrder
]

select-min_by :
    (m : MultiTokenManager) (model : Option String) (now : ℕ)
    → select_next_credential m model now
      ≡ min_by (preferred m) (filter (may_serve now (is_opus model)) m.entries)
select-min_by m model now = elim (Bool-cases (is_balanced m)) [
  | inl h ↦ unfold select_next_credential in rw h
  | inr h ↦ unfold select_next_credential in rw h
]

-- The selected credential is one of the entries, it may serve the model now, and no entry that may
-- serve it is preferred to it: in balanced mode none has fewer successes, or as many and a smaller
-- priority number; in priority mode none has a smaller priority number.
pub select_next_credential-least :
    (m : MultiTokenManager) (model : Option String) (now : ℕ) (e : CredentialEntry)
    → select_next_credential m model now ≡ some e
    → IsIn e m.entries
      × (may_serve now (is_opus model) e ≡ true)
      × ((e' : CredentialEntry)
          → IsIn e' m.entries
          → may_serve now (is_opus model) e' ≡ true
          → preferred m e' e ≡ false)
select_next_credential-least m model now e h =
    let h' = sym (select-min_by m model now) ∙ h in
    let (there, serves) =
      IsIn-filter (may_serve now (is_opus model)) e m.entries (min_by-IsIn (preferred m) _ e h') in
    (
      there,
      serves,
      λ e' m' s.
          min_by-least (preferred m) (preferred-IsOrder m) _ e e' h'
            (filter-IsIn _ e' m.entries m' s),
    )

no_one_may_serve :
    (m : MultiTokenManager) (model : Option String) (now : ℕ) (e : CredentialEntry)
    → select_next_credential m model now ≡ none
    → IsIn e m.entries
    → may_serve now (is_opus model) e ≡ false
no_one_may_serve m model now e h there =
    let no_one = min_by-none (preferred m) _ (sym (select-min_by m model now) ∙ h) in
    elim (Bool-cases (may_serve now (is_opus model) e)) [
      | inl serves ↦ absurd (
          subst (IsIn e) no_one
            (filter-IsIn (may_serve now (is_opus model)) e m.entries there serves))
      | inr cannot ↦ cannot
    ]

nothing_selected :
    (m : MultiTokenManager) (model : Option String) (now : ℕ)
    → ((e : CredentialEntry) → IsIn e m.entries → may_serve now (is_opus model) e ≡ false)
    → select_next_credential m model now ≡ none
nothing_selected m model now h = elim (Option-cases (select_next_credential m model now)) [
  | inl none_left ↦ none_left
  | inr (e, one) ↦
      let (there, serves, _) = select_next_credential-least m model now e one in
      absurd (ground (arith, h e there, serves))
]

-- Nothing is selected exactly when no entry may serve the model now.
pub select_next_credential-none :
    (m : MultiTokenManager) (model : Option String) (now : ℕ)
    → (select_next_credential m model now ≡ none)
      ↔ ((e : CredentialEntry) → IsIn e m.entries → may_serve now (is_opus model) e ≡ false)
select_next_credential-none m model now =
    (λ h e there. no_one_may_serve m model now e h there, nothing_selected m model now)

-- `find` gives an item that passes the test.
find-some :
    {A : Type 0} (p : A → Bool) (xs : List A) (a : A)
    → find p xs ≡ some a
    → IsIn a xs × (p a ≡ true)
find-some p [] a h = cc
find-some p (x ∷ xs) a h = ground (arith, find-some p xs a)

may_serve-is_available :
    (now : ℕ) (opus : Bool) (e : CredentialEntry)
    → may_serve now opus e ≡ true
    → is_available now e ≡ true
may_serve-is_available now opus e h = ground arith

-- What is chosen is available, and is in the list of the manager that comes back.
abbrev Chosen : ℕ → Option CredentialEntry × MultiTokenManager → Type 0
Chosen now (none, m) = Unit
Chosen now (some e, m) = IsIn e m.entries × (is_available now e ≡ true)

selected-Chosen :
    (m : MultiTokenManager) (model : Option String) (now : ℕ) (e : CredentialEntry)
    → select_next_credential m model now ≡ some e
    → IsIn e m.entries × (is_available now e ≡ true)
selected-Chosen m model now e h =
    let (there, serves, _) = select_next_credential-least m model now e h in
    (there, may_serve-is_available now (is_opus model) e serves)

use_best-Chosen :
    (m : MultiTokenManager) (model : Option String) (now : ℕ)
    → Chosen now (use_best (select_next_credential m model now) m)
unfolding use_best
use_best-Chosen m model now = elim (Option-cases (select_next_credential m model now)) [
  | inl e ↦ rw (e, use_best) tt
  | inr (c, e) ↦ rw (e, use_best) (selected-Chosen m model now c e)
]

select_or_heal-Chosen :
    (m : MultiTokenManager) (model : Option String) (now : ℕ)
    → Chosen now (select_or_heal (select_next_credential m model now) m model now)
unfolding select_or_heal
select_or_heal-Chosen m model now = elim (Option-cases (select_next_credential m model now)) [
  | inl e ↦ rw (e, select_or_heal) (use_best-Chosen (heal m) model now)
  | inr (c, e) ↦ rw (e, select_or_heal) (selected-Chosen m model now c e)
]

current_hit-some :
    (m : MultiTokenManager) (now : ℕ) (e : CredentialEntry)
    → current_hit m now ≡ some e
    → IsIn e m.entries × (is_available now e ≡ true) × (e.id ≡ m.current_id)
unfolding current_hit
current_hit-some m now e h =
    ground (arith, find-some (λ e. e.id == m.current_id && is_available now e) m.entries e)

choose-Chosen :
    (m : MultiTokenManager) (model : Option String) (now : ℕ) → Chosen now (choose m model now)
unfolding choose choose_from
choose-Chosen m model now = elim (Option-cases (current_hit m now)) [
  | inl e ↦ rw (e, choose_from) (select_or_heal-Chosen m model now)
  | inr (c, e) ↦
      let (there, free, _) = current_hit-some m now c e in rw (e, choose_from) (there, free)
]

-- Whatever the mode, the model and the health of the pool, a credential that `acquire_context`
-- chooses is one of the manager's after the choice, is enabled and has no cooldown running.
pub choose-is_available :
    (m : MultiTokenManager) (model : Option String) (now : ℕ) (e : CredentialEntry)
    → (choose m model now).0 ≡ some e
    → IsIn e (choose m model now).1.entries × (is_available now e ≡ true)
choose-is_available m model now e h =
    chosen (choose m model now).0 (choose m model now).1 (choose-Chosen m model now) h
  where
    chosen :
        (c : Option CredentialEntry) (m' : MultiTokenManager)
        → Chosen now (c, m')
        → c ≡ some e
        → IsIn e m'.entries × (is_available now e ≡ true)
    chosen none m' k h = cc
    chosen (some c) m' k h = ground arith

-- Disabled by failed calls alone.
abbrev pub worn_out : CredentialEntry → Bool
worn_out e = e.disabled && failed_too_often e

any-false :
    (p : CredentialEntry → Bool) (e : CredentialEntry) (xs : List CredentialEntry)
    → any p xs ≡ false
    → IsIn e xs
    → p e ≡ false
any-false p e [] h k = absurd k
any-false p e (x ∷ xs) h k = ground (arith, any-false p e xs)

heal_entry-worn_out : (e : CredentialEntry) → worn_out (heal_entry e) ≡ false
unfolding heal_entry
heal_entry-worn_out e = ground arith

heal_entries-worn_out :
    (e : CredentialEntry) (xs : List CredentialEntry)
    → IsIn e (heal_entries xs)
    → worn_out e ≡ false
unfolding heal_entries
heal_entries-worn_out e [] h = absurd h
heal_entries-worn_out e (x ∷ xs) (inl h) = ap worn_out h ∙ heal_entry-worn_out x
heal_entries-worn_out e (x ∷ xs) (inr h) = heal_entries-worn_out e xs h

heal-worn_out :
    (m : MultiTokenManager) (e : CredentialEntry) → IsIn e (heal m).entries → worn_out e ≡ false
unfolding heal
heal-worn_out m e h = elim (Bool-cases (any worn_out m.entries)) [
  | inl some_one ↦ heal_entries-worn_out e m.entries (
      subst
        (λ (b : Bool).
          IsIn e (if b then record m { entries = heal_entries m.entries } else m).entries)
        some_one h)
  | inr no_one ↦ any-false worn_out e m.entries no_one (
      subst
        (λ (b : Bool).
          IsIn e (if b then record m { entries = heal_entries m.entries } else m).entries)
        no_one h)
]

-- The choice fails only as the last attempt does, on the healed pool.
choose-eq-none :
    (m : MultiTokenManager) (model : Option String) (now : ℕ)
    → (choose m model now).0 ≡ none
    → ((choose m model now).1 ≡ heal m) × (select_next_credential (heal m) model now ≡ none)
unfolding choose choose_from select_or_heal use_best
choose-eq-none m model now h = ground arith

-- Where nothing can be chosen, no credential of the pool may serve the model now, and none is left
-- that failed calls alone have disabled: the pool that comes back has been healed.
pub choose-none :
    (m : MultiTokenManager) (model : Option String) (now : ℕ) (e : CredentialEntry)
    → (choose m model now).0 ≡ none
    → IsIn e (choose m model now).1.entries
    → (may_serve now (is_opus model) e ≡ false) × (worn_out e ≡ false)
choose-none m model now e h there =
    let (healed, nothing) = choose-eq-none m model now h in
    let there' : IsIn e (heal m).entries =
      subst (λ (c : MultiTokenManager). IsIn e c.entries) healed there in
    (no_one_may_serve (heal m) model now e nothing there', heal-worn_out m e there')
