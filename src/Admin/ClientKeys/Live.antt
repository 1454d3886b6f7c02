-- ===== src/Admin/ClientKeys/Live.antt =====
-- src/admin/client_keys.rs: the entries of an id that are enabled, and what the methods do to them.
use kiro_rs_tool.Prelude.{
  ℕ, ◌<◌, ◌≡◌, refl, inl, inr, Bool, true, false, not, ◌&&◌, ◌||◌, List, [], ◌∷◌, arith, ◌==◌,
  Bool-cases, Option-cases, ==_iff,
}
use kiro_rs_tool.Prelude.Map.{insert, nat_eq}
use kiro_rs_tool.Admin.ClientKeys.Calls.{change_entry, set_disabled, delete}
use kiro_rs_tool.Admin.ClientKeys.Verify.{Scan, settle_hit}
use kiro_rs_tool.Admin.ClientKeys.Accepted.{hits_at}
use kiro_rs_tool.Admin.ClientKeys.{ClientKey, ClientKeyManager, save_locked, update, without, has}

module _ {R : Type 0} where
  -- An entry of the id that is enabled.
  abbrev pub live : ℕ → List (ℕ × ClientKey R) → Bool
  live id [] = false
  live id ((i, ck) ∷ es) = (i == id && not ck.disabled) || live id es

  -- The id was given out, and no enabled entry has it.
  abbrev pub IsOut : ℕ → ClientKeyManager R → Type 0
  IsOut id m = (id < m.next_id) × (live id m.entries ≡ false)

  pub live-update :
      (id j : ℕ) (f : ClientKey R → ClientKey R) (es : List (ℕ × ClientKey R))
      → ((ck : ClientKey R) → (f ck).disabled ≡ ck.disabled)
      → live id es ≡ false
      → live id (update j f es) ≡ false
  live-update id j f [] k h = refl
  live-update id j f ((i, ck) ∷ es) k h = ground (arith, k ck, live-update id j f es k)

  pub live-without :
      (id j : ℕ) (es : List (ℕ × ClientKey R)) → live id es ≡ false → live id (without j es) ≡ false
  live-without id j [] h = refl
  live-without id j ((i, ck) ∷ es) h = ground (arith, live-without id j es)

  pub live-insert :
      (id k : ℕ) (v : ClientKey R) (es : List (ℕ × ClientKey R))
      → id < k
      → live id es ≡ false
      → live id (insert k v es) ≡ false
  live-insert id k v [] l h = ground (arith, ==_iff k id)
  live-insert id k v ((i, ck) ∷ es) l h =
      ground (arith, ==_iff k id, ==_iff i k, ==_iff i id, live-insert id k v es l)

  pub live-disabled :
      (id j : ℕ) (es : List (ℕ × ClientKey R))
      → live id es ≡ false
      → live id (update j (λ ck. record ck { disabled = true }) es) ≡ false
  live-disabled id j [] h = refl
  live-disabled id j ((i, ck) ∷ es) h = ground (arith, live-disabled id j es)

  pub live-enabled :
      (id j : ℕ) (es : List (ℕ × ClientKey R))
      → (j == id) ≡ false
      → live id es ≡ false
      → live id (update j (λ ck. record ck { disabled = false }) es) ≡ false
  live-enabled id j [] n h = refl
  live-enabled id j ((i, ck) ∷ es) n h =
      ground (arith, ==_iff j id, ==_iff i j, ==_iff i id, live-enabled id j es n)

  live-disable :
      (id : ℕ) (es : List (ℕ × ClientKey R))
      → live id (update id (λ ck. record ck { disabled = true }) es) ≡ false
  live-disable id [] = refl
  live-disable id ((i, ck) ∷ es) = ground (arith, live-disable id es)

  live-delete : (id : ℕ) (es : List (ℕ × ClientKey R)) → live id (without id es) ≡ false
  live-delete id [] = refl
  live-delete id ((i, ck) ∷ es) = ground (arith, live-delete id es)

  pub save_locked-IsOut :
      (id : ℕ) (saved : Bool) (m : ClientKeyManager R) → IsOut id m → IsOut id (save_locked saved m)
  unfolding save_locked
  save_locked-IsOut id saved m h = ground (arith, h)

  pub change_entry-IsOut :
      (id j : ℕ) (saved : Bool) (f : ClientKey R → ClientKey R) (m : ClientKeyManager R)
      → (live id m.entries ≡ false → live id (update j f m.entries) ≡ false)
      → IsOut id m
      → IsOut id (change_entry saved j f m).1
  unfolding change_entry
  change_entry-IsOut id j saved f m k h = elim (Bool-cases (has j m.entries)) [
    | inl t ↦
        rw t (save_locked-IsOut id saved (record m { entries = update j f m.entries }) (h.0, k h.1))
    | inr n ↦ rw n h
  ]

  pub kept :
      (id j : ℕ) (saved : Bool) (f : ClientKey R → ClientKey R) (m : ClientKeyManager R)
      → ((ck : ClientKey R) → (f ck).disabled ≡ ck.disabled)
      → IsOut id m
      → IsOut id (change_entry saved j f m).1
  kept id j saved f m k = change_entry-IsOut id j saved f m (live-update id j f m.entries k)

  pub settle_hit-IsOut :
      (id : ℕ) (saved : Bool) (now hash : List ℕ) (s : Scan) (m : ClientKeyManager R)
      → IsOut id m
      → IsOut id (settle_hit saved now hash s m).1
  unfolding settle_hit
  settle_hit-IsOut id saved now hash s m h = elim (Option-cases s.hit_id) [
    | inl e ↦ rw e h
    | inr (j, e) ↦ elim (Option-cases s.legacy_hit_hash) [
      | inl n ↦ rw (e, n) (h.0, live-update id j _ m.entries (λ ck. refl) h.1)
      | inr (old, o) ↦
          rw (e, o)
            (save_locked-IsOut id saved _ (h.0, live-update id j _ m.entries (λ ck. refl) h.1))
    ]
  ]

  live-absent : (id : ℕ) (es : List (ℕ × ClientKey R)) → has id es ≡ false → live id es ≡ false
  live-absent id [] h = refl
  live-absent id ((i, ck) ∷ es) h = ground (arith, live-absent id es)

  -- An entry that lets a key in is enabled.
  pub hits_at-live :
      (hash legacy : List ℕ) (id : ℕ) (es : List (ℕ × ClientKey R))
      → hits_at hash legacy id es ≡ true
      → live id es ≡ true
  hits_at-live hash legacy id [] h = absurd (ground (arith, h))
  hits_at-live hash legacy id ((i, ck) ∷ es) h = ground (arith, h, hits_at-live hash legacy id es)

  pub set_disabled-IsOut :
      (saved : Bool) (id : ℕ) (m : ClientKeyManager R)
      → id < m.next_id
      → IsOut id (set_disabled saved id true m).1
  unfolding set_disabled change_entry
  set_disabled-IsOut saved id m l = elim (Bool-cases (has id m.entries)) [
    | inl t ↦ rw t (save_locked-IsOut id saved _ (l, live-disable id m.entries))
    | inr n ↦ rw n (l, live-absent id m.entries n)
  ]

  pub delete-IsOut :
      (saved : Bool) (id : ℕ) (m : ClientKeyManager R)
      → id < m.next_id
      → IsOut id (delete saved id m).1
  unfolding delete
  delete-IsOut saved id m l = elim (Bool-cases (has id m.entries)) [
    | inl t ↦ rw t (save_locked-IsOut id saved _ (l, live-delete id m.entries))
    | inr n ↦ rw n (l, live-absent id m.entries n)
  ]
