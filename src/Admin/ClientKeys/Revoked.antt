-- ===== src/Admin/ClientKeys/Revoked.antt =====
-- src/admin/client_keys.rs: the manager as a machine whose steps are the calls of its methods, and a
-- key that was disabled or deleted.
use kiro_rs_tool.Prelude.{
  ℕ, ◌<◌, ◌≡◌, refl, ap, subst, ◌≢◌, inl, inr, Bool, true, false, not, ◌&&◌, Option, some, List, [],
  ◌∷◌, arith, ◌==◌, if◌then◌else◌, any, Bool-cases,
}
use kiro_rs_tool.Prelude.Search.{is_prefix}
use kiro_rs_tool.Admin.ClientKeys.{
  Platform, ClientKeyManager, client_key_prefix, save_locked, hash_key_with_secret, has,
}
use kiro_rs_tool.Admin.ClientKeys.Calls.{
  Usage, create, delete, set_disabled, with_meta, update_meta, zeroed, reset_stats, used,
  record_usage, flush_to_disk,
}
use kiro_rs_tool.Admin.ClientKeys.Verify.{verify_and_touch}
use kiro_rs_tool.Admin.ClientKeys.Accepted.{
  IsAnswer, verify_and_touch-IsAnswer, verify_and_touch_refused,
}
use kiro_rs_tool.Admin.ClientKeys.Live.{
  IsOut, live-update, live-without, live-insert, live-disabled, live-enabled, save_locked-IsOut,
  change_entry-IsOut, kept, settle_hit-IsOut, hits_at-live, set_disabled-IsOut, delete-IsOut,
}

-- The methods that change the keys, with the arguments of each.
pub data Call (R : Type 0) : Type 0 where
  created : List ℕ → List ℕ → Option (List ℕ) → Call R
  deleted : ℕ → Call R
  disabled_set : ℕ → Bool → Call R
  meta_updated : ℕ → Option (List ℕ) → Option (Option (List ℕ)) → Call R
  stats_reset : ℕ → Call R
  verified : List ℕ → Call R
  usage_recorded : ℕ → Usage R → Call R
  flushed : Call R

pub record Called (R : Type 0) : Type 0 where
  pub call : Call R
  pub saved : Bool
  pub now : List ℕ

module _ {R : Type 0} where
  unfoldable pub step :
      Platform R → Call R → Bool → List ℕ → ClientKeyManager R → ClientKeyManager R
  step p (created random name description) saved now m =
      (create p saved now random name description m).1
  step p (deleted id) saved now m = (delete saved id m).1
  step p (disabled_set id b) saved now m = (set_disabled saved id b m).1
  step p (meta_updated id name description) saved now m =
      (update_meta saved id name description m).1
  step p (stats_reset id) saved now m = (reset_stats p saved id m).1
  step p (verified text) saved now m = (verify_and_touch p saved now text m).1
  step p (usage_recorded id u) saved now m = record_usage p now id u m
  step p flushed saved now m = flush_to_disk saved m

  unfoldable pub run : Platform R → List (Called R) → ClientKeyManager R → ClientKeyManager R
  unfolding step
  run p [] m = m
  run p (e ∷ es) m = run p es (step p e.call e.saved e.now m)

  -- A call that enables the key of an id.
  abbrev pub enables : ℕ → Call R → Bool
  enables id (created random name description) = false
  enables id (deleted j) = false
  enables id (disabled_set j b) = j == id && not b
  enables id (meta_updated j name description) = false
  enables id (stats_reset j) = false
  enables id (verified text) = false
  enables id (usage_recorded j u) = false
  enables id flushed = false

  created-IsOut :
      (p : Platform R) (id : ℕ) (saved : Bool) (now random name : List ℕ)
      (description : Option (List ℕ)) (m : ClientKeyManager R)
      → IsOut id m
      → IsOut id (create p saved now random name description m).1
  unfolding create
  created-IsOut p id saved now random name description m h =
      save_locked-IsOut id saved _
        (omega (arith, h.0), live-insert id m.next_id _ m.entries h.0 h.1)

  deleted-IsOut :
      (id j : ℕ) (saved : Bool) (m : ClientKeyManager R)
      → IsOut id m
      → IsOut id (delete saved j m).1
  unfolding delete
  deleted-IsOut id j saved m h = elim (Bool-cases (has j m.entries)) [
    | inl t ↦ rw t (save_locked-IsOut id saved _ (h.0, live-without id j m.entries h.1))
    | inr n ↦ rw n h
  ]

  set-IsOut :
      (id j : ℕ) (b saved : Bool) (m : ClientKeyManager R)
      → (j == id && not b) ≡ false
      → IsOut id m
      → IsOut id (set_disabled saved j b m).1
  unfolding set_disabled
  set-IsOut id j true saved m n h =
      change_entry-IsOut id j saved _ m (live-disabled id j m.entries) h
  set-IsOut id j false saved m n h =
      change_entry-IsOut id j saved _ m (live-enabled id j m.entries (ground (arith, n))) h

  verified-IsOut :
      (p : Platform R) (id : ℕ) (saved : Bool) (now text : List ℕ) (m : ClientKeyManager R)
      → IsOut id m
      → IsOut id (verify_and_touch p saved now text m).1
  unfolding verify_and_touch
  verified-IsOut p id saved now text m h = elim (Bool-cases (is_prefix client_key_prefix text)) [
    | inl t ↦ rw t (settle_hit-IsOut id saved now _ _ m h)
    | inr n ↦ rw n h
  ]

  if-IsOut :
      (id : ℕ) (b : Bool) (m n : ClientKeyManager R)
      → IsOut id m
      → IsOut id n
      → IsOut id (if b then m else n)
  if-IsOut id true m n h k = h
  if-IsOut id false m n h k = k

  flushed-IsOut :
      (id : ℕ) (saved : Bool) (m : ClientKeyManager R)
      → IsOut id m
      → IsOut id (flush_to_disk saved m)
  unfolding flush_to_disk
  flushed-IsOut id saved m h =
      if-IsOut id m.dirty_usage (save_locked saved m) m (save_locked-IsOut id saved m h) h

  step-IsOut :
      (p : Platform R) (id : ℕ) (c : Call R) (saved : Bool) (now : List ℕ) (m : ClientKeyManager R)
      → enables id c ≡ false
      → IsOut id m
      → IsOut id (step p c saved now m)
  unfolding step update_meta reset_stats record_usage
  step-IsOut p id (created random name description) saved now m n h =
      created-IsOut p id saved now random name description m h
  step-IsOut p id (deleted j) saved now m n h = deleted-IsOut id j saved m h
  step-IsOut p id (disabled_set j b) saved now m n h = set-IsOut id j b saved m n h
  step-IsOut p id (meta_updated j name description) saved now m n h =
      kept id j saved (with_meta name description) m (λ ck. refl) h
  step-IsOut p id (stats_reset j) saved now m n h = kept id j saved (zeroed p) m (λ ck. refl) h
  step-IsOut p id (verified text) saved now m n h = verified-IsOut p id saved now text m h
  step-IsOut p id (usage_recorded j u) saved now m n h =
      (h.0, live-update id j (used p now u) m.entries (λ ck. refl) h.1)
  step-IsOut p id flushed saved now m n h = flushed-IsOut id saved m h

  run-IsOut :
      (p : Platform R) (id : ℕ) (es : List (Called R)) (m : ClientKeyManager R)
      → any (λ e. enables id e.call) es ≡ false
      → IsOut id m
      → IsOut id (run p es m)
  unfolding run
  run-IsOut p id [] m n h = h
  run-IsOut p id (e ∷ es) m n h =
      run-IsOut p id es (step p e.call e.saved e.now m) (ground (arith, n))
        (step-IsOut p id e.call e.saved e.now m (ground (arith, n)) h)

  verify-out :
      (p : Platform R) (saved : Bool) (now text : List ℕ) (id : ℕ) (m : ClientKeyManager R)
      → IsOut id m
      → (verify_and_touch p saved now text m).0 ≢ some id
  verify-out p saved now text id m h e = elim (Bool-cases (is_prefix client_key_prefix text)) [
    | inl t ↦
        let hash = hash_key_with_secret p m.hash_secret text in
        let at =
          subst (IsAnswer hash (p.sha256 text) m.entries) e
            (verify_and_touch-IsAnswer p saved now text m t) in
        ground (arith, hits_at-live hash (p.sha256 text) id m.entries at, h.1)
    | inr n ↦ ground (arith, ap (λ r. r.0) (verify_and_touch_refused p saved now text m n), e)
  ]

  -- Once the key of an id that was given out is disabled, and likewise once it is deleted, no text that
  -- a client presents is let in as that id, whatever calls of the manager's methods come between, as
  -- long as none of them enables the id, and whether the writes to disk succeed or not.
  pub revoked_stays_out :
      (p : Platform R) (id : ℕ) (m : ClientKeyManager R) (es : List (Called R))
      (saved saved' : Bool) (now text : List ℕ)
      → id < m.next_id
      → any (λ e. enables id e.call) es ≡ false
      → ((verify_and_touch p saved' now text (run p es (set_disabled saved id true m).1)).0
          ≢ some id)
        × ((verify_and_touch p saved' now text (run p es (delete saved id m).1)).0 ≢ some id)
  revoked_stays_out p id m es saved saved' now text l n = (
    verify-out p saved' now text id _
        (run-IsOut p id es (set_disabled saved id true m).1 n (set_disabled-IsOut saved id m l)),
    verify-out p saved' now text id _
        (run-IsOut p id es (delete saved id m).1 n (delete-IsOut saved id m l)),
  )
