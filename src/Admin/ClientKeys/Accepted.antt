-- ===== src/Admin/ClientKeys/Accepted.antt =====
-- src/admin/client_keys.rs: which keys verify_and_touch lets in.
use kiro_rs_tool.Prelude.{
  ℕ, ◌≡◌, refl, ◌∙◌, ◌⊎◌, inl, inr, Bool, true, false, ◌&&◌, ◌||◌, Option, none, some, List, [],
  ◌∷◌, arith, ◌==◌, if◌then◌else◌, Bool-cases, Option-cases, ==_iff,
}
use kiro_rs_tool.Prelude.Search.{is_prefix}
use kiro_rs_tool.Admin.ClientKeys.{
  Platform, ClientKey, ClientKeyManager, client_key_prefix, hash_key_with_secret,
}
use kiro_rs_tool.Admin.ClientKeys.Verify.{
  Scan, matches, scan_one, scan, settle_hit, verify_and_touch,
}

module _ {R : Type 0} where
  abbrev pub hits : List ℕ → List ℕ → List (ℕ × ClientKey R) → Bool
  hits hash legacy [] = false
  hits hash legacy ((i, ck) ∷ es) = matches hash legacy ck || hits hash legacy es

  abbrev pub hits_at : List ℕ → List ℕ → ℕ → List (ℕ × ClientKey R) → Bool
  hits_at hash legacy id [] = false
  hits_at hash legacy id ((i, ck) ∷ es) =
      (i == id && matches hash legacy ck) || hits_at hash legacy id es

  abbrev Found : List ℕ → List ℕ → Scan → List (ℕ × ClientKey R) → Type 0
  Found hash legacy s es =
      ((hits hash legacy es ≡ false) × ((scan hash legacy s es).hit_id ≡ s.hit_id))
      ⊎ ((id : ℕ) × ((scan hash legacy s es).hit_id ≡ some id) × (hits_at hash legacy id es ≡ true))

  hit_one :
      (hash legacy : List ℕ) (s : Scan) (i : ℕ) (ck : ClientKey R)
      → (scan_one hash legacy s (i, ck)).hit_id
        ≡ (if matches hash legacy ck then some i else s.hit_id)
  hit_one hash legacy s i ck = elim (Bool-cases (matches hash legacy ck)) [
    | inl t ↦ rw t refl
    | inr f ↦ rw f refl
  ]

  Found-more :
      (hash legacy : List ℕ) (s : Scan) (i : ℕ) (ck : ClientKey R) (es : List (ℕ × ClientKey R))
      → Found hash legacy (scan_one hash legacy s (i, ck)) es
      → Found hash legacy s ((i, ck) ∷ es)
  unfolding scan
  Found-more hash legacy s i ck es (inr (id, q, a)) = inr (id, q, ground (arith, a))
  Found-more hash legacy s i ck es (inl (n, q)) = elim (Bool-cases (matches hash legacy ck)) [
    | inl t ↦ inr (i, q ∙ hit_one hash legacy s i ck ∙ (rw t refl), ground (arith, t, ==_iff i i))
    | inr f ↦ inl (ground (arith, f, n), q ∙ hit_one hash legacy s i ck ∙ (rw f refl))
  ]

  scan-Found :
      (hash legacy : List ℕ) (s : Scan) (es : List (ℕ × ClientKey R)) → Found hash legacy s es
  unfolding scan
  scan-Found hash legacy s [] = inl (refl, refl)
  scan-Found hash legacy s ((i, ck) ∷ es) =
      Found-more hash legacy s i ck es (scan-Found hash legacy (scan_one hash legacy s (i, ck)) es)

  -- What a key finds: no enabled entry of its hash, or an entry of the id that is returned.
  abbrev pub IsAnswer : List ℕ → List ℕ → List (ℕ × ClientKey R) → Option ℕ → Type 0
  IsAnswer hash legacy es none = hits hash legacy es ≡ false
  IsAnswer hash legacy es (some id) = hits_at hash legacy id es ≡ true

  Found-IsAnswer :
      (hash legacy : List ℕ) (s : Scan) (es : List (ℕ × ClientKey R))
      → s.hit_id ≡ none
      → Found hash legacy s es
      → IsAnswer hash legacy es (scan hash legacy s es).hit_id
  Found-IsAnswer hash legacy s es e (inl (n, q)) = rw q (rw e n)
  Found-IsAnswer hash legacy s es e (inr (id, q, a)) = rw q a

  settle_hit-id :
      (saved : Bool) (now hash : List ℕ) (s : Scan) (m : ClientKeyManager R)
      → (settle_hit saved now hash s m).0 ≡ s.hit_id
  unfolding settle_hit
  settle_hit-id saved now hash s m = elim (Option-cases s.hit_id) [
    | inl e ↦ rw e refl
    | inr (id, e) ↦ rw e refl
  ]

  pub verify_and_touch-IsAnswer :
      (p : Platform R) (saved : Bool) (now presented : List ℕ) (m : ClientKeyManager R)
      → is_prefix client_key_prefix presented ≡ true
      → IsAnswer
          (hash_key_with_secret p m.hash_secret presented)
          (p.sha256 presented)
          m.entries
          (verify_and_touch p saved now presented m).0
  unfolding verify_and_touch
  verify_and_touch-IsAnswer p saved now presented m h =
      let hash = hash_key_with_secret p m.hash_secret presented in
      let empty : Scan = record { hit_id = none; legacy_hit_hash = none } in
      rw h (
        rw (settle_hit-id saved now hash (scan hash (p.sha256 presented) empty m.entries) m) (
          Found-IsAnswer hash (p.sha256 presented) empty m.entries refl
            (scan-Found hash (p.sha256 presented) empty m.entries)))

  pub verify_and_touch_refused :
      (p : Platform R) (saved : Bool) (now presented : List ℕ) (m : ClientKeyManager R)
      → is_prefix client_key_prefix presented ≡ false
      → verify_and_touch p saved now presented m ≡ (none, m)
  unfolding verify_and_touch
  verify_and_touch_refused p saved now presented m h = rw h refl
