-- ===== src/Admin/ClientKeys/Verify.antt =====
-- src/admin/client_keys.rs: the check of the key that a client presents.
use kiro_rs_tool.Prelude.{
  ℕ, Bool, not, ◌&&◌, ◌||◌, Option, none, some, List, [], ◌∷◌, if◌then◌else◌,
}
use kiro_rs_tool.Prelude.Map.{bytes_beq, insert, remove, bytes_eq}
use kiro_rs_tool.Prelude.Search.{is_prefix}
use kiro_rs_tool.Admin.ClientKeys.{
  Platform, ClientKey, ClientKeyManager, client_key_prefix, hash_key_with_secret, save_locked,
  update, add_u64,
}

-- What the scan of `verify_and_touch` has found: the last id, and the last old hash.
pub record Scan : Type 0 where
  pub hit_id : Option ℕ
  pub legacy_hit_hash : Option (List ℕ)

module _ {R : Type 0} where
  -- An enabled entry of the hash, in its present or its old form.
  abbrev pub matches : List ℕ → List ℕ → ClientKey R → Bool
  matches hash legacy ck =
      not ck.disabled && (bytes_beq ck.key_hash hash || bytes_beq ck.key_hash legacy)

  abbrev pub scan_one : List ℕ → List ℕ → Scan → ℕ × ClientKey R → Scan
  scan_one hash legacy s (id, ck) =
      if matches hash legacy ck
      then record {
        hit_id = some id;
        legacy_hit_hash =
            if bytes_beq ck.key_hash legacy then some ck.key_hash else s.legacy_hit_hash;
      }
      else s

  unfoldable pub scan : List ℕ → List ℕ → Scan → List (ℕ × ClientKey R) → Scan
  scan hash legacy s [] = s
  scan hash legacy s (e ∷ es) = scan hash legacy (scan_one hash legacy s e) es

  abbrev pub touched : List ℕ → Option (List ℕ) → List ℕ → ClientKey R → ClientKey R
  touched hash old now ck = record ck {
    key_hash = elim old [ none ↦ ck.key_hash | some h ↦ hash ];
    total_calls = add_u64 ck.total_calls 1;
    last_used_at = some now;
  }

  -- The code behind the scan.
  unfoldable pub settle_hit :
      Bool → List ℕ → List ℕ → Scan → ClientKeyManager R → Option ℕ × ClientKeyManager R
  unfolding save_locked
  settle_hit saved now hash s m = elim s.hit_id [
    | none ↦ (none, m)
    | some id ↦
        let m' = record m { entries = update id (touched hash s.legacy_hit_hash now) m.entries } in
        (
          some id,
          elim s.legacy_hit_hash [
            | none ↦ m'
            | some old ↦
                save_locked saved (record m' { by_hash = insert hash id (remove old m.by_hash) })
          ],
        )
  ]

  unfoldable pub verify_and_touch :
      Platform R → Bool → List ℕ → List ℕ → ClientKeyManager R → Option ℕ × ClientKeyManager R
  unfolding is_prefix hash_key_with_secret scan settle_hit
  verify_and_touch p saved now presented m =
      if is_prefix client_key_prefix presented
      then (let hash = hash_key_with_secret p m.hash_secret presented in
          let found =
            scan hash (p.sha256 presented) (record { hit_id = none; legacy_hit_hash = none })
              m.entries in
          settle_hit saved now hash found m)
      else (none, m)
