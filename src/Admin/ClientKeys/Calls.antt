-- ===== src/Admin/ClientKeys/Calls.antt =====
-- src/admin/client_keys.rs: what the administrator and the meter do to the keys.
use kiro_rs_tool.Prelude.{
  ℕ, ◌+◌, Bool, true, false, not, Option, none, some, List, ◌++◌, if◌then◌else◌, filter, length,
}
use kiro_rs_tool.Prelude.Map.{insert, remove, nat_eq, bytes_eq}
use kiro_rs_tool.Admin.ClientKeys.{
  Platform, ClientKey, ClientKeyManager, client_key_prefix, key_prefix_of, hash_key_with_secret,
  save_locked, has, without, hash_of, update, add_u64,
}

pub record Usage (R : Type 0) : Type 0 where
  pub input_tokens : ℕ
  pub output_tokens : ℕ
  pub cache_creation_tokens : ℕ
  pub cache_read_tokens : ℕ
  pub credits : R

module _ {R : Type 0} where
  -- `key` is the random text of `generate_client_key` behind its prefix.
  unfoldable pub create :
      Platform R
      → Bool
      → List ℕ
      → List ℕ
      → List ℕ
      → Option (List ℕ)
      → ClientKeyManager R
      → ClientKey R × ClientKeyManager R
  unfolding hash_key_with_secret save_locked
  create p saved now random name description m =
      let key = client_key_prefix ++ random in
      let entry : ClientKey R = record {
        id = m.next_id;
        key = key;
        key_hash = hash_key_with_secret p m.hash_secret key;
        key_prefix = key_prefix_of key;
        name = name;
        description = description;
        disabled = false;
        created_at = now;
        last_used_at = none;
        total_calls = 0;
        total_input_tokens = 0;
        total_output_tokens = 0;
        total_cache_creation_tokens = 0;
        total_cache_read_tokens = 0;
        total_credits = p.zero_credits;
      } in
      (
        entry,
        save_locked saved (record m {
          entries = insert m.next_id entry m.entries;
          by_hash = insert (hash_key_with_secret p m.hash_secret key) m.next_id m.by_hash;
          next_id = m.next_id + 1;
        }),
      )

  unfoldable pub delete : Bool → ℕ → ClientKeyManager R → Bool × ClientKeyManager R
  unfolding save_locked
  delete saved id m =
      if has id m.entries
      then (
        true,
        save_locked saved (record m {
          entries = without id m.entries;
          by_hash = remove (hash_of id m.entries) m.by_hash;
        }),
      )
      else (false, m)

  -- The shape that the three methods below share: a change of one entry, and the file.
  unfoldable pub change_entry :
      Bool → ℕ → (ClientKey R → ClientKey R) → ClientKeyManager R → Bool × ClientKeyManager R
  unfolding save_locked
  change_entry saved id f m =
      if has id m.entries
      then (true, save_locked saved (record m { entries = update id f m.entries }))
      else (false, m)

  unfoldable pub set_disabled : Bool → ℕ → Bool → ClientKeyManager R → Bool × ClientKeyManager R
  unfolding change_entry
  set_disabled saved id disabled m =
      change_entry saved id (λ ck. record ck { disabled = disabled }) m

  -- What `update_meta` does to an entry.
  abbrev pub with_meta : Option (List ℕ) → Option (Option (List ℕ)) → ClientKey R → ClientKey R
  with_meta name description ck = record ck {
    name = elim name [ none ↦ ck.name | some n ↦ n ];
    description = elim description [ none ↦ ck.description | some d ↦ d ];
  }

  unfoldable pub update_meta :
      Bool
      → ℕ
      → Option (List ℕ)
      → Option (Option (List ℕ))
      → ClientKeyManager R
      → Bool × ClientKeyManager R
  unfolding change_entry
  update_meta saved id name description m = change_entry saved id (with_meta name description) m

  abbrev pub zeroed : Platform R → ClientKey R → ClientKey R
  zeroed p ck = record ck {
    total_calls = 0;
    total_input_tokens = 0;
    total_output_tokens = 0;
    total_cache_creation_tokens = 0;
    total_cache_read_tokens = 0;
    total_credits = p.zero_credits;
  }

  unfoldable pub reset_stats :
      Platform R → Bool → ℕ → ClientKeyManager R → Bool × ClientKeyManager R
  unfolding change_entry
  reset_stats p saved id m = change_entry saved id (zeroed p) m

  abbrev pub used : Platform R → List ℕ → Usage R → ClientKey R → ClientKey R
  used p now u ck = record ck {
    total_input_tokens = add_u64 ck.total_input_tokens u.input_tokens;
    total_output_tokens = add_u64 ck.total_output_tokens u.output_tokens;
    total_cache_creation_tokens = add_u64 ck.total_cache_creation_tokens u.cache_creation_tokens;
    total_cache_read_tokens = add_u64 ck.total_cache_read_tokens u.cache_read_tokens;
    total_credits =
        let c = p.add_credits ck.total_credits u.credits in
        if p.counts u.credits then c else ck.total_credits;
    last_used_at = some now;
  }

  unfoldable pub record_usage :
      Platform R → List ℕ → ℕ → Usage R → ClientKeyManager R → ClientKeyManager R
  record_usage p now id u m = record m {
    entries = update id (used p now u) m.entries;
    dirty_usage = true;
  }

  unfoldable pub active_count : ClientKeyManager R → ℕ
  active_count m = length (filter (λ e. not (e.1.disabled)) m.entries)

  unfoldable pub flush_to_disk : Bool → ClientKeyManager R → ClientKeyManager R
  unfolding save_locked
  flush_to_disk saved m = if m.dirty_usage then save_locked saved m else m
