-- ===== src/Tests/ClientKeys.antt =====
-- src/admin/client_keys.rs: runs on a manager with keys, with short texts in place of hashes.
use kiro_rs_tool.Prelude.{
  ℕ, ◌≡◌, ◌≢◌, refl, true, false, Option, none, some, List, [], ◌∷◌, ◌++◌, arith, map,
}
use kiro_rs_tool.Prelude.Text.{codes}
use kiro_rs_tool.Prelude.Search.{is_prefix}
use kiro_rs_tool.Admin.ClientKeys.{
  Platform, ClientKey, ClientKeyManager, new, load, load_all, load_one, migrate,
  hash_key_with_secret, save_locked, list, list_entries,
}
use kiro_rs_tool.Admin.ClientKeys.Calls.{
  create, delete, change_entry, set_disabled, Usage, record_usage, active_count, flush_to_disk,
}
use kiro_rs_tool.Admin.ClientKeys.Verify.{scan, settle_hit, verify_and_touch}
use kiro_rs_tool.Admin.ClientKeys.Display.{
  slice_to, slice_from, joined, mask_client_key, display_client_key,
}
use kiro_rs_tool.Admin.ClientKeys.Revoked.{
  Called, created, verified, flushed, run, revoked_stays_out,
}

abbrev platform : Platform ℕ
platform = record {
  hmac = λ secret key. secret ++ key;
  sha256 = λ key. codes "old:" ++ key;
  zero_credits = 0;
  add_credits = λ a b. a;
  counts = λ a. false;
}

abbrev manager : ClientKeyManager ℕ
manager = (create platform true (codes "t0") (codes "alpha") (codes "n") none (new (codes "s"))).1

abbrev now : List ℕ
now = codes "t1"

abbrev check : List ℕ → ClientKeyManager ℕ → Option ℕ
check text m = (verify_and_touch platform true now text m).0

let_in_test : check (codes "csk_alpha") manager ≡ some 1
unfolding new create hash_key_with_secret save_locked verify_and_touch is_prefix scan settle_hit
let_in_test = refl

other_key_test : check (codes "csk_alph") manager ≡ none
unfolding new create hash_key_with_secret save_locked verify_and_touch is_prefix scan settle_hit
other_key_test = refl

no_prefix_test : check (codes "alpha") manager ≡ none
unfolding new create hash_key_with_secret save_locked verify_and_touch is_prefix scan settle_hit
no_prefix_test = refl

disabled_test : check (codes "csk_alpha") (set_disabled true 1 true manager).1 ≡ none
unfolding new create hash_key_with_secret save_locked verify_and_touch is_prefix scan settle_hit
    set_disabled change_entry
disabled_test = refl

enabled_again_test :
    check (codes "csk_alpha") (set_disabled true 1 false (set_disabled true 1 true manager).1).1
    ≡ some 1
unfolding new create hash_key_with_secret save_locked verify_and_touch is_prefix scan settle_hit
    set_disabled change_entry
enabled_again_test = refl

active_count_test : active_count manager ≡ 1
unfolding new create save_locked active_count
active_count_test = refl

abbrev old_entry : ClientKey ℕ
old_entry = record {
  id = 7;
  key = [];
  key_hash = codes "old:csk_b";
  key_prefix = codes "csk_b";
  name = codes "b";
  description = none;
  disabled = false;
  created_at = codes "t0";
  last_used_at = none;
  total_calls = 4;
  total_input_tokens = 0;
  total_output_tokens = 0;
  total_cache_creation_tokens = 0;
  total_cache_read_tokens = 0;
  total_credits = 0;
}

abbrev old_file : ClientKeyManager ℕ
old_file = load platform true (codes "s") (old_entry ∷ [])

-- An entry with the old hash is let in, its hash is renewed, and it is written.
upgrade_test :
    map (λ ck. ck.key_hash) ((verify_and_touch platform true now (codes "csk_b") old_file).1.file)
    ≡ codes "hmac-sha256:scsk_b" ∷ []
unfolding new load load_all load_one migrate hash_key_with_secret save_locked list list_entries
    verify_and_touch is_prefix scan settle_hit
upgrade_test = refl

-- The usage that a failed write has not kept is not written at the next flush either.
abbrev usage : Usage ℕ
usage = record {
  input_tokens = 10;
  output_tokens = 5;
  cache_creation_tokens = 0;
  cache_read_tokens = 0;
  credits = 0;
}

failed_write_test :
    let m = flush_to_disk false (record_usage platform now 7 usage old_file) in
    map (λ ck. ck.total_input_tokens) ((flush_to_disk true m).file) ≡ 0 ∷ []
unfolding new load load_all load_one migrate hash_key_with_secret save_locked list list_entries
    record_usage flush_to_disk
failed_write_test = refl

mask_test : mask_client_key (codes "csk_abcdefghijkl") ≡ some (codes "csk_abcd...ijkl")
unfolding mask_client_key slice_to slice_from joined
mask_test = refl

-- The slice of a key with a character of three bytes at the eighth byte panics.
mask_panic_test : mask_client_key (codes "csk_abc€defghijkl") ≡ none
unfolding mask_client_key slice_to slice_from joined
mask_panic_test = refl

display_test : display_client_key old_entry ≡ some []
unfolding display_client_key mask_client_key slice_to slice_from joined
display_test = refl

abbrev calls : List (Called ℕ)
calls =
    record { call = created (codes "beta") (codes "m") none; saved = true; now = now }
    ∷ record { call = verified (codes "csk_alpha"); saved = false; now = now }
    ∷ record { call = flushed; saved = true; now = now }
    ∷ []

next_test : manager.next_id ≡ 2
unfolding new create save_locked
next_test = refl

revoked_stays_out_example :
    (check (codes "csk_alpha") (run platform calls (set_disabled true 1 true manager).1) ≢ some 1)
    × (check (codes "csk_alpha") (run platform calls (delete true 1 manager).1) ≢ some 1)
revoked_stays_out_example =
    revoked_stays_out platform 1 manager calls true true now (codes "csk_alpha")
      (omega (arith, next_test)) refl
