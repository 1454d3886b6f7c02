-- ===== src/Admin/ClientKeys.antt =====
-- src/admin/client_keys.rs: the keys that the gateway hands out to its clients. Text is kept as its
-- code points. The crates hmac, sha2 and hex, the random source of a new key and the arithmetic on
-- `f64` are the fields of `Platform`; `now` is the clock's RFC 3339 text, and `saved` tells whether the
-- write to disk succeeded. An entry of the map stands once in the list; the order of the list stands
-- for the order in which the table is iterated. `next_id` would wrap after 2 ^ 64 keys.
pub mod Calls
pub mod Verify
pub mod Display
pub mod Accepted
pub mod Live
pub mod Revoked
use kiro_rs_tool.Prelude.{
  ℕ, ◌+◌, ◌%◌, ◌^◌, max, Bool, true, false, not, ◌&&◌, ◌||◌, Option, none, some, List, [], ◌∷◌,
  ◌++◌, map, leb, ◌==◌, if◌then◌else◌, filter, any, take, length,
}
use kiro_rs_tool.Prelude.Map.{insert, nat_eq, bytes_eq}
use kiro_rs_tool.Prelude.Text.{codes}
use kiro_rs_tool.Prelude.Search.{is_prefix}

abbrev pub client_key_prefix : List ℕ
client_key_prefix = codes "csk_"

-- `hmac secret key` and `sha256 key` are in hexadecimal; `counts` is `is_finite() && .. > 0.0`.
pub record Platform (R : Type 0) : Type 0 where
  pub hmac : List ℕ → List ℕ → List ℕ
  pub sha256 : List ℕ → List ℕ
  pub zero_credits : R
  pub add_credits : R → R → R
  pub counts : R → Bool

pub record ClientKey (R : Type 0) : Type 0 where
  pub id : ℕ
  pub key : List ℕ
  pub key_hash : List ℕ
  pub key_prefix : List ℕ
  pub name : List ℕ
  pub description : Option (List ℕ)
  pub disabled : Bool
  pub created_at : List ℕ
  pub last_used_at : Option (List ℕ)
  pub total_calls : ℕ
  pub total_input_tokens : ℕ
  pub total_output_tokens : ℕ
  pub total_cache_creation_tokens : ℕ
  pub total_cache_read_tokens : ℕ
  pub total_credits : R

-- `has_path` tells whether there is a file, and `file` is what it holds.
pub record ClientKeyManager (R : Type 0) : Type 0 where
  pub entries : List (ℕ × ClientKey R)
  pub by_hash : List (List ℕ × ℕ)
  pub next_id : ℕ
  pub dirty_usage : Bool
  pub has_path : Bool
  pub file : List (ClientKey R)
  pub hash_secret : List ℕ

abbrev pub add_u64 : ℕ → ℕ → ℕ
add_u64 a b = (a + b) % 2 ^ 64

abbrev pub is_empty : List ℕ → Bool
is_empty [] = true
is_empty (c ∷ cs) = false

abbrev pub key_prefix_of : List ℕ → List ℕ
key_prefix_of key = take 8 key

module _ {R : Type 0} where
  unfoldable pub hash_key_with_secret : Platform R → List ℕ → List ℕ → List ℕ
  hash_key_with_secret p secret key = codes "hmac-sha256:" ++ p.hmac secret key

  -- The map's `get_mut` with a change of the entry.
  abbrev pub update :
      ℕ → (ClientKey R → ClientKey R) → List (ℕ × ClientKey R) → List (ℕ × ClientKey R)
  update id f [] = []
  update id f ((i, ck) ∷ es) = (i, if i == id then f ck else ck) ∷ update id f es

  abbrev pub has : ℕ → List (ℕ × ClientKey R) → Bool
  has id [] = false
  has id ((i, ck) ∷ es) = i == id || has id es

  abbrev pub without : ℕ → List (ℕ × ClientKey R) → List (ℕ × ClientKey R)
  without id [] = []
  without id ((i, ck) ∷ es) = let rest = without id es in if i == id then rest else (i, ck) ∷ rest

  abbrev pub hash_of : ℕ → List (ℕ × ClientKey R) → List ℕ
  hash_of id [] = []
  hash_of id ((i, ck) ∷ es) = if i == id then ck.key_hash else hash_of id es

  -- `sort_by_key` on the ids.
  abbrev pub insert_sorted : ClientKey R → List (ClientKey R) → List (ClientKey R)
  insert_sorted k [] = k ∷ []
  insert_sorted k (j ∷ ks) = if leb k.id j.id then k ∷ j ∷ ks else j ∷ insert_sorted k ks

  unfoldable pub list_entries : List (ℕ × ClientKey R) → List (ClientKey R)
  list_entries [] = []
  list_entries ((i, ck) ∷ es) = insert_sorted ck (list_entries es)

  unfoldable pub list : ClientKeyManager R → List (ClientKey R)
  unfolding list_entries
  list m = list_entries m.entries

  -- The key itself is not serialized.
  abbrev pub stored : ClientKey R → ClientKey R
  stored ck = record ck { key = [] }

  -- The flag is cleared also when the write has failed.
  unfoldable pub save_locked : Bool → ClientKeyManager R → ClientKeyManager R
  unfolding list
  save_locked saved m =
      if m.has_path
      then record m { file = if saved then map stored (list m) else m.file; dirty_usage = false }
      else m

  unfoldable pub new : List ℕ → ClientKeyManager R
  new secret = record {
    entries = [];
    by_hash = [];
    next_id = 1;
    dirty_usage = false;
    has_path = false;
    file = [];
    hash_secret = secret;
  }

  -- What `load` does to an entry of the file.
  unfoldable pub migrate : Platform R → List ℕ → ClientKey R → ClientKey R
  unfolding hash_key_with_secret
  migrate p secret ck = record ck {
    key = [];
    key_hash = if is_empty ck.key then ck.key_hash else hash_key_with_secret p secret ck.key;
    key_prefix =
        if is_empty ck.key_prefix && not (is_empty ck.key)
        then key_prefix_of ck.key
        else ck.key_prefix;
  }

  unfoldable pub load_one :
      Platform R → List ℕ → ClientKey R → ClientKeyManager R → ClientKeyManager R
  unfolding migrate
  load_one p secret ck m =
      let ck' = migrate p secret ck in
      record m {
        entries = insert ck'.id ck' m.entries;
        by_hash = if is_empty ck'.key_hash then m.by_hash else insert ck'.key_hash ck'.id m.by_hash;
        next_id = max m.next_id (ck.id + 1);
      }

  unfoldable pub load_all :
      Platform R → List ℕ → List (ClientKey R) → ClientKeyManager R → ClientKeyManager R
  unfolding load_one
  load_all p secret [] m = m
  load_all p secret (ck ∷ cks) m = load_all p secret cks (load_one p secret ck m)

  -- `cks` is what the file holds, nothing if it is not there or blank. It is written again when it
  -- held a key in plain text.
  unfoldable pub load : Platform R → Bool → List ℕ → List (ClientKey R) → ClientKeyManager R
  unfolding load_all new save_locked
  load p saved secret cks =
      let m = load_all p secret cks (record (new secret) { has_path = true; file = cks }) in
      if any (λ ck. not (is_empty ck.key)) cks then save_locked saved m else m
