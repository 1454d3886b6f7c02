-- ===== src/Anthropic/CacheMetering.antt =====
-- src/anthropic/cache_metering.rs: the cache of the prefixes of prompts, which the gateway keeps since
-- the upstream service reports no cache tokens. A time is in seconds, and the clock is read once for
-- each call, as the argument `now`. A file that is read back holds what was written.
pub mod Split
pub mod Capacity
pub mod Canonical
pub mod Signature
pub mod Seed
pub mod Segments
pub mod Plan
pub mod Walk
pub mod Ordered
pub mod Prefix
pub mod Lasting
pub mod Written
pub mod Bounds
pub mod Turn
use kiro_rs_tool.Prelude.{
  ℕ, zero, suc, ◌+◌, ◌-◌, ◌*◌, min, max, Bool, true, false, Option, none, some, List, [], ◌∷◌, ltb,
  if◌then◌else◌, length, take, filter, not, ◌==◌,
}
use kiro_rs_tool.Prelude.Map
use kiro_rs_tool.Prelude.Map.{nat_eq}

abbrev pub default_capacity : ℕ
default_capacity = 4096

abbrev pub max_ttl_secs : ℕ
max_ttl_secs = 3600

abbrev pub default_ttl_secs : ℕ
default_ttl_secs = 5 * 60

pub record CacheEntry : Type 0 where
  pub tokens : ℕ
  pub expires_at : ℕ
  pub last_hit_at : ℕ

abbrev pub Entries : Type 0
Entries = List (ℕ × CacheEntry)

pub record SegmentResult : Type 0 where
  pub hit : Bool
  pub tokens : ℕ

pub record Inner : Type 0 where
  pub entries : Entries
  pub dirty : Bool

unfoldable pub keep_valid : ℕ → Entries → Entries
keep_valid now entries = filter (λ e. ltb now e.1.expires_at) entries

unfoldable pub insert_all : Entries → Entries → Entries
insert_all [] entries = entries
insert_all ((k, v) ∷ loaded) entries = insert_all loaded (Map.insert k v entries)

-- `new`, with the entries that the file holds, if it can be read.
unfoldable pub new : ℕ → Option Entries → Inner
unfolding keep_valid insert_all
new now none = record { entries = []; dirty = false }
new now (some loaded) = record { entries = insert_all (keep_valid now loaded) []; dirty = false }

unfoldable pub is_hit : ℕ → Option CacheEntry → Bool
is_hit now none = false
is_hit now (some e) = ltb now e.expires_at

unfoldable pub touch : ℕ → ℕ → Option CacheEntry → Entries → Entries
touch now h none entries = entries
touch now h (some e) entries =
    if ltb now e.expires_at then Map.insert h (record e { last_hit_at = now }) entries else entries

unfoldable pub lookup_all : ℕ → List ℕ → List ℕ → Entries → List SegmentResult × Entries
unfolding is_hit touch
lookup_all now (h ∷ hs) (t ∷ ts) entries =
    let found = Map.lookup h entries in
    let (results, after) = lookup_all now hs ts (touch now h found entries) in
    (record { hit = is_hit now found; tokens = t } ∷ results, after)
lookup_all now _ _ entries = ([], entries)

unfoldable pub lookup : Inner → ℕ → List ℕ → List ℕ → List SegmentResult × Inner
unfolding lookup_all
lookup inner now segment_hashes segment_tokens =
    let (results, after) = lookup_all now segment_hashes segment_tokens inner.entries in
    (results, record inner { entries = after })

unfoldable pub clamp_ttl : ℕ → ℕ
clamp_ttl ttl_secs = min (max ttl_secs 60) max_ttl_secs

unfoldable pub write_all : ℕ → ℕ → List ℕ → List ℕ → Entries → Entries
write_all now expires (h ∷ hs) (t ∷ ts) entries =
    write_all now expires hs ts
      (Map.insert h (record { tokens = t; expires_at = expires; last_hit_at = now }) entries)
write_all now expires _ _ entries = entries

-- `sort_by_key`, which keeps the order of equal keys.
unfoldable pub insert_victim : ℕ × ℕ → List (ℕ × ℕ) → List (ℕ × ℕ)
insert_victim v [] = v ∷ []
insert_victim v (w ∷ ws) =
    let later = insert_victim v ws in if ltb w.1 v.1 then w ∷ later else v ∷ w ∷ ws

-- `sort_by_key` on the keys of all entries with the times of their last hits.
unfoldable pub victims : Entries → List (ℕ × ℕ)
unfolding insert_victim
victims [] = []
victims ((k, v) ∷ entries) = insert_victim (k, v.last_hit_at) (victims entries)

unfoldable pub remove_all : List (ℕ × ℕ) → Entries → Entries
remove_all [] entries = entries
remove_all ((k, hit_at) ∷ ks) entries = remove_all ks (Map.remove k entries)

unfoldable pub evict_oldest : Entries → Entries
unfolding victims remove_all
evict_oldest entries =
    if ltb default_capacity (length entries)
    then remove_all (take (length entries - default_capacity) (victims entries)) entries
    else entries

unfoldable pub record_segments : Inner → ℕ → List ℕ → List ℕ → ℕ → Inner
unfolding clamp_ttl write_all evict_oldest
record_segments inner now segment_hashes segment_tokens ttl_secs = record {
  entries =
      evict_oldest
        (write_all now (now + clamp_ttl ttl_secs) segment_hashes segment_tokens inner.entries);
  dirty = true;
}

-- `flush_to_disk`: the snapshot to be written, if there is a path and anything has changed.
unfoldable pub flush_to_disk : Bool → Inner → Option Entries × Inner
flush_to_disk has_path inner =
    if has_path
    then (if inner.dirty
        then (some inner.entries, record inner { dirty = false })
        else (none, inner))
    else (none, inner)

unfoldable pub evict_expired : Inner → ℕ → Inner
unfolding keep_valid
evict_expired inner now =
    let kept = keep_valid now inner.entries in
    record {
      entries = kept;
      dirty = if length kept == length inner.entries then inner.dirty else true;
    }
