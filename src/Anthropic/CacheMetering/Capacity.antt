-- ===== src/Anthropic/CacheMetering/Capacity.antt =====
-- src/anthropic/cache_metering.rs: how many entries the cache holds after each call.
use kiro_rs_tool.Prelude.{
  ℕ, zero, suc, ◌+◌, ◌-◌, ◌≤◌, ◌≡◌, refl, Bool, Option, none, some, List, [], ◌∷◌, ◌==◌,
  if◌then◌else◌, length, take, length-take, arith, ◌∙◌,
}
use kiro_rs_tool.Prelude.Map
use kiro_rs_tool.Prelude.Map.{nat_eq}
use kiro_rs_tool.Anthropic.CacheMetering.{
  Entries, CacheEntry, Inner, default_capacity, keep_valid, insert_victim, victims, remove_all,
  evict_oldest, record_segments, lookup, lookup_all, touch, flush_to_disk, evict_expired, clamp_ttl,
  write_all,
}

-- How often a key occurs.
abbrev count : ℕ → List (ℕ × ℕ) → ℕ
count k [] = 0
count k ((j, v) ∷ m) = (if j == k then 1 else 0) + count k m

abbrev count_entries : ℕ → Entries → ℕ
count_entries k [] = 0
count_entries k ((j, v) ∷ m) = (if j == k then 1 else 0) + count_entries k m

count-insert_victim :
    (k : ℕ) (v : ℕ × ℕ) (vs : List (ℕ × ℕ)) → count k (insert_victim v vs) ≡ count k (v ∷ vs)
unfolding insert_victim
count-insert_victim k v [] = refl
count-insert_victim k v (w ∷ ws) = ground (arith, count-insert_victim k v ws)

count-victims : (k : ℕ) (m : Entries) → count k (victims m) ≡ count_entries k m
unfolding victims
count-victims k [] = refl
count-victims k ((j, v) ∷ m) =
    ground (arith, count-insert_victim k (j, v.last_hit_at) (victims m), count-victims k m)

length-insert_victim :
    (v : ℕ × ℕ) (vs : List (ℕ × ℕ)) → length (insert_victim v vs) ≡ suc (length vs)
unfolding insert_victim
length-insert_victim v [] = refl
length-insert_victim v (w ∷ ws) = ground (arith, length-insert_victim v ws)

length-victims : (m : Entries) → length (victims m) ≡ length m
unfolding victims
length-victims [] = refl
length-victims ((j, v) ∷ m) =
    ground (arith, length-insert_victim (j, v.last_hit_at) (victims m), length-victims m)

count-take : (k n : ℕ) (vs : List (ℕ × ℕ)) → count k (take n vs) ≤ count k vs
count-take k zero vs = omega arith
count-take k (suc n) [] = omega arith
count-take k (suc n) (v ∷ vs) = ground (arith, count-take k n vs)

length-remove :
    (k : ℕ) (m : Entries) → 1 ≤ count_entries k m → suc (length (Map.remove k m)) ≡ length m
length-remove k [] h = absurd (omega arith)
length-remove k ((j, v) ∷ m) h = ground (arith, length-remove k m)

count-remove :
    (j k : ℕ) (m : Entries)
    → count_entries j m ≤ (if k == j then 1 else 0) + count_entries j (Map.remove k m)
count-remove j k [] = ground arith
count-remove j k ((i, v) ∷ m) = ground (arith, count-remove j k m)

-- Keys that occur often enough are all taken out.
length-remove_all :
    (ks : List (ℕ × ℕ)) (m : Entries)
    → ((k : ℕ) → count k ks ≤ count_entries k m)
    → length ks + length (remove_all ks m) ≡ length m
unfolding remove_all
length-remove_all [] m h = omega arith
length-remove_all ((k, v) ∷ ks) m h =
    let there : 1 ≤ count_entries k m = ground (arith, h k) in
    let rest : (j : ℕ) → count j ks ≤ count_entries j (Map.remove k m) =
      λ j. ground (arith, h j, count-remove j k m) in
    omega (arith, length-remove k m there, length-remove_all ks (Map.remove k m) rest)

pub evict_oldest_bounded : (m : Entries) → length (evict_oldest m) ≤ default_capacity
unfolding evict_oldest
evict_oldest_bounded m =
    let n = length m - default_capacity in
    let enough : (k : ℕ) → count k (take n (victims m)) ≤ count_entries k m =
      λ k. omega (arith, count-take k n (victims m), count-victims k m) in
    ground (
      arith,
      length-remove_all (take n (victims m)) m enough,
      length-take n (victims m),
      length-victims m,
    )

length-insert_found :
    (h : ℕ) (v e : CacheEntry) (m : Entries)
    → Map.lookup h m ≡ some e
    → length (Map.insert h v m) ≡ length m
length-insert_found h v e [] found = absurd (cc)
length-insert_found h v e ((j, w) ∷ m) found = ground (arith, length-insert_found h v e m)

length-touch :
    (now h : ℕ) (o : Option CacheEntry) (m : Entries)
    → Map.lookup h m ≡ o
    → length (touch now h o m) ≡ length m
unfolding touch
length-touch now h none m found = refl
length-touch now h (some e) m found =
    ground (arith, length-insert_found h (record e { last_hit_at = now }) e m found)

length-lookup_all :
    (now : ℕ) (hs ts : List ℕ) (m : Entries) → length (lookup_all now hs ts m).1 ≡ length m
unfolding lookup_all
length-lookup_all now [] ts m = refl
length-lookup_all now (h ∷ hs) [] m = refl
length-lookup_all now (h ∷ hs) (t ∷ ts) m =
    length-lookup_all now hs ts (touch now h (Map.lookup h m) m)
    ∙ length-touch now h (Map.lookup h m) m refl

length-keep_valid : (now : ℕ) (m : Entries) → length (keep_valid now m) ≤ length m
unfolding keep_valid
length-keep_valid now [] = omega arith
length-keep_valid now (e ∷ m) = ground (arith, length-keep_valid now m)

-- The calls that other parts of the program make of the cache.
pub data Call : Type 0 where
  looked_up : List ℕ → List ℕ → Call
  recorded : List ℕ → List ℕ → ℕ → Call
  flushed : Bool → Call
  expired : Call

unfoldable pub step : ℕ → Call → Inner → Inner
step now (looked_up hs ts) inner = (lookup inner now hs ts).1
step now (recorded hs ts ttl) inner = record_segments inner now hs ts ttl
step now (flushed has_path) inner = (flush_to_disk has_path inner).1
step now expired inner = evict_expired inner now

unfoldable pub run : List (ℕ × Call) → Inner → Inner
unfolding step
run [] inner = inner
run ((now, c) ∷ cs) inner = run cs (step now c inner)

step-bounded :
    (now : ℕ) (c : Call) (inner : Inner)
    → length inner.entries ≤ default_capacity
    → length (step now c inner).entries ≤ default_capacity
unfolding step lookup record_segments flush_to_disk evict_expired
step-bounded now (looked_up hs ts) inner h =
    omega (arith, length-lookup_all now hs ts inner.entries)
step-bounded now (recorded hs ts ttl) inner h =
    evict_oldest_bounded (write_all now (now + clamp_ttl ttl) hs ts inner.entries)
step-bounded now (flushed has_path) inner h = ground arith
step-bounded now expired inner h = omega (arith, length-keep_valid now inner.entries)

-- A cache that holds at most 4096 entries holds at most as many after any row of calls, however many
-- segments they write to it.
pub run_bounded :
    (cs : List (ℕ × Call)) (inner : Inner)
    → length inner.entries ≤ default_capacity
    → length (run cs inner).entries ≤ default_capacity
unfolding run
run_bounded [] inner h = h
run_bounded ((now, c) ∷ cs) inner h = run_bounded cs (step now c inner) (step-bounded now c inner h)
