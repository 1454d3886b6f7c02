-- ===== src/Anthropic/CacheMetering/Written.antt =====
-- src/anthropic/cache_metering.rs: a segment that was written is found until its time is over.
use kiro_rs_tool.Prelude.{
  ℕ, suc, ◌+◌, ◌≤◌, ◌<◌, ◌≡◌, refl, sym, Bool, true, false, Option, none, some, some-eq, List, [],
  ◌∷◌, ◌++◌, ltb, length, arith, Bool-cases, Option-cases, inl, inr, All, subst, lt→ltb,
}
use kiro_rs_tool.Prelude.Map
use kiro_rs_tool.Prelude.Map.{nat_eq}
use kiro_rs_tool.Anthropic.CacheMetering.{
  Entries, CacheEntry, Inner, SegmentResult, default_capacity, is_hit, touch, lookup_all, write_all,
  evict_oldest, record_segments, clamp_ttl,
}
use kiro_rs_tool.Anthropic.CacheMetering.Plan.{deeper_or, deepest_hit, last_or}

-- An entry that a look-up at that time hits.
abbrev pub IsLive : ℕ → ℕ → Entries → Type 0
IsLive now h m = (e : CacheEntry) × (Map.lookup h m ≡ some e) × (now < e.expires_at)

insert-IsLive :
    (now h j : ℕ) (e : CacheEntry) (m : Entries)
    → now < e.expires_at
    → IsLive now h m
    → IsLive now h (Map.insert j e m)
insert-IsLive now h j e m lasts (f, found, fresh) = elim (Bool-cases (nat_eq.beq j h)) [
  | inl here ↦ (e, rw (Map.lookup-insert j h e m) (rw here refl), lasts)
  | inr there ↦ (f, rw (Map.lookup-insert j h e m) (rw there found), fresh)
]

insert_self-IsLive :
    (now h : ℕ) (e : CacheEntry) (m : Entries)
    → now < e.expires_at
    → IsLive now h (Map.insert h e m)
insert_self-IsLive now h e m lasts =
    (e, rw (Map.lookup-insert h h e m) (rw ((nat_eq.beq_iff h h).1 refl) refl), lasts)

touch-IsLive :
    (now h j : ℕ) (o : Option CacheEntry) (m : Entries)
    → IsLive now h m
    → IsLive now h (touch now j o m)
unfolding touch
touch-IsLive now h j none m l = l
touch-IsLive now h j (some e) m l = elim (Bool-cases (ltb now e.expires_at)) [
  | inl valid ↦ rw valid (insert-IsLive now h j (record e { last_hit_at = now }) m (ground arith) l)
  | inr over ↦ rw over l
]

abbrev pub firsts : List (ℕ × ℕ) → List ℕ
firsts [] = []
firsts (x ∷ xs) = x.0 ∷ firsts xs

abbrev pub seconds : List (ℕ × ℕ) → List ℕ
seconds [] = []
seconds (x ∷ xs) = x.1 ∷ seconds xs

write_all-keeps :
    (later now expires h : ℕ) (xs : List (ℕ × ℕ)) (m : Entries)
    → later < expires
    → IsLive later h m
    → IsLive later h (write_all now expires (firsts xs) (seconds xs) m)
unfolding write_all
write_all-keeps later now expires h [] m lasts l = l
write_all-keeps later now expires h (x ∷ xs) m lasts l =
    write_all-keeps later now expires h xs _ lasts (insert-IsLive later h x.0 _ m lasts l)

pub AllLive : ℕ → List (ℕ × ℕ) → Entries → Type 0
AllLive now xs m = All (λ x. IsLive now x.0 m) xs

write_all-AllLive :
    (later now expires : ℕ) (xs : List (ℕ × ℕ)) (m : Entries)
    → later < expires
    → AllLive later xs (write_all now expires (firsts xs) (seconds xs) m)
unfolding write_all AllLive
write_all-AllLive later now expires [] m lasts = tt
write_all-AllLive later now expires (x ∷ xs) m lasts =
    let e : CacheEntry = record { tokens = x.1; expires_at = expires; last_hit_at = now } in
    (
      write_all-keeps later now expires x.0 xs (Map.insert x.0 e m) lasts
          (insert_self-IsLive later x.0 e m lasts),
      write_all-AllLive later now expires xs (Map.insert x.0 e m) lasts,
    )

length-insert : (h : ℕ) (e : CacheEntry) (m : Entries) → length (Map.insert h e m) ≤ suc (length m)
length-insert h e [] = omega arith
length-insert h e ((j, f) ∷ m) = ground (arith, length-insert h e m)

length-write_all :
    (now expires : ℕ) (xs : List (ℕ × ℕ)) (m : Entries)
    → length (write_all now expires (firsts xs) (seconds xs) m) ≤ length xs + length m
unfolding write_all
length-write_all now expires [] m = omega arith
length-write_all now expires (x ∷ xs) m =
    let e : CacheEntry = record { tokens = x.1; expires_at = expires; last_hit_at = now } in
    omega (arith, length-insert x.0 e m, length-write_all now expires xs (Map.insert x.0 e m))

-- Written with room for them, all segments are live until the time to live is over.
pub record_segments-AllLive :
    (inner : Inner) (now later : ℕ) (xs : List (ℕ × ℕ)) (ttl : ℕ)
    → length xs + length inner.entries ≤ default_capacity
    → later < now + clamp_ttl ttl
    → AllLive later xs (record_segments inner now (firsts xs) (seconds xs) ttl).entries
unfolding record_segments evict_oldest
record_segments-AllLive inner now later xs ttl room lasts =
    let bound = length-write_all now (now + clamp_ttl ttl) xs inner.entries in
    let written = write_all now (now + clamp_ttl ttl) (firsts xs) (seconds xs) inner.entries in
    let fits : ltb default_capacity (length written) ≡ false = ground arith in
    rw fits (write_all-AllLive later now (now + clamp_ttl ttl) xs inner.entries lasts)

-- Counts that never fall, from `low` on.
abbrev pub Climbs : ℕ → List ℕ → Type 0
Climbs low [] = Unit
Climbs low (t ∷ ts) = (low ≤ t) × Climbs t ts

deeper_or_here : (hit : Bool) (x t : ℕ) → deeper_or hit x none ≡ some t → t ≡ x
unfolding deeper_or
deeper_or_here true x t h = sym (some-eq h)
deeper_or_here false x t h = absurd (cc)

-- The deepest hit is one of the counts.
pub deepest_hit-All :
    (P : ℕ → Type 0) (t : ℕ) (rs : List SegmentResult) (ts : List ℕ)
    → All P ts
    → deepest_hit rs ts ≡ some t
    → P t
unfolding deepest_hit deeper_or
deepest_hit-All P t [] ts a h = absurd (cc)
deepest_hit-All P t (r ∷ rs) [] a h = absurd (cc)
deepest_hit-All P t (r ∷ rs) (x ∷ xs) a h = elim (Option-cases (deepest_hit rs xs)) [
  | inl none_deeper ↦
      let here : deeper_or r.hit x none ≡ some t =
        subst (λ o. deeper_or r.hit x o ≡ some t) none_deeper h in
      rw (deeper_or_here r.hit x t here) a.0
  | inr (d, deeper) ↦
      let there : deeper_or r.hit x (some d) ≡ some t =
        subst (λ o. deeper_or r.hit x o ≡ some t) deeper h in
      subst P (some-eq there) (deepest_hit-All P d rs xs a.1 deeper)
]

Climbs-All : (low least : ℕ) (ts : List ℕ) → least ≤ low → Climbs low ts → All (λ t. least ≤ t) ts
Climbs-All low least [] h c = tt
Climbs-All low least (t ∷ ts) h c =
    let first = c.0 in (omega arith, Climbs-All t least ts (omega arith) c.1)

touch-AllLive :
    (now j : ℕ) (o : Option CacheEntry) (xs : List (ℕ × ℕ)) (m : Entries)
    → AllLive now xs m
    → AllLive now xs (touch now j o m)
unfolding AllLive
touch-AllLive now j o [] m l = tt
touch-AllLive now j o (x ∷ xs) m l =
    (touch-IsLive now x.0 j o m l.0, touch-AllLive now j o xs m l.1)

-- The deepest hit of a look-up is at least as deep as the last of the live segments in front.
pub deepest_hit-AllLive :
    (now low : ℕ) (x : ℕ × ℕ) (xs more : List (ℕ × ℕ)) (m : Entries)
    → AllLive now (x ∷ xs) m
    → Climbs low (seconds (x ∷ xs ++ more))
    → let ys = x ∷ xs ++ more in
      (t : ℕ) × (deepest_hit (lookup_all now (firsts ys) (seconds ys) m).0 (seconds ys) ≡ some t)
      × (last_or 0 (seconds (x ∷ xs)) ≤ t)
unfolding lookup_all AllLive deepest_hit last_or deeper_or is_hit
deepest_hit-AllLive now low x [] more m l c =
    let (e, found, fresh) = l.0 in
    let m' = touch now x.0 (Map.lookup x.0 m) m in
    let hit : is_hit now (Map.lookup x.0 m) ≡ true = rw found (lt→ltb now e.expires_at fresh) in
    elim (Option-cases
      (deepest_hit (lookup_all now (firsts more) (seconds more) m').0 (seconds more))) [
        | inl none_deeper ↦ (x.1, rw none_deeper (rw hit refl), omega arith)
        | inr (d, deeper) ↦ (
          d,
          rw deeper refl,
          deepest_hit-All (λ t. x.1 ≤ t) d _ (seconds more)
              (Climbs-All x.1 x.1 (seconds more) (omega arith) c.1) deeper,
        )
      ]
deepest_hit-AllLive now low x (y ∷ xs) more m l c =
    let o = Map.lookup x.0 m in
    let (t, deepest, deep) =
      deepest_hit-AllLive now x.1 y xs more (touch now x.0 o m)
        (touch-AllLive now x.0 o (y ∷ xs) m l.1) c.1 in
    (t, rw deepest refl, deep)
