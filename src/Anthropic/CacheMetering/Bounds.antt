-- ===== src/Anthropic/CacheMetering/Bounds.antt =====
-- src/anthropic/cache_metering.rs: the numbers that a plan reports.
use kiro_rs_tool.Prelude.{
  ℕ, suc, ◌+◌, subst, sym, ◌^◌, ◌≤◌, ◌<◌, ◌≡◌, refl, ap, Bool, List, [], ◌∷◌, length, arith, All,
  Option-cases, inl, inr,
}
use kiro_rs_tool.Prelude.Int.{ℤ, pos}
use kiro_rs_tool.Anthropic.Request.{MessagesRequest}
use kiro_rs_tool.Anthropic.CacheMetering.{Inner, SegmentResult, lookup}
use kiro_rs_tool.Anthropic.CacheMetering.Split.{
  CacheUsage, Shares, split_against_total, split_against_total_sum, not_negative,
}
use kiro_rs_tool.Anthropic.CacheMetering.Signature.{unwrap_or}
use kiro_rs_tool.Anthropic.CacheMetering.Segments.{Segment, Crates, extract_segments}
use kiro_rs_tool.Anthropic.CacheMetering.Plan.{
  hashes_of, tokens_of, deepest_hit, last_or, as_i32, plan_of, compute_cache_usage,
}
use kiro_rs_tool.Anthropic.CacheMetering.Ordered.{Rises, extract_segments-Rises}
use kiro_rs_tool.Anthropic.CacheMetering.Prefix.{marks}
use kiro_rs_tool.Anthropic.CacheMetering.Written.{firsts, seconds, Climbs, deepest_hit-All}

pub hashes_of-marks : (ss : List Segment) → hashes_of ss ≡ firsts (marks ss)
unfolding hashes_of
hashes_of-marks [] = refl
hashes_of-marks (s ∷ ss) = ap (λ l. s.hash ∷ l) (hashes_of-marks ss)

pub tokens_of-marks : (ss : List Segment) → tokens_of ss ≡ seconds (marks ss)
unfolding tokens_of
tokens_of-marks [] = refl
tokens_of-marks (s ∷ ss) = ap (λ l. s.cumulative_tokens ∷ l) (tokens_of-marks ss)

pub length-marks : (ss : List Segment) → length (marks ss) ≡ length ss
length-marks [] = refl
length-marks (s ∷ ss) = ap (λ n. suc n) (length-marks ss)

pub Rises-Climbs :
    (low high : ℕ) (ss : List Segment) → Rises low ss high → Climbs low (seconds (marks ss))
Rises-Climbs low high [] r = tt
Rises-Climbs low high (s ∷ ss) r = (r.0, Rises-Climbs s.cumulative_tokens high ss r.1)

Rises-le : (low high : ℕ) (ss : List Segment) → Rises low ss high → low ≤ high
Rises-le low high [] r = r
Rises-le low high (s ∷ ss) r =
    let first = r.0 in omega (arith, Rises-le s.cumulative_tokens high ss r.1)

pub Rises-All :
    (low high : ℕ) (ss : List Segment) → Rises low ss high → All (λ t. t ≤ high) (tokens_of ss)
unfolding tokens_of
Rises-All low high [] r = tt
Rises-All low high (s ∷ ss) r =
    (Rises-le s.cumulative_tokens high ss r.1, Rises-All s.cumulative_tokens high ss r.1)

pub as_i32_small : (n : ℕ) → n < 2 ^ 31 → as_i32 n ≡ pos n
as_i32_small n h = ground arith

pub plan_read :
    (inner : Inner) (now : ℕ) (ss : List Segment) (total : ℕ) (enabled : Bool)
    → (plan_of inner now ss total enabled).0.usage.cache_read
      ≡ as_i32 (
          unwrap_or 0
            (deepest_hit (lookup inner now (hashes_of ss) (tokens_of ss)).0 (tokens_of ss)))
unfolding plan_of lookup
plan_read inner now [] total enabled = refl
plan_read inner now (s ∷ ss) total enabled = refl

le-last_or : (low : ℕ) (ts : List ℕ) → Climbs low ts → low ≤ last_or low ts
unfolding last_or
le-last_or low [] c = omega arith
le-last_or low (t ∷ ts) c = let first = c.0 in omega (arith, le-last_or t ts c.1)

Climbs-last : (low d : ℕ) (ts : List ℕ) → Climbs low ts → All (λ t. t ≤ last_or d ts) ts
unfolding last_or
Climbs-last low d [] c = tt
Climbs-last low d (t ∷ ts) c = (le-last_or t ts c.1, Climbs-last t t ts c.1)

last_or-All : (P : ℕ → Type 0) (d : ℕ) (ts : List ℕ) → P d → All P ts → P (last_or d ts)
unfolding last_or
last_or-All P d [] p a = p
last_or-All P d (t ∷ ts) p a = last_or-All P t ts a.0 a.1

-- What is read is covered, and what is covered is of the prompt.
pub IsWithin : CacheUsage → Type 0
IsWithin u =
    (read : ℕ) × (covered : ℕ) × (total : ℕ) × (u.cache_read ≡ pos read)
    × (u.cache_covered_est ≡ pos covered)
    × (u.prompt_total_est ≡ pos total)
    × (read ≤ covered)
    × (covered ≤ total)

read_le :
    (high : ℕ) (rs : List SegmentResult) (ts : List ℕ)
    → All (λ t. t ≤ high) ts
    → unwrap_or 0 (deepest_hit rs ts) ≤ high
read_le high rs ts a = elim (Option-cases (deepest_hit rs ts)) [
  | inl miss ↦ rw miss (omega arith)
  | inr (t, hit) ↦ rw hit (deepest_hit-All (λ t. t ≤ high) t rs ts a hit)
]

plan_of-IsWithin :
    (inner : Inner) (now : ℕ) (ss : List Segment) (total : ℕ) (enabled : Bool)
    → Rises 0 ss total
    → total < 2 ^ 31
    → IsWithin (plan_of inner now ss total enabled).0.usage
unfolding plan_of IsWithin
plan_of-IsWithin inner now [] total enabled r small =
    (0, 0, total, refl, refl, as_i32_small total small, omega arith, omega arith)
plan_of-IsWithin inner now (s ∷ ss) total enabled r small =
    let ts = tokens_of (s ∷ ss) in
    let rs = (lookup inner now (hashes_of (s ∷ ss)) ts).0 in
    let deep = unwrap_or 0 (deepest_hit rs ts) in
    let covered = last_or 0 ts in
    let climbs : Climbs 0 ts =
      subst (Climbs 0) (sym (tokens_of-marks (s ∷ ss))) (Rises-Climbs 0 total (s ∷ ss) r) in
    let reads : deep ≤ covered = read_le covered rs ts (Climbs-last 0 0 ts climbs) in
    let covers : covered ≤ total =
      last_or-All (λ t. t ≤ total) 0 ts (omega arith) (Rises-All 0 total (s ∷ ss) r) in
    (
      deep,
      covered,
      total,
      as_i32_small deep (omega arith),
      as_i32_small covered (omega arith),
      as_i32_small total small,
      reads,
      covers,
    )

-- Whatever the cache holds, the tokens that a request reads from it are among those that its
-- segments cover, and these among the estimate for its whole prompt, if that is below 2 ^ 31. Split
-- by them, however the shares are rounded, any total is the sum of the tokens that are input, written
-- to the cache and read from it, and a negative total counts as zero.
pub compute_cache_usage-IsWithin :
    {Picture : Type 0} (k : Crates Picture) (shares : Shares) (inner : Inner) (now : ℕ)
    (req : MessagesRequest) (key_id : ℕ) (total : ℤ)
    → (extract_segments k req key_id).1 < 2 ^ 31
    → let usage = (compute_cache_usage k inner now req key_id).0.usage in
      let (input, creation, read) = split_against_total shares usage total in
      IsWithin usage × (input + creation + read ≡ not_negative total)
unfolding compute_cache_usage
compute_cache_usage-IsWithin k shares inner now req key_id total small = (
  plan_of-IsWithin inner now _ _ _ (extract_segments-Rises k req key_id).0 small,
  split_against_total_sum shares (compute_cache_usage k inner now req key_id).0.usage total,
)
