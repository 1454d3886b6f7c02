-- ===== src/Anthropic/CacheMetering/Plan.antt =====
-- src/anthropic/cache_metering.rs: `compute_cache_usage`, and what is written when the call succeeded.
use kiro_rs_tool.Prelude.{ℕ, Bool, true, false, Option, none, some, List, [], ◌∷◌, if◌then◌else◌}
use kiro_rs_tool.Prelude.Int.{ℤ, pos, as_signed}
use kiro_rs_tool.Anthropic.Request.{MessagesRequest}
use kiro_rs_tool.Anthropic.CacheMetering.{Inner, SegmentResult, lookup, record_segments}
use kiro_rs_tool.Anthropic.CacheMetering.Signature.{unwrap_or}
use kiro_rs_tool.Anthropic.CacheMetering.Split.{CacheUsage}
use kiro_rs_tool.Anthropic.CacheMetering.Segments.{Segment, Crates, extract_segments}

pub record CacheCommit : Type 0 where
  pub segment_hashes : List ℕ
  pub segment_tokens : List ℕ
  pub ttl_secs : ℕ

pub record CacheUsagePlan : Type 0 where
  pub usage : CacheUsage
  pub commit : Option CacheCommit

unfoldable pub hashes_of : List Segment → List ℕ
hashes_of [] = []
hashes_of (s ∷ ss) = s.hash ∷ hashes_of ss

unfoldable pub tokens_of : List Segment → List ℕ
tokens_of [] = []
tokens_of (s ∷ ss) = s.cumulative_tokens ∷ tokens_of ss

unfoldable pub deeper_or : Bool → ℕ → Option ℕ → Option ℕ
deeper_or hit t (some deeper) = some deeper
deeper_or true t none = some t
deeper_or false t none = none

-- `rposition(|r| r.hit)` with the tokens at that index.
unfoldable pub deepest_hit : List SegmentResult → List ℕ → Option ℕ
unfolding deeper_or
deepest_hit (r ∷ rs) (t ∷ ts) = deeper_or r.hit t (deepest_hit rs ts)
deepest_hit _ _ = none

unfoldable pub last_or : ℕ → List ℕ → ℕ
last_or d [] = d
last_or d (t ∷ ts) = last_or t ts

-- `as i32` of a `u32`.
abbrev pub as_i32 : ℕ → ℤ
as_i32 n = as_signed 32 n

-- The plan with segments: the first of them and the others.
unfoldable pub plan_segments :
    Inner → ℕ → Segment → List Segment → ℕ → Bool → CacheUsagePlan × Inner
unfolding hashes_of tokens_of deepest_hit last_or
plan_segments inner now first rest total enabled =
    let hashes = hashes_of (first ∷ rest) in
    let tokens = tokens_of (first ∷ rest) in
    let (results, inner') = lookup inner now hashes tokens in
    let read = unwrap_or 0 (deepest_hit results tokens) in
    (
      record {
        usage = record {
          cache_read = as_i32 read;
          cache_covered_est = as_i32 (last_or 0 tokens);
          prompt_total_est = as_i32 total;
        };
        commit =
            if enabled
            then some (record {
              segment_hashes = hashes;
              segment_tokens = tokens;
              ttl_secs = first.ttl_secs;
            })
            else none;
      },
      inner',
    )

unfoldable pub plan_of : Inner → ℕ → List Segment → ℕ → Bool → CacheUsagePlan × Inner
unfolding plan_segments
plan_of inner now [] total enabled = (
  record {
    usage = record {
      cache_read = pos 0;
      cache_covered_est = pos 0;
      prompt_total_est = as_i32 total;
    };
    commit = none;
  },
  inner,
)
plan_of inner now (first ∷ rest) total enabled = plan_segments inner now first rest total enabled

unfoldable pub compute_cache_usage :
    {Picture : Type 0} → Crates Picture → Inner → ℕ → MessagesRequest → ℕ → CacheUsagePlan × Inner
unfolding plan_of
compute_cache_usage k inner now req key_id =
    let (segments, total, enabled) = extract_segments k req key_id in
    plan_of inner now segments total enabled

unfoldable pub commit_success : CacheUsagePlan → Inner → ℕ → Inner
commit_success plan inner now = elim plan.commit [
  | none ↦ inner
  | some c ↦ record_segments inner now c.segment_hashes c.segment_tokens c.ttl_secs
]
