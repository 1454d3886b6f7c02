-- ===== src/Anthropic/CacheMetering/Ordered.antt =====
-- src/anthropic/cache_metering.rs: the counts of tokens along the chain of prefixes.
use kiro_rs_tool.Prelude.{
  ℕ, ◌-◌, ◌^◌, ◌≤◌, ◌<◌, Bool, true, false, not, ◌||◌, List, [], ◌∷◌, ◌==◌, length, arith,
  Bool-cases, inl, inr,
}
use kiro_rs_tool.Prelude.Text.{codes}
use kiro_rs_tool.Anthropic.Request.{MessagesRequest}
use kiro_rs_tool.Anthropic.CacheMetering.Seed.{detect_max_ttl, isolation_seed}
use kiro_rs_tool.Anthropic.CacheMetering.Signature.{unwrap_or}
use kiro_rs_tool.Anthropic.CacheMetering.Walk.{feed_messages_keeps, feed_base_keeps}
use kiro_rs_tool.Anthropic.CacheMetering.Segments.{
  Segment, Crates, Chain, hash_text, count_tokens, push_segment, commit, feed_request,
  extract_segments, is_some,
}

-- The counts of the segments grow from `low` to at most `high`.
abbrev pub Rises : ℕ → List Segment → ℕ → Type 0
Rises low [] high = low ≤ high
Rises low (s ∷ ss) high = (low ≤ s.cumulative_tokens) × Rises s.cumulative_tokens ss high

pub record IsOrdered (c : Chain) : Type 0 where
  pub rises : Rises 0 c.segments c.cache_tokens
  pub within : c.cache_tokens ≤ c.prompt_total_tokens
  pub fits : c.prompt_total_tokens < 2 ^ 32

Rises-mono :
    (low high high' : ℕ) (ss : List Segment) → high ≤ high' → Rises low ss high → Rises low ss high'
Rises-mono low high high' [] h r = omega arith
Rises-mono low high high' (s ∷ ss) h r = (r.0, Rises-mono s.cumulative_tokens high high' ss h r.1)

push_segment-Rises :
    (low : ℕ) (s : Segment) (ss : List Segment)
    → Rises low ss s.cumulative_tokens
    → Rises low (push_segment s ss) s.cumulative_tokens
unfolding push_segment
push_segment-Rises low s [] r = (r, omega arith)
push_segment-Rises low s (t ∷ []) r = ground arith
push_segment-Rises low s (t ∷ u ∷ ss) r =
    (r.0, push_segment-Rises t.cumulative_tokens s (u ∷ ss) r.1)

hash_text-IsOrdered :
    (e : Bool) (t : List ℕ) (c : Chain) → IsOrdered c → IsOrdered (hash_text e t c)
unfolding hash_text
hash_text-IsOrdered true t c o = record { rises = o.rises; within = o.within; fits = o.fits }
hash_text-IsOrdered false t c o = o

count_tokens-IsOrdered :
    (e : Bool) (n : ℕ) (c : Chain) → IsOrdered c → IsOrdered (count_tokens e n c)
unfolding count_tokens
count_tokens-IsOrdered true n c o =
    let w = o.within in
    let f = o.fits in
    record {
      rises = Rises-mono 0 c.cache_tokens _ c.segments (omega arith) o.rises;
      within = omega arith;
      fits = omega arith;
    }
count_tokens-IsOrdered false n c o =
    let w = o.within in
    let f = o.fits in record { rises = o.rises; within = omega arith; fits = omega arith }

module _ {Picture : Type 0} (k : Crates Picture) (e : Bool) where
  commit-IsOrdered : (ttl : ℕ) (c : Chain) → IsOrdered c → IsOrdered (commit k e ttl c)
  unfolding commit
  commit-IsOrdered ttl c o = elim (Bool-cases (not e || c.cache_tokens == 0)) [
    | inl idle ↦ rw idle o
    | inr busy ↦ rw busy (record {
      rises = push_segment-Rises 0 _ c.segments o.rises;
      within = o.within;
      fits = o.fits;
    })
  ]

  feed_request-IsOrdered :
      (seed : List ℕ) (req : MessagesRequest) → IsOrdered (feed_request k e seed req)
  unfolding feed_request
  feed_request-IsOrdered seed req =
      let start : Chain = record {
        hasher = seed;
        cache_tokens = 0;
        prompt_total_tokens = 0;
        segments = [];
      } in
      let ttl = detect_max_ttl req in
      feed_messages_keeps k e ttl ttl (λ c d. IsOrdered c) (λ b t c d. hash_text-IsOrdered b t c)
        (λ b n c d. count_tokens-IsOrdered b n c) (λ c d. commit-IsOrdered ttl c)
        (length req.messages - 1) 0 req.messages _ start
        (feed_base_keeps k e ttl ttl (λ c d. IsOrdered c) (λ b t c d. hash_text-IsOrdered b t c)
          (λ b n c d. count_tokens-IsOrdered b n c) (λ c d. commit-IsOrdered ttl c) req start start
          (record { rises = omega arith; within = omega arith; fits = omega arith }))

pub chain-Rises :
    {Picture : Type 0} (k : Crates Picture) (e : Bool) (seed : List ℕ) (req : MessagesRequest)
    → let c = feed_request k e seed req in Rises 0 c.segments c.prompt_total_tokens
chain-Rises k e seed req =
    let o = feed_request-IsOrdered k e seed req in Rises-mono 0 _ _ _ o.within o.rises

-- Along the segments of any request the counts never fall, and are at most the estimate for the
-- whole prompt, which fits in 32 bits.
pub extract_segments-Rises :
    {Picture : Type 0} (k : Crates Picture) (req : MessagesRequest) (key_id : ℕ)
    → let (segments, total, enabled) = extract_segments k req key_id in
      Rises 0 segments total × (total < 2 ^ 32)
unfolding extract_segments
extract_segments-Rises k req key_id =
    let seed = isolation_seed req key_id in
    let o =
      feed_request-IsOrdered k (is_some seed) (unwrap_or (codes "uncacheable:key:0") seed) req in
    (Rises-mono 0 _ _ _ o.within o.rises, o.fits)
