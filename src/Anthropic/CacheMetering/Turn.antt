-- ===== src/Anthropic/CacheMetering/Turn.antt =====
-- src/anthropic/cache_metering.rs: what a turn of a conversation writes to the cache, its next turn
-- reads from it.
use kiro_rs_tool.Prelude.{
  ℕ, ◌+◌, ◌^◌, ◌≤◌, ◌<◌, ◌≡◌, refl, sym, ap, ◌∙◌, subst, Bool, true, some, List, [], ◌∷◌, ◌++◌,
  length, arith,
}
use kiro_rs_tool.Prelude.Text.{codes}
use kiro_rs_tool.Anthropic.Request.{Message, MessagesRequest}
use kiro_rs_tool.Anthropic.CacheMetering.{
  Inner, default_capacity, default_ttl_secs, clamp_ttl, record_segments, lookup,
}
use kiro_rs_tool.Anthropic.CacheMetering.Split.{not_negative}
use kiro_rs_tool.Anthropic.CacheMetering.Signature.{unwrap_or}
use kiro_rs_tool.Anthropic.CacheMetering.Seed.{isolation_seed}
use kiro_rs_tool.Anthropic.CacheMetering.Segments.{
  Segment, Crates, Chain, feed_request, extract_segments, is_some,
}
use kiro_rs_tool.Anthropic.CacheMetering.Plan.{
  hashes_of, tokens_of, deepest_hit, last_or, as_i32, plan_of, compute_cache_usage, commit_success,
}
use kiro_rs_tool.Anthropic.CacheMetering.Ordered.{Rises, chain-Rises}
use kiro_rs_tool.Anthropic.CacheMetering.Prefix.{mark, marks, Prefixes, feed_request-Prefixes}
use kiro_rs_tool.Anthropic.CacheMetering.Lasting.{IsLasting, feed_request-IsLasting}
use kiro_rs_tool.Anthropic.CacheMetering.Bounds.{
  hashes_of-marks, tokens_of-marks, length-marks, Rises-Climbs, Rises-All, as_i32_small, plan_read,
}
use kiro_rs_tool.Anthropic.CacheMetering.Written.{
  seconds, Climbs, AllLive, deepest_hit-All, record_segments-AllLive, deepest_hit-AllLive,
}

-- Segments of which the first are live: the deepest hit is at least as deep as the last of those.
chain_reads :
    (s : Segment) (ss rs : List Segment) (inner : Inner) (later high : ℕ)
    → Prefixes (marks (s ∷ ss)) (marks rs)
    → Rises 0 rs high
    → AllLive later (marks (s ∷ ss)) inner.entries
    → (t : ℕ) × (deepest_hit (lookup inner later (hashes_of rs) (tokens_of rs)).0 (tokens_of rs)
        ≡ some t)
      × (last_or 0 (tokens_of (s ∷ ss)) ≤ t)
unfolding lookup Prefixes
chain_reads s ss rs inner later high (more, e) r live =
    let climbs : Climbs 0 (seconds (marks (s ∷ ss) ++ more)) =
      subst (λ ms. Climbs 0 (seconds ms)) e (Rises-Climbs 0 high rs r) in
    let (t, deepest, deep) =
      deepest_hit-AllLive later 0 (mark s) (marks ss) more inner.entries live climbs in
    (
      t,
      rw (hashes_of-marks rs) (rw (tokens_of-marks rs) (rw e deepest)),
      rw (tokens_of-marks (s ∷ ss)) deep,
    )

clamped :
    (now later ttl : ℕ)
    → default_ttl_secs ≤ ttl
    → later < now + default_ttl_secs
    → later < now + clamp_ttl ttl
unfolding clamp_ttl
clamped now later ttl h e = omega arith

-- What a turn has written is live for five minutes.
written_live :
    (s : Segment) (ss : List Segment) (inner : Inner) (now later : ℕ)
    → default_ttl_secs ≤ s.ttl_secs
    → length (s ∷ ss) + length inner.entries ≤ default_capacity
    → later < now + default_ttl_secs
    → AllLive later
        (marks (s ∷ ss))
        (record_segments inner now (hashes_of (s ∷ ss)) (tokens_of (s ∷ ss)) s.ttl_secs).entries
written_live s ss inner now later lasts room early = rw (hashes_of-marks (s ∷ ss)) (
    rw (tokens_of-marks (s ∷ ss)) (
      record_segments-AllLive inner now later (marks (s ∷ ss)) s.ttl_secs
        (rw (length-marks (s ∷ ss)) room) (clamped now later s.ttl_secs lasts early)))

-- The segments of a turn that were written are read by a request whose chain begins with them.
plan_reads :
    (ss : List Segment) (rs : List Segment) (total total' : ℕ) (enabled : Bool)
    (inner0 inner : Inner) (t0 now later : ℕ)
    → Prefixes (marks ss) (marks rs)
    → Rises 0 rs total'
    → total' < 2 ^ 31
    → IsLasting ss
    → length ss + length inner.entries ≤ default_capacity
    → later < now + default_ttl_secs
    → let plan = (plan_of inner0 t0 ss total true).0 in
      let next = (plan_of (commit_success plan inner now) later rs total' enabled).0 in
      not_negative plan.usage.cache_covered_est ≤ not_negative next.usage.cache_read
unfolding plan_of commit_success
plan_reads [] rs total total' enabled inner0 inner t0 now later p r small l room early = omega arith
plan_reads (s ∷ ss) rs total total' enabled inner0 inner t0 now later p r small l room early =
    let written = record_segments inner now (hashes_of (s ∷ ss)) (tokens_of (s ∷ ss)) s.ttl_secs in
    let (t, deepest, deep) =
      chain_reads s ss rs written later total' p r
        (written_live s ss inner now later l.0 room early) in
    let high = deepest_hit-All (λ t. t ≤ total') t _ (tokens_of rs) (Rises-All 0 _ rs r) deepest in
    let covered = as_i32_small (last_or 0 (tokens_of (s ∷ ss))) (omega arith) in
    let read =
      plan_read written later rs total' enabled
      ∙ ap (λ o. as_i32 (unwrap_or 0 o)) deepest
      ∙ as_i32_small t (omega arith) in
    subst (λ z. not_negative (as_i32 (last_or 0 (tokens_of (s ∷ ss)))) ≤ not_negative z) (sym read)
      (subst (λ z. not_negative z ≤ t) (sym covered) deep)

seed_of :
    (req : MessagesRequest) (ms : List Message) (key_id : ℕ)
    → isolation_seed (record req { messages = ms }) key_id ≡ isolation_seed req key_id
unfolding isolation_seed
seed_of req ms key_id = refl

abbrev of_chain : Chain → List Segment × ℕ × Bool
of_chain c = (c.segments, c.prompt_total_tokens, true)

extract_known :
    {Picture : Type 0} (k : Crates Picture) (req : MessagesRequest) (ms : List Message) (key_id : ℕ)
    (seed : List ℕ)
    → isolation_seed req key_id ≡ some seed
    → extract_segments k (record req { messages = ms }) key_id
      ≡ of_chain (feed_request k true seed (record req { messages = ms }))
unfolding extract_segments
extract_known k req ms key_id seed known =
    ap
      (λ o.
        (let c =
            feed_request k (is_some o) (unwrap_or (codes "uncacheable:key:0") o)
              (record req { messages = ms }) in
          (c.segments, c.prompt_total_tokens, is_some o)))
      (seed_of req ms key_id ∙ known)

-- When a turn of a conversation has succeeded and was written to a cache with room for its segments,
-- the next turn within five minutes, which has the same tools, system text and session or client key
-- and goes on behind the messages of the first, reads at least the tokens that the first one
-- covered, given that its estimate is below 2 ^ 31.
pub next_turn_reads :
    {Picture : Type 0} (k : Crates Picture) (req : MessagesRequest) (before : List Message)
    (m next : Message) (after : List Message) (key_id : ℕ) (seed : List ℕ) (inner0 inner : Inner)
    (t0 now later : ℕ)
    → let first = record req { messages = before ++ m ∷ [] } in
      let second = record req { messages = before ++ m ∷ next ∷ after } in
      isolation_seed req key_id ≡ some seed
      → length (extract_segments k first key_id).0 + length inner.entries ≤ default_capacity
      → later < now + default_ttl_secs
      → (extract_segments k second key_id).1 < 2 ^ 31
      → let plan = (compute_cache_usage k inner0 t0 first key_id).0 in
        let next_plan =
          (compute_cache_usage k (commit_success plan inner now) later second key_id).0 in
        not_negative plan.usage.cache_covered_est ≤ not_negative next_plan.usage.cache_read
unfolding compute_cache_usage
next_turn_reads k req before m next after key_id seed inner0 inner t0 now later known room early
      small =
    subst (λ x. Reads x (extract_segments k second key_id))
      (sym (extract_known k req (before ++ m ∷ []) key_id seed known))
      (subst (λ y. Reads (of_chain first_chain) y)
        (sym (extract_known k req (before ++ m ∷ next ∷ after) key_id seed known))
        λ room' small'.
          plan_reads first_chain.segments second_chain.segments first_chain.prompt_total_tokens
            second_chain.prompt_total_tokens true inner0 inner t0 now later
            (feed_request-Prefixes k true seed req before m next after)
            (chain-Rises k true seed second) small' (feed_request-IsLasting k true seed first) room'
            early)
      room small
  where
    first : MessagesRequest
    first = record req { messages = before ++ m ∷ [] }

    second : MessagesRequest
    second = record req { messages = before ++ m ∷ next ∷ after }

    first_chain : Chain
    first_chain = feed_request k true seed first

    second_chain : Chain
    second_chain = feed_request k true seed second

    Reads : List Segment × ℕ × Bool → List Segment × ℕ × Bool → Type 0
    Reads x y =
        length x.0 + length inner.entries ≤ default_capacity
        → y.1 < 2 ^ 31
        → let plan = (plan_of inner0 t0 x.0 x.1 x.2).0 in
          let next_plan = (plan_of (commit_success plan inner now) later y.0 y.1 y.2).0 in
          not_negative plan.usage.cache_covered_est ≤ not_negative next_plan.usage.cache_read
