-- ===== src/Anthropic/CacheMetering/Segments.antt =====
-- src/anthropic/cache_metering.rs: `extract_segments`, the chain of the prefixes of a prompt. The hasher
-- is the text that it was fed, and a count of tokens stops at the greatest `u32`.
use kiro_rs_tool.Prelude.{
  ℕ, suc, ◌+◌, ◌-◌, ◌^◌, min, max, Bool, true, false, not, ◌&&◌, ◌||◌, Option, none, some, List, [],
  ◌∷◌, ◌++◌, ltb, ◌==◌, if◌then◌else◌, length, take, drop,
}
use kiro_rs_tool.Prelude.Text.{codes}
use kiro_rs_tool.Anthropic.Json.{Json, string, array, Items, no_items, item}
use kiro_rs_tool.Anthropic.Request.{Tool, SystemMessage, Message, MessagesRequest}
use kiro_rs_tool.Anthropic.Stream.Tokens.{estimate_tokens}
use kiro_rs_tool.Anthropic.CacheMetering.Signature.{
  get, is_empty, is_image, image_source_parts, tool_signature, tool_token_text,
  image_signature_value, block_signature_value, block_token_text, unwrap_or,
}
use kiro_rs_tool.Anthropic.CacheMetering.Seed.{isolation_seed, detect_max_ttl, or_none}
use kiro_rs_tool.ImageResize.Limits.{Codec, ResizeConfig, estimate_image_tokens}

pub record Segment : Type 0 where
  pub hash : ℕ
  pub cumulative_tokens : ℕ
  pub ttl_secs : ℕ

-- `serde_json::to_string`, the first 64 bits of a text's SHA-256, and what reads pictures.
pub record Crates (Picture : Type 0) : Type 0 where
  pub print_json : Json → List ℕ
  pub hash_prefix : List ℕ → ℕ
  pub codec : Codec Picture
  pub image_config : ResizeConfig

pub record Chain : Type 0 where
  pub hasher : List ℕ
  pub cache_tokens : ℕ
  pub prompt_total_tokens : ℕ
  pub segments : List Segment

-- `saturating_add` of two `u32`.
abbrev pub saturating_add : ℕ → ℕ → ℕ
saturating_add a b = min (a + b) (2 ^ 32 - 1)

unfoldable pub hash_text : Bool → List ℕ → Chain → Chain
hash_text enabled text c = if enabled then record c { hasher = c.hasher ++ text } else c

unfoldable pub count_tokens : Bool → ℕ → Chain → Chain
count_tokens enabled n c = record c {
  prompt_total_tokens = saturating_add c.prompt_total_tokens n;
  cache_tokens = if enabled then saturating_add c.cache_tokens n else c.cache_tokens;
}

unfoldable pub feed : Bool → List ℕ → List ℕ → Chain → Chain
unfolding hash_text count_tokens
feed enabled hashed counted c =
    let c' = hash_text enabled hashed c in
    if is_empty counted then c' else count_tokens enabled (estimate_tokens counted) c'

unfoldable pub push_segment : Segment → List Segment → List Segment
push_segment s [] = s ∷ []
push_segment s (last ∷ []) =
    if last.hash == s.hash && last.cumulative_tokens == s.cumulative_tokens
    then record last { ttl_secs = max last.ttl_secs s.ttl_secs } ∷ []
    else last ∷ s ∷ []
push_segment s (first ∷ second ∷ rest) = first ∷ push_segment s (second ∷ rest)

unfoldable pub uncached : SystemMessage → Bool
uncached s = elim s.cache_control [ none ↦ true | some cc ↦ false ]

-- `position(|s| s.cache_control.is_some())`
unfoldable pub first_cached : List SystemMessage → Option ℕ
unfolding uncached
first_cached [] = none
first_cached (s ∷ ss) =
    let later = first_cached ss in
    if uncached s then elim later [ none ↦ none | some i ↦ some (suc i) ] else some 0

unfoldable pub block_has_cache_control : Json → Bool
unfolding get
block_has_cache_control v = elim (get "cache_control" v) [ none ↦ false | some cc ↦ true ]

module _ {Picture : Type 0} (k : Crates Picture) (enabled : Bool) where
  unfoldable pub commit : ℕ → Chain → Chain
  unfolding push_segment
  commit ttl c = if not enabled || c.cache_tokens == 0 then c else record c {
    segments =
        push_segment
          (record {
            hash = k.hash_prefix c.hasher;
            cumulative_tokens = c.cache_tokens;
            ttl_secs = ttl;
          })
          c.segments;
  }

  unfoldable pub feed_tools : List Tool → Chain → Chain
  unfolding feed tool_signature tool_token_text
  feed_tools [] c = c
  feed_tools (t ∷ ts) c =
      feed_tools ts
        (feed enabled (tool_signature k.print_json t) (tool_token_text k.print_json t) c)

  -- The system blocks before the first that asks for the cache are counted, but not hashed.
  unfoldable pub skip_systems : List SystemMessage → Chain → Chain
  unfolding feed
  skip_systems [] c = c
  skip_systems (s ∷ ss) c = skip_systems ss (feed false [] s.text c)

  unfoldable pub feed_systems : List SystemMessage → Chain → Chain
  unfolding feed
  feed_systems [] c = c
  feed_systems (s ∷ ss) c = feed_systems ss (feed enabled (codes "sys:" ++ s.text) s.text c)

  unfoldable pub feed_system : List SystemMessage → Chain → Chain
  unfolding first_cached skip_systems feed_systems
  feed_system systems c =
      let skip_until = unwrap_or 0 (first_cached systems) in
      feed_systems (drop skip_until systems) (skip_systems (take skip_until systems) c)

  unfoldable pub feed_block : Json → Chain → Chain
  unfolding feed hash_text count_tokens image_source_parts
  feed_block v c =
      if is_image v
      then count_tokens enabled
          (estimate_image_tokens k.codec k.image_config (image_source_parts v).0
            (image_source_parts v).1)
          (hash_text enabled (image_signature_value k.print_json v) c)
      else feed enabled (block_signature_value k.print_json v) (block_token_text k.print_json v) c

  unfoldable pub feed_blocks : ℕ → Items → Chain → Chain
  unfolding feed_block commit block_has_cache_control
  feed_blocks ttl no_items c = c
  feed_blocks ttl (item v vs) c =
      let fed = feed_block v c in
      feed_blocks ttl vs (if block_has_cache_control v then commit ttl fed else fed)

  unfoldable pub feed_content : ℕ → Json → Chain → Chain
  unfolding feed feed_blocks
  feed_content ttl (string s) c = feed enabled s s c
  feed_content ttl (array vs) c = feed_blocks ttl vs c
  feed_content ttl _ c = c

  unfoldable pub feed_message : ℕ → Message → Chain → Chain
  unfolding feed feed_content
  feed_message ttl m c = feed_content ttl m.content (feed enabled m.role [] c)

  unfoldable pub feed_messages : ℕ → ℕ → ℕ → List Message → Chain → Chain
  unfolding feed_message commit
  feed_messages ttl last_idx idx [] c = c
  feed_messages ttl last_idx idx (m ∷ ms) c =
      let fed = feed_message ttl m c in
      feed_messages ttl last_idx (idx + 1) ms (if idx == last_idx then fed else commit ttl fed)

  -- The tools and the system text, which are the first segment.
  unfoldable pub feed_base : ℕ → MessagesRequest → Chain → Chain
  unfolding feed_tools feed_system commit
  feed_base ttl req c =
      let fed = feed_system (or_none req.system) (feed_tools (or_none req.tools) c) in
      if ltb 0 fed.cache_tokens then commit ttl fed else fed

  unfoldable pub feed_request : List ℕ → MessagesRequest → Chain
  unfolding feed_base feed_messages detect_max_ttl
  feed_request seed req =
      let ttl = detect_max_ttl req in
      feed_messages ttl (length req.messages - 1) 0 req.messages (
        feed_base ttl req
          (record { hasher = seed; cache_tokens = 0; prompt_total_tokens = 0; segments = [] }))

abbrev pub is_some {ℓ} : {A : Type ℓ} → Option A → Bool
is_some none = false
is_some (some a) = true

-- The segments, the estimate for the whole prompt, and whether it may use the cache.
unfoldable pub extract_segments :
    {Picture : Type 0} → Crates Picture → MessagesRequest → ℕ → List Segment × ℕ × Bool
unfolding feed_request isolation_seed
extract_segments k req key_id =
    let seed = isolation_seed req key_id in
    let enabled = is_some seed in
    let c = feed_request k enabled (unwrap_or (codes "uncacheable:key:0") seed) req in
    (c.segments, c.prompt_total_tokens, enabled)
