-- ===== src/Anthropic/CacheMetering/Lasting.antt =====
-- src/anthropic/cache_metering.rs: every segment of a request is to be kept for five minutes at least.
use kiro_rs_tool.Prelude.{
  ℕ, ◌-◌, ◌≤◌, Bool, true, false, not, ◌||◌, ◌==◌, Option, none, some, List, [], ◌∷◌, length, arith,
  All,
}
use kiro_rs_tool.Anthropic.Json.{
  Json, null, bool, number, negative, float, object, string, array, Items, no_items, item,
}
use kiro_rs_tool.Anthropic.Request.{CacheControl, Tool, SystemMessage, Message, MessagesRequest}
use kiro_rs_tool.Anthropic.CacheMetering.{default_ttl_secs}
use kiro_rs_tool.Anthropic.CacheMetering.Signature.{get, as_str, nested}
use kiro_rs_tool.Anthropic.CacheMetering.Seed.{
  bump_asked, bump, bump_tools, bump_systems, bump_blocks, bump_content, bump_messages, or_none,
  detect_max_ttl,
}
use kiro_rs_tool.Anthropic.CacheMetering.Walk.{if_keeps, feed_messages_keeps, feed_base_keeps}
use kiro_rs_tool.Anthropic.CacheMetering.Segments.{
  Segment, Crates, Chain, hash_text, count_tokens, push_segment, commit, feed_request,
}

bump_le : (cc : Option CacheControl) (ttl : ℕ) → ttl ≤ bump cc ttl
unfolding bump
bump_le none ttl = omega arith
bump_le (some cc) ttl = omega arith

bump_tools_le : (ts : List Tool) (ttl : ℕ) → ttl ≤ bump_tools ts ttl
unfolding bump_tools
bump_tools_le [] ttl = omega arith
bump_tools_le (t ∷ ts) ttl =
    omega (arith, bump_le t.cache_control ttl, bump_tools_le ts (bump t.cache_control ttl))

bump_systems_le : (ss : List SystemMessage) (ttl : ℕ) → ttl ≤ bump_systems ss ttl
unfolding bump_systems
bump_systems_le [] ttl = omega arith
bump_systems_le (s ∷ ss) ttl =
    omega (arith, bump_le s.cache_control ttl, bump_systems_le ss (bump s.cache_control ttl))

bump_asked_le : (o : Option (List ℕ)) (ttl : ℕ) → ttl ≤ bump_asked o ttl
unfolding bump_asked
bump_asked_le none ttl = omega arith
bump_asked_le (some t) ttl = omega arith

bump_blocks_le : (vs : Items) (ttl : ℕ) → ttl ≤ bump_blocks vs ttl
unfolding bump_blocks
bump_blocks_le no_items ttl = omega arith
bump_blocks_le (item v vs) ttl =
    let o = as_str (nested (get "cache_control" v) "ttl") in
    omega (arith, bump_asked_le o ttl, bump_blocks_le vs (bump_asked o ttl))

bump_content_le : (v : Json) (ttl : ℕ) → ttl ≤ bump_content v ttl
unfolding bump_content
bump_content_le (array vs) ttl = bump_blocks_le vs ttl
bump_content_le null ttl = omega arith
bump_content_le (bool b) ttl = omega arith
bump_content_le (number n) ttl = omega arith
bump_content_le (negative n) ttl = omega arith
bump_content_le (float bits) ttl = omega arith
bump_content_le (string s) ttl = omega arith
bump_content_le (object fs) ttl = omega arith

bump_messages_le : (ms : List Message) (ttl : ℕ) → ttl ≤ bump_messages ms ttl
unfolding bump_messages
bump_messages_le [] ttl = omega arith
bump_messages_le (m ∷ ms) ttl =
    omega (arith, bump_content_le m.content ttl, bump_messages_le ms (bump_content m.content ttl))

detect_max_ttl_least : (req : MessagesRequest) → default_ttl_secs ≤ detect_max_ttl req
unfolding detect_max_ttl
detect_max_ttl_least req =
    let tools = bump_tools (or_none req.tools) default_ttl_secs in
    let systems = bump_systems (or_none req.system) tools in
    omega (
      arith,
      bump_tools_le (or_none req.tools) default_ttl_secs,
      bump_systems_le (or_none req.system) tools,
      bump_messages_le req.messages systems,
    )

abbrev pub IsLasting : List Segment → Type 0
IsLasting = All (λ s. default_ttl_secs ≤ s.ttl_secs)

push_segment-IsLasting :
    (s : Segment) (ss : List Segment)
    → default_ttl_secs ≤ s.ttl_secs
    → IsLasting ss
    → IsLasting (push_segment s ss)
unfolding push_segment
push_segment-IsLasting s [] h l = (h, tt)
push_segment-IsLasting s (t ∷ []) h l = ground arith
push_segment-IsLasting s (t ∷ u ∷ ss) h l = (l.0, push_segment-IsLasting s (u ∷ ss) h l.1)

-- A property of the segments alone.
OfSegments : Chain → Chain → Type 0
OfSegments c d = IsLasting c.segments

hash_text-keeps :
    (b : Bool) (t : List ℕ) (c d : Chain)
    → OfSegments c d
    → OfSegments (hash_text b t c) (hash_text b t d)
unfolding hash_text OfSegments
hash_text-keeps true t c d l = l
hash_text-keeps false t c d l = l

count_tokens-keeps :
    (b : Bool) (n : ℕ) (c d : Chain)
    → OfSegments c d
    → OfSegments (count_tokens b n c) (count_tokens b n d)
unfolding count_tokens OfSegments
count_tokens-keeps b n c d l = l

module _ {Picture : Type 0} (k : Crates Picture) (e : Bool) where
  commit-keeps :
      (ttl : ℕ)
      → default_ttl_secs ≤ ttl
      → (c d : Chain) → OfSegments c d
      → OfSegments (commit k e ttl c) (commit k e ttl d)
  unfolding commit OfSegments
  commit-keeps ttl h c d l =
      if_keeps (λ x _. IsLasting x.segments) (not e || c.cache_tokens == 0) c _ d d l
        (push_segment-IsLasting _ c.segments h l)

  pub feed_request-IsLasting :
      (seed : List ℕ) (req : MessagesRequest) → IsLasting (feed_request k e seed req).segments
  unfolding feed_request OfSegments
  feed_request-IsLasting seed req =
      let start : Chain = record {
        hasher = seed;
        cache_tokens = 0;
        prompt_total_tokens = 0;
        segments = [];
      } in
      let ttl = detect_max_ttl req in
      let least = commit-keeps ttl (detect_max_ttl_least req) in
      feed_messages_keeps k e ttl ttl OfSegments hash_text-keeps count_tokens-keeps least
        (length req.messages - 1) 0 req.messages _ start
        (feed_base_keeps k e ttl ttl OfSegments hash_text-keeps count_tokens-keeps least req start
          start tt)
