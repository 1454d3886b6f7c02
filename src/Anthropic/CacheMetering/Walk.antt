-- ===== src/Anthropic/CacheMetering/Walk.antt =====
-- src/anthropic/cache_metering.rs: two walks over a request, with two times to live. A relation that the
-- three ways to change a chain keep is kept by the walks.
use kiro_rs_tool.Prelude.{
  ℕ, ◌+◌, ◌≡◌, arith, Bool, true, false, List, [], ◌∷◌, ◌==◌, ltb, if◌then◌else◌, take, drop,
}
use kiro_rs_tool.Anthropic.Json.{
  Json, null, bool, number, negative, float, object, string, array, Items, no_items, item,
}
use kiro_rs_tool.Anthropic.Request.{Tool, SystemMessage, Message, MessagesRequest}
use kiro_rs_tool.Anthropic.Stream.Tokens.{estimate_tokens}
use kiro_rs_tool.Anthropic.CacheMetering.Seed.{or_none}
use kiro_rs_tool.Anthropic.CacheMetering.Signature.{
  is_empty, unwrap_or, is_image, image_signature_value,
}
use kiro_rs_tool.Anthropic.CacheMetering.Segments.{
  Crates, Chain, hash_text, count_tokens, feed, first_cached, block_has_cache_control, commit,
  feed_tools, skip_systems, feed_systems, feed_system, feed_block, feed_blocks, feed_content,
  feed_message, feed_messages, feed_base,
}

pub if_keeps {ℓ κ} :
    {A : Type ℓ} (R : A → A → Type κ) (b : Bool) (x y u v : A)
    → R x u
    → R y v
    → R (if b then x else y) (if b then u else v)
if_keeps R true x y u v p q = p
if_keeps R false x y u v p q = q

-- A chain without tokens is not committed in either way.
feed_base_commits :
    {Picture : Type 0} (k : Crates Picture) (e : Bool) (t : ℕ) (req : MessagesRequest) (c : Chain)
    → feed_base k e t req c
      ≡ commit k e t (feed_system k e (or_none req.system) (feed_tools k e (or_none req.tools) c))
unfolding feed_base commit
feed_base_commits k e t req c =
    commits (feed_system k e (or_none req.system) (feed_tools k e (or_none req.tools) c))
  where
    commits : (d : Chain) → (if ltb 0 d.cache_tokens then commit k e t d else d) ≡ commit k e t d
    commits d = ground arith

module _ {Picture : Type 0} (k : Crates Picture) (e : Bool) (s t : ℕ) (R : Chain → Chain → Type 0)
    (hash_keeps : (b : Bool) (x : List ℕ) (c d : Chain)
      → R c d
      → R (hash_text b x c) (hash_text b x d))
    (count_keeps : (b : Bool) (n : ℕ) (c d : Chain)
      → R c d
      → R (count_tokens b n c) (count_tokens b n d))
    (commit_keeps : (c d : Chain) → R c d → R (commit k e s c) (commit k e t d)) where
  feed_keeps : (b : Bool) (x y : List ℕ) (c d : Chain) → R c d → R (feed b x y c) (feed b x y d)
  unfolding feed
  feed_keeps b x y c d r =
      let hashed = hash_keeps b x c d r in
      if_keeps R (is_empty y) _ _ _ _ hashed (count_keeps b (estimate_tokens y) _ _ hashed)

  feed_tools_keeps :
      (ts : List Tool) (c d : Chain) → R c d → R (feed_tools k e ts c) (feed_tools k e ts d)
  unfolding feed_tools
  feed_tools_keeps [] c d r = r
  feed_tools_keeps (x ∷ ts) c d r = feed_tools_keeps ts _ _ (feed_keeps e _ _ c d r)

  skip_systems_keeps :
      (ss : List SystemMessage) (c d : Chain)
      → R c d
      → R (skip_systems k e ss c) (skip_systems k e ss d)
  unfolding skip_systems
  skip_systems_keeps [] c d r = r
  skip_systems_keeps (x ∷ ss) c d r = skip_systems_keeps ss _ _ (feed_keeps false [] x.text c d r)

  feed_systems_keeps :
      (ss : List SystemMessage) (c d : Chain)
      → R c d
      → R (feed_systems k e ss c) (feed_systems k e ss d)
  unfolding feed_systems
  feed_systems_keeps [] c d r = r
  feed_systems_keeps (x ∷ ss) c d r = feed_systems_keeps ss _ _ (feed_keeps e _ x.text c d r)

  feed_system_keeps :
      (ss : List SystemMessage) (c d : Chain)
      → R c d
      → R (feed_system k e ss c) (feed_system k e ss d)
  unfolding feed_system
  feed_system_keeps ss c d r =
      let skip_until = unwrap_or 0 (first_cached ss) in
      feed_systems_keeps (drop skip_until ss) _ _ (skip_systems_keeps (take skip_until ss) c d r)

  feed_block_keeps : (v : Json) (c d : Chain) → R c d → R (feed_block k e v c) (feed_block k e v d)
  unfolding feed_block
  feed_block_keeps v c d r =
      if_keeps R (is_image v) _ _ _ _
        (count_keeps e _ _ _ (hash_keeps e (image_signature_value k.print_json v) c d r))
        (feed_keeps e _ _ c d r)

  feed_blocks_keeps :
      (vs : Items) (c d : Chain) → R c d → R (feed_blocks k e s vs c) (feed_blocks k e t vs d)
  unfolding feed_blocks
  feed_blocks_keeps no_items c d r = r
  feed_blocks_keeps (item v vs) c d r =
      let fed = feed_block_keeps v c d r in
      feed_blocks_keeps vs _ _
        (if_keeps R (block_has_cache_control v) _ _ _ _ (commit_keeps _ _ fed) fed)

  feed_content_keeps :
      (v : Json) (c d : Chain) → R c d → R (feed_content k e s v c) (feed_content k e t v d)
  unfolding feed_content
  feed_content_keeps (string x) c d r = feed_keeps e x x c d r
  feed_content_keeps (array vs) c d r = feed_blocks_keeps vs c d r
  feed_content_keeps null c d r = r
  feed_content_keeps (bool b) c d r = r
  feed_content_keeps (number n) c d r = r
  feed_content_keeps (negative n) c d r = r
  feed_content_keeps (float bits) c d r = r
  feed_content_keeps (object fs) c d r = r

  pub feed_message_keeps :
      (m : Message) (c d : Chain) → R c d → R (feed_message k e s m c) (feed_message k e t m d)
  unfolding feed_message
  feed_message_keeps m c d r = feed_content_keeps m.content _ _ (feed_keeps e m.role [] c d r)

  pub feed_messages_keeps :
      (last_idx idx : ℕ) (ms : List Message) (c d : Chain)
      → R c d
      → R (feed_messages k e s last_idx idx ms c) (feed_messages k e t last_idx idx ms d)
  unfolding feed_messages
  feed_messages_keeps last_idx idx [] c d r = r
  feed_messages_keeps last_idx idx (m ∷ ms) c d r =
      let fed = feed_message_keeps m c d r in
      feed_messages_keeps last_idx (idx + 1) ms _ _
        (if_keeps R (idx == last_idx) _ _ _ _ fed (commit_keeps _ _ fed))

  pub feed_base_keeps :
      (req : MessagesRequest) (c d : Chain)
      → R c d
      → R (feed_base k e s req c) (feed_base k e t req d)
  feed_base_keeps req c d r = rw (feed_base_commits k e s req c) (
      rw (feed_base_commits k e t req d) (
        commit_keeps _ _ (
          feed_system_keeps (or_none req.system) _ _ (feed_tools_keeps (or_none req.tools) c d r))))
