-- ===== src/Anthropic/CacheMetering/Seed.antt =====
-- src/anthropic/cache_metering.rs: the session that a prompt belongs to, and how long its prefixes are
-- kept.
use kiro_rs_tool.Prelude.{
  ℕ, max, Option, none, some, List, [], ◌∷◌, ◌++◌, ◌==◌, map, drop, length, if◌then◌else◌,
}
use kiro_rs_tool.Prelude.Map.{bytes_eq}
use kiro_rs_tool.Prelude.Text.{codes, decimal}
use kiro_rs_tool.Prelude.Chars.{find_text, trim}
use kiro_rs_tool.Prelude.Search.{to_ascii_lower}
use kiro_rs_tool.Anthropic.Json.{Json, array, Items, no_items, item}
use kiro_rs_tool.Anthropic.Request.{
  CacheControl, Tool, SystemMessage, Message, Metadata, MessagesRequest,
}
use kiro_rs_tool.Anthropic.CacheMetering.{default_ttl_secs}
use kiro_rs_tool.Anthropic.CacheMetering.Signature.{get, as_str, nested}

unfoldable pub parse_ttl : Option (List ℕ) → ℕ
parse_ttl none = default_ttl_secs
parse_ttl (some s) =
    let lower = map to_ascii_lower s in
    if bytes_eq.beq lower (codes "1h")
    then 3600
    else if bytes_eq.beq lower (codes "5m")
    then 300
    else default_ttl_secs

-- `filter(|s| !s.is_empty())`
unfoldable pub not_empty : List ℕ → Option (List ℕ)
not_empty [] = none
not_empty (c ∷ cs) = some (c ∷ cs)

unfoldable pub extract_session_id : List ℕ → Option (List ℕ)
unfolding not_empty
extract_session_id user_id = elim (find_text (codes "_session_") user_id) [
  | none ↦ none
  | some (before, rest) ↦ not_empty (trim (drop (length (codes "_session_")) rest))
]

unfoldable pub session_of : Option Metadata → Option (List ℕ)
unfolding extract_session_id
session_of none = none
session_of (some m) = elim m.user_id [ none ↦ none | some id ↦ extract_session_id id ]

unfoldable pub isolation_seed : MessagesRequest → ℕ → Option (List ℕ)
unfolding session_of
isolation_seed req key_id = elim (session_of req.metadata) [
  | some session ↦ some (codes "sess:" ++ session)
  | none ↦ if key_id == 0 then none else some (codes "key:" ++ codes (decimal key_id))
]

unfoldable pub bump : Option CacheControl → ℕ → ℕ
unfolding parse_ttl
bump none ttl = ttl
bump (some cc) ttl = max ttl (parse_ttl cc.ttl)

unfoldable pub bump_tools : List Tool → ℕ → ℕ
unfolding bump
bump_tools [] ttl = ttl
bump_tools (t ∷ ts) ttl = bump_tools ts (bump t.cache_control ttl)

unfoldable pub bump_systems : List SystemMessage → ℕ → ℕ
unfolding bump
bump_systems [] ttl = ttl
bump_systems (s ∷ ss) ttl = bump_systems ss (bump s.cache_control ttl)

unfoldable pub bump_asked : Option (List ℕ) → ℕ → ℕ
unfolding parse_ttl
bump_asked none ttl = ttl
bump_asked (some t) ttl = max ttl (parse_ttl (some t))

unfoldable pub bump_blocks : Items → ℕ → ℕ
unfolding get as_str nested bump_asked
bump_blocks no_items ttl = ttl
bump_blocks (item v vs) ttl =
    bump_blocks vs (bump_asked (as_str (nested (get "cache_control" v) "ttl")) ttl)

unfoldable pub bump_content : Json → ℕ → ℕ
unfolding bump_blocks
bump_content (array vs) ttl = bump_blocks vs ttl
bump_content _ ttl = ttl

unfoldable pub bump_messages : List Message → ℕ → ℕ
unfolding bump_content
bump_messages [] ttl = ttl
bump_messages (m ∷ ms) ttl = bump_messages ms (bump_content m.content ttl)

abbrev pub or_none {ℓ} : {A : Type ℓ} → Option (List A) → List A
or_none none = []
or_none (some xs) = xs

unfoldable pub detect_max_ttl : MessagesRequest → ℕ
unfolding bump_tools bump_systems bump_messages
detect_max_ttl req =
    bump_messages req.messages
      (bump_systems (or_none req.system) (bump_tools (or_none req.tools) default_ttl_secs))
