-- ===== src/Anthropic/Stream/Platform.antt =====
-- src/anthropic/stream.rs: what the stream takes from elsewhere, as functions. A floating point number
-- is kept as its 64 bits.
use kiro_rs_tool.Prelude.{ℕ, Bool, List, ◌⊎◌}
use kiro_rs_tool.Anthropic.CacheMetering.Split.{Shares}
use kiro_rs_tool.Anthropic.Json.{Json}

pub record Platform : Type 0 where
  -- `serde_json::from_str`, with the text of its error, and `to_string`.
  pub parse_json : List ℕ → Json ⊎ List ℕ
  pub print_json : Json → List ℕ
  -- Arithmetic on `f64`: a sum, the share of a context window that a percentage stands for, and
  -- whether a percentage has reached 100.
  pub add_float : ℕ → ℕ → ℕ
  pub context_tokens : ℕ → ℕ → ℕ
  pub is_full : ℕ → Bool
  -- The shares of the prompt cache.
  pub shares : Shares
