-- ===== src/Anthropic/CacheMetering/Split.antt =====
-- src/anthropic/cache_metering.rs: the split of the tokens of a prompt into those read from the cache,
-- those written to it and the rest.
use kiro_rs_tool.Prelude.{ℕ, zero, suc, ◌+◌, ◌-◌, ◌≡◌, min, arith}
use kiro_rs_tool.Prelude.Int.{ℤ, pos, negsuc}

-- The coverage of a prompt by the cache, in estimated tokens, each an `i32`.
pub record CacheUsage : Type 0 where
  pub cache_read : ℤ
  pub cache_covered_est : ℤ
  pub prompt_total_est : ℤ

-- Two expressions on `f64`. `covered_part total covered prompt` is
-- `((total as f64) * (covered as f64 / prompt as f64).clamp(0.0, 1.0)).round() as i32`, a number of
-- zero or more, and `read_part cache_total read covered` is
-- `((cache_total as f64) * (read as f64 / covered as f64)).round() as i32`.
pub record Shares : Type 0 where
  pub covered_part : ℕ → ℕ → ℕ → ℕ
  pub read_part : ℕ → ℤ → ℕ → ℤ

-- `max(0)`
abbrev pub not_negative : ℤ → ℕ
not_negative (pos n) = n
not_negative (negsuc n) = 0

module _ (s : Shares) where
  unfoldable pub split_covered : ℕ → ℤ → ℤ → ℤ → ℕ × ℕ × ℕ
  split_covered total read (pos (suc covered)) (pos (suc prompt)) =
      let cache_total = min (s.covered_part total (suc covered) (suc prompt)) total in
      let hits = min (not_negative (s.read_part cache_total read (suc covered))) cache_total in
      (total - cache_total, cache_total - hits, hits)
  split_covered total read _ _ = (total, 0, 0)

  unfoldable pub split_against_total : CacheUsage → ℤ → ℕ × ℕ × ℕ
  unfolding split_covered
  split_against_total u total_real =
      split_covered (not_negative total_real) u.cache_read u.cache_covered_est u.prompt_total_est

  split_covered_sum :
      (total : ℕ) (read covered prompt : ℤ)
      → let (input, creation, hits) = split_covered total read covered prompt in
        input + creation + hits ≡ total
  unfolding split_covered
  split_covered_sum total read (pos (suc covered)) (pos (suc prompt)) = omega arith
  split_covered_sum total read (pos zero) prompt = omega arith
  split_covered_sum total read (negsuc covered) prompt = omega arith
  split_covered_sum total read (pos (suc covered)) (pos zero) = omega arith
  split_covered_sum total read (pos (suc covered)) (negsuc prompt) = omega arith

  -- However the shares are rounded, the tokens that are input, written to the cache and read from it
  -- add up to the total, or to zero for a negative total.
  pub split_against_total_sum :
      (u : CacheUsage) (total : ℤ)
      → let (input, creation, read) = split_against_total u total in
        input + creation + read ≡ not_negative total
  unfolding split_against_total
  split_against_total_sum u total =
      split_covered_sum (not_negative total) u.cache_read u.cache_covered_est u.prompt_total_est
