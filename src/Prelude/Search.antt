-- ===== src/Prelude/Search.antt =====
-- `Iterator::min_by_key` and the ASCII part of `str::contains` and of the case functions.
pub mod Least
use kiro_rs_tool.Prelude.{
  ℕ, ◌+◌, ◌-◌, ◌≡◌, Bool, true, false, ◌&&◌, ◌||◌, Option, none, some, List, [], ◌∷◌, map, ltb, leb,
  ◌==◌, if◌then◌else◌, refl, String,
}
use kiro_rs_tool.Prelude.Text.{codes}

module _ {ℓ} {A : Type ℓ} (less : A → A → Bool) where
  abbrev pub min_from : A → List A → A
  min_from best [] = best
  min_from best (x ∷ xs) = min_from (if less x best then x else best) xs

  -- Of several least items the first.
  abbrev pub min_by : List A → Option A
  min_by [] = none
  min_by (x ∷ xs) = some (min_from x xs)

unfoldable pub is_prefix : List ℕ → List ℕ → Bool
is_prefix [] text = true
is_prefix (c ∷ cs) [] = false
is_prefix (c ∷ cs) (d ∷ text) = c == d && is_prefix cs text

unfoldable pub contains : List ℕ → List ℕ → Bool
unfolding is_prefix
contains [] part = is_prefix part []
contains (c ∷ text) part = is_prefix part (c ∷ text) || contains text part

to_ascii_upper : ℕ → ℕ
to_ascii_upper c = if leb b'a' c && leb c b'z' then c - 32 else c

unfoldable pub to_ascii_lower : ℕ → ℕ
to_ascii_lower c = if leb b'A' c && leb c b'Z' then c + 32 else c

-- `text.to_uppercase().contains(part)`, for ASCII text.
unfoldable pub upper_contains : String → String → Bool
unfolding to_ascii_upper contains
upper_contains text part = contains (map to_ascii_upper (codes text)) (codes part)

-- `text.to_lowercase().contains(part)`, for ASCII text.
unfoldable pub lower_contains : String → String → Bool
unfolding to_ascii_lower contains
lower_contains text part = contains (map to_ascii_lower (codes text)) (codes part)

opus_test : lower_contains "claude-Opus-4" "opus" ≡ true
unfolding lower_contains
opus_test = refl
