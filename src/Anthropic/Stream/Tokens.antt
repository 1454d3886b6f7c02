-- ===== src/Anthropic/Stream/Tokens.antt =====
-- src/anthropic/stream.rs: the estimate of how many tokens a text has. An `i32` is its 32 bits; sums and
-- products wrap, as they do where overflow is not checked.
use kiro_rs_tool.Prelude.{
  ℕ, suc, ◌+◌, ◌-◌, ◌*◌, ◌/◌, ◌%◌, ◌^◌, ◌≤◌, ◌<◌, ◌≡◌, refl, ◌⊎◌, inl, inr, Bool, true, false, not,
  ◌&&◌, List, [], ◌∷◌, leb, ltb, max, length, if◌then◌else◌, arith, Bool-cases,
}

unfoldable pub is_chinese : ℕ → Bool
is_chinese c = leb 19968 c && leb c 40959

unfoldable pub count_chars : (ℕ → Bool) → List ℕ → ℕ
count_chars test [] = 0
count_chars test (c ∷ text) = let rest = count_chars test text in if test c then suc rest else rest

abbrev wrap_i32 : ℕ → ℕ
wrap_i32 n = n % 2 ^ 32

-- A quotient is rounded towards zero.
unfoldable pub div_i32 : ℕ → ℕ → ℕ
div_i32 n d = if ltb n (2 ^ 31) then n / d else wrap_i32 (2 ^ 32 - (2 ^ 32 - n) / d)

-- `max(1)`
unfoldable pub at_least_one : ℕ → ℕ
at_least_one n = if ltb n (2 ^ 31) then max n 1 else 1

unfoldable pub estimate_tokens : List ℕ → ℕ
unfolding is_chinese count_chars div_i32 at_least_one
estimate_tokens text =
    let chinese_count = wrap_i32 (count_chars is_chinese text) in
    let other_count = wrap_i32 (count_chars (λ c. not (is_chinese c)) text) in
    at_least_one (
      wrap_i32
        (div_i32 (wrap_i32 (chinese_count * 2 + 2)) 3 + div_i32 (wrap_i32 (other_count + 3)) 4))

-- A text with how many of its characters are between U+4E00 and U+9FFF, and how many are not.
pub data Counted : List ℕ → ℕ → ℕ → Type 0 where
  empty : Counted [] 0 0
  chinese :
      (c : ℕ) (text : List ℕ) (a b : ℕ)
      → 19968 ≤ c
      → c ≤ 40959
      → Counted text a b
      → Counted (c ∷ text) (suc a) b
  other :
      (c : ℕ) (text : List ℕ) (a b : ℕ)
      → (c < 19968) ⊎ (40959 < c)
      → Counted text a b
      → Counted (c ∷ text) a (suc b)

abbrev chinese_of : List ℕ → ℕ
chinese_of = count_chars is_chinese

abbrev others_of : List ℕ → ℕ
others_of = count_chars (λ c. not (is_chinese c))

is_chinese-range : (c : ℕ) → is_chinese c ≡ true → (19968 ≤ c) × (c ≤ 40959)
unfolding is_chinese
is_chinese-range c h = ground (arith, h)

not_chinese-range : (c : ℕ) → is_chinese c ≡ false → (c < 19968) ⊎ (40959 < c)
unfolding is_chinese
not_chinese-range c h = ground (arith, h)

counted : (text : List ℕ) → Counted text (chinese_of text) (others_of text)
unfolding count_chars
counted [] = empty
counted (c ∷ text) = elim (Bool-cases (is_chinese c)) [
  | inl within ↦
      let (low, high) = is_chinese-range c within in
      rw within (chinese c text (chinese_of text) (others_of text) low high (counted text))
  | inr outside ↦
      rw outside (
        other c text (chinese_of text) (others_of text) (not_chinese-range c outside)
          (counted text))
]

counts : (text : List ℕ) → chinese_of text + others_of text ≡ length text
unfolding count_chars
counts [] = refl
counts (c ∷ text) = ground (arith, counts text)

-- Within this bound nothing wraps.
unwrapped :
    (a b : ℕ)
    → a + b + 1 < 2 ^ 30
    → at_least_one (
        wrap_i32
          (div_i32 (wrap_i32 (wrap_i32 a * 2 + 2)) 3 + div_i32 (wrap_i32 (wrap_i32 b + 3)) 4))
      ≡ max ((a * 2 + 2) / 3 + (b + 3) / 4) 1
unfolding div_i32 at_least_one
unwrapped a b h =
    let chinese : wrap_i32 (wrap_i32 a * 2 + 2) ≡ a * 2 + 2 = omega arith in
    let others : wrap_i32 (wrap_i32 b + 3) ≡ b + 3 = omega arith in
    let low : ltb (a * 2 + 2) (2 ^ 31) ≡ true = ground arith in
    let low' : ltb (b + 3) (2 ^ 31) ≡ true = ground arith in
    let sum = (a * 2 + 2) / 3 + (b + 3) / 4 in
    let whole : wrap_i32 sum ≡ sum = omega arith in
    let low'' : ltb sum (2 ^ 31) ≡ true = ground arith in
    rw (chinese, others, low, low', whole, low'') refl

-- For a text of fewer than 2 ^ 30 - 1 characters, `a` of them between U+4E00 and U+9FFF and `b` not,
-- the estimate is at least one token. It is no less than two thirds of `a` and a quarter of `b`
-- together, and no more than that and 17 twelfths: no sum wraps.
pub estimate_tokens_bounds :
    (text : List ℕ)
    → length text + 1 < 2 ^ 30
    → (a : ℕ) × (b : ℕ) × Counted text a b
      × (1 ≤ estimate_tokens text)
      × (8 * a + 3 * b ≤ 12 * estimate_tokens text)
      × (12 * estimate_tokens text ≤ 8 * a + 3 * b + 17)
unfolding estimate_tokens
estimate_tokens_bounds text small =
    let total : chinese_of text + others_of text ≡ length text = counts text in
    let same = unwrapped (chinese_of text) (others_of text) (omega arith) in
    (
      chinese_of text,
      others_of text,
      counted text,
      omega (arith, same),
      omega (arith, same),
      omega (arith, same),
    )
