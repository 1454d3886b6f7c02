-- ===== src/Anthropic/Stream/Thinking.antt =====
-- src/anthropic/stream.rs: where a `<thinking>` block starts and ends in a text. A position is given
-- by the text before it and the text behind the tag.
use kiro_rs_tool.Prelude.{
  ℕ, ◌-◌, ◌≡◌, refl, Bool, true, false, not, ◌&&◌, ◌||◌, Option, none, some, List, [], ◌∷◌, ◌++◌,
  any, leb, ◌==◌, if◌then◌else◌, length, drop,
}
use kiro_rs_tool.Prelude.Text.{codes}
use kiro_rs_tool.Prelude.Search.{is_prefix}
use kiro_rs_tool.Prelude.Chars.{is_blank, trim_start, len_utf8}

abbrev pub start_tag : List ℕ
start_tag = codes "<thinking>"

abbrev pub end_tag : List ℕ
end_tag = codes "</thinking>"

abbrev pub quote_chars : List ℕ
quote_chars = codes "`\"'\\#!@$%^&*()-_=+[]{};:<>,.?/"

unfoldable pub is_quote_char : Option ℕ → Bool
is_quote_char none = false
is_quote_char (some c) = any (λ q. q == c) quote_chars

abbrev pub first : List ℕ → Option ℕ
first [] = none
first (c ∷ cs) = some c

-- A tag that is not quoted, and behind which the text is accepted.
unfoldable pub is_real : List ℕ → (List ℕ → Bool) → Option ℕ → List ℕ → Bool
unfolding is_quote_char is_prefix
is_real tag accepts before text =
    let after = drop (length tag) text in
    is_prefix tag text
    && (not (is_quote_char before || is_quote_char (first after)) && accepts after)

-- The loops over `find(TAG)`, which go on one character behind a tag that they do not take.
unfoldable pub find_tag : List ℕ → (List ℕ → Bool) → Option ℕ → List ℕ → Option (List ℕ × List ℕ)
unfolding is_real
find_tag tag accepts before [] = none
find_tag tag accepts before (c ∷ text) =
    let later = find_tag tag accepts (some c) text in
    if is_real tag accepts before (c ∷ text)
    then some ([], drop (length tag) (c ∷ text))
    else elim later [ none ↦ none | some (found, after) ↦ some (c ∷ found, after) ]

unfoldable pub find_real_thinking_start_tag : List ℕ → Option (List ℕ × List ℕ)
unfolding find_tag
find_real_thinking_start_tag buffer = find_tag start_tag (λ _. true) none buffer

-- The line end that belongs to the tag.
unfoldable pub skip_boundary : List ℕ → List ℕ
unfolding is_blank is_prefix
skip_boundary after =
    if is_blank after
    then []
    else if is_prefix (codes "\r\n\r\n") after
    then drop 4 after
    else if is_prefix (codes "\n\n") after
    then drop 2 after
    else if is_prefix (codes "\r\n") after
    then drop 2 after
    else if is_prefix (codes "\n") after
    then drop 1 after
    else after

unfoldable pub find_real_thinking_end_tag_with_boundary : List ℕ → Option (List ℕ × List ℕ)
unfolding find_tag skip_boundary
find_real_thinking_end_tag_with_boundary buffer = elim (find_tag end_tag (λ _. true) none buffer) [
  | none ↦ none
  | some (found, after) ↦ some (found, skip_boundary after)
]

unfoldable pub find_real_thinking_end_tag_at_buffer_end : List ℕ → Option (List ℕ × List ℕ)
unfolding find_tag is_blank
find_real_thinking_end_tag_at_buffer_end buffer = find_tag end_tag is_blank none buffer

-- The text cut at `find_char_boundary(text, target)`, the last boundary of a character that is not
-- behind the target, which counts bytes.
unfoldable pub cut_at_boundary : ℕ → List ℕ → List ℕ × List ℕ
cut_at_boundary target [] = ([], [])
cut_at_boundary target (c ∷ text) =
    let (kept, rest) = cut_at_boundary (target - len_utf8 c) text in
    if leb (len_utf8 c) target then (c ∷ kept, rest) else ([], c ∷ text)

unfoldable pub strip_newline : List ℕ → List ℕ
strip_newline [] = []
strip_newline (c ∷ text) = if c == b'\n' then text else c ∷ text

-- `(Some(thinking), rest)`, or the text as it was.
unfoldable pub end_of_thinking : List ℕ → Option (List ℕ × List ℕ)
unfolding find_real_thinking_end_tag_with_boundary find_real_thinking_end_tag_at_buffer_end
    trim_start
end_of_thinking after_open = elim (find_real_thinking_end_tag_with_boundary after_open) [
  | some p ↦ some p
  | none ↦ elim (find_real_thinking_end_tag_at_buffer_end after_open) [
    | none ↦ none
    | some (found, after) ↦ some (found, trim_start after)
  ]
]

unfoldable pub some_text : List ℕ → Option (List ℕ)
some_text [] = none
some_text (c ∷ cs) = some (c ∷ cs)

unfoldable pub extract_thinking_from_complete_text : List ℕ → Option (List ℕ) × List ℕ
unfolding find_real_thinking_start_tag end_of_thinking strip_newline some_text is_blank
extract_thinking_from_complete_text text = elim (find_real_thinking_start_tag text) [
  | none ↦ (none, text)
  | some (before, after_open) ↦ elim (end_of_thinking after_open) [
    | none ↦ (none, text)
    | some (raw, after) ↦
        (some_text (strip_newline raw), (if is_blank before then [] else before) ++ after)
  ]
]

extract_test :
    extract_thinking_from_complete_text
      (codes " <thinking>\nIn `</thinking>` we trust</thinking>\n\nHi")
    ≡ (some (codes "In `</thinking>` we trust"), codes "Hi")
unfolding extract_thinking_from_complete_text is_prefix is_blank
extract_test = refl

-- A full stop before the end tag, or a hash behind it, keeps the tag from being one.
stop_test : find_real_thinking_end_tag_with_boundary (codes "We trust.</thinking>\n\n") ≡ none
unfolding find_real_thinking_end_tag_with_boundary
stop_test = refl

hash_test : find_real_thinking_end_tag_with_boundary (codes "We trust</thinking># Answer") ≡ none
unfolding find_real_thinking_end_tag_with_boundary
hash_test = refl
