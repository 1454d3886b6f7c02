-- ===== src/Prelude/Chars.antt =====
-- The functions of `str` that the program uses, on the code points of a text. A position in a text is
-- given by the text before it and the text from it on.
pub mod Find
use kiro_rs_tool.Prelude.{
  ℕ, zero, suc, ◌+◌, ◌-◌, ◌≡◌, refl, Bool, true, false, ◌&&◌, ◌||◌, Option, none, some, List, [],
  ◌∷◌, ◌++◌, ltb, leb, ◌==◌, if◌then◌else◌, length, drop,
}
use kiro_rs_tool.Prelude.Text.{codes}
use kiro_rs_tool.Prelude.Search.{is_prefix}

-- `char::is_whitespace`
unfoldable pub is_whitespace : ℕ → Bool
is_whitespace c =
    (leb 9 c && leb c 13)
    || (c == 32)
    || (c == 133)
    || (c == 160)
    || (c == 5760)
    || (leb 8192 c && leb c 8202)
    || (c == 8232)
    || (c == 8233)
    || (c == 8239)
    || (c == 8287)
    || (c == 12288)

unfoldable pub trim_start : List ℕ → List ℕ
unfolding is_whitespace
trim_start [] = []
trim_start (c ∷ cs) = if is_whitespace c then trim_start cs else c ∷ cs

unfoldable pub is_blank : List ℕ → Bool
unfolding is_whitespace
is_blank [] = true
is_blank (c ∷ cs) = is_whitespace c && is_blank cs

trim_end : List ℕ → List ℕ
unfolding is_blank
trim_end [] = []
trim_end (c ∷ cs) = if is_blank (c ∷ cs) then [] else c ∷ trim_end cs

-- `str::trim`
unfoldable pub trim : List ℕ → List ℕ
unfolding trim_start trim_end
trim text = trim_end (trim_start text)

-- `find(part)`: what stands before the first occurrence, and the text from it on.
unfoldable pub find_text : List ℕ → List ℕ → Option (List ℕ × List ℕ)
unfolding is_prefix
find_text part [] = if is_prefix part [] then some ([], []) else none
find_text part (c ∷ text) =
    let later = find_text part text in
    if is_prefix part (c ∷ text)
    then some ([], c ∷ text)
    else elim later [ none ↦ none | some (before, rest) ↦ some (c ∷ before, rest) ]

-- `find(c)` for a character.
abbrev pub find_char : ℕ → List ℕ → Option (List ℕ × List ℕ)
find_char c [] = none
find_char c (d ∷ text) =
    let later = find_char c text in
    if d == c
    then some ([], d ∷ text)
    else elim later [ none ↦ none | some (before, rest) ↦ some (d ∷ before, rest) ]

-- The bytes of a code point in UTF-8.
abbrev pub len_utf8 : ℕ → ℕ
len_utf8 c = if ltb c 128 then 1 else if ltb c 2048 then 2 else if ltb c 65536 then 3 else 4

-- `str::len`
abbrev pub byte_len : List ℕ → ℕ
byte_len [] = 0
byte_len (c ∷ cs) = len_utf8 c + byte_len cs

trim_test : trim (codes "  a b\t") ≡ codes "a b"
unfolding trim
trim_test = refl

find_test : find_text (codes "</a>") (codes "x</</a>y") ≡ some (codes "x</", codes "</a>y")
unfolding find_text
find_test = refl
