-- ===== src/Kiro/Parser/Utf8.antt =====
-- `String::from_utf8_lossy` of the standard library, on lists of bytes: each longest broken piece
-- of a sequence becomes U+FFFD. One byte is read at a time.
use kiro_rs_tool.Prelude.{
  ℕ, zero, suc, ◌≡◌, refl, Bool, ◌&&◌, List, [], ◌∷◌, ◌++◌, arith, ltb, leb, ◌==◌, if◌then◌else◌,
  All, ◌<◌,
}

-- Between two characters, or inside one: its bytes so far, last first, how many are still to come
-- after the next one, and the range of the next one.
pub data Pending : Type 0 where
  idle : Pending
  inside : List ℕ → ℕ → ℕ → ℕ → Pending

replacement : List ℕ
replacement = 239 ∷ 191 ∷ 189 ∷ []

abbrev in_range : ℕ → ℕ → ℕ → Bool
in_range lo hi b = leb lo b && leb b hi

-- The first byte of a character, and a byte that cannot be one.
begin : ℕ → List ℕ × Pending
unfolding replacement
begin b =
    if ltb b 128
    then (b ∷ [], idle)
    else if in_range 194 223 b
    then ([], inside (b ∷ []) 0 128 191)
    else if b == 224
    then ([], inside (b ∷ []) 1 160 191)
    else if b == 237
    then ([], inside (b ∷ []) 1 128 159)
    else if in_range 225 239 b
    then ([], inside (b ∷ []) 1 128 191)
    else if b == 240
    then ([], inside (b ∷ []) 2 144 191)
    else if in_range 241 243 b
    then ([], inside (b ∷ []) 2 128 191)
    else if b == 244
    then ([], inside (b ∷ []) 2 128 143)
    else (replacement, idle)

reverse_onto : List ℕ → List ℕ → List ℕ
reverse_onto [] ys = ys
reverse_onto (x ∷ xs) ys = reverse_onto xs (x ∷ ys)

accept : List ℕ → ℕ → ℕ → List ℕ × Pending
unfolding reverse_onto
accept read zero b = (reverse_onto (b ∷ read) [], idle)
accept read (suc n) b = ([], inside (b ∷ read) n 128 191)

advance : Pending → ℕ → List ℕ × Pending
unfolding begin accept
advance idle b = begin b
advance (inside read n lo hi) b =
    if in_range lo hi b
    then accept read n b
    else (let (out, next) = begin b in (replacement ++ out, next))

decode_from : Pending → List ℕ → List ℕ
unfolding advance
decode_from idle [] = []
decode_from (inside read n lo hi) [] = replacement
decode_from p (b ∷ bs) = let (out, next) = advance p b in out ++ decode_from next bs

unfoldable pub from_utf8_lossy : List ℕ → List ℕ
unfolding decode_from
from_utf8_lossy bytes = decode_from idle bytes

-- ASCII text is unchanged.
pub from_utf8_lossy_ascii :
    (bytes : List ℕ) → All (λ b. b < 128) bytes → from_utf8_lossy bytes ≡ bytes
unfolding from_utf8_lossy
from_utf8_lossy_ascii [] h = refl
from_utf8_lossy_ascii (b ∷ bs) h = ground (arith, from_utf8_lossy_ascii bs h.1)

-- "é€" is kept, and a euro sign cut short is one replacement character.
lossy_test :
    from_utf8_lossy (195 ∷ 169 ∷ 226 ∷ 130 ∷ 172 ∷ 226 ∷ 130 ∷ 65 ∷ [])
    ≡ 195 ∷ 169 ∷ 226 ∷ 130 ∷ 172 ∷ 239 ∷ 191 ∷ 189 ∷ 65 ∷ []
unfolding from_utf8_lossy
lossy_test = refl
