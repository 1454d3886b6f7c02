-- ===== src/Prelude/Text.antt =====
-- Text as Rust formats it: decimal and hexadecimal numbers, and the bytes of an ASCII literal.
use Prim.Native.Char.{code}
use Prim.Native.String.{◌++◌ as ◌+++◌}
use kiro_rs_tool.Prelude.{
  ℕ, zero, suc, ◌/◌, ◌%◌, ◌≡◌, refl, String, List, [], ◌∷◌, ltb, if◌then◌else◌,
}

infixr 65 ◌<>◌
abbrev pub ◌<>◌ : String → String → String
s <> t = ◌+++◌ s t

-- The code points of a text: its bytes, if it is ASCII.
abbrev pub codes : String → List ℕ
codes String.[] = []
codes (String.◌∷◌ c s) = code c ∷ codes s

nth : List String → ℕ → String
nth [] i = ""
nth (s ∷ ss) zero = s
nth (s ∷ ss) (suc i) = nth ss i

digit : ℕ → String
unfolding nth
digit d =
    nth
      ("0" ∷ "1" ∷ "2" ∷ "3" ∷ "4" ∷ "5" ∷ "6" ∷ "7" ∷ "8" ∷ "9" ∷ "a" ∷ "b" ∷ "c" ∷ "d" ∷ "e" ∷ "f"
        ∷ [])
      d

decimal_fuel : ℕ → ℕ → String
unfolding digit
decimal_fuel zero n = ""
decimal_fuel (suc f) n =
    let before = decimal_fuel f (n / 10) <> digit (n % 10) in if ltb n 10 then digit n else before

-- `{}` of an unsigned integer of at most 64 bits, which has at most 20 digits.
unfoldable pub decimal : ℕ → String
unfolding decimal_fuel
decimal n = decimal_fuel 20 n

hex_width : ℕ → ℕ → String
unfolding digit
hex_width zero n = ""
hex_width (suc w) n = hex_width w (n / 16) <> digit (n % 16)

-- `{:08x}` of a `u32`.
unfoldable pub hex8 : ℕ → String
unfolding hex_width
hex8 n = hex_width 8 n

decimal_test : decimal 1048576 ≡ "1048576"
unfolding decimal
decimal_test = refl

hex8_test : hex8 48879 ≡ "0000beef"
unfolding hex8
hex8_test = refl
