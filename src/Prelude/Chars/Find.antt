-- ===== src/Prelude/Chars/Find.antt =====
-- What `find_text` and `find_char` return.
use kiro_rs_tool.Prelude.{
  ℕ, zero, suc, ◌+◌, ◌≤◌, ◌≡◌, refl, ap, inl, inr, true, false, Option, none, some, List, [], ◌∷◌,
  ◌++◌, arith, ◌==◌, ==_iff, length, drop, take, length-append, length-drop, Bool-cases,
}
use kiro_rs_tool.Prelude.Search.{is_prefix}
use kiro_rs_tool.Prelude.Chars.{find_text, find_char}

pub is_prefix-length : (part text : List ℕ) → is_prefix part text ≡ true → length part ≤ length text
unfolding is_prefix
is_prefix-length [] text h = omega arith
is_prefix-length (c ∷ part) [] h = ground arith
is_prefix-length (c ∷ part) (d ∷ text) h = ground (arith, is_prefix-length part text)

pub is_prefix-take :
    (part text : List ℕ) → is_prefix part text ≡ true → text ≡ part ++ drop (length part) text
unfolding is_prefix
is_prefix-take [] text h = refl
is_prefix-take (c ∷ part) [] h = ground arith
is_prefix-take (c ∷ part) (d ∷ text) h = ground (arith, is_prefix-take part text, ==_iff c d)

-- The text in two parts, the second of which starts with the pattern.
abbrev pub Splits : List ℕ → List ℕ → Option (List ℕ × List ℕ) → Type 0
Splits part text none = Unit
Splits part text (some (before, from)) = (text ≡ before ++ from) × (is_prefix part from ≡ true)

pub find_text-Splits : (part text : List ℕ) → Splits part text (find_text part text)
unfolding find_text
find_text-Splits part [] = ground arith
find_text-Splits part (c ∷ text) = elim (Bool-cases (is_prefix part (c ∷ text))) [
  | inl here ↦ rw here (refl, here)
  | inr later ↦ rw later (later_Splits (find_text part text) (find_text-Splits part text))
]
  where
    later_Splits :
        (o : Option (List ℕ × List ℕ))
        → Splits part text o
        → Splits part
            (c ∷ text)
            (elim o [ none ↦ none | some (before, from) ↦ some (c ∷ before, from) ])
    later_Splits none s = tt
    later_Splits (some (before, from)) s = (ap (λ t. c ∷ t) s.0, s.1)

pub find_char-Splits : (c : ℕ) (text : List ℕ) → Splits (c ∷ []) text (find_char c text)
unfolding is_prefix
find_char-Splits c [] = tt
find_char-Splits c (d ∷ text) = elim (Bool-cases (d == c)) [
  | inl here ↦ rw here (refl, ground (arith, ==_iff d c))
  | inr later ↦ rw later (later_Splits (find_char c text) (find_char-Splits c text))
]
  where
    later_Splits :
        (o : Option (List ℕ × List ℕ))
        → Splits (c ∷ []) text o
        → Splits
            (c ∷ [])
            (d ∷ text)
            (elim o [ none ↦ none | some (before, from) ↦ some (d ∷ before, from) ])
    later_Splits none s = tt
    later_Splits (some (before, from)) s = (ap (λ t. d ∷ t) s.0, s.1)

-- What is left behind the pattern is shorter than the text by the pattern at least.
pub Splits-shorter :
    (part text before from : List ℕ)
    → Splits part text (some (before, from))
    → length (drop (length part) from) + length part ≤ length text
Splits-shorter part text before from s = omega (
  arith,
  ap length s.0,
  length-append before from,
  length-drop (length part) from,
  is_prefix-length part from s.1,
)

is_prefix-append :
    (part xs ys : List ℕ) → is_prefix part xs ≡ true → is_prefix part (xs ++ ys) ≡ true
unfolding is_prefix
is_prefix-append [] xs ys h = refl
is_prefix-append (c ∷ part) [] ys h = ground arith
is_prefix-append (c ∷ part) (d ∷ xs) ys h = ground (arith, is_prefix-append part xs ys)

-- What is not in a text is in neither end of it.
find_text-tail :
    (part : List ℕ) (c : ℕ) (text : List ℕ)
    → find_text part (c ∷ text) ≡ none
    → (is_prefix part (c ∷ text) ≡ false) × (find_text part text ≡ none)
unfolding find_text
find_text-tail part c text h = ground (arith, h)

find_text-cons :
    (part : List ℕ) (c : ℕ) (text : List ℕ)
    → is_prefix part (c ∷ text) ≡ false
    → find_text part text ≡ none
    → find_text part (c ∷ text) ≡ none
unfolding find_text
find_text-cons part c text h k = ground (arith, h, k)

pub find_text-none_right :
    (part xs ys : List ℕ) → find_text part (xs ++ ys) ≡ none → find_text part ys ≡ none
find_text-none_right part [] ys h = h
find_text-none_right part (x ∷ xs) ys h =
    find_text-none_right part xs ys (find_text-tail part x (xs ++ ys) h).1

not-is_prefix :
    (part xs ys : List ℕ) → is_prefix part (xs ++ ys) ≡ false → is_prefix part xs ≡ false
not-is_prefix part xs ys h = elim (Bool-cases (is_prefix part xs)) [
  | inl yes' ↦ cc (is_prefix-append part xs ys yes', h)
  | inr no' ↦ no'
]

pub find_text-none_left :
    (part xs ys : List ℕ) → find_text part (xs ++ ys) ≡ none → find_text part xs ≡ none
unfolding find_text
find_text-none_left part [] [] h = h
find_text-none_left part [] (y ∷ ys) h =
    rw (not-is_prefix part [] (y ∷ ys) (find_text-tail part y ys h).0) refl
find_text-none_left part (x ∷ xs) ys h =
    let (here, later) = find_text-tail part x (xs ++ ys) h in
    find_text-cons part x xs (not-is_prefix part (x ∷ xs) ys here)
      (find_text-none_left part xs ys later)

pub take-drop : (n : ℕ) (xs : List ℕ) → take n xs ++ drop n xs ≡ xs
take-drop zero xs = refl
take-drop (suc n) [] = refl
take-drop (suc n) (x ∷ xs) = ap (λ t. x ∷ t) (take-drop n xs)
