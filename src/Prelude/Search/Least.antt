-- ===== src/Prelude/Search/Least.antt =====
-- What `min_by` and `filter` give: an item of the list, and one that no other is less than.
use kiro_rs_tool.Prelude.{
  ◌≡◌, refl, ◌⊎◌, inl, inr, Bool, true, false, none, some, List, [], ◌∷◌, filter, arith,
  if◌then◌else◌, Bool-cases,
}
use kiro_rs_tool.Prelude.Search.{min_from, min_by}

module _ {A : Type 0} where
  abbrev pub IsIn : A → List A → Type 0
  IsIn x [] = ⊥
  IsIn x (y ∷ ys) = (x ≡ y) ⊎ IsIn x ys

  pub IsIn-filter :
      (p : A → Bool) (x : A) (xs : List A) → IsIn x (filter p xs) → IsIn x xs × (p x ≡ true)
  IsIn-filter p x [] h = absurd h
  IsIn-filter p x (y ∷ ys) h = ground (arith, IsIn-filter p x ys)

  pub filter-IsIn :
      (p : A → Bool) (x : A) (xs : List A) → IsIn x xs → p x ≡ true → IsIn x (filter p xs)
  filter-IsIn p x [] h k = absurd h
  filter-IsIn p x (y ∷ ys) h k = ground (arith, filter-IsIn p x ys)

-- A strict order.
pub record IsOrder {A : Type 0} (less : A → A → Bool) : Type 0 where
  pub irreflexive : (a : A) → less a a ≡ false
  pub transitive : (a b c : A) → less a b ≡ true → less b c ≡ true → less a c ≡ true

module _ {A : Type 0} (less : A → A → Bool) where
  either-IsIn :
      (b : Bool) (r x best : A) (xs : List A)
      → IsIn r ((if b then x else best) ∷ xs)
      → IsIn r (best ∷ x ∷ xs)
  either-IsIn true r x best xs h = inr h
  either-IsIn false r x best xs (inl e) = inl e
  either-IsIn false r x best xs (inr m) = inr (inr m)

  min_from-IsIn : (best : A) (xs : List A) → IsIn (min_from less best xs) (best ∷ xs)
  min_from-IsIn best [] = inl refl
  min_from-IsIn best (x ∷ xs) =
      either-IsIn (less x best) _ x best xs (min_from-IsIn (if less x best then x else best) xs)

  pub min_by-IsIn : (xs : List A) (a : A) → min_by less xs ≡ some a → IsIn a xs
  min_by-IsIn [] a h = cc
  min_by-IsIn (x ∷ xs) a h = ground (arith, min_from-IsIn x xs)

  pub min_by-none : (xs : List A) → min_by less xs ≡ none → xs ≡ []
  min_by-none [] h = refl
  min_by-none (x ∷ xs) h = cc

  module _ (order : IsOrder less) where
    -- Nothing that was not less than the best so far is less than the result.
    min_from-below :
        (y best : A) (xs : List A) → less y best ≡ false → less y (min_from less best xs) ≡ false
    min_from-below y best [] h = h
    min_from-below y best (x ∷ xs) h = elim (Bool-cases (less x best)) [
      | inl k ↦ rw k (min_from-below y x xs (not_less (Bool-cases (less y x)) k))
      | inr k ↦ rw k (min_from-below y best xs h)
    ]
      where
        not_less : (less y x ≡ true) ⊎ (less y x ≡ false) → less x best ≡ true → less y x ≡ false
        not_less (inl l) k = cc (order.transitive y x best l k, h)
        not_less (inr l) k = l

    min_from-least : (y best : A) (xs : List A) → IsIn y xs → less y (min_from less best xs) ≡ false
    min_from-least y best [] h = absurd h
    min_from-least y best (x ∷ xs) (inl e) = elim (Bool-cases (less x best)) [
      | inl k ↦ rw (k, e) (min_from-below x x xs (order.irreflexive x))
      | inr k ↦ rw (k, e) (min_from-below x best xs k)
    ]
    min_from-least y best (x ∷ xs) (inr m) = elim (Bool-cases (less x best)) [
      | inl k ↦ rw k (min_from-least y x xs m)
      | inr k ↦ rw k (min_from-least y best xs m)
    ]

    pub min_by-least :
        (xs : List A) (a y : A) → min_by less xs ≡ some a → IsIn y xs → less y a ≡ false
    min_by-least [] a y h m = absurd m
    min_by-least (x ∷ xs) a y h (inl e) = ground (arith, min_from-below y x xs, order.irreflexive x)
    min_by-least (x ∷ xs) a y h (inr m) = ground (arith, min_from-least y x xs m)
