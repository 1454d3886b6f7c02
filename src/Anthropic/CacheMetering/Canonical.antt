-- ===== src/Anthropic/CacheMetering/Canonical.antt =====
-- src/anthropic/cache_metering.rs: `canonical_json`, the text of a JSON value whose fields are sorted.
use kiro_rs_tool.Prelude.{
  ℕ, Bool, true, false, ◌&&◌, ◌||◌, List, [], ◌∷◌, ◌++◌, ltb, ◌==◌, if◌then◌else◌,
}
use kiro_rs_tool.Prelude.Text.{codes}
use kiro_rs_tool.Anthropic.Json.{
  Json, null, bool, number, negative, float, string, array, object, Items, no_items, item, Fields,
  no_fields, field,
}

-- The order of texts: that of their bytes in UTF-8 is that of their code points.
unfoldable pub text_less : List ℕ → List ℕ → Bool
text_less xs [] = false
text_less [] (y ∷ ys) = true
text_less (x ∷ xs) (y ∷ ys) = ltb x y || (x == y && text_less xs ys)

-- `sort_by` of the keys, which keeps the order of equal ones. A field comes with its printed value.
unfoldable pub insert_field : List ℕ × List ℕ → List (List ℕ × List ℕ) → List (List ℕ × List ℕ)
unfolding text_less
insert_field f [] = f ∷ []
insert_field f (g ∷ gs) =
    let later = insert_field f gs in if text_less g.0 f.0 then g ∷ later else f ∷ g ∷ gs

-- `join`
unfoldable pub join : List ℕ → List (List ℕ) → List ℕ
join separator [] = []
join separator (x ∷ []) = x
join separator (x ∷ y ∷ ys) = x ++ separator ++ join separator (y ∷ ys)

module _ (print_json : Json → List ℕ) where
  unfoldable pub print_fields : List (List ℕ × List ℕ) → List (List ℕ)
  print_fields [] = []
  print_fields ((key, value) ∷ fs) =
      (print_json (string key) ++ codes ":" ++ value) ∷ print_fields fs

  unfoldable mutual
    unfolding insert_field join print_fields

    pub canonical_json : Json → List ℕ
    canonical_json (object fs) =
        codes "{" ++ join (codes ",") (print_fields (sorted_fields fs)) ++ codes "}"
    canonical_json (array vs) = codes "[" ++ join (codes ",") (canonical_items vs) ++ codes "]"
    canonical_json null = print_json null
    canonical_json (bool b) = print_json (bool b)
    canonical_json (number n) = print_json (number n)
    canonical_json (negative n) = print_json (negative n)
    canonical_json (float bits) = print_json (float bits)
    canonical_json (string text) = print_json (string text)

    pub canonical_items : Items → List (List ℕ)
    canonical_items no_items = []
    canonical_items (item v vs) = canonical_json v ∷ canonical_items vs

    pub sorted_fields : Fields → List (List ℕ × List ℕ)
    sorted_fields no_fields = []
    sorted_fields (field key v fs) = insert_field (codes key, canonical_json v) (sorted_fields fs)
