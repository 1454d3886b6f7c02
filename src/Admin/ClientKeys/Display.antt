-- ===== src/Admin/ClientKeys/Display.antt =====
-- src/admin/client_keys.rs: how a key is shown. `none` is the panic of a slice that ends inside a
-- character.
use kiro_rs_tool.Prelude.{
  ℕ, ◌-◌, ◌&&◌, not, Option, none, some, List, [], ◌∷◌, ◌++◌, ltb, leb, ◌==◌, if◌then◌else◌,
}
use kiro_rs_tool.Prelude.Text.{codes}
use kiro_rs_tool.Prelude.Chars.{len_utf8, byte_len}
use kiro_rs_tool.Admin.ClientKeys.{ClientKey, is_empty}

-- `&text[..n]`
unfoldable pub slice_to : ℕ → List ℕ → Option (List ℕ)
slice_to n [] = if n == 0 then some [] else none
slice_to n (c ∷ cs) =
    let rest = slice_to (n - len_utf8 c) cs in
    if n == 0
    then some []
    else if ltb n (len_utf8 c)
    then none
    else elim rest [ none ↦ none | some t ↦ some (c ∷ t) ]

-- `&text[n..]`
unfoldable pub slice_from : ℕ → List ℕ → Option (List ℕ)
slice_from n [] = if n == 0 then some [] else none
slice_from n (c ∷ cs) =
    let rest = slice_from (n - len_utf8 c) cs in
    if n == 0 then some (c ∷ cs) else if ltb n (len_utf8 c) then none else rest

unfoldable pub joined : Option (List ℕ) → Option (List ℕ) → Option (List ℕ)
joined none t = none
joined (some s) none = none
joined (some s) (some t) = some (s ++ codes "..." ++ t)

unfoldable pub mask_client_key : List ℕ → Option (List ℕ)
unfolding slice_to slice_from joined
mask_client_key key =
    if is_empty key
    then some []
    else if leb (byte_len key) 12
    then some key
    else joined (slice_to 8 key) (slice_from (byte_len key - 4) key)

unfoldable pub display_client_key : {R : Type 0} → ClientKey R → Option (List ℕ)
unfolding slice_to joined mask_client_key
display_client_key ck =
    if not (is_empty ck.key)
    then mask_client_key ck.key
    else if not (is_empty ck.key_prefix) && leb 12 (byte_len ck.key_hash)
    then joined (some ck.key_prefix) (slice_to 12 ck.key_hash)
    else some []
