-- ===== src/Anthropic/Converter/ToolName.antt =====
-- src/anthropic/converter.rs: the names of the tools of a request, for the service.
use kiro_rs_tool.Prelude.{
  ℕ, ◌+◌, ◌≤◌, ◌≡◌, refl, none, some, List, [], ◌∷◌, ◌++◌, leb, take, length, length-take,
  if◌then◌else◌, arith, Bool-cases, inl, inr,
}
use kiro_rs_tool.Prelude.Map
use kiro_rs_tool.Prelude.Map.{bytes_eq, bytes_beq_iff, lookup-insert}
use kiro_rs_tool.Prelude.Text.{codes}
use kiro_rs_tool.Prelude.Chars.{byte_len, len_utf8}
use kiro_rs_tool.Anthropic.Converter.ToolInput.{
  ToolCompatibilityMode, is_claude_code_mode, claude_code_tool_name_to_kiro,
}

abbrev pub tool_name_max_len : ℕ
tool_name_max_len = 63

-- `entry(key).or_insert(value)`
unfoldable pub or_insert : List ℕ → List ℕ → List (List ℕ × List ℕ) → List (List ℕ × List ℕ)
or_insert key value map = elim (Map.lookup key map) [
  | some old ↦ map
  | none ↦ Map.insert key value map
]

-- `hash_hex` is SHA-256 in hexadecimal, of the crate sha2.
module _ (hash_hex : List ℕ → List ℕ) where
  unfoldable pub shorten_tool_name : List ℕ → List ℕ
  shorten_tool_name name = take 54 name ++ (b'_' ∷ take 8 (hash_hex name))

  -- With the short name, the map from short names to those of the client.
  unfoldable pub map_tool_name : List ℕ → List (List ℕ × List ℕ) → List ℕ × List (List ℕ × List ℕ)
  unfolding shorten_tool_name
  map_tool_name name map =
      if leb (byte_len name) tool_name_max_len
      then (name, map)
      else (shorten_tool_name name, Map.insert (shorten_tool_name name) name map)

  unfoldable pub map_client_tool_name_to_kiro :
      List ℕ → List (List ℕ × List ℕ) → ToolCompatibilityMode → List ℕ × List (List ℕ × List ℕ)
  unfolding map_tool_name claude_code_tool_name_to_kiro is_claude_code_mode or_insert
  map_client_tool_name_to_kiro name map mode =
      if is_claude_code_mode mode
      then (elim (claude_code_tool_name_to_kiro name) [
        | some kiro_name ↦ (codes kiro_name, or_insert (codes kiro_name) name map)
        | none ↦ map_tool_name name map
      ])
      else map_tool_name name map

len_utf8-positive : (c : ℕ) → 1 ≤ len_utf8 c
len_utf8-positive c = ground arith

length-byte_len : (text : List ℕ) → length text ≤ byte_len text
length-byte_len [] = omega arith
length-byte_len (c ∷ text) = omega (arith, len_utf8-positive c, length-byte_len text)

take_bound : (n : ℕ) (xs : List ℕ) → length (take n xs) ≤ n
take_bound n xs = omega (arith, length-take n xs)

length-append : (xs ys : List ℕ) → length (xs ++ ys) ≡ length xs + length ys
length-append [] ys = omega arith
length-append (x ∷ xs) ys = omega (arith, length-append xs ys)

-- A mapped name has at most 63 characters; a name that was shortened is found under its short name,
-- and one that was not leaves what is known of it as it was.
pub map_tool_name_bounds :
    (hash_hex : List ℕ → List ℕ) (name : List ℕ) (map : List (List ℕ × List ℕ))
    → let (short, map') = map_tool_name hash_hex name map in
      (length short ≤ tool_name_max_len)
      × (Map.lookup short map'
          ≡ (if leb (byte_len name) tool_name_max_len then Map.lookup name map else some name))
unfolding map_tool_name shorten_tool_name
map_tool_name_bounds hash_hex name map = elim (Bool-cases (leb (byte_len name) 63)) [
  | inl fits ↦ simp fits (ground (arith, fits, length-byte_len name), refl)
  | inr long ↦
      let short = shorten_tool_name hash_hex name in
      simp long (
        rw (length-append (take 54 name))
            (omega (arith, take_bound 54 name, take_bound 8 (hash_hex name))),
        rw (lookup-insert short short name map, (bytes_beq_iff short short).1 refl) refl,
      )
]
