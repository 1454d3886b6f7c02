-- ===== src/Anthropic/Converter/ToolInput.antt =====
-- src/anthropic/converter.rs: the inputs of the tools of Claude Code, for the service and back. An
-- `i64` is its 64 bits; sums wrap, as they do where overflow is not checked.
use kiro_rs_tool.Prelude.{
  ℕ, ◌+◌, ◌-◌, ◌%◌, ◌^◌, String, Bool, true, false, not, Option, none, some, List, [], ◌∷◌, ◌++◌,
  ltb, ◌⊎◌, inl, inr, if◌then◌else◌,
}
use kiro_rs_tool.Prelude.Map.{bytes_eq}
use kiro_rs_tool.Prelude.Text.{codes}
use kiro_rs_tool.Anthropic.Json.{
  Json, null, bool, number, negative, string, object, Fields, no_fields, get_field, set_field,
}

-- src/model/config.rs
pub data ToolCompatibilityMode : Type 0 where
  claude_code : ToolCompatibilityMode
  raw : ToolCompatibilityMode

pub data ToolCompatibilityError : Type 0 where
  unsupported_tool_mapping : List ℕ → List ℕ → ToolCompatibilityError

abbrev pub is_name : List ℕ → String → Bool
is_name name text = bytes_eq.beq name (codes text)

unfoldable pub claude_code_tool_name_to_kiro : List ℕ → Option String
claude_code_tool_name_to_kiro name =
    if is_name name "Write"
    then some "fs_write"
    else if is_name name "Edit"
    then some "str_replace"
    else if is_name name "Bash"
    then some "execute_bash"
    else if is_name name "Read"
    then some "read_file"
    else if is_name name "Glob"
    then some "file_search"
    else if is_name name "Grep"
    then some "grep_search"
    else if is_name name "LS"
    then some "list_directory"
    else if is_name name "WebSearch"
    then some "web_search"
    else none

unfoldable pub is_claude_code_mode : ToolCompatibilityMode → Bool
is_claude_code_mode claude_code = true
is_claude_code_mode raw = false

abbrev pub width : ℕ
width = 2 ^ 64

unfoldable pub optional_number : Json → Option ℕ
optional_number (number n) = some (n % width)
optional_number (negative n) = some (width - 1 - n)
optional_number _ = none

-- `json!` of an `i64`.
unfoldable pub integer : ℕ → Json
integer n = if ltb n (2 ^ 63) then number n else negative (width - 1 - n)

abbrev pub plus_i64 : ℕ → ℕ → ℕ
plus_i64 a b = (a + b) % width

abbrev pub minus_i64 : ℕ → ℕ → ℕ
minus_i64 a b = (a + (width - b)) % width

unfoldable pub take_first : Fields → List String → Option Json
unfolding get_field
take_first obj [] = none
take_first obj (key ∷ keys) = elim (get_field key obj) [
  | some value ↦ some value
  | none ↦ take_first obj keys
]

unfoldable pub is_null : Json → Bool
is_null null = true
is_null _ = false

unfoldable pub maybe_insert : String → Option Json → Fields → Fields
unfolding is_null set_field
maybe_insert key none out = out
maybe_insert key (some value) out = if is_null value then out else set_field key value out

unfoldable pub insert_some : String → Option ℕ → Fields → Fields
unfolding integer set_field
insert_some key none out = out
insert_some key (some n) out = set_field key (integer n) out

unfoldable pub default_explanation : List ℕ → Json
default_explanation tool_name =
    string (codes "Mapped from Claude Code " ++ (tool_name ++ codes " tool."))

-- `entry("explanation").or_insert_with`
unfoldable pub or_explanation : List ℕ → Fields → Fields
unfolding default_explanation get_field set_field
or_explanation name out = elim (get_field "explanation" out) [
  | some value ↦ out
  | none ↦ set_field "explanation" (default_explanation name) out
]

-- A field of the object under a name, from the first of some names.
abbrev pub moved : String → List String → Fields → Fields → Fields
moved key keys obj out = maybe_insert key (take_first obj keys) out

abbrev pub and_number : Option Json → Option ℕ
and_number none = none
and_number (some value) = optional_number value

unfoldable pub number_at : String → Fields → Option ℕ
unfolding get_field optional_number
number_at key obj = and_number (get_field key obj)

-- The last line, from the offset and the limit.
unfoldable pub end_line : Option ℕ → Option ℕ → Option ℕ
end_line offset none = none
end_line none (some limit) = some limit
end_line (some start) (some limit) = some (minus_i64 (plus_i64 start limit) 1)

unfoldable pub yes_or_no : Json → Json
yes_or_no (bool true) = string (codes "yes")
yes_or_no (bool false) = string (codes "no")
yes_or_no other = other

unfoldable pub include_ignored : Option Json → Fields → Fields
unfolding yes_or_no set_field
include_ignored none out = out
include_ignored (some value) out = set_field "includeIgnoredFiles" (yes_or_no value) out

unfoldable pub has_pages : Option Json → Bool
unfolding is_null
has_pages none = false
has_pages (some value) = not (is_null value)

unfoldable pub read_to_kiro : List ℕ → Fields → Fields
unfolding maybe_insert take_first insert_some number_at end_line or_explanation
read_to_kiro name obj =
    let out = moved "path" ("file_path" ∷ "path" ∷ []) obj no_fields in
    let out = insert_some "start_line" (number_at "offset" obj) out in
    let out =
      insert_some "end_line" (end_line (number_at "offset" obj) (number_at "limit" obj)) out in
    or_explanation name (moved "explanation" ("explanation" ∷ []) obj out)

-- The arms of the match but for that of `Read`.
unfoldable pub object_to_kiro : List ℕ → Fields → Fields
unfolding maybe_insert take_first include_ignored or_explanation
object_to_kiro name obj =
    if is_name name "Write"
    then moved "text" ("content" ∷ "text" ∷ []) obj
        (moved "path" ("file_path" ∷ "path" ∷ []) obj no_fields)
    else if is_name name "Edit"
    then moved "newStr" ("new_string" ∷ "newStr" ∷ []) obj (
        moved "oldStr" ("old_string" ∷ "oldStr" ∷ []) obj
          (moved "path" ("file_path" ∷ "path" ∷ []) obj no_fields))
    else if is_name name "Bash"
    then moved "timeout" ("timeout" ∷ []) obj (moved "command" ("command" ∷ []) obj no_fields)
    else if is_name name "Glob"
    then or_explanation name (
        moved "explanation" ("explanation" ∷ []) obj (
          include_ignored (take_first obj ("includeIgnoredFiles" ∷ "include_ignored" ∷ [])) (
            moved "excludePattern" ("excludePattern" ∷ "exclude" ∷ []) obj
              (moved "query" ("pattern" ∷ "query" ∷ []) obj no_fields))))
    else if is_name name "Grep"
    then moved "explanation" ("explanation" ∷ []) obj (
        moved "caseSensitive" ("caseSensitive" ∷ "case_sensitive" ∷ []) obj (
          moved "excludePattern" ("excludePattern" ∷ "exclude" ∷ []) obj (
            moved "includePattern" ("glob" ∷ "includePattern" ∷ []) obj
              (moved "query" ("pattern" ∷ "query" ∷ []) obj no_fields))))
    else if is_name name "LS"
    then or_explanation name (
        moved "explanation" ("explanation" ∷ []) obj
          (moved "depth" ("depth" ∷ []) obj (moved "path" ("path" ∷ []) obj no_fields)))
    else if is_name name "WebSearch"
    then moved "query" ("query" ∷ []) obj no_fields
    else obj

unfoldable pub known_to_kiro : List ℕ → Json → Json ⊎ ToolCompatibilityError
unfolding object_to_kiro read_to_kiro has_pages get_field
known_to_kiro name (object obj) =
    if is_name name "Read"
    then if has_pages (get_field "pages" obj)
      then inr (
          unsupported_tool_mapping name
            (codes "Claude Code Read.pages has no Kiro read_file equivalent"))
      else inl (object (read_to_kiro name obj))
    else inl (object (object_to_kiro name obj))
known_to_kiro name input = inl input

unfoldable pub map_tool_input_to_kiro :
    List ℕ → Json → ToolCompatibilityMode → Json ⊎ ToolCompatibilityError
unfolding is_claude_code_mode claude_code_tool_name_to_kiro known_to_kiro
map_tool_input_to_kiro client_name input mode =
    if is_claude_code_mode mode
    then (elim (claude_code_tool_name_to_kiro client_name) [
      | none ↦ inl input
      | some kiro_name ↦ known_to_kiro client_name input
    ])
    else inl input
