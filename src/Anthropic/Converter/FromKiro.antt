-- ===== src/Anthropic/Converter/FromKiro.antt =====
-- src/anthropic/converter.rs: the inputs of the tools of the service, for the client.
use kiro_rs_tool.Prelude.{ℕ, ◌^◌, ◌&&◌, Option, none, some, List, [], ◌∷◌, ltb, if◌then◌else◌}
use kiro_rs_tool.Anthropic.Json.{Json, object, Fields, no_fields}
use kiro_rs_tool.Anthropic.Converter.ToolInput.{
  is_name, claude_code_tool_name_to_kiro, maybe_insert, moved, take_first, insert_some, number_at,
  plus_i64, minus_i64,
}

-- The number of lines from the first to the last, if there is one.
unfoldable pub limit_of : Option ℕ → Option ℕ → Option ℕ
limit_of start none = none
limit_of none (some end) = some end
limit_of (some start) (some end) = some (plus_i64 (minus_i64 end start) 1)

-- As a signed number, above 0.
unfoldable pub if_positive : Option ℕ → Option ℕ
if_positive none = none
if_positive (some n) = if ltb 0 n && ltb n (2 ^ 63) then some n else none

unfoldable pub read_from_kiro : Fields → Fields
unfolding maybe_insert take_first insert_some number_at limit_of if_positive
read_from_kiro obj =
    let out = moved "file_path" ("path" ∷ "file_path" ∷ []) obj no_fields in
    let out = insert_some "offset" (number_at "start_line" obj) out in
    insert_some "limit"
      (if_positive (limit_of (number_at "start_line" obj) (number_at "end_line" obj))) out

unfoldable pub object_from_kiro : List ℕ → Fields → Fields
unfolding maybe_insert take_first read_from_kiro
object_from_kiro name obj =
    if is_name name "Write"
    then moved "content" ("text" ∷ "content" ∷ []) obj
        (moved "file_path" ("path" ∷ "file_path" ∷ []) obj no_fields)
    else if is_name name "Edit"
    then moved "new_string" ("newStr" ∷ "new_string" ∷ []) obj (
        moved "old_string" ("oldStr" ∷ "old_string" ∷ []) obj
          (moved "file_path" ("path" ∷ "file_path" ∷ []) obj no_fields))
    else if is_name name "Bash"
    then moved "timeout" ("timeout" ∷ []) obj (moved "command" ("command" ∷ []) obj no_fields)
    else if is_name name "Read"
    then read_from_kiro obj
    else if is_name name "Glob"
    then moved "pattern" ("query" ∷ "pattern" ∷ []) obj no_fields
    else if is_name name "Grep"
    then moved "case_sensitive" ("caseSensitive" ∷ "case_sensitive" ∷ []) obj (
        moved "glob" ("includePattern" ∷ "glob" ∷ []) obj
          (moved "pattern" ("query" ∷ "pattern" ∷ []) obj no_fields))
    else if is_name name "LS"
    then moved "path" ("path" ∷ []) obj no_fields
    else if is_name name "WebSearch"
    then moved "query" ("query" ∷ []) obj no_fields
    else obj

unfoldable pub known_from_kiro : List ℕ → Json → Json
unfolding object_from_kiro
known_from_kiro name (object obj) = object (object_from_kiro name obj)
known_from_kiro name input = input

unfoldable pub map_tool_input_from_kiro : List ℕ → Json → Json
unfolding claude_code_tool_name_to_kiro known_from_kiro
map_tool_input_from_kiro client_name input = elim (claude_code_tool_name_to_kiro client_name) [
  | none ↦ input
  | some kiro_name ↦ known_from_kiro client_name input
]
