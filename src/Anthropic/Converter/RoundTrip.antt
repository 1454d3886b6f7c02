-- ===== src/Anthropic/Converter/RoundTrip.antt =====
-- src/anthropic/converter.rs: the input of a tool, mapped for the service and back.
use kiro_rs_tool.Prelude.{
  ℕ, ◌%◌, ◌^◌, ◌≡◌, refl, ap, String, Bool, true, ◌&&◌, Option, none, some, List, ltb, ◌⊎◌, inl,
  inr, arith, Bool-cases,
}
use kiro_rs_tool.Prelude.Text.{codes}
use kiro_rs_tool.Anthropic.Json.{Json, number, string, object, Fields, no_fields, field}
use kiro_rs_tool.Anthropic.Converter.ToolInput.{
  ToolCompatibilityError, claude_code, width, map_tool_input_to_kiro, optional_number, integer,
  plus_i64, minus_i64,
}
use kiro_rs_tool.Anthropic.Converter.FromKiro.{
  map_tool_input_from_kiro, read_from_kiro, limit_of, if_positive,
}

-- The inputs that Claude Code's own tools take, with the fields that both sides know.
pub data ToolInput : Type 0 where
  write : List ℕ → List ℕ → ToolInput
  edit : List ℕ → List ℕ → List ℕ → ToolInput
  bash : List ℕ → Option ℕ → ToolInput
  read : List ℕ → Option ℕ → Option ℕ → ToolInput
  glob : List ℕ → ToolInput
  grep : List ℕ → Option (List ℕ) → ToolInput
  ls : List ℕ → ToolInput
  web_search : List ℕ → ToolInput

abbrev pub name_of : ToolInput → List ℕ
name_of (write path content) = codes "Write"
name_of (edit path old new) = codes "Edit"
name_of (bash command timeout) = codes "Bash"
name_of (read path offset limit) = codes "Read"
name_of (glob pattern) = codes "Glob"
name_of (grep pattern files) = codes "Grep"
name_of (ls path) = codes "LS"
name_of (web_search query) = codes "WebSearch"

abbrev maybe_field : String → Option Json → Fields
maybe_field key none = no_fields
maybe_field key (some value) = field key value no_fields

abbrev maybe_number : Option ℕ → Option Json
maybe_number none = none
maybe_number (some n) = some (number n)

abbrev maybe_text : Option (List ℕ) → Option Json
maybe_text none = none
maybe_text (some text) = some (string text)

abbrev lines : Option ℕ → Option ℕ → Fields
lines none limit = maybe_field "limit" (maybe_number limit)
lines (some offset) limit =
    field "offset" (number offset) (maybe_field "limit" (maybe_number limit))

abbrev pub input_of : ToolInput → Json
input_of (write path content) =
    object (field "file_path" (string path) (field "content" (string content) no_fields))
input_of (edit path old new) = object (
    field "file_path" (string path)
      (field "old_string" (string old) (field "new_string" (string new) no_fields)))
input_of (bash command timeout) =
    object (field "command" (string command) (maybe_field "timeout" (maybe_number timeout)))
input_of (read path offset limit) = object (field "file_path" (string path) (lines offset limit))
input_of (glob pattern) = object (field "pattern" (string pattern) no_fields)
input_of (grep pattern files) =
    object (field "pattern" (string pattern) (maybe_field "glob" (maybe_text files)))
input_of (ls path) = object (field "path" (string path) no_fields)
input_of (web_search query) = object (field "query" (string query) no_fields)

abbrev fits : Option ℕ → Bool
fits none = true
fits (some n) = ltb n (2 ^ 63)

abbrev is_positive : Option ℕ → Bool
is_positive none = true
is_positive (some n) = ltb 0 n

-- The numbers of a `Read` are signed numbers of 64 bits, not below 0, and its limit is above 0.
abbrev pub is_typed : ToolInput → Bool
is_typed (read path offset limit) = fits offset && (fits limit && is_positive limit)
is_typed _ = true

-- The mapping back, of an input that was mapped.
unfoldable pub restored : List ℕ → Json ⊎ ToolCompatibilityError → Option Json
unfolding map_tool_input_from_kiro
restored name (inl input) = some (map_tool_input_from_kiro name input)
restored name (inr e) = none

mod_small : (n : ℕ) → ltb n width ≡ true → n % width ≡ n
mod_small n h = ground arith

optional_integer : (n : ℕ) → ltb n width ≡ true → optional_number (integer n) ≡ some n
unfolding optional_number integer
optional_integer n h = elim (Bool-cases (ltb n (2 ^ 63))) [
  | inl small ↦ simp small (ap some (mod_small n h))
  | inr large ↦ simp large (ap some (ground arith))
]

integer_small : (n : ℕ) → ltb n (2 ^ 63) ≡ true → integer n ≡ number n
unfolding integer
integer_small n h = simp h refl

if_positive-some : (n : ℕ) → ltb 0 n ≡ true → ltb n (2 ^ 63) ≡ true → if_positive (some n) ≡ some n
unfolding if_positive
if_positive-some n positive small = simp (positive, small) refl

-- The limit comes back from the last line.
limit_back :
    (s l : ℕ)
    → ltb s (2 ^ 63) ≡ true
    → ltb l (2 ^ 63) ≡ true
    → plus_i64 (minus_i64 (minus_i64 (plus_i64 s l) 1) s) 1 ≡ l
limit_back s l hs hl = ground arith

last_small : (s l : ℕ) → ltb (minus_i64 (plus_i64 s l) 1) width ≡ true
last_small s l = ground arith

-- An input of one of the eight tools, of the fields that both mappings know, is as it was after it was
-- mapped for the service and back: the path and the content of Write, the path and both strings of
-- Edit, the command and the timeout of Bash, the path, offset and limit of Read, the pattern of Glob,
-- the pattern and the glob of Grep, the path of LS and the query of WebSearch. The offset and the limit
-- are below 2 ^ 63, and the limit is above 0. No other field is claimed to come back.
pub map_tool_input_round_trip :
    (t : ToolInput)
    → is_typed t ≡ true
    → restored (name_of t) (map_tool_input_to_kiro (name_of t) (input_of t) claude_code)
      ≡ some (input_of t)
unfolding restored map_tool_input_to_kiro
map_tool_input_round_trip (write path content) h = refl
map_tool_input_round_trip (edit path old new) h = refl
map_tool_input_round_trip (bash command none) h = refl
map_tool_input_round_trip (bash command (some n)) h = refl
map_tool_input_round_trip (read path none none) h = refl
map_tool_input_round_trip (read path none (some limit)) h =
    let small : ltb limit (2 ^ 63) ≡ true = ground arith in
    let below : ltb limit width ≡ true = ground arith in
    rw (mod_small limit below, optional_integer limit below)
      (unfold limit_of in
        rw (if_positive-some limit (ground arith) small) (rw (integer_small limit small) refl))
map_tool_input_round_trip (read path (some offset) none) h =
    let small : ltb offset (2 ^ 63) ≡ true = ground arith in
    let below : ltb offset width ≡ true = ground arith in
    rw (mod_small offset below, optional_integer offset below)
      (rw (integer_small offset small) refl)
map_tool_input_round_trip (read path (some offset) (some limit)) h =
    let start : ltb offset (2 ^ 63) ≡ true = ground arith in
    let small : ltb limit (2 ^ 63) ≡ true = ground arith in
    let start' : ltb offset width ≡ true = ground arith in
    let small' : ltb limit width ≡ true = ground arith in
    let last = minus_i64 (plus_i64 offset limit) 1 in
    rw (mod_small offset start', mod_small limit small')
      (unfold read_from_kiro in
        rw (optional_integer offset start', optional_integer last (last_small offset limit))
          (unfold limit_of in
            rw (limit_back offset limit start small) (
              rw (if_positive-some limit (ground arith) small)
                (rw (integer_small offset start, integer_small limit small) refl))))
map_tool_input_round_trip (glob pattern) h = refl
map_tool_input_round_trip (grep pattern none) h = refl
map_tool_input_round_trip (grep pattern (some g)) h = refl
map_tool_input_round_trip (ls path) h = refl
map_tool_input_round_trip (web_search query) h = refl
