-- ===== src/Tests/Converter.antt =====
-- src/anthropic/converter.rs: runs of the mapping of tool names and inputs.
use kiro_rs_tool.Prelude.{
  ℕ, ◌≤◌, ◌≡◌, refl, false, not, ◌&&◌, ◌||◌, some, none, List, [], ◌∷◌, leb, length, if◌then◌else◌,
}
use kiro_rs_tool.Anthropic.Json.{null}
use kiro_rs_tool.Anthropic.Converter.Pairing.{
  Message, user, assistant, ToolUseEntry, ToolResult, contains, ids_of_results, all_tool_use_ids,
  history_tool_result_ids, validate_tool_pairing, remove_orphaned_tool_uses,
}
use kiro_rs_tool.Anthropic.Converter.Pairing.Paired.{times, validate_tool_pairing_complete}
use kiro_rs_tool.Prelude.Map
use kiro_rs_tool.Prelude.Map.{bytes_eq}
use kiro_rs_tool.Prelude.Text.{codes}
use kiro_rs_tool.Prelude.Chars.{byte_len}
use kiro_rs_tool.Anthropic.Converter.ToolInput.{claude_code, map_tool_input_to_kiro}
use kiro_rs_tool.Anthropic.Converter.RoundTrip.{
  ToolInput, read, name_of, input_of, restored, map_tool_input_round_trip,
}
use kiro_rs_tool.Anthropic.Converter.ToolName.{
  tool_name_max_len, map_tool_name, map_tool_name_bounds,
}

-- Lines 10 to 29 of a file.
abbrev some_lines : ToolInput
some_lines = read (codes "a.rs") (some 10) (some 20)

map_tool_input_round_trip_example :
    restored
      (name_of some_lines)
      (map_tool_input_to_kiro (name_of some_lines) (input_of some_lines) claude_code)
    ≡ some (input_of some_lines)
map_tool_input_round_trip_example = map_tool_input_round_trip some_lines refl

abbrev hash : List ℕ → List ℕ
hash name = codes "0123456789abcdef"

abbrev long_name : List ℕ
long_name = codes "mcp__a_server_with_a_rather_long_name__a_tool_with_a_rather_long_name_too"

map_tool_name_bounds_example :
    (length (map_tool_name hash long_name []).0 ≤ tool_name_max_len)
    × (Map.lookup (map_tool_name hash long_name []).0 (map_tool_name hash long_name []).1 ≡ (
        if leb (byte_len long_name) tool_name_max_len
        then Map.lookup long_name []
        else some long_name))
map_tool_name_bounds_example = map_tool_name_bounds hash long_name []

abbrev use_of : List ℕ → ToolUseEntry
use_of id = record { tool_use_id = id; name = codes "ls"; input = null }

abbrev result_of : List ℕ → ToolResult
result_of id = record { tool_use_id = id; content = []; status = none; is_error = false }

-- Three calls, of which the first has been answered.
abbrev calls : List Message
calls =
    assistant (some (use_of (codes "a") ∷ use_of (codes "b") ∷ use_of (codes "c") ∷ []))
    ∷ user (result_of (codes "a") ∷ [])
    ∷ []

-- A second answer to the first call, two to the second and one to no call.
abbrev answers : List ToolResult
answers =
    result_of (codes "a")
    ∷ result_of (codes "b")
    ∷ result_of (codes "b")
    ∷ result_of (codes "x")
    ∷ []

pairing_test : validate_tool_pairing calls answers ≡ (result_of (codes "b") ∷ [], codes "c" ∷ [])
unfolding validate_tool_pairing
pairing_test = refl

validate_tool_pairing_complete_example :
    (contains (codes "b") (ids_of_results (validate_tool_pairing calls answers).0)
      ≡ contains (codes "b") (ids_of_results answers)
        && (contains (codes "b") (all_tool_use_ids calls)
            && not (contains (codes "b") (history_tool_result_ids calls))))
    × (times (codes "b") (ids_of_results (validate_tool_pairing calls answers).0) ≤ 1)
    × (contains (codes "b") (
          all_tool_use_ids
            (remove_orphaned_tool_uses calls (validate_tool_pairing calls answers).1))
        ≡ contains (codes "b") (all_tool_use_ids calls)
          && (contains (codes "b") (history_tool_result_ids calls)
              || contains (codes "b") (ids_of_results answers)))
validate_tool_pairing_complete_example = validate_tool_pairing_complete calls answers (codes "b")
