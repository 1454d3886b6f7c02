-- ===== src/Anthropic/Converter/Pairing.antt =====
-- src/anthropic/converter.rs: the pairing of tool calls with their results. Of the messages of
-- src/kiro/model/requests the model keeps the calls and the results. A set is a list of which only
-- membership matters.
pub mod Paired
use kiro_rs_tool.Prelude.{
  ℕ, ◌+◌, ◌≤◌, ◌≡◌, refl, Bool, true, false, not, ◌&&◌, ◌||◌, Option, none, some, List, [], ◌∷◌,
  ◌++◌, arith, if◌then◌else◌,
}
use kiro_rs_tool.Prelude.Map.{bytes_eq}
use kiro_rs_tool.Anthropic.Json.{Json}

pub record ToolUseEntry : Type 0 where
  pub tool_use_id : List ℕ
  pub name : List ℕ
  pub input : Json

pub record ToolResult : Type 0 where
  pub tool_use_id : List ℕ
  pub content : List Json
  pub status : Option (List ℕ)
  pub is_error : Bool

pub data Message : Type 0 where
  user : List ToolResult → Message
  assistant : Option (List ToolUseEntry) → Message

unfoldable pub contains : List ℕ → List (List ℕ) → Bool
contains id [] = false
contains id (j ∷ ids) = bytes_eq.beq j id || contains id ids

unfoldable pub ids_of_uses : List ToolUseEntry → List (List ℕ)
ids_of_uses [] = []
ids_of_uses (u ∷ us) = u.tool_use_id ∷ ids_of_uses us

unfoldable pub ids_of_results : List ToolResult → List (List ℕ)
ids_of_results [] = []
ids_of_results (r ∷ rs) = r.tool_use_id ∷ ids_of_results rs

unfoldable pub all_tool_use_ids : List Message → List (List ℕ)
unfolding ids_of_uses
all_tool_use_ids [] = []
all_tool_use_ids (user results ∷ history) = all_tool_use_ids history
all_tool_use_ids (assistant none ∷ history) = all_tool_use_ids history
all_tool_use_ids (assistant (some uses) ∷ history) = ids_of_uses uses ++ all_tool_use_ids history

unfoldable pub history_tool_result_ids : List Message → List (List ℕ)
unfolding ids_of_results
history_tool_result_ids [] = []
history_tool_result_ids (user results ∷ history) =
    ids_of_results results ++ history_tool_result_ids history
history_tool_result_ids (assistant uses ∷ history) = history_tool_result_ids history

unfoldable pub difference : List (List ℕ) → List (List ℕ) → List (List ℕ)
unfolding contains
difference [] ids = []
difference (j ∷ js) ids = let rest = difference js ids in if contains j ids then rest else j ∷ rest

unfoldable pub remove_id : List ℕ → List (List ℕ) → List (List ℕ)
remove_id id [] = []
remove_id id (j ∷ js) = let rest = remove_id id js in if bytes_eq.beq j id then rest else j ∷ rest

-- The results that answer an open call, each call once, and the calls that stay open.
unfoldable pub filter_results : List ToolResult → List (List ℕ) → List ToolResult × List (List ℕ)
unfolding contains remove_id
filter_results [] unpaired = ([], unpaired)
filter_results (r ∷ rs) unpaired =
    let paired = contains r.tool_use_id unpaired in
    let (filtered, unanswered) =
      filter_results rs (if paired then remove_id r.tool_use_id unpaired else unpaired) in
    (if paired then r ∷ filtered else filtered, unanswered)

unfoldable pub validate_tool_pairing :
    List Message → List ToolResult → List ToolResult × List (List ℕ)
unfolding all_tool_use_ids history_tool_result_ids difference filter_results
validate_tool_pairing history tool_results =
    filter_results tool_results
      (difference (all_tool_use_ids history) (history_tool_result_ids history))

-- `retain`
unfoldable pub retain_uses : List (List ℕ) → List ToolUseEntry → List ToolUseEntry
unfolding contains
retain_uses orphaned [] = []
retain_uses orphaned (u ∷ us) =
    let rest = retain_uses orphaned us in if contains u.tool_use_id orphaned then rest else u ∷ rest

unfoldable pub none_if_empty : List ToolUseEntry → Option (List ToolUseEntry)
none_if_empty [] = none
none_if_empty (u ∷ us) = some (u ∷ us)

unfoldable pub retain_all : List (List ℕ) → List Message → List Message
unfolding retain_uses none_if_empty
retain_all orphaned [] = []
retain_all orphaned (user results ∷ history) = user results ∷ retain_all orphaned history
retain_all orphaned (assistant none ∷ history) = assistant none ∷ retain_all orphaned history
retain_all orphaned (assistant (some uses) ∷ history) =
    assistant (none_if_empty (retain_uses orphaned uses)) ∷ retain_all orphaned history

unfoldable pub remove_orphaned_tool_uses : List Message → List (List ℕ) → List Message
unfolding retain_all
remove_orphaned_tool_uses history [] = history
remove_orphaned_tool_uses history (id ∷ ids) = retain_all (id ∷ ids) history
