-- ===== src/Anthropic/Stream/ToolJson.antt =====
-- src/anthropic/stream.rs: `ToolJsonAccumulator`, which gathers the input of a tool call until it is
-- whole. The order of the list of buffers stands for the order in which the table is iterated.
use kiro_rs_tool.Prelude.{
  ℕ, Bool, Option, none, some, List, [], ◌∷◌, ◌++◌, ltb, if◌then◌else◌, ◌⊎◌, inl, inr,
}
use kiro_rs_tool.Prelude.Map
use kiro_rs_tool.Prelude.Map.{bytes_eq}
use kiro_rs_tool.Prelude.Chars.{is_blank, byte_len}
use kiro_rs_tool.Anthropic.Json.{Json, object, no_fields}
use kiro_rs_tool.Anthropic.Converter.FromKiro.{map_tool_input_from_kiro}
use kiro_rs_tool.Anthropic.Stream.Platform.{Platform}

-- src/kiro/model/events/tool_use.rs
pub record ToolUseEvent : Type 0 where
  pub name : List ℕ
  pub tool_use_id : List ℕ
  pub input : List ℕ
  pub stop : Bool

pub record CompletedToolUse : Type 0 where
  pub id : List ℕ
  pub name : List ℕ
  pub input : Json

pub data ToolJsonAccumulatorError : Type 0 where
  invalid_json : List ℕ → List ℕ → List ℕ → ToolJsonAccumulatorError
  incomplete_json : List ℕ → List ℕ → ℕ → ToolJsonAccumulatorError

pub data ToolResult (A : Type 0) : Type 0 where
  done : A → ToolResult A
  failed : ToolJsonAccumulatorError → ToolResult A

-- The name of the tool and its input so far, by the id of the call.
pub record ToolJsonAccumulator : Type 0 where
  pub buffers : List (List ℕ × (List ℕ × List ℕ))

unfoldable pub new : ToolJsonAccumulator
new = record { buffers = [] }

unfoldable pub or_name : List ℕ → List ℕ → List ℕ
or_name [] name = name
or_name (c ∷ cs) name = c ∷ cs

-- The entry with what the event adds to it.
unfoldable pub extend : Option (List ℕ × List ℕ) → ToolUseEvent → List ℕ × List ℕ
unfolding or_name
extend none t = (t.name, t.input)
extend (some (name, input)) t = (or_name name t.name, input ++ t.input)

unfoldable pub empty_input : Json
empty_input = object no_fields

-- The text of the error, or the input.
unfoldable pub parsed : Json ⊎ List ℕ → List ℕ → List ℕ → ToolResult Json
parsed (inl input) id name = done input
parsed (inr message) id name = failed (invalid_json id name message)

module _ (p : Platform) (tool_name_map : List (List ℕ × List ℕ)) where
  -- `restore_tool_use_for_client` of src/anthropic/converter.rs
  unfoldable pub client_name : List ℕ → List ℕ
  client_name kiro_name = elim (Map.lookup kiro_name tool_name_map) [
    | none ↦ kiro_name
    | some name ↦ name
  ]

  unfoldable pub restore_tool_use_for_client : List ℕ → Json → List ℕ × Json
  unfolding client_name map_tool_input_from_kiro
  restore_tool_use_for_client kiro_name input =
      (client_name kiro_name, map_tool_input_from_kiro (client_name kiro_name) input)

  unfoldable pub complete : List ℕ → List ℕ → Json → CompletedToolUse
  unfolding restore_tool_use_for_client
  complete id kiro_name input =
      let (name, input') = restore_tool_use_for_client kiro_name input in
      record { id = id; name = name; input = input' }

  unfoldable pub parse_input : List ℕ → List ℕ → List ℕ → ToolResult Json
  unfolding parsed empty_input is_blank
  parse_input id name input_json =
      if is_blank input_json then done empty_input else parsed (p.parse_json input_json) id name

  unfoldable pub completed :
      List ℕ → List ℕ → ToolResult Json → ToolResult (Option CompletedToolUse)
  unfolding complete
  completed id name (done input) = done (some (complete id name input))
  completed id name (failed e) = failed e

  unfoldable pub push :
      ToolJsonAccumulator
      → ToolUseEvent
      → ToolResult (Option CompletedToolUse) × ToolJsonAccumulator
  unfolding extend parse_input completed
  push acc t =
      let (name, input) = extend (Map.lookup t.tool_use_id acc.buffers) t in
      if t.stop
      then (
        completed t.tool_use_id name (parse_input t.tool_use_id name input),
        record { buffers = Map.remove t.tool_use_id acc.buffers },
      )
      else (done none, record { buffers = Map.insert t.tool_use_id (name, input) acc.buffers })

  -- The calls whose input is empty, completed, and the buffers of the others.
  unfoldable pub take_empty :
      List (List ℕ × (List ℕ × List ℕ)) → List CompletedToolUse × List (List ℕ × (List ℕ × List ℕ))
  unfolding complete empty_input is_blank
  take_empty [] = ([], [])
  take_empty ((id, (name, input)) ∷ rest) =
      let (done', kept) = take_empty rest in
      if is_blank input
      then (complete id name empty_input ∷ done', kept)
      else (done', (id, (name, input)) ∷ kept)

  -- `max_by_key(input.len())`: of several longest buffers the last.
  unfoldable pub longest : List (List ℕ × (List ℕ × List ℕ)) → Option (List ℕ × (List ℕ × List ℕ))
  longest [] = none
  longest (b ∷ rest) = elim (longest rest) [
    | none ↦ some b
    | some c ↦ if ltb (byte_len c.1.1) (byte_len b.1.1) then some b else some c
  ]

  unfoldable pub finish :
      ToolJsonAccumulator → ToolResult (List CompletedToolUse) × ToolJsonAccumulator
  unfolding take_empty longest
  finish acc =
      let (complete', kept) = take_empty acc.buffers in
      elim (longest kept) [
        | none ↦ (done complete', record { buffers = kept })
        | some (id, (name, input)) ↦ (
          failed (incomplete_json id name (byte_len input)),
          record { buffers = Map.remove id kept },
        )
      ]
