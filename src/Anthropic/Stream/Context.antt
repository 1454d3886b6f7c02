-- ===== src/Anthropic/Stream/Context.antt =====
-- src/anthropic/stream.rs: the state of `StreamContext`, how its methods send events, and the bodies
-- of the events. A method takes the state to the events that it sends and the next state. A token
-- count, `i32` in the code, is a number, and credits are the 64 bits of a floating point number.
pub mod Run
pub mod Blocks
pub mod Ready
pub mod Quiet
pub mod Thought
pub mod Loop
pub mod Tools
pub mod Events
pub mod End
pub mod Fuel
pub mod Content
pub mod Process
pub mod Finish
use kiro_rs_tool.Prelude.{
  ℕ, ◌+◌, String, Bool, true, false, not, ◌&&◌, Option, none, some, List, [], ◌∷◌, ◌++◌,
  if◌then◌else◌,
}
use kiro_rs_tool.Prelude.Map
use kiro_rs_tool.Prelude.Map.{bytes_eq}
use kiro_rs_tool.Prelude.Text.{codes}
use kiro_rs_tool.Anthropic.Json.{
  Json, null, number, string, array, object, field, no_fields, no_items,
}
use kiro_rs_tool.Anthropic.Sse
use kiro_rs_tool.Anthropic.Sse.{
  SseEvent, SseStateManager, take_block_index, is_block_open_of_type, handle_message_start,
  handle_content_block_start, handle_content_block_delta, handle_content_block_stop,
}
use kiro_rs_tool.Prelude.Int.{pos}
use kiro_rs_tool.Anthropic.CacheMetering.Split.{CacheUsage}
use kiro_rs_tool.Anthropic.Stream.Platform.{Platform}
use kiro_rs_tool.Anthropic.Stream.ToolJson
use kiro_rs_tool.Anthropic.Stream.ToolJson.{
  ToolJsonAccumulator, ToolJsonAccumulatorError, CompletedToolUse,
}
use kiro_rs_tool.Anthropic.Stream.Tokens.{estimate_tokens}
use kiro_rs_tool.Anthropic.Stream.XmlFilter
use kiro_rs_tool.Anthropic.Stream.XmlFilter.{ToolUseXmlLeakFilter}

pub record StreamContext : Type 0 where
  pub state_manager : SseStateManager
  pub model : String
  pub message_id : List ℕ
  pub input_tokens : ℕ
  pub context_input_tokens : Option ℕ
  pub output_tokens : ℕ
  pub tool_block_indices : List (List ℕ × ℕ)
  pub tool_name_map : List (List ℕ × List ℕ)
  pub thinking_enabled : Bool
  pub thinking_buffer : List ℕ
  pub in_thinking_block : Bool
  pub thinking_extracted : Bool
  pub thinking_block_index : Option ℕ
  pub reasoning_block_open : Bool
  pub text_block_index : Option ℕ
  pub strip_thinking_leading_newline : Bool
  pub strip_text_after_thinking_boundary : Bool
  pub cache_usage : CacheUsage
  pub credits : ℕ
  pub tool_json_accumulator : ToolJsonAccumulator
  pub tool_json_error : Option ToolJsonAccumulatorError
  pub tool_use_xml_filter : ToolUseXmlLeakFilter

-- `id` is the message identifier, made of a random UUID.
unfoldable pub new_with_thinking :
    List ℕ → String → ℕ → Bool → List (List ℕ × List ℕ) → StreamContext
unfolding Sse.new ToolJson.new XmlFilter.new
new_with_thinking id model input_tokens thinking_enabled tool_name_map = record {
  state_manager = Sse.new;
  model = model;
  message_id = id;
  input_tokens = input_tokens;
  context_input_tokens = none;
  output_tokens = 0;
  tool_block_indices = [];
  tool_name_map = tool_name_map;
  thinking_enabled = thinking_enabled;
  thinking_buffer = [];
  in_thinking_block = false;
  thinking_extracted = false;
  thinking_block_index = none;
  reasoning_block_open = false;
  text_block_index = none;
  strip_thinking_leading_newline = false;
  strip_text_after_thinking_boundary = false;
  cache_usage = record { cache_read = pos 0; cache_covered_est = pos 0; prompt_total_est = pos 0 };
  credits = 0;
  tool_json_accumulator = ToolJson.new;
  tool_json_error = none;
  tool_use_xml_filter = XmlFilter.new;
}

-- A method that sends events.
abbrev pub Emit : Type 0
Emit = StreamContext → List SseEvent × StreamContext

abbrev pub nothing : Emit
nothing c = ([], c)

abbrev pub modify : (StreamContext → StreamContext) → Emit
modify f c = ([], f c)

abbrev pub send : SseEvent → Emit
send e c = (e ∷ [], c)

infixr 40 ◌>>◌
unfoldable pub ◌>>◌ : Emit → Emit → Emit
(f >> g) c = let (es, c') = f c in let (es', c'') = g c' in (es ++ es', c'')

abbrev pub when : Bool → Emit → Emit
when true f = f
when false f = nothing

abbrev pub to_list {ℓ} : {A : Type ℓ} → Option A → List A
to_list none = []
to_list (some a) = a ∷ []

abbrev with_manager :
    StreamContext → List SseEvent × SseStateManager → List SseEvent × StreamContext
with_manager c (es, m) = (es, record c { state_manager = m })

-- Calls of the state manager.
unfoldable pub start_block_at : ℕ → String → Json → Emit
start_block_at index block_type body c =
    with_manager c (handle_content_block_start c.state_manager index block_type body)

unfoldable pub delta_at : ℕ → Json → Emit
delta_at index body c = (to_list (handle_content_block_delta c.state_manager index body), c)

unfoldable pub stop_block_at : ℕ → Emit
stop_block_at index c =
    let (e, m) = handle_content_block_stop c.state_manager index in
    (to_list e, record c { state_manager = m })

-- `let index = self.state_manager.next_block_index()`
unfoldable pub with_next_index : (ℕ → Emit) → Emit
unfolding take_block_index
with_next_index f c =
    let (index, m) = take_block_index c.state_manager in f index (record c { state_manager = m })

abbrev pub usage_body : ℕ → ℕ → ℕ × ℕ → Json
usage_body input_tokens output_tokens (creation, read) = object (
    field "input_tokens" (number input_tokens) (
      field "output_tokens" (number output_tokens) (
        field "cache_creation_input_tokens" (number creation)
          (field "cache_read_input_tokens" (number read) no_fields))))

abbrev start_body : ℕ → Json → Json
start_body index block = object (
    field "type" (string (codes "content_block_start"))
      (field "index" (number index) (field "content_block" block no_fields)))

abbrev delta_body : ℕ → Json → Json
delta_body index delta = object (
    field "type" (string (codes "content_block_delta"))
      (field "index" (number index) (field "delta" delta no_fields)))

abbrev typed : String → String → List ℕ → Json
typed kind name text =
    object (field "type" (string (codes kind)) (field name (string text) no_fields))

abbrev pub text_start : ℕ → Json
text_start index = start_body index (typed "text" "text" [])

abbrev pub thinking_start : ℕ → Json
thinking_start index = start_body index (typed "thinking" "thinking" [])

abbrev pub redacted_start : ℕ → List ℕ → Json
redacted_start index redacted = start_body index (typed "redacted_thinking" "data" redacted)

abbrev pub tool_start : ℕ → List ℕ → List ℕ → Json
tool_start index id name = start_body index (
    object (
      field "type" (string (codes "tool_use")) (
        field "id" (string id)
          (field "name" (string name) (field "input" (object no_fields) no_fields)))))

abbrev pub text_delta : ℕ → List ℕ → Json
text_delta index text = delta_body index (typed "text_delta" "text" text)

abbrev pub tool_delta : ℕ → List ℕ → Json
tool_delta index text = delta_body index (typed "input_json_delta" "partial_json" text)

-- The deltas that are sent past the state manager.
unfoldable pub create_thinking_delta_event : ℕ → List ℕ → SseEvent
create_thinking_delta_event index thinking = record {
  event = "content_block_delta";
  body = delta_body index (typed "thinking_delta" "thinking" thinking);
}

unfoldable pub create_signature_delta_event : ℕ → SseEvent
create_signature_delta_event index = record {
  event = "content_block_delta";
  body =
      delta_body index (typed "signature_delta" "signature" (codes "kiro-rs-thinking-signature"));
}
