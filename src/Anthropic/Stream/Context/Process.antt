-- ===== src/Anthropic/Stream/Context/Process.antt =====
-- src/anthropic/stream.rs: what `StreamContext` does with each event of the service.
use kiro_rs_tool.Prelude.{
  ℕ, String, true, false, not, ◌&&◌, Option, none, some, List, [], ◌∷◌, if◌then◌else◌,
}
use kiro_rs_tool.Prelude.Map.{string_eq}
use kiro_rs_tool.Prelude.Chars.{trim_start}
use kiro_rs_tool.Anthropic.Converter.{get_context_window_size}
use kiro_rs_tool.Anthropic.Sse.{set_stop_reason, set_has_tool_use, is_block_open_of_type}
use kiro_rs_tool.Anthropic.Stream.Platform.{Platform}
use kiro_rs_tool.Anthropic.Stream.Event.{
  Event, ReasoningContentEvent, assistant_response, code, tool_use, metering, context_usage,
  reasoning_content, unknown, error, exception,
}
use kiro_rs_tool.Anthropic.Stream.Thinking.{find_real_thinking_end_tag_at_buffer_end}
use kiro_rs_tool.Anthropic.Stream.ToolJson
use kiro_rs_tool.Anthropic.Stream.ToolJson.{
  ToolUseEvent, CompletedToolUse, ToolJsonAccumulatorError, ToolResult, done, failed,
}
use kiro_rs_tool.Anthropic.Stream.XmlFilter
use kiro_rs_tool.Anthropic.Stream.Context.{
  StreamContext, Emit, nothing, modify, ◌>>◌, when, with_next_index, start_block_at, stop_block_at,
  thinking_start, redacted_start,
}
use kiro_rs_tool.Anthropic.Stream.Context.Blocks.{
  create_text_delta_events, send_some_thinking, close_text_if_open, close_reasoning_if_open,
  count_output, emit_completed_tool_use,
}
use kiro_rs_tool.Anthropic.Stream.Context.Content.{
  send_some_text, with_buffer, end_thinking, process_content_with_thinking,
}

abbrev pub with_reason : String → StreamContext → StreamContext
with_reason reason c = record c { state_manager = set_stop_reason c.state_manager reason }

abbrev pub stop_with : String → Emit
stop_with reason = modify (with_reason reason)

abbrev pub using_tools : StreamContext → StreamContext
using_tools c = record c { state_manager = set_has_tool_use c.state_manager true }

abbrev pub with_tool_error : ToolJsonAccumulatorError → StreamContext → StreamContext
with_tool_error e c = record c { tool_json_error = some e }

-- Text that is not empty is counted and sent.
unfoldable pub process_text : List ℕ → Emit
unfolding ◌>>◌ count_output process_content_with_thinking create_text_delta_events
process_text [] = nothing
process_text (x ∷ xs) = count_output (x ∷ xs) >> (λ c.
    if c.thinking_enabled
    then process_content_with_thinking (x ∷ xs) c
    else create_text_delta_events (x ∷ xs) c)

unfoldable pub process_assistant_response : List ℕ → Emit
unfolding process_text XmlFilter.filter
process_assistant_response content c =
    let (text, filter) = XmlFilter.filter c.tool_use_xml_filter content in
    process_text text (record c { tool_use_xml_filter = filter })

abbrev pub extracted : StreamContext → StreamContext
extracted c = record c { thinking_extracted = true }

unfoldable pub send_redacted : List ℕ → Emit
unfolding ◌>>◌ close_reasoning_if_open close_text_if_open with_next_index start_block_at
    stop_block_at
send_redacted redacted =
    close_reasoning_if_open
    >> close_text_if_open
    >> with_next_index (λ index.
      start_block_at index "redacted_thinking" (redacted_start index redacted)
      >> stop_block_at index)
    >> modify extracted

-- An open thinking block is taken over.
unfoldable pub with_thinking_index : Option ℕ → (ℕ → Emit) → Emit
unfolding with_next_index
with_thinking_index none f c = with_next_index f c
with_thinking_index (some index) f c =
    if is_block_open_of_type c.state_manager index "thinking"
    then f index c
    else with_next_index f c

abbrev pub reasoning_at : ℕ → StreamContext → StreamContext
reasoning_at index c = record c {
  thinking_block_index = some index;
  reasoning_block_open = true;
  in_thinking_block = false;
  thinking_extracted = true;
}

unfoldable pub open_reasoning_at : ℕ → Emit
unfolding ◌>>◌ start_block_at
open_reasoning_at index =
    modify (reasoning_at index) >> start_block_at index "thinking" (thinking_start index)

unfoldable pub open_reasoning : Emit
unfolding ◌>>◌ close_text_if_open with_thinking_index open_reasoning_at
open_reasoning =
    close_text_if_open >> (λ c. with_thinking_index c.thinking_block_index open_reasoning_at c)

unfoldable pub send_reasoning_text : List ℕ → Emit
unfolding ◌>>◌ count_output send_some_thinking
send_reasoning_text [] = nothing
send_reasoning_text (x ∷ xs) = count_output (x ∷ xs) >> send_some_thinking (x ∷ xs)

unfoldable pub send_reasoning : List ℕ → Emit
unfolding ◌>>◌ open_reasoning send_reasoning_text
send_reasoning text =
    (λ c. when (not c.reasoning_block_open) open_reasoning c) >> send_reasoning_text text

unfoldable pub reasoning_in : Option (List ℕ) → List ℕ → Emit
unfolding send_redacted send_reasoning
reasoning_in none text = send_reasoning text
reasoning_in (some []) text = send_reasoning text
reasoning_in (some (x ∷ xs)) text = send_redacted (x ∷ xs)

unfoldable pub process_reasoning_content : ReasoningContentEvent → Emit
unfolding reasoning_in
process_reasoning_content r c = when c.thinking_enabled (reasoning_in r.redacted_content r.text) c

-- An end tag at the end of the buffer, which no further text follows.
unfoldable pub end_at_buffer_end : Option (List ℕ × List ℕ) → Emit
unfolding ◌>>◌ end_thinking send_some_text trim_start
end_at_buffer_end none = nothing
end_at_buffer_end (some (thinking, after)) =
    end_thinking thinking >> modify (with_buffer []) >> send_some_text (trim_start after)

unfoldable pub end_thinking_before_tool : Emit
unfolding end_at_buffer_end find_real_thinking_end_tag_at_buffer_end
end_thinking_before_tool c =
    when (c.thinking_enabled && c.in_thinking_block)
      (λ c. end_at_buffer_end (find_real_thinking_end_tag_at_buffer_end c.thinking_buffer) c) c

unfoldable pub flush_before_tool : Emit
unfolding send_some_text
flush_before_tool c =
    when (c.thinking_enabled && (not c.in_thinking_block && not c.thinking_extracted))
      (λ c. send_some_text c.thinking_buffer (record c { thinking_buffer = [] })) c

module _ (p : Platform) where
  unfoldable pub pushed : ToolResult (Option CompletedToolUse) → Emit
  unfolding ◌>>◌ emit_completed_tool_use set_stop_reason
  pushed (done none) = nothing
  pushed (done (some t)) = emit_completed_tool_use p t
  pushed (failed e) = modify (with_tool_error e) >> stop_with "error"

  unfoldable pub push_tool_use : ToolUseEvent → Emit
  unfolding pushed ToolJson.push
  push_tool_use t c =
      let (result, acc) = ToolJson.push p c.tool_name_map c.tool_json_accumulator t in
      pushed result (record c { tool_json_accumulator = acc })

  unfoldable pub process_tool_use : ToolUseEvent → Emit
  unfolding ◌>>◌ set_has_tool_use end_thinking_before_tool flush_before_tool push_tool_use
  process_tool_use t =
      modify using_tools >> end_thinking_before_tool >> flush_before_tool >> push_tool_use t

  abbrev pub with_context : ℕ → StreamContext → StreamContext
  with_context percentage c = record c {
    context_input_tokens = some (p.context_tokens percentage (get_context_window_size c.model));
  }

  unfoldable pub process_context_usage : ℕ → Emit
  unfolding ◌>>◌ get_context_window_size set_stop_reason
  process_context_usage percentage =
      modify (with_context percentage)
      >> when (p.is_full percentage) (stop_with "model_context_window_exceeded")

  abbrev pub with_credits : ℕ → StreamContext → StreamContext
  with_credits usage c = record c { credits = p.add_float c.credits usage }

  unfoldable pub process_kiro_event : Event → Emit
  unfolding ◌>>◌ close_reasoning_if_open process_assistant_response process_tool_use
      process_reasoning_content process_context_usage set_stop_reason
  process_kiro_event (assistant_response content) =
      close_reasoning_if_open >> process_assistant_response content
  process_kiro_event (code content) = close_reasoning_if_open >> process_assistant_response content
  process_kiro_event (tool_use t) = close_reasoning_if_open >> process_tool_use t
  process_kiro_event (reasoning_content r) = process_reasoning_content r
  process_kiro_event (context_usage percentage) = process_context_usage percentage
  process_kiro_event (metering usage) = modify (with_credits usage)
  process_kiro_event (exception kind message) =
      when (string_eq.beq kind "ContentLengthExceededException") (stop_with "max_tokens")
  process_kiro_event (error error_code message) = nothing
  process_kiro_event unknown = nothing
