-- ===== src/Anthropic/Stream/Context/Finish.antt =====
-- src/anthropic/stream.rs: the end of a stream.
use kiro_rs_tool.Prelude.{
  ℕ, Bool, true, false, not, ◌&&◌, Option, none, some, List, [], ◌∷◌, ◌++◌, if◌then◌else◌,
}
use kiro_rs_tool.Prelude.Text.{codes, decimal}
use kiro_rs_tool.Anthropic.Json.{string, object, field, no_fields}
use kiro_rs_tool.Anthropic.Sse
use kiro_rs_tool.Anthropic.Sse.{SseEvent, has_non_thinking_blocks, set_stop_reason}
use kiro_rs_tool.Anthropic.Stream.Platform.{Platform}
use kiro_rs_tool.Anthropic.Stream.Thinking.{find_real_thinking_end_tag_at_buffer_end}
use kiro_rs_tool.Anthropic.Stream.ToolJson
use kiro_rs_tool.Anthropic.Stream.ToolJson.{
  ToolJsonAccumulatorError, invalid_json, incomplete_json, CompletedToolUse, ToolResult, done,
  failed,
}
use kiro_rs_tool.Anthropic.Stream.XmlFilter
use kiro_rs_tool.Anthropic.Stream.Context.{Emit, nothing, modify, send, ◌>>◌, when}
use kiro_rs_tool.Anthropic.Stream.Context.Blocks.{
  think, create_text_delta_events, stop_thinking, close_reasoning_if_open, emit_completed_tool_use,
  resolved_usage,
}
use kiro_rs_tool.Anthropic.Stream.Context.Content.{
  send_some_text, with_buffer, after_thinking, text_after_thinking,
}
use kiro_rs_tool.Anthropic.Stream.Context.Process.{
  stop_with, with_tool_error, process_text, end_at_buffer_end,
}

unfoldable pub message : ToolJsonAccumulatorError → List ℕ
message (invalid_json id name text) =
    codes "Upstream returned invalid JSON for tool_use "
    ++ (id ++ (codes " (" ++ (name ++ (codes "): " ++ text))))
message (incomplete_json id name bytes) =
    codes "Upstream ended before completing tool_use "
    ++ (id
        ++ (codes " ("
            ++ (name
                ++ (codes ") JSON input; buffered "
                    ++ (codes (decimal bytes)
                        ++ codes " bytes. The tool call was not forwarded to the client.")))))

unfoldable pub error_event : ToolJsonAccumulatorError → SseEvent
unfolding message
error_event e = record {
  event = "error";
  body = object (
      field "type" (string (codes "error")) (
        field "error"
          (object (
            field "type" (string (codes "upstream_tool_json_error"))
              (field "message" (string (message e)) no_fields)))
          no_fields));
}

-- White space is dropped from the text behind the thinking block, and the buffer is emptied last.
unfoldable pub flush_text : Emit
unfolding after_thinking send_some_text
flush_text c = send_some_text (text_after_thinking c) (after_thinking c)

unfoldable pub flush_thinking : Option (List ℕ × List ℕ) → Emit
unfolding ◌>>◌ end_at_buffer_end
flush_thinking (some found) = end_at_buffer_end (some found)
flush_thinking none = (λ c. think c.thinking_buffer c) >> stop_thinking

unfoldable pub flush_some : List ℕ → Emit
unfolding ◌>>◌ flush_text flush_thinking find_real_thinking_end_tag_at_buffer_end
flush_some [] = nothing
flush_some (x ∷ xs) =
    (λ c.
      if c.in_thinking_block
      then flush_thinking (find_real_thinking_end_tag_at_buffer_end (x ∷ xs)) c
      else flush_text c)
    >> modify (with_buffer [])

unfoldable pub flush_buffer : Emit
unfolding flush_some
flush_buffer c = when c.thinking_enabled (flush_some c.thinking_buffer) c

abbrev pub is_some {ℓ} : {A : Type ℓ} → Option A → Bool
is_some none = false
is_some (some a) = true

-- A message of nothing but thinking gets a text.
unfoldable pub add_missing_text : Emit
unfolding ◌>>◌ has_non_thinking_blocks set_stop_reason create_text_delta_events
add_missing_text c =
    when
      (c.thinking_enabled
        && (is_some c.thinking_block_index && not (has_non_thinking_blocks c.state_manager)))
      (stop_with "max_tokens" >> create_text_delta_events (codes " ")) c

unfoldable pub finish_filter : Emit
unfolding process_text XmlFilter.finish
finish_filter c =
    let (text, filter) = XmlFilter.finish c.tool_use_xml_filter in
    process_text text (record c { tool_use_xml_filter = filter })

module _ (p : Platform) where
  unfoldable pub emit_all : List CompletedToolUse → Emit
  unfolding ◌>>◌ emit_completed_tool_use
  emit_all [] = nothing
  emit_all (t ∷ ts) = emit_completed_tool_use p t >> emit_all ts

  unfoldable pub finished_tools : ToolResult (List CompletedToolUse) → Emit
  unfolding ◌>>◌ emit_all set_stop_reason
  finished_tools (done pending) = emit_all pending
  finished_tools (failed e) = modify (with_tool_error e) >> stop_with "error"

  unfoldable pub finish_tools : Option ToolJsonAccumulatorError → Emit
  unfolding finished_tools ToolJson.finish
  finish_tools (some e) c = nothing c
  finish_tools none c =
      let (result, acc) = ToolJson.finish p c.tool_name_map c.tool_json_accumulator in
      finished_tools result (record c { tool_json_accumulator = acc })

  unfoldable pub end_message : Emit
  unfolding Sse.generate_final_events resolved_usage
  end_message c =
      let (input_tokens, creation, read) = resolved_usage p c in
      let (es, m) = Sse.generate_final_events c.state_manager (record {
        input_tokens = input_tokens;
        output_tokens = c.output_tokens;
        cache_creation_input_tokens = creation;
        cache_read_input_tokens = read;
      }) in
      (es, record c { state_manager = m })

  unfoldable pub end_stream : Option ToolJsonAccumulatorError → Emit
  unfolding ◌>>◌ close_reasoning_if_open end_message error_event flush_buffer add_missing_text
  end_stream (some e) = close_reasoning_if_open >> end_message >> send (error_event e)
  end_stream none = close_reasoning_if_open >> flush_buffer >> add_missing_text >> end_message

  unfoldable pub generate_final_events : Emit
  unfolding ◌>>◌ finish_tools finish_filter end_stream
  generate_final_events =
      (λ c. finish_tools c.tool_json_error c)
      >> finish_filter
      >> (λ c. end_stream c.tool_json_error c)
