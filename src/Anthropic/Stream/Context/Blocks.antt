-- ===== src/Anthropic/Stream/Context/Blocks.antt =====
-- src/anthropic/stream.rs: the methods of `StreamContext` that send the events of one block.
use kiro_rs_tool.Prelude.{
  ℕ, ◌+◌, true, false, not, Option, none, some, List, [], ◌∷◌, if◌then◌else◌,
}
use kiro_rs_tool.Prelude.Map
use kiro_rs_tool.Prelude.Map.{bytes_eq}
use kiro_rs_tool.Prelude.Text.{codes}
use kiro_rs_tool.Anthropic.Json.{Json, null, string, array, object, field, no_fields, no_items}
use kiro_rs_tool.Anthropic.Sse.{SseStateManager, is_block_open_of_type, handle_message_start}
use kiro_rs_tool.Prelude.Int.{pos}
use kiro_rs_tool.Anthropic.CacheMetering.Split.{split_against_total}
use kiro_rs_tool.Anthropic.Stream.Platform.{Platform}
use kiro_rs_tool.Anthropic.Stream.ToolJson.{CompletedToolUse}
use kiro_rs_tool.Anthropic.Stream.Tokens.{estimate_tokens}
use kiro_rs_tool.Anthropic.Stream.Context.{
  StreamContext, Emit, nothing, modify, send, ◌>>◌, when, to_list, start_block_at, delta_at,
  stop_block_at, with_next_index, usage_body, text_start, tool_start, text_delta, tool_delta,
  create_thinking_delta_event, create_signature_delta_event,
}

-- The start of the message, with the usage.
unfoldable pub message_start_body : StreamContext → ℕ × ℕ × ℕ → Json
message_start_body c (input_tokens, creation, read) = object (
    field "type" (string (codes "message_start")) (
      field "message"
        (object (
          field "id" (string c.message_id) (
            field "type" (string (codes "message")) (
              field "role" (string (codes "assistant")) (
                field "content" (array no_items) (
                  field "model" (string (codes c.model)) (
                    field "stop_reason" null (
                      field "stop_sequence" null (
                        field "usage" (usage_body input_tokens 1 (creation, read))
                          no_fields)))))))))
        no_fields))

module _ (p : Platform) where
  unfoldable pub resolved_usage : StreamContext → ℕ × ℕ × ℕ
  resolved_usage c =
      split_against_total p.shares c.cache_usage
        (pos (elim c.context_input_tokens [ none ↦ c.input_tokens | some total ↦ total ]))

  unfoldable pub create_message_start_event : StreamContext → Json
  unfolding message_start_body
  create_message_start_event c =
      message_start_body c (split_against_total p.shares c.cache_usage (pos c.input_tokens))

  unfoldable pub send_message_start : Emit
  unfolding create_message_start_event
  send_message_start c =
      let (e, m) = handle_message_start c.state_manager (create_message_start_event c) in
      (to_list e, record c { state_manager = m })

-- A text block is started, and is the one that text is sent to.
unfoldable pub start_text : Emit
unfolding start_block_at ◌>>◌ with_next_index
start_text = with_next_index (λ index.
    modify (λ c. record c { text_block_index = some index })
    >> start_block_at index "text" (text_start index))

module _ (p : Platform) where
  unfoldable pub generate_initial_events : Emit
  unfolding ◌>>◌ start_text send_message_start
  generate_initial_events c = (send_message_start p >> when (not c.thinking_enabled) start_text) c

-- A text block that has been stopped is forgotten.
unfoldable pub still_open : Option ℕ → SseStateManager → Option ℕ
unfolding is_block_open_of_type
still_open none m = none
still_open (some index) m = if is_block_open_of_type m index "text" then some index else none

unfoldable pub forget_stopped_text : StreamContext → StreamContext
unfolding still_open
forget_stopped_text c = record c {
  text_block_index = still_open c.text_block_index c.state_manager;
}

unfoldable pub ensure_text : Option ℕ → Emit
unfolding start_text
ensure_text none = start_text
ensure_text (some index) = nothing

unfoldable pub send_text_delta : Option ℕ → List ℕ → Emit
unfolding delta_at
send_text_delta none text = nothing
send_text_delta (some index) text = delta_at index (text_delta index text)

unfoldable pub create_text_delta_events : List ℕ → Emit
unfolding ◌>>◌ forget_stopped_text ensure_text send_text_delta
create_text_delta_events text =
    modify forget_stopped_text
    >> (λ c. ensure_text c.text_block_index c)
    >> (λ c. send_text_delta c.text_block_index text c)

-- A delta for the thinking block, if there is one.
unfoldable pub send_thinking : Option ℕ → List ℕ → Emit
unfolding create_thinking_delta_event
send_thinking none text = nothing
send_thinking (some index) text = send (create_thinking_delta_event index text)

abbrev pub think : List ℕ → Emit
think text c = send_thinking c.thinking_block_index text c

unfoldable pub send_some_thinking : List ℕ → Emit
unfolding send_thinking
send_some_thinking [] = nothing
send_some_thinking (x ∷ xs) = think (x ∷ xs)

-- The empty delta, the signature and the stop that end a thinking block.
unfoldable pub stop_thinking_at : Option ℕ → Emit
unfolding ◌>>◌ create_thinking_delta_event create_signature_delta_event stop_block_at
stop_thinking_at none = nothing
stop_thinking_at (some index) =
    send (create_thinking_delta_event index [])
    >> send (create_signature_delta_event index)
    >> stop_block_at index

abbrev pub stop_thinking : Emit
stop_thinking c = stop_thinking_at c.thinking_block_index c

unfoldable pub close_text_at : Option ℕ → Emit
unfolding stop_block_at
close_text_at none c = nothing c
close_text_at (some index) c =
    when (is_block_open_of_type c.state_manager index "text") (stop_block_at index) c

unfoldable pub close_text_if_open : Emit
unfolding close_text_at
close_text_if_open c = close_text_at c.text_block_index c

abbrev pub leave_reasoning : StreamContext → StreamContext
leave_reasoning c = record c { reasoning_block_open = false; thinking_extracted = true }

unfoldable pub close_reasoning_if_open : Emit
unfolding ◌>>◌ stop_thinking_at
close_reasoning_if_open c = when c.reasoning_block_open (stop_thinking >> modify leave_reasoning) c

unfoldable pub count_output : List ℕ → Emit
unfolding estimate_tokens
count_output text =
    modify (λ c. record c { output_tokens = c.output_tokens + estimate_tokens text })

-- `get_or_insert` of the index of the block of a tool call.
unfoldable pub tool_index : Option ℕ → List ℕ → (ℕ → Emit) → Emit
unfolding ◌>>◌ with_next_index
tool_index (some index) id f = f index
tool_index none id f = with_next_index (λ index.
    modify (λ c. record c { tool_block_indices = Map.insert id index c.tool_block_indices })
    >> f index)

module _ (p : Platform) where
  unfoldable pub emit_tool_block : CompletedToolUse → ℕ → Emit
  unfolding ◌>>◌ start_block_at count_output delta_at stop_block_at
  emit_tool_block t index =
      start_block_at index "tool_use" (tool_start index t.id t.name)
      >> count_output (p.print_json t.input)
      >> delta_at index (tool_delta index (p.print_json t.input))
      >> stop_block_at index

  unfoldable pub emit_completed_tool_use : CompletedToolUse → Emit
  unfolding tool_index emit_tool_block
  emit_completed_tool_use t c =
      tool_index (Map.lookup t.id c.tool_block_indices) t.id (emit_tool_block t) c
