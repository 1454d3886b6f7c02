-- ===== src/Tests/Sse.antt =====
-- src/anthropic/stream.rs: runs of the state manager.
use kiro_rs_tool.Prelude.{◌≤◌, ◌≡◌, refl, true, false, none, List, [], ◌∷◌, any}
use kiro_rs_tool.Anthropic.Json.{null}
use kiro_rs_tool.Anthropic.Sse.{
  SseStateManager, Usage, is_open, before_block, handle_content_block_start,
  handle_content_block_delta, handle_content_block_stop, generate_final_events,
}
use kiro_rs_tool.Anthropic.Sse.Status.{
  Call, block_start, block_stop, final, message_start, run, is_done, run_after_stop,
}
use kiro_rs_tool.Anthropic.Sse.Final.{generate_final_events_once}
use kiro_rs_tool.Anthropic.Sse.Trace.{trace, count, trace_once}

abbrev usage : Usage
usage = record {
  input_tokens = 10;
  output_tokens = 2;
  cache_creation_input_tokens = 0;
  cache_read_input_tokens = 0;
}

-- A text block at index 0 that has been stopped, and a thinking block at index 1 that is open.
abbrev half : SseStateManager
half = record {
  message_started = true;
  message_delta_sent = false;
  active_blocks =
      (0, record { block_type = "text"; started = true; stopped = true })
      ∷ (1, record { block_type = "thinking"; started = true; stopped = false })
      ∷ [];
  message_ended = false;
  next_block_index = 2;
  stop_reason = none;
  has_tool_use = false;
}

abbrev later : List Call
later = block_start 2 "tool_use" null ∷ block_stop 1 ∷ final usage ∷ []

text_done : is_done half 0 ≡ true
unfolding is_done
text_done = refl

run_after_stop_example :
    (handle_content_block_delta (run later half) 0 null ≡ none)
    × (handle_content_block_stop (run later half) 0 ≡ (none, run later half))
    × (handle_content_block_start (run later half) 0 "text" null
        ≡ before_block (run later half) "text")
run_after_stop_example = run_after_stop later half 0 "text" null text_done

generate_final_events_once_example :
    (any (λ p. is_open p.1) (generate_final_events half usage).1.active_blocks ≡ false)
    × (handle_content_block_delta (generate_final_events half usage).1 1 null ≡ none)
    × (generate_final_events (generate_final_events half usage).1 usage
        ≡ ([], (generate_final_events half usage).1))
generate_final_events_once_example = generate_final_events_once half usage usage 1 null

abbrev twice : List Call
twice = message_start null ∷ message_start null ∷ final usage ∷ final usage ∷ []

trace_once_example :
    (count "message_start" (trace twice half) ≤ 0)
    × (count "message_delta" (trace twice half) ≤ 1)
    × (count "message_stop" (trace twice half) ≤ 1)
trace_once_example = trace_once twice half
