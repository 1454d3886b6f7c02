-- ===== src/Anthropic/Stream/Context/End.antt =====
-- src/anthropic/stream.rs: the end of a stream, as a client sees it.
use kiro_rs_tool.Prelude.{ℕ, ◌≡◌, refl, true, not, ◌&&◌, Option, none, some, List, [], ◌∷◌, arith}
use kiro_rs_tool.Prelude.Text.{codes}
use kiro_rs_tool.Anthropic.Protocol.{accept_all}
use kiro_rs_tool.Anthropic.Sse.{has_non_thinking_blocks}
use kiro_rs_tool.Anthropic.Sse.Sound.{Sound, Advance}
use kiro_rs_tool.Anthropic.Sse.Ending.{final-Sound}
use kiro_rs_tool.Anthropic.Stream.Platform.{Platform}
use kiro_rs_tool.Anthropic.Stream.Thinking.{find_real_thinking_end_tag_at_buffer_end}
use kiro_rs_tool.Anthropic.Stream.ToolJson
use kiro_rs_tool.Anthropic.Stream.ToolJson.{
  CompletedToolUse, ToolJsonAccumulatorError, ToolResult, done, failed,
}
use kiro_rs_tool.Anthropic.Stream.XmlFilter
use kiro_rs_tool.Anthropic.Stream.Context.{StreamContext, Emit, modify, send, ◌>>◌}
use kiro_rs_tool.Anthropic.Stream.Context.Blocks.{
  think, stop_thinking, create_text_delta_events, close_reasoning_if_open, emit_completed_tool_use,
}
use kiro_rs_tool.Anthropic.Stream.Context.Content.{
  send_some_text, with_buffer, after_thinking, text_after_thinking,
}
use kiro_rs_tool.Anthropic.Stream.Context.Process.{stop_with, with_tool_error}
use kiro_rs_tool.Anthropic.Stream.Context.Finish.{
  error_event, flush_text, flush_thinking, flush_some, flush_buffer, is_some, add_missing_text,
  finish_filter, emit_all, finished_tools, finish_tools, end_message, end_stream,
  generate_final_events,
}
use kiro_rs_tool.Anthropic.Stream.Context.Ready.{
  is_sound, is_ready, Triple, Triple-seq, Quiet, AlwaysQuiet, Quiet-sound, Quiet_seq,
}
use kiro_rs_tool.Anthropic.Stream.Context.Quiet.{create_text-Quiet}
use kiro_rs_tool.Anthropic.Stream.Context.Thought.{
  Property, modify-Triple, nothing-Triple, if-Triple, weaken, read-Triple, think-Triple, is_in,
  is_in-OpenIn, close_reasoning-Triple, stop_thinking_at-Sound,
}
use kiro_rs_tool.Anthropic.Stream.Context.Loop.{
  send_some_text-Triple, with_buffer-Triple, when_then, when-Quiet,
}
use kiro_rs_tool.Anthropic.Stream.Context.Tools.{emit_completed-Triple}
use kiro_rs_tool.Anthropic.Stream.Context.Events.{
  Keeps, Keeps-seq, process_text-Keeps, end_at_buffer_end-Triple, stop_with-Keeps, stop_with-Quiet,
}

emit_all-Keeps : (p : Platform) (ts : List CompletedToolUse) → Keeps (emit_all p ts)
unfolding emit_all
emit_all-Keeps p [] = nothing-Triple is_ready is_ready (λ c h. h)
emit_all-Keeps p (t ∷ ts) =
    Keeps-seq (emit_completed_tool_use p t) (emit_all p ts) (emit_completed-Triple p t)
      (emit_all-Keeps p ts)

finished_tools-Keeps :
    (p : Platform) (r : ToolResult (List CompletedToolUse)) → Keeps (finished_tools p r)
unfolding finished_tools
finished_tools-Keeps p (done ts) = emit_all-Keeps p ts
finished_tools-Keeps p (failed e) =
    Keeps-seq (modify (with_tool_error e)) (stop_with "error")
      (modify-Triple is_ready is_ready (with_tool_error e) (λ c. refl) (λ c h. h))
      (stop_with-Keeps "error")

finish_tools-Keeps : (p : Platform) (o : Option ToolJsonAccumulatorError) → Keeps (finish_tools p o)
unfolding finish_tools Triple
finish_tools-Keeps p (some e) c h = nothing-Triple is_ready is_ready (λ c h. h) c h
finish_tools-Keeps p none c h =
    let r = ToolJson.finish p c.tool_name_map c.tool_json_accumulator in
    finished_tools-Keeps p r.0 (record c { tool_json_accumulator = r.1 }) h

finish_filter-Keeps : Keeps finish_filter
unfolding finish_filter Triple
finish_filter-Keeps c h =
    let r = XmlFilter.finish c.tool_use_xml_filter in
    process_text-Keeps r.0 (record c { tool_use_xml_filter = r.1 }) h

AlwaysQuiet-sound : (f : Emit) → AlwaysQuiet f → Triple is_sound f is_sound
unfolding AlwaysQuiet Triple Quiet Advance
AlwaysQuiet-sound f q c h =
    let quiet = q c (ground arith) in (quiet.0.0, (Quiet-sound c (f c) h quiet).0)

stop_thinking_sound : Triple is_in stop_thinking is_sound
unfolding Triple
stop_thinking_sound c h =
    let (s, sound, i, r) =
      stop_thinking_at-Sound c.thinking_block_index c (ground arith) (ground arith) in
    (s, sound)

strengthen :
    (P Q Q' : Property) (f : Emit)
    → Triple P f Q
    → ((c : StreamContext) → Q c ≡ true → Q' c ≡ true)
    → Triple P f Q'
unfolding Triple
strengthen P Q Q' f hf to c h = let (s, q) = hf c h in (s, to (f c).1 q)

Keeps-sound : (f : Emit) → Keeps f → Triple is_ready f is_sound
Keeps-sound f h = strengthen is_ready is_ready is_sound f h (λ c h. ground arith)

flush_thinking-Triple : (o : Option (List ℕ × List ℕ)) → Triple is_in (flush_thinking o) is_sound
unfolding flush_thinking
flush_thinking-Triple (some found) =
    strengthen is_in is_ready is_sound _ (end_at_buffer_end-Triple (some found))
      (λ c h. ground arith)
flush_thinking-Triple none =
    Triple-seq is_in is_in is_sound (λ c. think c.thinking_buffer c) stop_thinking
      (read-Triple is_in is_in think (λ c. c.thinking_buffer) (think-Triple is_in is_in-OpenIn))
      stop_thinking_sound

flush_text-Triple : Triple is_ready flush_text is_sound
unfolding flush_text after_thinking Triple
flush_text-Triple c h =
    Keeps-sound (send_some_text (text_after_thinking c))
      (send_some_text-Triple (text_after_thinking c)) (after_thinking c) h

flush_some-Triple : (buffer : List ℕ) → Triple is_ready (flush_some buffer) is_sound
unfolding flush_some
flush_some-Triple [] = nothing-Triple is_ready is_sound (λ c h. ground arith)
flush_some-Triple (x ∷ xs) =
    Triple-seq is_ready is_sound is_sound _ (modify (with_buffer []))
      (if-Triple is_ready is_sound (λ c. c.in_thinking_block)
        (flush_thinking (find_real_thinking_end_tag_at_buffer_end (x ∷ xs))) flush_text
        (flush_thinking-Triple (find_real_thinking_end_tag_at_buffer_end (x ∷ xs)))
        (weaken (λ c. is_ready c && not c.in_thinking_block) is_ready is_sound flush_text
          (λ c h. ground arith) flush_text-Triple))
      (with_buffer-Triple is_sound (λ _. []) (λ c text h. h))

flush_buffer-Triple : Triple is_ready flush_buffer is_sound
unfolding flush_buffer Triple
flush_buffer-Triple c h =
    when_then is_ready is_sound c.thinking_enabled (flush_some c.thinking_buffer)
      (flush_some-Triple c.thinking_buffer) (λ c h. ground arith) c h

add_missing_text-Triple : Triple is_sound add_missing_text is_sound
unfolding add_missing_text Triple
add_missing_text-Triple c h =
    AlwaysQuiet-sound _
      (when-Quiet
        (c.thinking_enabled
          && (is_some c.thinking_block_index && not (has_non_thinking_blocks c.state_manager)))
        (stop_with "max_tokens" >> create_text_delta_events (codes " "))
        (Quiet_seq (stop_with "max_tokens") (create_text_delta_events (codes " "))
          (stop_with-Quiet "max_tokens") (create_text-Quiet (codes " "))))
      c h

-- The message has been ended.
abbrev pub is_ended : Property
is_ended c = c.state_manager.message_ended

end_message-Triple : (p : Platform) → Triple is_sound (end_message p) is_ended
unfolding end_message Triple
end_message-Triple p c h = final-Sound c.state_manager _ (ground arith)

error-Triple : (e : ToolJsonAccumulatorError) → Triple is_ended (send (error_event e)) is_ended
unfolding Triple Sound accept_all error_event
error-Triple e c h = (simp h refl, h)

end_stream-Triple :
    (p : Platform) (o : Option ToolJsonAccumulatorError) → Triple is_ready (end_stream p o) is_ended
unfolding end_stream
end_stream-Triple p (some e) =
    Triple-seq is_ready is_sound is_ended close_reasoning_if_open _
      (Keeps-sound close_reasoning_if_open close_reasoning-Triple)
      (Triple-seq is_sound is_ended is_ended (end_message p) (send (error_event e))
        (end_message-Triple p) (error-Triple e))
end_stream-Triple p none =
    Triple-seq is_ready is_ready is_ended close_reasoning_if_open _ close_reasoning-Triple (
      Triple-seq is_ready is_sound is_ended flush_buffer _ flush_buffer-Triple (
        Triple-seq is_sound is_sound is_ended add_missing_text (end_message p)
          add_missing_text-Triple (end_message-Triple p)))

pub final-Triple : (p : Platform) → Triple is_ready (generate_final_events p) is_ended
unfolding generate_final_events
final-Triple p =
    Triple-seq is_ready is_ready is_ended (λ c. finish_tools p c.tool_json_error c) _
      (read-Triple is_ready is_ready (finish_tools p) (λ c. c.tool_json_error)
        (finish_tools-Keeps p))
      (Triple-seq is_ready is_ready is_ended finish_filter (λ c. end_stream p c.tool_json_error c)
        finish_filter-Keeps
        (read-Triple is_ready is_ended (end_stream p) (λ c. c.tool_json_error)
          (end_stream-Triple p)))
