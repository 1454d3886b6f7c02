-- ===== src/Anthropic/Stream/Context/Events.antt =====
-- src/anthropic/stream.rs: each event of the service, as a client sees what is sent for it.
use kiro_rs_tool.Prelude.{
  ℕ, ◌≡◌, refl, String, true, not, ◌&&◌, Option, none, some, List, [], ◌∷◌, arith, Bool-cases, inl,
  inr,
}
use kiro_rs_tool.Prelude.Chars.{trim_start}
use kiro_rs_tool.Prelude.Map.{string_eq}
use kiro_rs_tool.Anthropic.Protocol.{accept_all}
use kiro_rs_tool.Anthropic.Sse.{
  is_block_open_of_type, set_stop_reason, set_has_tool_use, take_block_index,
}
use kiro_rs_tool.Anthropic.Sse.Sound.{Sound, Advance, thinking_at}
use kiro_rs_tool.Anthropic.Sse.Blocks.{start_again}
use kiro_rs_tool.Anthropic.Stream.Platform.{Platform}
use kiro_rs_tool.Anthropic.Stream.Event.{
  Event, ReasoningContentEvent, assistant_response, code, tool_use, metering, context_usage,
  reasoning_content, unknown, error, exception,
}
use kiro_rs_tool.Anthropic.Stream.Thinking.{find_real_thinking_end_tag_at_buffer_end}
use kiro_rs_tool.Anthropic.Stream.ToolJson
use kiro_rs_tool.Anthropic.Stream.ToolJson.{
  ToolUseEvent, CompletedToolUse, ToolResult, done, failed,
}
use kiro_rs_tool.Anthropic.Stream.XmlFilter
use kiro_rs_tool.Anthropic.Stream.Context.{
  StreamContext, Emit, modify, ◌>>◌, when, with_next_index, start_block_at, thinking_start,
}
use kiro_rs_tool.Anthropic.Stream.Context.Blocks.{
  create_text_delta_events, send_some_thinking, close_text_if_open, close_reasoning_if_open,
  count_output,
}
use kiro_rs_tool.Anthropic.Stream.Context.Content.{
  send_some_text, end_thinking, with_buffer, process_content_with_thinking,
}
use kiro_rs_tool.Anthropic.Stream.Context.Process.{
  stop_with, using_tools, with_tool_error, process_text, process_assistant_response, extracted,
  send_redacted, with_thinking_index, open_reasoning_at, open_reasoning, send_reasoning_text,
  send_reasoning, reasoning_in, process_reasoning_content, end_at_buffer_end,
  end_thinking_before_tool, flush_before_tool, pushed, push_tool_use, process_tool_use,
  with_context, process_context_usage, with_credits, process_kiro_event,
}
use kiro_rs_tool.Anthropic.Stream.Context.Ready.{
  is_ready, Triple, Triple-seq, Quiet, AlwaysQuiet, AlwaysQuiet-ready, Quiet-ready,
}
use kiro_rs_tool.Anthropic.Stream.Context.Quiet.{close_text_if_open-Quiet}
use kiro_rs_tool.Anthropic.Stream.Context.Thought.{
  Property, OpenIn, modify-Triple, nothing-Triple, when-Triple, if-Triple, weaken, read-Triple,
  some_thinking-Triple, is_in, end_thinking-Triple, close_reasoning-Triple, start_next_thinking,
}
use kiro_rs_tool.Anthropic.Stream.Context.Loop.{
  create_text-Triple, send_some_text-Triple, with_buffer-Triple, process_content-Triple, when_then,
}
use kiro_rs_tool.Anthropic.Stream.Context.Tools.{
  count_output-Quiet, redacted-Quiet, emit_completed-Triple,
}

-- Of several steps that each keep what holds.
abbrev pub Keeps : Emit → Type 0
Keeps f = Triple is_ready f is_ready

pub Keeps-seq : (f g : Emit) → Keeps f → Keeps g → Keeps (f >> g)
Keeps-seq f g = Triple-seq is_ready is_ready is_ready f g

pub count_output-Keeps : (text : List ℕ) → Keeps (count_output text)
count_output-Keeps text = AlwaysQuiet-ready (count_output text) (count_output-Quiet text)

pub process_text-Keeps : (text : List ℕ) → Keeps (process_text text)
unfolding process_text
process_text-Keeps [] = nothing-Triple is_ready is_ready (λ c h. h)
process_text-Keeps (x ∷ xs) = Keeps-seq (count_output (x ∷ xs)) _ (count_output-Keeps (x ∷ xs)) (
    if-Triple is_ready is_ready (λ c. c.thinking_enabled) (process_content_with_thinking (x ∷ xs))
      (create_text_delta_events (x ∷ xs))
      (weaken (λ c. is_ready c && c.thinking_enabled) is_ready is_ready _ (λ c h. ground arith)
        (process_content-Triple (x ∷ xs)))
      (weaken (λ c. is_ready c && not c.thinking_enabled) is_ready is_ready _ (λ c h. ground arith)
        (create_text-Triple (x ∷ xs))))

process_assistant_response-Keeps : (content : List ℕ) → Keeps (process_assistant_response content)
unfolding process_assistant_response Triple
process_assistant_response-Keeps content c h =
    let r = XmlFilter.filter c.tool_use_xml_filter content in
    process_text-Keeps r.0 (record c { tool_use_xml_filter = r.1 }) h

send_redacted-Keeps : (redacted : List ℕ) → Keeps (send_redacted redacted)
unfolding send_redacted
send_redacted-Keeps redacted = Keeps-seq close_reasoning_if_open _ close_reasoning-Triple (
    Keeps-seq close_text_if_open _ (AlwaysQuiet-ready close_text_if_open close_text_if_open-Quiet) (
      Keeps-seq _ (modify extracted) (AlwaysQuiet-ready _ (redacted-Quiet redacted))
        (modify-Triple is_ready is_ready extracted (λ c. refl) (λ c h. ground arith))))

-- A reasoning block is open.
abbrev is_reasoning : Property
is_reasoning c = is_ready c && c.reasoning_block_open

is_reasoning-OpenIn : OpenIn is_reasoning
unfolding OpenIn
is_reasoning-OpenIn c h = (ground arith, ground arith)

abbrev is_silent : Property
is_silent c = is_ready c && not c.reasoning_block_open

Quiet-silent : (f : Emit) → AlwaysQuiet f → Triple is_silent f is_silent
unfolding AlwaysQuiet Triple Quiet
Quiet-silent f q c h =
    let quiet = q c (ground arith) in
    let ready = Quiet-ready c (f c) (ground arith) quiet in
    ((AlwaysQuiet-ready f q c (ground arith)).0, ground (arith, ready, quiet.2))

count_output-reasoning : (text : List ℕ) → Triple is_reasoning (count_output text) is_reasoning
unfolding count_output
count_output-reasoning text = modify-Triple is_reasoning is_reasoning _ (λ c. refl) (λ c h. h)

open_next_reasoning : Triple is_silent (with_next_index open_reasoning_at) is_reasoning
unfolding Triple with_next_index open_reasoning_at ◌>>◌ start_block_at take_block_index
open_next_reasoning c h =
    let (s, ready, tools, opened) =
      start_next_thinking c.state_manager c.tool_block_indices (ground arith) (ground arith) in
    (s, ground (arith, ready, tools, opened))

-- An open thinking block is taken over: nothing is sent.
open_again :
    (i : ℕ) (c : StreamContext)
    → is_silent c ≡ true
    → thinking_at i c.state_manager ≡ true
    → Sound (open_reasoning_at i c).0 c.state_manager (open_reasoning_at i c).1.state_manager
      × (is_reasoning (open_reasoning_at i c).1 ≡ true)
unfolding open_reasoning_at ◌>>◌ start_block_at Sound accept_all
open_again i c h opened =
    rw (start_again c.state_manager i (thinking_start i) (ground arith) opened)
      (refl, ground (arith, opened))

with_thinking_index-Triple :
    (o : Option ℕ) → Triple is_silent (with_thinking_index o open_reasoning_at) is_reasoning
unfolding with_thinking_index Triple is_block_open_of_type thinking_at
with_thinking_index-Triple none c h = open_next_reasoning c h
with_thinking_index-Triple (some i) c h =
    elim (Bool-cases (is_block_open_of_type c.state_manager i "thinking")) [
      | inr other ↦ rw other (open_next_reasoning c h)
      | inl opened ↦ rw opened (open_again i c h opened)
    ]

send_reasoning-Keeps : (text : List ℕ) → Keeps (send_reasoning text)
unfolding send_reasoning open_reasoning send_reasoning_text Triple
send_reasoning-Keeps text =
    Triple-seq is_ready is_reasoning is_ready
      (λ c. when (not c.reasoning_block_open) open_reasoning c) (send_reasoning_text text)
      (when-Triple is_ready is_reasoning (λ c. not c.reasoning_block_open) open_reasoning
        (Triple-seq is_silent is_silent is_reasoning close_text_if_open
          (λ c. with_thinking_index c.thinking_block_index open_reasoning_at c)
          (Quiet-silent close_text_if_open close_text_if_open-Quiet)
          (read-Triple is_silent is_reasoning (λ o. with_thinking_index o open_reasoning_at)
            (λ c. c.thinking_block_index) with_thinking_index-Triple))
        (λ c h off. ground arith))
      (texts text)
  where
    texts : (text : List ℕ) → Triple is_reasoning (send_reasoning_text text) is_ready
    texts [] = nothing-Triple is_reasoning is_ready (λ c h. ground arith)
    texts (x ∷ xs) =
        Triple-seq is_reasoning is_reasoning is_ready (count_output (x ∷ xs))
          (send_some_thinking (x ∷ xs)) (count_output-reasoning (x ∷ xs))
          (λ c h.
            let (s, q) = some_thinking-Triple is_reasoning is_reasoning-OpenIn (x ∷ xs) c h in
            (s, ground (arith, q)))

reasoning_in-Keeps :
    (redacted : Option (List ℕ)) (text : List ℕ) → Keeps (reasoning_in redacted text)
unfolding reasoning_in
reasoning_in-Keeps none text = send_reasoning-Keeps text
reasoning_in-Keeps (some []) text = send_reasoning-Keeps text
reasoning_in-Keeps (some (x ∷ xs)) text = send_redacted-Keeps (x ∷ xs)

process_reasoning_content-Keeps : (r : ReasoningContentEvent) → Keeps (process_reasoning_content r)
unfolding process_reasoning_content Triple
process_reasoning_content-Keeps r c h =
    when_then is_ready is_ready c.thinking_enabled (reasoning_in r.redacted_content r.text)
      (reasoning_in-Keeps r.redacted_content r.text) (λ c h. h) c h

pub end_at_buffer_end-Triple :
    (o : Option (List ℕ × List ℕ)) → Triple is_in (end_at_buffer_end o) is_ready
unfolding end_at_buffer_end
end_at_buffer_end-Triple none = nothing-Triple is_in is_ready (λ c h. ground arith)
end_at_buffer_end-Triple (some (thinking, after)) =
    Triple-seq is_in is_ready is_ready (end_thinking thinking) _ (end_thinking-Triple thinking) (
      Keeps-seq (modify (with_buffer [])) (send_some_text (trim_start after))
        (with_buffer-Triple is_ready (λ _. []) (λ c text h. h))
        (send_some_text-Triple (trim_start after)))

end_thinking_before_tool-Keeps : Keeps end_thinking_before_tool
unfolding end_thinking_before_tool
end_thinking_before_tool-Keeps =
    when-Triple is_ready is_ready (λ c. c.thinking_enabled && c.in_thinking_block)
      (λ c. end_at_buffer_end (find_real_thinking_end_tag_at_buffer_end c.thinking_buffer) c)
      (weaken (λ c. is_ready c && (c.thinking_enabled && c.in_thinking_block)) is_in is_ready _
        (λ c h. ground arith)
        (read-Triple is_in is_ready end_at_buffer_end
          (λ c. find_real_thinking_end_tag_at_buffer_end c.thinking_buffer)
          end_at_buffer_end-Triple))
      (λ c h off. h)

flush_before_tool-Keeps : Keeps flush_before_tool
unfolding flush_before_tool Triple
flush_before_tool-Keeps c h =
    when_then is_ready is_ready
      (c.thinking_enabled && (not c.in_thinking_block && not c.thinking_extracted))
      (λ c. send_some_text c.thinking_buffer (with_buffer [] c))
      (λ c h. send_some_text-Triple c.thinking_buffer (with_buffer [] c) h) (λ c h. h) c h

pub stop_with-Quiet : (reason : String) → AlwaysQuiet (stop_with reason)
unfolding AlwaysQuiet Quiet Advance Sound accept_all set_stop_reason thinking_at
stop_with-Quiet reason c h = ((refl, h, omega arith, λ j. refl), refl, refl, refl, refl, refl)

pub stop_with-Keeps : (reason : String) → Keeps (stop_with reason)
stop_with-Keeps reason = AlwaysQuiet-ready (stop_with reason) (stop_with-Quiet reason)

pushed-Keeps : (p : Platform) (r : ToolResult (Option CompletedToolUse)) → Keeps (pushed p r)
unfolding pushed
pushed-Keeps p (done none) = nothing-Triple is_ready is_ready (λ c h. h)
pushed-Keeps p (done (some t)) = emit_completed-Triple p t
pushed-Keeps p (failed e) =
    Keeps-seq (modify (with_tool_error e)) (stop_with "error")
      (modify-Triple is_ready is_ready (with_tool_error e) (λ c. refl) (λ c h. h))
      (stop_with-Keeps "error")

push_tool_use-Keeps : (p : Platform) (t : ToolUseEvent) → Keeps (push_tool_use p t)
unfolding push_tool_use Triple
push_tool_use-Keeps p t c h =
    let r = ToolJson.push p c.tool_name_map c.tool_json_accumulator t in
    pushed-Keeps p r.0 (record c { tool_json_accumulator = r.1 }) h

using_tools-Quiet : AlwaysQuiet (modify using_tools)
unfolding AlwaysQuiet Quiet Advance Sound accept_all set_has_tool_use thinking_at
using_tools-Quiet c h = ((refl, h, omega arith, λ j. refl), refl, refl, refl, refl, refl)

process_tool_use-Keeps : (p : Platform) (t : ToolUseEvent) → Keeps (process_tool_use p t)
unfolding process_tool_use
process_tool_use-Keeps p t =
    Keeps-seq (modify using_tools) _ (AlwaysQuiet-ready (modify using_tools) using_tools-Quiet) (
      Keeps-seq end_thinking_before_tool _ end_thinking_before_tool-Keeps (
        Keeps-seq flush_before_tool (push_tool_use p t) flush_before_tool-Keeps
          (push_tool_use-Keeps p t)))

process_context_usage-Keeps : (p : Platform) (n : ℕ) → Keeps (process_context_usage p n)
unfolding process_context_usage
process_context_usage-Keeps p n =
    Keeps-seq (modify (with_context p n)) _
      (modify-Triple is_ready is_ready (with_context p n) (λ c. refl) (λ c h. h))
      (when_then is_ready is_ready (p.is_full n) (stop_with "model_context_window_exceeded")
        (stop_with-Keeps "model_context_window_exceeded") (λ c h. h))

-- Whatever the service sends, the client accepts what is sent for it.
pub process_kiro_event-Keeps : (p : Platform) (e : Event) → Keeps (process_kiro_event p e)
unfolding process_kiro_event
process_kiro_event-Keeps p (assistant_response content) =
    Keeps-seq close_reasoning_if_open (process_assistant_response content) close_reasoning-Triple
      (process_assistant_response-Keeps content)
process_kiro_event-Keeps p (code content) =
    Keeps-seq close_reasoning_if_open (process_assistant_response content) close_reasoning-Triple
      (process_assistant_response-Keeps content)
process_kiro_event-Keeps p (tool_use t) =
    Keeps-seq close_reasoning_if_open (process_tool_use p t) close_reasoning-Triple
      (process_tool_use-Keeps p t)
process_kiro_event-Keeps p (reasoning_content r) = process_reasoning_content-Keeps r
process_kiro_event-Keeps p (context_usage n) = process_context_usage-Keeps p n
process_kiro_event-Keeps p (metering n) =
    modify-Triple is_ready is_ready (with_credits p n) (λ c. refl) (λ c h. h)
process_kiro_event-Keeps p (exception kind message) =
    when_then is_ready is_ready (string_eq.beq kind "ContentLengthExceededException")
      (stop_with "max_tokens") (stop_with-Keeps "max_tokens") (λ c h. h)
process_kiro_event-Keeps p (error number message) = nothing-Triple is_ready is_ready (λ c h. h)
process_kiro_event-Keeps p unknown = nothing-Triple is_ready is_ready (λ c h. h)
