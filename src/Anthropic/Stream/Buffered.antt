-- ===== src/Anthropic/Stream/Buffered.antt =====
-- src/anthropic/stream.rs: `BufferedStreamContext`, which keeps the events until the end of the
-- stream, and then puts the final usage into the event that starts the message.
pub mod Once
pub mod Same
use kiro_rs_tool.Prelude.{
  ℕ, ◌≡◌, refl, sym, ap, ◌∙◌, String, Bool, true, false, not, Option, none, some, List, [], ◌∷◌,
  ◌++◌, append_assoc, append-nil, if◌then◌else◌, arith,
}
use kiro_rs_tool.Prelude.Map.{string_eq}
use kiro_rs_tool.Anthropic.Json.{
  Json, null, bool, number, negative, float, string, array, object, Fields, no_fields, field,
  set_field,
}
use kiro_rs_tool.Anthropic.Sse.{SseEvent}
use kiro_rs_tool.Anthropic.CacheMetering.Split.{CacheUsage}
use kiro_rs_tool.Anthropic.Stream.Platform.{Platform}
use kiro_rs_tool.Anthropic.Stream.Event.{Event}
use kiro_rs_tool.Anthropic.Stream.Context.{StreamContext, ◌>>◌, new_with_thinking}
use kiro_rs_tool.Anthropic.Stream.Context.Blocks.{generate_initial_events, resolved_usage}
use kiro_rs_tool.Anthropic.Stream.Context.Process.{process_kiro_event}
use kiro_rs_tool.Anthropic.Stream.Context.Finish.{generate_final_events}
use kiro_rs_tool.Anthropic.Stream.Context.Run.{process_all, run_stream, new_stream}

pub record BufferedStreamContext : Type 0 where
  pub inner : StreamContext
  pub event_buffer : List SseEvent
  pub initial_events_generated : Bool

unfoldable pub new : List ℕ → String → ℕ → Bool → List (List ℕ × List ℕ) → BufferedStreamContext
unfolding new_with_thinking
new id model estimated_input_tokens thinking_enabled tool_name_map = record {
  inner = new_with_thinking id model estimated_input_tokens thinking_enabled tool_name_map;
  event_buffer = [];
  initial_events_generated = false;
}

unfoldable pub set_cache_usage : CacheUsage → BufferedStreamContext → BufferedStreamContext
set_cache_usage usage b = record b { inner = record b.inner { cache_usage = usage } }

-- What is sent, at the end of the buffer.
abbrev pub buffer_events :
    BufferedStreamContext → List SseEvent × StreamContext → BufferedStreamContext
buffer_events b (events, c) = record b { inner = c; event_buffer = b.event_buffer ++ events }

module _ (p : Platform) where
  unfoldable pub ensure_initial_events : BufferedStreamContext → BufferedStreamContext
  unfolding generate_initial_events
  ensure_initial_events b =
      if b.initial_events_generated
      then b
      else record (buffer_events b (generate_initial_events p b.inner)) {
        initial_events_generated = true;
      }

  unfoldable pub process_and_buffer : BufferedStreamContext → Event → BufferedStreamContext
  unfolding ensure_initial_events process_kiro_event
  process_and_buffer b e =
      let b' = ensure_initial_events b in buffer_events b' (process_kiro_event p e b'.inner)

-- `get_mut("name")`, and a change of what is there.
unfoldable pub change_field : String → (Json → Json) → Fields → Fields
change_field name change no_fields = no_fields
change_field name change (field key value rest) =
    if string_eq.beq key name
    then field key (change value) rest
    else field key value (change_field name change rest)

-- Of a value that is no object, the code would panic; the usage of a start of a message is one.
unfoldable pub in_object : (Fields → Fields) → Json → Json
in_object change (object fields) = object (change fields)
in_object change null = null
in_object change (bool b) = bool b
in_object change (number n) = number n
in_object change (negative n) = negative n
in_object change (float x) = float x
in_object change (string s) = string s
in_object change (array items) = array items

unfoldable pub correct_usage : ℕ × ℕ × ℕ → Json → Json
unfolding set_field change_field in_object
correct_usage (input_tokens, creation, read) body =
    in_object
      (change_field "message" (
        in_object (
          change_field "usage" (
            in_object (λ usage. set_field "cache_read_input_tokens" (number read) (
              set_field "cache_creation_input_tokens" (number creation)
                (set_field "input_tokens" (number input_tokens) usage)))))))
      body

unfoldable pub correct : ℕ × ℕ × ℕ → SseEvent → SseEvent
unfolding correct_usage
correct usage e =
    if string_eq.beq e.event "message_start"
    then record e { body = correct_usage usage e.body }
    else e

unfoldable pub correct_all : ℕ × ℕ × ℕ → List SseEvent → List SseEvent
unfolding correct
correct_all usage [] = []
correct_all usage (e ∷ es) = correct usage e ∷ correct_all usage es

module _ (p : Platform) where
  unfoldable pub finish_and_get_all_events :
      BufferedStreamContext → List SseEvent × BufferedStreamContext
  unfolding ensure_initial_events generate_final_events resolved_usage correct_all
  finish_and_get_all_events b =
      let b' = ensure_initial_events p b in
      let usage = resolved_usage p b'.inner in
      let (events, c) = generate_final_events p b'.inner in
      (correct_all usage (b'.event_buffer ++ events), record b' { inner = c; event_buffer = [] })

  unfoldable pub final_usage : BufferedStreamContext → (ℕ × ℕ × ℕ) × ℕ × ℕ
  unfolding resolved_usage
  final_usage b = (resolved_usage p b.inner, b.inner.output_tokens, b.inner.credits)

  unfoldable pub process_and_buffer_all : BufferedStreamContext → List Event → BufferedStreamContext
  unfolding process_and_buffer
  process_and_buffer_all b [] = b
  process_and_buffer_all b (e ∷ es) = process_and_buffer_all (process_and_buffer p b e) es
