-- ===== src/Anthropic/Stream/Buffered/Same.antt =====
-- src/anthropic/stream.rs: the buffered stream, compared with the one that sends at once.
use kiro_rs_tool.Prelude.{
  ℕ, ◌≡◌, refl, sym, ap, ◌∙◌, String, Bool, true, false, List, [], ◌∷◌, ◌++◌, append_assoc,
  append-nil, drop, subst, some,
}
use kiro_rs_tool.Prelude.Int.{pos}
use kiro_rs_tool.Anthropic.Json.{set_field}
use kiro_rs_tool.Anthropic.Protocol.{nothing_seen, accept_all}
use kiro_rs_tool.Anthropic.Sse
use kiro_rs_tool.Anthropic.Sse.View.{view}
use kiro_rs_tool.Anthropic.Sse.{SseEvent, handle_message_start}
use kiro_rs_tool.Anthropic.CacheMetering.Split.{CacheUsage, split_against_total}
use kiro_rs_tool.Anthropic.Stream.Platform.{Platform}
use kiro_rs_tool.Anthropic.Stream.Event.{Event}
use kiro_rs_tool.Anthropic.Stream.Context.{StreamContext, ◌>>◌, new_with_thinking}
use kiro_rs_tool.Anthropic.Stream.Context.Blocks.{
  message_start_body, create_message_start_event, send_message_start, generate_initial_events,
  resolved_usage,
}
use kiro_rs_tool.Anthropic.Stream.Context.Process.{process_kiro_event}
use kiro_rs_tool.Anthropic.Stream.Context.Finish.{generate_final_events}
use kiro_rs_tool.Anthropic.Stream.Context.Run.{
  process_all, run_stream, new_stream, run_stream_accepted,
}
use kiro_rs_tool.Anthropic.Stream.Buffered.Once.{correct_all_behind}
use kiro_rs_tool.Anthropic.Stream.Buffered
use kiro_rs_tool.Anthropic.Stream.Buffered.{
  BufferedStreamContext, set_cache_usage, buffer_events, change_field, in_object, correct_usage,
  correct, ensure_initial_events, process_and_buffer, correct_all, finish_and_get_all_events,
  process_and_buffer_all,
}

-- A buffer in which the start of the message stands.
started : StreamContext → List SseEvent → BufferedStreamContext
started c events = record { inner = c; event_buffer = events; initial_events_generated = true }

buffer_all :
    (p : Platform) (es : List Event) (c : StreamContext) (events : List SseEvent)
    → process_and_buffer_all p (started c events) es
      ≡ started (process_all p es c).1 (events ++ (process_all p es c).0)
unfolding process_and_buffer_all process_and_buffer ensure_initial_events started process_all ◌>>◌
buffer_all p [] c events = ap (started c) (sym (append-nil events))
buffer_all p (e ∷ es) c events =
    let r = process_kiro_event p e c in
    buffer_all p es r.1 (events ++ r.0)
    ∙ ap (started (process_all p es r.1).1) (append_assoc events r.0 (process_all p es r.1).0)

buffer_new :
    (p : Platform) (es : List Event) (c : StreamContext)
    → (finish_and_get_all_events p (
        process_and_buffer_all p
          (record { inner = c; event_buffer = []; initial_events_generated = false })
          es)).0
      ≡ correct_all
          (resolved_usage p ((generate_initial_events p >> process_all p es) c).1)
          (run_stream p es c).0
unfolding process_and_buffer_all process_and_buffer ensure_initial_events process_all ◌>>◌
    finish_and_get_all_events run_stream started
buffer_new p [] c = refl
buffer_new p (e ∷ es) c =
    let i = generate_initial_events p c in
    let r = process_kiro_event p e i.1 in
    let a = process_all p es r.1 in
    let f = generate_final_events p a.1 in
    ap (λ b. (finish_and_get_all_events p b).0) (buffer_all p es r.1 (i.0 ++ r.0))
    ∙ ap (correct_all (resolved_usage p a.1))
        (ap (λ xs. xs ++ f.0) (append_assoc i.0 r.0 a.0) ∙ append_assoc i.0 (r.0 ++ a.0) f.0)

-- The start of a message, with the usage.
abbrev pub start_of : StreamContext → ℕ × ℕ × ℕ → SseEvent
start_of c usage = record { event = "message_start"; body = message_start_body c usage }

-- The stream that sends at once starts with the start of the message.
sends_start :
    (p : Platform) (events : List Event) (usage : CacheUsage) (id : List ℕ) (model : String)
    (input_tokens : ℕ) (thinking : Bool) (names : List (List ℕ × List ℕ))
    → let c = new_stream usage id model input_tokens thinking names in
      (rest : List SseEvent) × ((run_stream p events c).0
        ≡ start_of c (split_against_total p.shares usage (pos input_tokens)) ∷ rest)
unfolding new_stream new_with_thinking Sse.new run_stream ◌>>◌ generate_initial_events
    send_message_start create_message_start_event handle_message_start
sends_start p events usage id model input_tokens thinking names =
    (drop 1 (run_stream p events (new_stream usage id model input_tokens thinking names)).0, refl)

corrected_start :
    (usage final : ℕ × ℕ × ℕ) (c : StreamContext)
    → correct final (start_of c usage) ≡ start_of c final
unfolding correct correct_usage change_field in_object set_field message_start_body
corrected_start usage final c = refl

-- The buffered stream gives the events of the stream that sends at once but for the first of them, the
-- start of the message: that one is sent with the usage that is known at the end of the stream, in
-- place of the usage that was estimated when the stream began.
pub finish_and_get_all_events_same :
    (p : Platform) (events : List Event) (usage : CacheUsage) (id : List ℕ) (model : String)
    (input_tokens : ℕ) (thinking : Bool) (names : List (List ℕ × List ℕ))
    → let c = new_stream usage id model input_tokens thinking names in
      (rest : List SseEvent) × ((run_stream p events c).0
        ≡ start_of c (split_against_total p.shares usage (pos input_tokens)) ∷ rest)
      × ((finish_and_get_all_events p (
            process_and_buffer_all p
              (set_cache_usage usage (Buffered.new id model input_tokens thinking names))
              events)).0
          ≡ start_of c (resolved_usage p ((generate_initial_events p >> process_all p events) c).1)
            ∷ rest)
unfolding Buffered.new set_cache_usage new_stream correct_all
finish_and_get_all_events_same p events usage id model input_tokens thinking names =
    let c = new_stream usage id model input_tokens thinking names in
    let final = resolved_usage p ((generate_initial_events p >> process_all p events) c).1 in
    let first = split_against_total p.shares usage (pos input_tokens) in
    let (rest, sent) = sends_start p events usage id model input_tokens thinking names in
    let (accepted, _) = run_stream_accepted p events usage id model input_tokens thinking names in
    let last = view (run_stream p events c).1.state_manager in
    let behind =
      correct_all_behind final (start_of c first) rest last refl
        (subst (λ es. accept_all es nothing_seen ≡ some last) sent accepted) in
    (
      rest,
      sent,
      buffer_new p events c
          ∙ ap (correct_all final) sent
          ∙ ap (λ e. e ∷ correct_all final rest) (corrected_start first final c)
          ∙ ap (λ xs. start_of c final ∷ xs) behind,
    )
