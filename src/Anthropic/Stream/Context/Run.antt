-- ===== src/Anthropic/Stream/Context/Run.antt =====
-- src/anthropic/stream.rs: a whole stream, from the start of the message to its end, as a client sees
-- it.
use kiro_rs_tool.Prelude.{
  ℕ, ◌≡◌, refl, String, Bool, true, false, not, ◌&&◌, some, List, [], ◌∷◌, ◌++◌, All, arith,
}
use kiro_rs_tool.Anthropic.Protocol.Strict.{is_error, accept_all_strict, Splits, accept_all-Splits}
use kiro_rs_tool.Anthropic.Protocol.{nothing_seen, accept_all}
use kiro_rs_tool.Anthropic.Sse
use kiro_rs_tool.Anthropic.Sse.{SseEvent, Usage, has_non_thinking_blocks, handle_message_start}
use kiro_rs_tool.Anthropic.Sse.View.{view}
use kiro_rs_tool.Anthropic.Sse.Sound.{Sound, thinking_at}
use kiro_rs_tool.Anthropic.CacheMetering.Split.{CacheUsage}
use kiro_rs_tool.Anthropic.Stream.Platform.{Platform}
use kiro_rs_tool.Anthropic.Stream.Event.{Event}
use kiro_rs_tool.Anthropic.Stream.Context.{
  StreamContext, Emit, nothing, ◌>>◌, when, new_with_thinking,
}
use kiro_rs_tool.Anthropic.Stream.Context.Blocks.{
  send_message_start, generate_initial_events, start_text,
}
use kiro_rs_tool.Anthropic.Stream.Context.Process.{process_kiro_event}
use kiro_rs_tool.Anthropic.Stream.Context.Finish.{generate_final_events}
use kiro_rs_tool.Anthropic.Stream.Context.Ready.{is_ready, Triple, Triple-seq, AlwaysQuiet-ready}
use kiro_rs_tool.Anthropic.Stream.Context.Quiet.{start_text-Quiet}
use kiro_rs_tool.Anthropic.Stream.Context.Thought.{Property, nothing-Triple}
use kiro_rs_tool.Anthropic.Stream.Context.Loop.{when_then}
use kiro_rs_tool.Anthropic.Stream.Context.Events.{Keeps, Keeps-seq, process_kiro_event-Keeps}
use kiro_rs_tool.Anthropic.Stream.Context.End.{is_ended, final-Triple}

-- A context that is ready but for the start of its message.
abbrev is_initial : Property
is_initial c =
    not c.state_manager.message_started
    && is_ready (record c { state_manager = record c.state_manager { message_started = true } })

start-Triple : (p : Platform) → Triple is_initial (send_message_start p) is_ready
unfolding Triple send_message_start Sound accept_all handle_message_start thinking_at
start-Triple p c h =
    let fresh : c.state_manager.message_started ≡ false = ground arith in
    simp fresh (refl, ground arith)

initial-Triple : (p : Platform) → Triple is_initial (generate_initial_events p) is_ready
unfolding generate_initial_events Triple
initial-Triple p c h =
    Triple-seq is_initial is_ready is_ready (send_message_start p)
      (when (not c.thinking_enabled) start_text) (start-Triple p)
      (when_then is_ready is_ready (not c.thinking_enabled) start_text
        (AlwaysQuiet-ready start_text start_text-Quiet) (λ c h. h))
      c h

-- The events of a stream, between its start and its end.
unfoldable pub process_all : Platform → List Event → Emit
unfolding ◌>>◌ process_kiro_event
process_all p [] = nothing
process_all p (e ∷ es) = process_kiro_event p e >> process_all p es

process_all-Keeps : (p : Platform) (es : List Event) → Keeps (process_all p es)
unfolding process_all
process_all-Keeps p [] = nothing-Triple is_ready is_ready (λ c h. h)
process_all-Keeps p (e ∷ es) =
    Keeps-seq (process_kiro_event p e) (process_all p es) (process_kiro_event-Keeps p e)
      (process_all-Keeps p es)

unfoldable pub run_stream : Platform → List Event → Emit
unfolding ◌>>◌ generate_initial_events process_all generate_final_events
run_stream p events = generate_initial_events p >> process_all p events >> generate_final_events p

run-Triple : (p : Platform) (events : List Event) → Triple is_initial (run_stream p events) is_ended
unfolding run_stream
run-Triple p events =
    Triple-seq is_initial is_ready is_ended (generate_initial_events p) _ (initial-Triple p) (
      Triple-seq is_ready is_ready is_ended (process_all p events) (generate_final_events p)
        (process_all-Keeps p events) (final-Triple p))

-- A new context, with the cache usage that the handler sets.
unfoldable pub new_stream :
    CacheUsage → List ℕ → String → ℕ → Bool → List (List ℕ × List ℕ) → StreamContext
unfolding new_with_thinking
new_stream usage id model input_tokens thinking names =
    record (new_with_thinking id model input_tokens thinking names) { cache_usage = usage }

pub run_stream_accepted :
    (p : Platform) (events : List Event) (usage : CacheUsage) (id : List ℕ) (model : String)
    (input_tokens : ℕ) (thinking : Bool) (names : List (List ℕ × List ℕ))
    → let r = run_stream p events (new_stream usage id model input_tokens thinking names) in
      (accept_all r.0 nothing_seen ≡ some (view r.1.state_manager))
      × ((view r.1.state_manager).ended ≡ true)
unfolding Triple Sound new_stream new_with_thinking Sse.new
run_stream_accepted p events usage id model input_tokens thinking names =
    run-Triple p events (new_stream usage id model input_tokens thinking names) refl

-- Whatever events the service sends, in whatever order, with thinking asked for or not, the events of
-- a stream are a whole message in the order that the head comment of `SseStateManager` lists, up to its
-- `message_stop`, and behind that nothing but `error` events: where a tool's JSON has failed, the
-- stream sends one there, although the comment has `message_stop` last.
pub stream_accepted :
    (p : Platform) (events : List Event) (usage : CacheUsage) (id : List ℕ) (model : String)
    (input_tokens : ℕ) (thinking : Bool) (names : List (List ℕ × List ℕ))
    → let r = run_stream p events (new_stream usage id model input_tokens thinking names) in
      (sent : List SseEvent) × (errors : List SseEvent) × (r.0 ≡ sent ++ errors)
      × (accept_all_strict sent nothing_seen ≡ some (view r.1.state_manager))
      × ((view r.1.state_manager).ended ≡ true)
      × All (λ e. is_error e ≡ true) errors
unfolding Splits
stream_accepted p events usage id model input_tokens thinking names =
    let r = run_stream p events (new_stream usage id model input_tokens thinking names) in
    let (accepted, ended) =
      run_stream_accepted p events usage id model input_tokens thinking names in
    let (sent, errors, parts, strict, only) =
      accept_all-Splits r.0 nothing_seen (view r.1.state_manager)
        (λ h. absurd (ground (arith, h)), λ h. absurd (ground (arith, h))) accepted in
    (sent, errors, parts, strict, ended, only)
