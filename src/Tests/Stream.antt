-- ===== src/Tests/Stream.antt =====
-- src/anthropic/stream.rs: runs of the stream and its parts.
use kiro_rs_tool.Prelude.{
  min, ℕ, ◌+◌, ◌*◌, ◌/◌, ◌≤◌, ◌≡◌, refl, true, none, some, List, [], ◌∷◌, ◌++◌, leb, inl, arith,
  String, All,
}
use kiro_rs_tool.Prelude.Text.{codes}
use kiro_rs_tool.Prelude.Search.{is_prefix}
use kiro_rs_tool.Prelude.Chars.{find_text}
use kiro_rs_tool.Anthropic.Json.{object, no_fields}
use kiro_rs_tool.Anthropic.Protocol.{nothing_seen}
use kiro_rs_tool.Anthropic.Sse.{
  SseEvent, handle_message_start, handle_content_block_start, handle_content_block_stop,
  handle_content_block_delta,
}
use kiro_rs_tool.Anthropic.Sse.View.{view}
use kiro_rs_tool.Prelude.Int.{pos}
use kiro_rs_tool.Anthropic.CacheMetering.Split.{CacheUsage, not_negative, split_against_total}
use kiro_rs_tool.Anthropic.Stream.Platform.{Platform}
use kiro_rs_tool.Anthropic.Stream.Event.{Event, assistant_response, tool_use, context_usage}
use kiro_rs_tool.Anthropic.Stream.Tokens.{Counted, estimate_tokens, estimate_tokens_bounds}
use kiro_rs_tool.Anthropic.Stream.XmlFilter
use kiro_rs_tool.Anthropic.Stream.XmlFilter.{
  ToolUseXmlLeakFilter, tool_use_xml_prefix, tool_use_xml_close, finish,
}
use kiro_rs_tool.Anthropic.Stream.XmlFilter.Rounds.{filter_pieces, waiting, filter_pieces-waiting}
use kiro_rs_tool.Anthropic.Stream.XmlFilter.Plain.{concat, filter_pieces_plain}
use kiro_rs_tool.Anthropic.Stream.Context.{StreamContext, ◌>>◌}
use kiro_rs_tool.Anthropic.Stream.Context.Blocks.{generate_initial_events, resolved_usage}
use kiro_rs_tool.Anthropic.Stream.Context.Run.{process_all, run_stream, new_stream, stream_accepted}
use kiro_rs_tool.Anthropic.Protocol.Strict.{is_error, accept_all_strict}
use kiro_rs_tool.Anthropic.Stream.Buffered
use kiro_rs_tool.Anthropic.Stream.Buffered.{
  set_cache_usage, finish_and_get_all_events, process_and_buffer_all,
}
use kiro_rs_tool.Anthropic.Stream.Buffered.Same.{start_of, finish_and_get_all_events_same}

abbrev platform : Platform
platform = record {
  parse_json = λ text. inl (object no_fields);
  print_json = λ value. codes "{}";
  add_float = λ x y. x + y;
  context_tokens = λ percentage size. percentage * size / 100;
  is_full = λ percentage. leb 100 percentage;
  shares = record {
    covered_part = λ total covered prompt. total * min covered prompt / prompt;
    read_part = λ covered read est. pos (covered * not_negative read / est);
  };
}

abbrev no_usage : CacheUsage
no_usage = record { cache_read = pos 0; cache_covered_est = pos 0; prompt_total_est = pos 0 }

-- A thinking block in the text, a text and a tool call.
abbrev answer : List Event
answer =
    assistant_response (codes "<thinking>\nIt is")
    ∷ assistant_response (codes " so</thinking>\n\nYes")
    ∷ tool_use
        (record { name = codes "ls"; tool_use_id = codes "t1"; input = codes "{}"; stop = true })
    ∷ context_usage 50
    ∷ []

abbrev fresh : StreamContext
fresh = new_stream no_usage (codes "msg_1") "claude-sonnet-4.5" 10 true []

-- The names of the events, in the order in which they are sent.
abbrev names_of : List SseEvent → List String
names_of [] = []
names_of (e ∷ es) = e.event ∷ names_of es

answer_test :
    names_of (run_stream platform answer fresh).0
    ≡ "message_start" ∷ "content_block_start" ∷ "content_block_delta" ∷ "content_block_delta"
      ∷ "content_block_delta" ∷ "content_block_stop" ∷ "content_block_start" ∷ "content_block_delta"
      ∷ "content_block_stop" ∷ "content_block_start" ∷ "content_block_delta" ∷ "content_block_stop"
      ∷ "message_delta" ∷ "message_stop" ∷ []
unfolding run_stream new_stream handle_message_start handle_content_block_start
    handle_content_block_stop handle_content_block_delta
answer_test = refl

stream_accepted_example :
    let r = run_stream platform answer fresh in
    (sent : List SseEvent) × (errors : List SseEvent) × (r.0 ≡ sent ++ errors)
    × (accept_all_strict sent nothing_seen ≡ some (view r.1.state_manager))
    × ((view r.1.state_manager).ended ≡ true)
    × All (λ e. is_error e ≡ true) errors
stream_accepted_example =
    stream_accepted platform answer no_usage (codes "msg_1") "claude-sonnet-4.5" 10 true []

finish_and_get_all_events_same_example :
    (rest : List SseEvent) × ((run_stream platform answer fresh).0
      ≡ start_of fresh (split_against_total platform.shares no_usage (pos 10)) ∷ rest)
    × ((finish_and_get_all_events platform (
          process_and_buffer_all platform
            (set_cache_usage no_usage (Buffered.new (codes "msg_1") "claude-sonnet-4.5" 10 true []))
            answer)).0
        ≡ start_of fresh (
            resolved_usage platform
              ((generate_initial_events platform >> process_all platform answer) fresh).1)
          ∷ rest)
finish_and_get_all_events_same_example =
    finish_and_get_all_events_same platform answer no_usage (codes "msg_1") "claude-sonnet-4.5" 10
      true []

-- Two Chinese characters, and three letters.
estimate_test : estimate_tokens (codes "中文abc") ≡ 3
unfolding estimate_tokens
estimate_test = refl

estimate_tokens_bounds_example :
    (a : ℕ) × (b : ℕ) × Counted (codes "hello") a b
    × (1 ≤ estimate_tokens (codes "hello"))
    × (8 * a + 3 * b ≤ 12 * estimate_tokens (codes "hello"))
    × (12 * estimate_tokens (codes "hello") ≤ 8 * a + 3 * b + 17)
estimate_tokens_bounds_example = estimate_tokens_bounds (codes "hello") (omega arith)

abbrev leak : List ℕ
leak = codes "a<tool_use>x</tool_use>b"

-- An end tag cut in two.
abbrev cut_end : List (List ℕ)
cut_end = codes "x</tool" ∷ codes "_use>b" ∷ []

filter_pieces-waiting_example : filter_pieces waiting cut_end ≡ ([], waiting)
unfolding find_text is_prefix
filter_pieces-waiting_example = filter_pieces-waiting cut_end (refl, (refl, tt))

abbrev plain : List (List ℕ)
plain = codes "a <" ∷ codes "b and <to" ∷ codes "ol>" ∷ []

no_leak : find_text tool_use_xml_prefix (concat plain) ≡ none
unfolding find_text is_prefix concat
no_leak = refl

filter_pieces_plain_example :
    (filter_pieces XmlFilter.new plain).0 ++ (finish (filter_pieces XmlFilter.new plain).1).0
    ≡ concat plain
filter_pieces_plain_example = filter_pieces_plain plain no_leak
