-- ===== src/Anthropic/Stream/Context/Content.antt =====
-- src/anthropic/stream.rs: `process_content_with_thinking`, the text of the service with its
-- `<thinking>` block.
use kiro_rs_tool.Prelude.{
  ℕ, zero, suc, Bool, true, false, not, ◌&&◌, Option, none, some, List, [], ◌∷◌, ◌++◌, ◌-◌,
  if◌then◌else◌,
}
use kiro_rs_tool.Prelude.Chars.{is_blank, trim_start, byte_len}
use kiro_rs_tool.Anthropic.Stream.Thinking.{
  find_real_thinking_start_tag, find_real_thinking_end_tag_with_boundary, cut_at_boundary,
  strip_newline,
}
use kiro_rs_tool.Anthropic.Stream.Context.{
  StreamContext, Emit, nothing, modify, ◌>>◌, when, with_next_index, start_block_at, thinking_start,
}
use kiro_rs_tool.Anthropic.Stream.Context.Blocks.{
  create_text_delta_events, send_some_thinking, stop_thinking,
}

-- Text that is more than white space, or that is not empty.
unfoldable pub send_visible : List ℕ → Emit
unfolding create_text_delta_events is_blank
send_visible text = when (not (is_blank text)) (create_text_delta_events text)

unfoldable pub send_some_text : List ℕ → Emit
unfolding create_text_delta_events
send_some_text [] = nothing
send_some_text (x ∷ xs) = create_text_delta_events (x ∷ xs)

unfoldable pub start_thinking : Emit
unfolding ◌>>◌ start_block_at with_next_index
start_thinking = with_next_index (λ index.
    modify (λ c. record c { thinking_block_index = some index })
    >> start_block_at index "thinking" (thinking_start index))

abbrev pub inside : List ℕ → StreamContext → StreamContext
inside after c = record c {
  in_thinking_block = true;
  strip_thinking_leading_newline = true;
  thinking_buffer = after;
}

unfoldable pub enter_thinking : List ℕ → Emit
unfolding ◌>>◌ start_thinking
enter_thinking after = modify (inside after) >> start_thinking

abbrev pub with_buffer : List ℕ → StreamContext → StreamContext
with_buffer text c = record c { thinking_buffer = text }

-- What may be the first part of a start tag stays in the buffer, with white space before it.
unfoldable pub send_before_tag : List ℕ × List ℕ → Emit
unfolding ◌>>◌ create_text_delta_events is_blank
send_before_tag (safe, rest) =
    when (not (is_blank safe)) (create_text_delta_events safe >> modify (with_buffer rest))

-- `next` is the next round of the loop.
unfoldable pub at_start_tag : Emit → Option (List ℕ × List ℕ) → Emit
unfolding ◌>>◌ send_visible enter_thinking send_before_tag cut_at_boundary
at_start_tag next none c =
    send_before_tag (cut_at_boundary (byte_len c.thinking_buffer - 10) c.thinking_buffer) c
at_start_tag next (some (before, after)) c = (send_visible before >> enter_thinking after >> next) c

abbrev pub is_empty : List ℕ → Bool
is_empty [] = true
is_empty (x ∷ xs) = false

-- The line end behind the start tag, which may come with a later piece.
unfoldable pub strip_leading_newline : StreamContext → StreamContext
unfolding strip_newline
strip_leading_newline c = record c {
  thinking_buffer =
      if c.strip_thinking_leading_newline
      then strip_newline c.thinking_buffer
      else c.thinking_buffer;
  strip_thinking_leading_newline = c.strip_thinking_leading_newline && is_empty c.thinking_buffer;
}

abbrev pub leave_thinking : StreamContext → StreamContext
leave_thinking c = record c {
  in_thinking_block = false;
  thinking_extracted = true;
  strip_text_after_thinking_boundary = true;
}

unfoldable pub end_thinking : List ℕ → Emit
unfolding ◌>>◌ send_some_thinking
end_thinking thinking = send_some_thinking thinking >> modify leave_thinking >> stop_thinking

-- What may be the first part of an end tag stays in the buffer.
unfoldable pub send_before_end : List ℕ × List ℕ → Emit
unfolding ◌>>◌ send_some_thinking
send_before_end (safe, rest) = send_some_thinking safe >> modify (with_buffer rest)

unfoldable pub at_end_tag : Emit → Option (List ℕ × List ℕ) → Emit
unfolding ◌>>◌ end_thinking send_before_end cut_at_boundary
at_end_tag next none c =
    send_before_end (cut_at_boundary (byte_len c.thinking_buffer - 11) c.thinking_buffer) c
at_end_tag next (some (thinking, after)) c =
    (end_thinking thinking >> modify (with_buffer after) >> next) c

-- Text behind the thinking block, with the white space at its start dropped once.
unfoldable pub text_after_thinking : StreamContext → List ℕ
unfolding trim_start
text_after_thinking c =
    if c.strip_text_after_thinking_boundary then trim_start c.thinking_buffer else c.thinking_buffer

unfoldable pub after_thinking : StreamContext → StreamContext
unfolding text_after_thinking
after_thinking c = record c {
  strip_text_after_thinking_boundary =
      c.strip_text_after_thinking_boundary && is_empty (text_after_thinking c);
}

unfoldable pub flush_extracted : Emit
unfolding after_thinking send_some_text
flush_extracted c =
    send_some_text (text_after_thinking c) (record (after_thinking c) { thinking_buffer = [] })

unfoldable pub thinking_round : Emit → Emit
unfolding ◌>>◌ at_start_tag at_end_tag strip_leading_newline flush_extracted
    find_real_thinking_start_tag find_real_thinking_end_tag_with_boundary
thinking_round next c =
    if c.in_thinking_block
    then (modify strip_leading_newline
          >> (λ c. at_end_tag next (find_real_thinking_end_tag_with_boundary c.thinking_buffer) c))
        c
    else if c.thinking_extracted
    then flush_extracted c
    else at_start_tag next (find_real_thinking_start_tag c.thinking_buffer) c

-- A round that goes on enters or leaves the thinking block, so that three rounds are enough.
unfoldable pub thinking_rounds : ℕ → Emit
unfolding thinking_round
thinking_rounds zero c = nothing c
thinking_rounds (suc n) c = thinking_round (thinking_rounds n) c

unfoldable pub process_content_with_thinking : List ℕ → Emit
unfolding ◌>>◌ thinking_rounds
process_content_with_thinking content =
    modify (λ c. with_buffer (c.thinking_buffer ++ content) c) >> thinking_rounds 3
