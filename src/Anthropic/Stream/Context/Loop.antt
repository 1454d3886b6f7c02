-- ===== src/Anthropic/Stream/Context/Loop.antt =====
-- src/anthropic/stream.rs: the text of the service, with its thinking block, as a client sees it.
use kiro_rs_tool.Prelude.{
  ℕ, zero, suc, ◌-◌, ◌≡◌, refl, Bool, true, false, not, ◌&&◌, Option, none, some, List, [], ◌∷◌,
  ◌++◌, arith,
}
use kiro_rs_tool.Prelude.Chars.{is_blank, byte_len}
use kiro_rs_tool.Anthropic.Stream.Thinking.{
  find_real_thinking_start_tag, find_real_thinking_end_tag_with_boundary, cut_at_boundary,
}
use kiro_rs_tool.Anthropic.Stream.Context.{StreamContext, Emit, modify, ◌>>◌, when}
use kiro_rs_tool.Anthropic.Stream.Context.Blocks.{create_text_delta_events, send_some_thinking}
use kiro_rs_tool.Anthropic.Stream.Context.Content.{
  send_visible, send_some_text, inside, with_buffer, start_thinking, enter_thinking,
  send_before_tag, at_start_tag, strip_leading_newline, end_thinking, send_before_end, at_end_tag,
  after_thinking, text_after_thinking, flush_extracted, thinking_round, thinking_rounds,
  process_content_with_thinking,
}
use kiro_rs_tool.Anthropic.Stream.Context.Ready.{
  is_sound, is_ready, Triple, Triple-seq, Quiet, AlwaysQuiet, AlwaysQuiet-ready,
  AlwaysQuiet-nothing, Quiet-ready,
}
use kiro_rs_tool.Anthropic.Stream.Context.Quiet.{create_text-Quiet}
use kiro_rs_tool.Anthropic.Stream.Context.Thought.{
  Property, modify-Triple, nothing-Triple, if-Triple, weaken, read-Triple, some_thinking-Triple,
  is_in, is_in-OpenIn, end_thinking-Triple, start_thinking-Triple,
}

pub when-Quiet : (b : Bool) (f : Emit) → AlwaysQuiet f → AlwaysQuiet (when b f)
when-Quiet true f q = q
when-Quiet false f q = AlwaysQuiet-nothing

pub send_some_text-Quiet : (text : List ℕ) → AlwaysQuiet (send_some_text text)
unfolding send_some_text
send_some_text-Quiet [] = AlwaysQuiet-nothing
send_some_text-Quiet (x ∷ xs) = create_text-Quiet (x ∷ xs)

pub create_text-Triple : (text : List ℕ) → Triple is_ready (create_text_delta_events text) is_ready
create_text-Triple text = AlwaysQuiet-ready (create_text_delta_events text) (create_text-Quiet text)

pub send_some_text-Triple : (text : List ℕ) → Triple is_ready (send_some_text text) is_ready
send_some_text-Triple text = AlwaysQuiet-ready (send_some_text text) (send_some_text-Quiet text)

-- No thinking block has been entered.
abbrev is_fresh : Property
is_fresh c = is_ready c && (not c.in_thinking_block && not c.thinking_extracted)

Quiet-fresh : (f : Emit) → AlwaysQuiet f → Triple is_fresh f is_fresh
unfolding AlwaysQuiet Triple Quiet
Quiet-fresh f q c h =
    let quiet = q c (ground arith) in
    let ready = Quiet-ready c (f c) (ground arith) quiet in
    ((AlwaysQuiet-ready f q c (ground arith)).0, ground (arith, ready, quiet.1, quiet.3))

enter-Triple : (after : List ℕ) → Triple is_fresh (enter_thinking after) is_ready
unfolding enter_thinking
enter-Triple after =
    Triple-seq is_fresh (λ c. is_sound c && (c.in_thinking_block && not c.reasoning_block_open))
      is_ready (modify (inside after)) start_thinking
      (modify-Triple is_fresh
        (λ c. is_sound c && (c.in_thinking_block && not c.reasoning_block_open)) (inside after)
        (λ c. refl) (λ c h. ground arith))
      start_thinking-Triple

-- A change of the buffer.
pub with_buffer-Triple :
    (P : Property) (text : StreamContext → List ℕ)
    → ((c : StreamContext) (text : List ℕ) → P c ≡ true → P (with_buffer text c) ≡ true)
    → Triple P (modify (λ c. with_buffer (text c) c)) P
with_buffer-Triple P text keep =
    modify-Triple P P (λ c. with_buffer (text c) c) (λ c. refl) (λ c h. keep c (text c) h)

pub when_then :
    (P Q : Property) (b : Bool) (f : Emit)
    → Triple P f Q
    → ((c : StreamContext) → P c ≡ true → Q c ≡ true)
    → Triple P (when b f) Q
when_then P Q true f h keep = h
when_then P Q false f h keep = nothing-Triple P Q keep

send_before_tag-Triple : (cut : List ℕ × List ℕ) → Triple is_fresh (send_before_tag cut) is_ready
unfolding send_before_tag
send_before_tag-Triple (safe, rest) =
    when_then is_fresh is_ready (not (is_blank safe)) _
      (Triple-seq is_fresh is_ready is_ready (create_text_delta_events safe)
        (modify (with_buffer rest))
        (weaken is_fresh is_ready is_ready (create_text_delta_events safe) (λ c h. ground arith)
          (create_text-Triple safe))
        (with_buffer-Triple is_ready (λ _. rest) (λ c text h. h)))
      (λ c h. ground arith)

at_start_tag-Triple :
    (next : Emit) (o : Option (List ℕ × List ℕ))
    → Triple is_ready next is_ready
    → Triple is_fresh (at_start_tag next o) is_ready
unfolding at_start_tag send_visible
at_start_tag-Triple next none h =
    read-Triple is_fresh is_ready send_before_tag
      (λ c. cut_at_boundary (byte_len c.thinking_buffer - 10) c.thinking_buffer)
      send_before_tag-Triple
at_start_tag-Triple next (some (before, after)) h =
    Triple-seq is_fresh is_fresh is_ready (send_visible before) (enter_thinking after >> next)
      (Quiet-fresh (send_visible before) (
        when-Quiet (not (is_blank before)) (create_text_delta_events before)
          (create_text-Quiet before)))
      (Triple-seq is_fresh is_ready is_ready (enter_thinking after) next (enter-Triple after) h)

send_before_end-Triple : (cut : List ℕ × List ℕ) → Triple is_in (send_before_end cut) is_ready
unfolding send_before_end
send_before_end-Triple (safe, rest) =
    Triple-seq is_in is_in is_ready (send_some_thinking safe) (modify (with_buffer rest))
      (some_thinking-Triple is_in is_in-OpenIn safe)
      (weaken is_in is_ready is_ready (modify (with_buffer rest)) (λ c h. ground arith)
        (with_buffer-Triple is_ready (λ _. rest) (λ c text h. h)))

at_end_tag-Triple :
    (next : Emit) (o : Option (List ℕ × List ℕ))
    → Triple is_ready next is_ready
    → Triple is_in (at_end_tag next o) is_ready
unfolding at_end_tag
at_end_tag-Triple next none h =
    read-Triple is_in is_ready send_before_end
      (λ c. cut_at_boundary (byte_len c.thinking_buffer - 11) c.thinking_buffer)
      send_before_end-Triple
at_end_tag-Triple next (some (thinking, after)) h =
    Triple-seq is_in is_ready is_ready (end_thinking thinking) (modify (with_buffer after) >> next)
      (end_thinking-Triple thinking)
      (Triple-seq is_ready is_ready is_ready (modify (with_buffer after)) next
        (with_buffer-Triple is_ready (λ _. after) (λ c text h. h)) h)

flush_extracted-Triple : Triple is_ready flush_extracted is_ready
unfolding flush_extracted after_thinking Triple
flush_extracted-Triple c h =
    send_some_text-Triple (text_after_thinking c)
      (record (after_thinking c) { thinking_buffer = [] }) h

thinking_round-Triple :
    (next : Emit) → Triple is_ready next is_ready → Triple is_ready (thinking_round next) is_ready
unfolding thinking_round
thinking_round-Triple next h =
    if-Triple is_ready is_ready (λ c. c.in_thinking_block) _ _
      (Triple-seq is_in is_in is_ready (modify strip_leading_newline)
        (λ c. at_end_tag next (find_real_thinking_end_tag_with_boundary c.thinking_buffer) c)
        (unfold strip_leading_newline in
          modify-Triple is_in is_in strip_leading_newline (λ c. refl) (λ c h. h))
        (read-Triple is_in is_ready (at_end_tag next)
          (λ c. find_real_thinking_end_tag_with_boundary c.thinking_buffer)
          (λ o. at_end_tag-Triple next o h)))
      (if-Triple (λ c. is_ready c && not c.in_thinking_block) is_ready (λ c. c.thinking_extracted)
        flush_extracted (λ c. at_start_tag next (find_real_thinking_start_tag c.thinking_buffer) c)
        (weaken _ is_ready is_ready flush_extracted (λ c h. ground arith) flush_extracted-Triple)
        (weaken _ is_fresh is_ready _ (λ c h. ground arith)
          (read-Triple is_fresh is_ready (at_start_tag next)
            (λ c. find_real_thinking_start_tag c.thinking_buffer)
            (λ o. at_start_tag-Triple next o h))))

thinking_rounds-Triple : (n : ℕ) → Triple is_ready (thinking_rounds n) is_ready
unfolding thinking_rounds
thinking_rounds-Triple zero = nothing-Triple is_ready is_ready (λ c h. h)
thinking_rounds-Triple (suc n) =
    thinking_round-Triple (thinking_rounds n) (thinking_rounds-Triple n)

pub process_content-Triple :
    (content : List ℕ) → Triple is_ready (process_content_with_thinking content) is_ready
unfolding process_content_with_thinking
process_content-Triple content =
    Triple-seq is_ready is_ready is_ready _ (thinking_rounds 3)
      (with_buffer-Triple is_ready (λ c. c.thinking_buffer ++ content) (λ c text h. h))
      (thinking_rounds-Triple 3)
