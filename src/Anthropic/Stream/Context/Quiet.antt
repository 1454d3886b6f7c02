-- ===== src/Anthropic/Stream/Context/Quiet.antt =====
-- src/anthropic/stream.rs: the methods of `StreamContext` that send text, as a client sees them.
use kiro_rs_tool.Prelude.{
  ℕ, ◌+◌, ◌≡◌, refl, String, true, false, Option, none, some, List, arith, Bool-cases, inl, inr,
}
use kiro_rs_tool.Prelude.Map.{string_eq}
use kiro_rs_tool.Anthropic.Json.{Json}
use kiro_rs_tool.Anthropic.Sse.{
  SseStateManager, is_block_open_of_type, take_block_index, handle_content_block_start,
}
use kiro_rs_tool.Anthropic.Protocol.{index_of}
use kiro_rs_tool.Anthropic.Sse.View.{fine_suc}
use kiro_rs_tool.Anthropic.Sse.Sound
use kiro_rs_tool.Anthropic.Sse.Sound.{
  Sound, Advance, thinking_at, Sound-append, Advance-nothing, Advance-trans,
}
use kiro_rs_tool.Anthropic.Sse.Blocks.{start-Advance, delta-Advance, stop-Advance}
use kiro_rs_tool.Anthropic.Stream.Context.{
  modify, ◌>>◌, with_next_index, start_block_at, delta_at, stop_block_at, text_start, text_delta,
}
use kiro_rs_tool.Anthropic.Stream.Context.Blocks.{
  start_text, forget_stopped_text, ensure_text, send_text_delta, create_text_delta_events,
  close_text_at, close_text_if_open,
}
use kiro_rs_tool.Prelude.Map
use kiro_rs_tool.Prelude.Map.{nat_eq}
use kiro_rs_tool.Anthropic.Sse.{BlockState, open_of_type}
use kiro_rs_tool.Anthropic.Sse.Stops.{thinking_no_text}
use kiro_rs_tool.Anthropic.Stream.Context.Ready.{
  Quiet, AlwaysQuiet, Quiet_seq, AlwaysQuiet-nothing, Quiet_read,
}

pub next_ready :
    (m : SseStateManager)
    → Sound.is_ready m ≡ true
    → Sound.is_ready (record m { next_block_index = m.next_block_index + 1 }) ≡ true
next_ready m h = ground (arith, fine_suc m.next_block_index m.active_blocks)

-- A block with a new index that is no thinking block.
pub start_next :
    (m : SseStateManager) (ty : String) (body : Json)
    → Sound.is_ready m ≡ true
    → index_of body ≡ some m.next_block_index
    → string_eq.beq ty "thinking" ≡ false
    → let r = handle_content_block_start (take_block_index m).1 m.next_block_index ty body in
      Advance m r.0 r.1
unfolding Advance Sound take_block_index
start_next m ty body h index other =
    let (s, r, le, same) =
      start-Advance (record m { next_block_index = m.next_block_index + 1 }) m.next_block_index ty
        body (next_ready m h) (ground arith) index other in
    (s, r, omega (arith, le), same)

pub start_text-Quiet : AlwaysQuiet start_text
unfolding AlwaysQuiet Quiet start_text with_next_index ◌>>◌ start_block_at take_block_index
start_text-Quiet c h = (
  start_next c.state_manager "text" (text_start c.state_manager.next_block_index) h refl refl,
  refl,
  refl,
  refl,
  refl,
  refl,
)

pub delta_at-Quiet : (i : ℕ) (body : Json) → index_of body ≡ some i → AlwaysQuiet (delta_at i body)
unfolding AlwaysQuiet Quiet delta_at
delta_at-Quiet i body index c h =
    (delta-Advance c.state_manager i body h index, refl, refl, refl, refl, refl)

forget_stopped_text-Quiet : AlwaysQuiet (modify forget_stopped_text)
unfolding AlwaysQuiet Quiet forget_stopped_text
forget_stopped_text-Quiet c h = (Advance-nothing c.state_manager h, refl, refl, refl, refl, refl)

ensure_text-Quiet : (o : Option ℕ) → AlwaysQuiet (ensure_text o)
unfolding ensure_text
ensure_text-Quiet none = start_text-Quiet
ensure_text-Quiet (some i) = AlwaysQuiet-nothing

send_text_delta-Quiet : (o : Option ℕ) (text : List ℕ) → AlwaysQuiet (send_text_delta o text)
unfolding send_text_delta
send_text_delta-Quiet none text = AlwaysQuiet-nothing
send_text_delta-Quiet (some i) text = delta_at-Quiet i (text_delta i text) refl

pub create_text-Quiet : (text : List ℕ) → AlwaysQuiet (create_text_delta_events text)
unfolding create_text_delta_events
create_text-Quiet text = Quiet_seq (modify forget_stopped_text) _ forget_stopped_text-Quiet (
    Quiet_seq (λ c. ensure_text c.text_block_index c) _
      (Quiet_read ensure_text (λ c. c.text_block_index) ensure_text-Quiet)
      (Quiet_read (λ o. send_text_delta o text) (λ c. c.text_block_index)
        (λ o. send_text_delta-Quiet o text)))

no_thinking_in :
    (o : Option BlockState) → open_of_type o "text" ≡ true → open_of_type o "thinking" ≡ false
unfolding open_of_type
no_thinking_in none h = refl
no_thinking_in (some b) h = ground (arith, thinking_no_text b.block_type)

text_no_thinking :
    (m : SseStateManager) (i : ℕ)
    → is_block_open_of_type m i "text" ≡ true
    → thinking_at i m ≡ false
unfolding is_block_open_of_type thinking_at
text_no_thinking m i h = no_thinking_in (Map.lookup i m.active_blocks) h

close_text_at-Quiet : (o : Option ℕ) → AlwaysQuiet (close_text_at o)
unfolding AlwaysQuiet Quiet close_text_at stop_block_at
close_text_at-Quiet none c h = AlwaysQuiet-nothing c h
close_text_at-Quiet (some i) c h =
    elim (Bool-cases (is_block_open_of_type c.state_manager i "text")) [
      | inr other ↦ rw other (AlwaysQuiet-nothing c h)
      | inl opened ↦ rw opened (
        stop-Advance c.state_manager i h (text_no_thinking c.state_manager i opened),
        refl,
        refl,
        refl,
        refl,
        refl,
      )
    ]

pub close_text_if_open-Quiet : AlwaysQuiet close_text_if_open
unfolding close_text_if_open
close_text_if_open-Quiet = Quiet_read close_text_at (λ c. c.text_block_index) close_text_at-Quiet
