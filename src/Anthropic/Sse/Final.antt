-- ===== src/Anthropic/Sse/Final.antt =====
-- src/anthropic/stream.rs: the events that end a message.
use kiro_rs_tool.Prelude.{ℕ, ◌≡◌, refl, true, false, none, List, [], ◌∷◌, arith, any}
use kiro_rs_tool.Prelude.Map
use kiro_rs_tool.Prelude.Map.{nat_eq, string_eq}
use kiro_rs_tool.Anthropic.Json.{Json}
use kiro_rs_tool.Anthropic.Sse.{
  BlockState, SseStateManager, Usage, is_open, stop_blocks, delta_in, handle_content_block_delta,
  generate_final_events, send_message_delta, send_message_stop,
}

stop_blocks-is_open :
    (blocks : List (ℕ × BlockState))
    → any (λ p. is_open p.1) (stop_blocks (λ _. true) blocks).1 ≡ false
unfolding stop_blocks
stop_blocks-is_open [] = refl
stop_blocks-is_open ((j, b) ∷ rest) = ground (arith, stop_blocks-is_open rest)

stop_blocks_closed :
    (blocks : List (ℕ × BlockState))
    → any (λ p. is_open p.1) blocks ≡ false
    → stop_blocks (λ _. true) blocks ≡ ([], blocks)
unfolding stop_blocks
stop_blocks_closed [] h = refl
stop_blocks_closed ((j, b) ∷ rest) h = ground (arith, stop_blocks_closed rest)

delta_in_closed :
    (i : ℕ) (body : Json) (blocks : List (ℕ × BlockState))
    → any (λ p. is_open p.1) blocks ≡ false
    → delta_in (Map.lookup i blocks) body ≡ none
unfolding delta_in
delta_in_closed i body [] h = refl
delta_in_closed i body ((j, b) ∷ rest) h = ground (arith, delta_in_closed i body rest)

final_is_open :
    (m : SseStateManager) (usage : Usage)
    → any (λ p. is_open p.1) (generate_final_events m usage).1.active_blocks ≡ false
unfolding generate_final_events send_message_delta send_message_stop
final_is_open m usage = ground (arith, stop_blocks-is_open m.active_blocks)

final_flags :
    (m : SseStateManager) (usage : Usage)
    → ((generate_final_events m usage).1.message_delta_sent ≡ true)
      × ((generate_final_events m usage).1.message_ended ≡ true)
unfolding generate_final_events send_message_delta send_message_stop
final_flags m usage = ground arith

final_closed :
    (m : SseStateManager) (usage : Usage)
    → any (λ p. is_open p.1) m.active_blocks ≡ false
    → m.message_delta_sent ≡ true
    → m.message_ended ≡ true
    → generate_final_events m usage ≡ ([], m)
unfolding generate_final_events send_message_delta send_message_stop
final_closed m usage h sent ended = ground (arith, stop_blocks_closed m.active_blocks h)

-- After the end of a message every content block is closed, no delta is sent to any block, and a
-- second end of the message, with whatever usage, sends nothing and changes nothing.
pub generate_final_events_once :
    (m : SseStateManager) (usage usage' : Usage) (i : ℕ) (body : Json)
    → let m' = (generate_final_events m usage).1 in
      (any (λ p. is_open p.1) m'.active_blocks ≡ false)
      × (handle_content_block_delta m' i body ≡ none)
      × (generate_final_events m' usage' ≡ ([], m'))
unfolding handle_content_block_delta
generate_final_events_once m usage usage' i body =
    let closed = final_is_open m usage in
    let (sent, ended) = final_flags m usage in
    (closed, delta_in_closed i body _ closed, final_closed _ usage' closed sent ended)
