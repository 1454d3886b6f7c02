-- ===== src/Anthropic/Sse/Ending.antt =====
-- src/anthropic/stream.rs: the end of a message, as a client sees it.
use kiro_rs_tool.Prelude.{String, ◌≡◌, refl, ◌∙◌, true, false, some, [], ◌∷◌, arith, any}
use kiro_rs_tool.Anthropic.Sse.{
  SseStateManager, Usage, stop_blocks, message_delta_event, message_stop_event,
  generate_final_events, send_message_delta, send_message_stop,
}
use kiro_rs_tool.Anthropic.Protocol.{Seen, accept_all, is_running}
use kiro_rs_tool.Anthropic.Sse.View.{seen_blocks, accept_all-append}
use kiro_rs_tool.Anthropic.Sse.Stops.{with_blocks, accept_stop_blocks, stop_blocks_seen}
use kiro_rs_tool.Anthropic.Sse.Sound.{Sound, is_ready}

-- With every block stopped, the end of the message is accepted.
accept_ending :
    (reason : String) (u : Usage) (s : Seen)
    → is_running s ≡ true
    → s.ended ≡ false
    → any (λ p. p.1) s.blocks ≡ false
    → accept_all (message_delta_event reason u ∷ (message_stop_event ∷ [])) s
      ≡ some (record s { finished = true; ended = true })
unfolding accept_all message_delta_event message_stop_event
accept_ending reason u s running ended closed = simp (running, ended, closed) refl

pub final-Sound :
    (m : SseStateManager) (u : Usage)
    → is_ready m ≡ true
    → let r = generate_final_events m u in Sound r.0 m r.1 × (r.1.message_ended ≡ true)
unfolding Sound generate_final_events send_message_delta send_message_stop
final-Sound m u h =
    let sent : m.message_delta_sent ≡ false = ground arith in
    let ended : m.message_ended ≡ false = ground arith in
    let s : Seen = record {
      started = m.message_started;
      blocks = [];
      finished = false;
      ended = false;
    } in
    let stopped = stop_blocks (λ _. true) m.active_blocks in
    let running : is_running s ≡ true = ground arith in
    simp (sent, ended)
      (
        accept_all-append stopped.0 _ (with_blocks s (seen_blocks m.active_blocks))
            ∙ rw
                (accept_stop_blocks (λ _. true) m.next_block_index m.active_blocks s running
                  (ground arith))
                (accept_ending _ u (with_blocks s (seen_blocks stopped.1)) running refl
                  (stop_blocks_seen m.active_blocks)),
        refl,
      )
