-- ===== src/Anthropic/Sse/Sound.antt =====
-- src/anthropic/stream.rs: what it means that a client accepts what the state manager sends while the
-- message runs; the stops that come before a block.
use kiro_rs_tool.Prelude.{
  ℕ, ◌≤◌, ◌≡◌, refl, ◌∙◌, Bool, true, not, ◌&&◌, some, List, [], ◌++◌, arith, String, Bool-cases,
  inl, inr,
}
use kiro_rs_tool.Prelude.Map
use kiro_rs_tool.Prelude.Map.{nat_eq, string_eq, lookup-insert}
use kiro_rs_tool.Anthropic.Sse.{SseEvent, SseStateManager, is_type, open_of_type, before_block}
use kiro_rs_tool.Anthropic.Protocol.{accept_all, is_running}
use kiro_rs_tool.Anthropic.Sse.View.{view, is_fine, accept_all-append}
use kiro_rs_tool.Anthropic.Sse.Stops.{accept_stop_blocks, stop_blocks_fine, stop_blocks_thinking}

-- The message has been started and not ended, and the blocks are as they should be.
abbrev pub is_ready : SseStateManager → Bool
is_ready m =
    (m.message_started && (not m.message_delta_sent && not m.message_ended))
    && is_fine m.next_block_index m.active_blocks

unfoldable pub Sound : List SseEvent → SseStateManager → SseStateManager → Type 0
Sound es m m' = accept_all es (view m) ≡ some (view m')

-- A thinking block is open at an index.
unfoldable pub thinking_at : ℕ → SseStateManager → Bool
thinking_at i m = open_of_type (Map.lookup i m.active_blocks) "thinking"

unfoldable pub Advance : SseStateManager → List SseEvent → SseStateManager → Type 0
unfolding Sound thinking_at
Advance m es m' =
    Sound es m m'
    × (is_ready m' ≡ true)
    × (m.next_block_index ≤ m'.next_block_index)
    × ((j : ℕ) → thinking_at j m' ≡ thinking_at j m)

pub Sound-append :
    (es es' : List SseEvent) (m m' m'' : SseStateManager)
    → Sound es m m'
    → Sound es' m' m''
    → Sound (es ++ es') m m''
unfolding Sound
Sound-append es es' m m' m'' h h' = accept_all-append es es' (view m) ∙ (rw h h')

pub Advance-nothing : (m : SseStateManager) → is_ready m ≡ true → Advance m [] m
unfolding Advance Sound accept_all
Advance-nothing m h = (refl, h, omega arith, λ j. refl)

pub Advance-trans :
    (es es' : List SseEvent) (m m' m'' : SseStateManager)
    → Advance m es m'
    → Advance m' es' m''
    → Advance m (es ++ es') m''
unfolding Advance
Advance-trans es es' m m' m'' (s, r, le, k) (s', r', le', k') =
    (Sound-append es es' m m' m'' s s', r', omega arith, λ j. k' j ∙ k j)

pub before_block-Advance :
    (m : SseStateManager) (ty : String)
    → is_ready m ≡ true
    → Advance m (before_block m ty).0 (before_block m ty).1
unfolding before_block Advance Sound thinking_at
before_block-Advance m ty h = elim (Bool-cases (string_eq.beq ty "tool_use")) [
  | inr other ↦ simp other (Advance-nothing m h)
  | inl tool ↦ simp tool (
    accept_stop_blocks (is_type "text") m.next_block_index m.active_blocks (view m) (ground arith)
        (ground arith),
    ground (arith, stop_blocks_fine (is_type "text") m.next_block_index m.active_blocks),
    omega arith,
    λ j. stop_blocks_thinking j m.active_blocks,
  )
]

pub is_ready-is_running : (m : SseStateManager) → is_ready m ≡ true → is_running (view m) ≡ true
is_ready-is_running m h = ground arith
