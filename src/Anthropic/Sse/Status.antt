-- ===== src/Anthropic/Sse/Status.antt =====
-- src/anthropic/stream.rs: the life of a content block under the state manager.
use kiro_rs_tool.Prelude.{
  ℕ, String, ◌≡◌, refl, sym, subst, ◌∙◌, ap, Bool, true, false, ◌&&◌, Option, none, some, List, [],
  ◌∷◌, arith, ==_iff, Bool-cases, Option-cases, inl, inr,
}
use kiro_rs_tool.Prelude.Map
use kiro_rs_tool.Prelude.Map.{nat_eq, string_eq, lookup-insert}
use kiro_rs_tool.Anthropic.Json.{Json}
use kiro_rs_tool.Anthropic.Sse.{
  SseEvent, BlockState, SseStateManager, Usage, is_type, stop_blocks, before_block, start_block,
  start_in, delta_in, stop_in, take_block_index, set_has_tool_use, set_stop_reason,
  handle_message_start, handle_content_block_start, handle_content_block_delta,
  handle_content_block_stop, generate_final_events, send_message_delta, send_message_stop,
}

-- One call of the manager.
pub data Call : Type 0 where
  message_start : Json → Call
  block_start : ℕ → String → Json → Call
  block_delta : ℕ → Json → Call
  block_stop : ℕ → Call
  block_index : Call
  tool_use : Bool → Call
  reason : String → Call
  final : Usage → Call

-- The manager after a call.
unfoldable pub step : Call → SseStateManager → SseStateManager
step (message_start event) m = (handle_message_start m event).1
step (block_start index block_type body) m = (handle_content_block_start m index block_type body).1
step (block_delta index body) m = m
step (block_stop index) m = (handle_content_block_stop m index).1
step block_index m = (take_block_index m).1
step (tool_use has) m = set_has_tool_use m has
step (reason r) m = set_stop_reason m r
step (final usage) m = (generate_final_events m usage).1

pub run : List Call → SseStateManager → SseStateManager
run [] m = m
run (c ∷ cs) m = run cs (step c m)

-- What a block has been through: it is there, and it has been started and stopped.
abbrev done_in : Option BlockState → Bool
done_in none = false
done_in (some b) = b.started && b.stopped

unfoldable pub is_done : SseStateManager → ℕ → Bool
is_done m index = done_in (Map.lookup index m.active_blocks)

stop_blocks-done :
    (test : BlockState → Bool) (i : ℕ) (blocks : List (ℕ × BlockState))
    → done_in (Map.lookup i blocks) ≡ true
    → done_in (Map.lookup i (stop_blocks test blocks).1) ≡ true
unfolding stop_blocks
stop_blocks-done test i [] = ground arith
stop_blocks-done test i ((j, b) ∷ rest) = ground (arith, stop_blocks-done test i rest)

before_block-done :
    (m : SseStateManager) (block_type : String) (i : ℕ)
    → is_done m i ≡ true
    → is_done (before_block m block_type).1 i ≡ true
unfolding before_block is_done
before_block-done m block_type i h =
    ground (arith, stop_blocks-done (is_type "text") i m.active_blocks h)

-- A block that is put in the place of one keeps the others done.
insert-done :
    (i j : ℕ) (b : BlockState) (blocks : List (ℕ × BlockState))
    → (i ≡ j → b.started && b.stopped ≡ true)
    → done_in (Map.lookup i blocks) ≡ true
    → done_in (Map.lookup i (Map.insert j b blocks)) ≡ true
insert-done i j b blocks own h =
    rw (lookup-insert j i b blocks) (ground (arith, own, h, ==_iff j i))

-- What is done at one of two equal indices is done at the other.
done_same :
    (m : SseStateManager) (i j : ℕ) (o : Option BlockState)
    → is_done m i ≡ true
    → i ≡ j
    → Map.lookup j m.active_blocks ≡ o
    → done_in o ≡ true
unfolding is_done
done_same m i j o h e found =
    sym (ap done_in found) ∙ subst (λ k. done_in (Map.lookup k m.active_blocks) ≡ true) e h

start_in-done :
    (events : List SseEvent) (m : SseStateManager) (i j : ℕ) (block_type : String) (body : Json)
    → is_done m i ≡ true
    → is_done (start_in (start_block (Map.lookup j m.active_blocks) block_type) events m j body).1 i
      ≡ true
unfolding start_in start_block is_done
start_in-done events m i j block_type body h = elim (Option-cases (Map.lookup j m.active_blocks)) [
  | inl missing ↦
      rw missing (
        insert-done i j _ m.active_blocks (λ e. ground (arith, done_same m i j none h e missing)) h)
  | inr (b, found) ↦ elim (Bool-cases b.started) [
    | inl started ↦ rw found (simp started h)
    | inr fresh ↦ rw found (
        simp fresh (
          insert-done i j _ m.active_blocks
            (λ e. ground (arith, done_same m i j (some b) h e found)) h))
  ]
]

stop_in-done :
    (m : SseStateManager) (i j : ℕ)
    → is_done m i ≡ true
    → is_done (stop_in (Map.lookup j m.active_blocks) m j).1 i ≡ true
unfolding stop_in is_done
stop_in-done m i j h = elim (Option-cases (Map.lookup j m.active_blocks)) [
  | inl missing ↦ rw missing h
  | inr (b, found) ↦ elim (Bool-cases b.stopped) [
    | inl stopped ↦ rw found (simp stopped h)
    | inr running ↦ rw found (
        simp running (
          insert-done i j _ m.active_blocks
            (λ e. ground (arith, done_same m i j (some b) h e found)) h))
  ]
]

step-done :
    (c : Call) (m : SseStateManager) (i : ℕ) → is_done m i ≡ true → is_done (step c m) i ≡ true
unfolding step is_done
step-done (message_start event) m i h = unfold handle_message_start in ground arith
step-done (block_start index block_type body) m i h =
    unfold handle_content_block_start in
    start_in-done _ (before_block m block_type).1 i index block_type body
      (before_block-done m block_type i h)
step-done (block_delta index body) m i h = h
step-done (block_stop index) m i h = unfold handle_content_block_stop in stop_in-done m i index h
step-done block_index m i h = unfold take_block_index in h
step-done (tool_use has) m i h = unfold set_has_tool_use in h
step-done (reason r) m i h = unfold set_stop_reason in h
step-done (final usage) m i h =
    unfold generate_final_events send_message_delta send_message_stop in
    ground (arith, stop_blocks-done (λ _. true) i m.active_blocks h)

run-done :
    (cs : List Call) (m : SseStateManager) (i : ℕ)
    → is_done m i ≡ true
    → is_done (run cs m) i ≡ true
unfolding run
run-done [] m i h = h
run-done (c ∷ cs) m i h = run-done cs (step c m) i (step-done c m i h)

delta_in_silent : (o : Option BlockState) (body : Json) → done_in o ≡ true → delta_in o body ≡ none
unfolding delta_in
delta_in_silent none body h = refl
delta_in_silent (some b) body h = ground arith

stop_in_silent :
    (o : Option BlockState) (m : SseStateManager) (i : ℕ)
    → done_in o ≡ true
    → stop_in o m i ≡ (none, m)
unfolding stop_in
stop_in_silent none m i h = refl
stop_in_silent (some b) m i h = ground arith

start_block_silent :
    (o : Option BlockState) (block_type : String)
    → done_in o ≡ true
    → start_block o block_type ≡ none
unfolding start_block
start_block_silent none block_type h = ground arith
start_block_silent (some b) block_type h = ground arith

start_silent :
    (m : SseStateManager) (i : ℕ) (block_type : String) (body : Json)
    → is_done m i ≡ true
    → handle_content_block_start m i block_type body ≡ before_block m block_type
unfolding handle_content_block_start is_done start_in
start_silent m i block_type body h =
    ap (λ o. start_in o (before_block m block_type).0 (before_block m block_type).1 i body)
      (start_block_silent _ block_type (before_block-done m block_type i h))

silent :
    (m : SseStateManager) (i : ℕ) (block_type : String) (body : Json)
    → is_done m i ≡ true
    → (handle_content_block_delta m i body ≡ none)
      × (handle_content_block_stop m i ≡ (none, m))
      × (handle_content_block_start m i block_type body ≡ before_block m block_type)
unfolding handle_content_block_delta handle_content_block_stop is_done
silent m i block_type body h =
    (delta_in_silent _ body h, stop_in_silent _ m i h, start_silent m i block_type body h)

-- After a block has been started and stopped, whatever calls follow, its index stays silent: a
-- delta or a second stop sends nothing, and a second start sends no start event, only the stops of
-- the text blocks that a start of a tool_use block sends.
pub run_after_stop :
    (cs : List Call) (m : SseStateManager) (i : ℕ) (block_type : String) (body : Json)
    → is_done m i ≡ true
    → let m' = run cs m in
      (handle_content_block_delta m' i body ≡ none)
      × (handle_content_block_stop m' i ≡ (none, m'))
      × (handle_content_block_start m' i block_type body ≡ before_block m' block_type)
run_after_stop cs m i block_type body h = silent (run cs m) i block_type body (run-done cs m i h)
