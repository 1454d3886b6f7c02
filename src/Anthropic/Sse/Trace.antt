-- ===== src/Anthropic/Sse/Trace.antt =====
-- src/anthropic/stream.rs: the events that a sequence of calls of the state manager sends.
use kiro_rs_tool.Prelude.{
  ℕ, ◌+◌, ◌≤◌, String, ◌≡◌, Bool, true, Option, none, some, List, [], ◌∷◌, ◌++◌, arith,
  if◌then◌else◌,
}
use kiro_rs_tool.Prelude.Map
use kiro_rs_tool.Prelude.Map.{nat_eq, string_eq}
use kiro_rs_tool.Anthropic.Json.{Json}
use kiro_rs_tool.Anthropic.Sse.{
  SseEvent, BlockState, SseStateManager, Usage, is_type, stop_event, stop_blocks, before_block,
  start_in, delta_in, stop_in, message_delta_event, message_stop_event, handle_message_start,
  handle_content_block_start, handle_content_block_delta, handle_content_block_stop,
  generate_final_events, send_message_delta, send_message_stop, take_block_index, set_has_tool_use,
  set_stop_reason,
}
use kiro_rs_tool.Anthropic.Sse.Status.{
  Call, message_start, block_start, block_delta, block_stop, block_index, tool_use, reason, final,
  step,
}

abbrev pub to_list {ℓ} : {A : Type ℓ} → Option A → List A
to_list none = []
to_list (some a) = a ∷ []

-- The events that a call sends.
unfoldable pub emit : Call → SseStateManager → List SseEvent
emit (message_start event) m = to_list (handle_message_start m event).0
emit (block_start index block_type body) m = (handle_content_block_start m index block_type body).0
emit (block_delta index body) m = to_list (handle_content_block_delta m index body)
emit (block_stop index) m = to_list (handle_content_block_stop m index).0
emit block_index m = []
emit (tool_use has) m = []
emit (reason r) m = []
emit (final usage) m = (generate_final_events m usage).0

unfoldable pub trace : List Call → SseStateManager → List SseEvent
trace [] m = []
trace (c ∷ cs) m = emit c m ++ trace cs (step c m)

-- How many of the events have a name.
abbrev pub count : String → List SseEvent → ℕ
count name [] = 0
count name (e ∷ es) = (if string_eq.beq e.event name then 1 else 0) + count name es

count-append :
    (name : String) (xs ys : List SseEvent) → count name (xs ++ ys) ≡ count name xs + count name ys
count-append name [] ys = omega arith
count-append name (x ∷ xs) ys = omega (arith, count-append name xs ys)

-- How often a flag still allows its event.
abbrev allowed : Bool → ℕ
allowed sent = if sent then 0 else 1

-- What the events use of what the flags of one manager allow, with what those of the next allow.
Within : List SseEvent → SseStateManager → SseStateManager → Type 0
Within es m m' =
    (count "message_start" es + allowed m'.message_started ≤ allowed m.message_started)
    × (count "message_delta" es + allowed m'.message_delta_sent ≤ allowed m.message_delta_sent)
    × (count "message_stop" es + allowed m'.message_ended ≤ allowed m.message_ended)

stop_blocks-count :
    (test : BlockState → Bool) (blocks : List (ℕ × BlockState))
    → (count "message_start" (stop_blocks test blocks).0 ≡ 0)
      × (count "message_delta" (stop_blocks test blocks).0 ≡ 0)
      × (count "message_stop" (stop_blocks test blocks).0 ≡ 0)
unfolding stop_blocks stop_event
stop_blocks-count test [] = ground arith
stop_blocks-count test ((j, b) ∷ rest) = ground (arith, stop_blocks-count test rest)

delta_in-Within :
    (o : Option BlockState) (m : SseStateManager) (body : Json)
    → Within (to_list (delta_in o body)) m m
unfolding Within delta_in
delta_in-Within none m body = ground arith
delta_in-Within (some b) m body = ground arith

stop_in-Within :
    (o : Option BlockState) (m : SseStateManager) (index : ℕ)
    → Within (to_list (stop_in o m index).0) m (stop_in o m index).1
unfolding Within stop_in stop_event
stop_in-Within none m index = ground arith
stop_in-Within (some b) m index = ground arith

before_block-Within :
    (m : SseStateManager) (block_type : String)
    → Within (before_block m block_type).0 m (before_block m block_type).1
unfolding Within before_block
before_block-Within m block_type =
    ground (arith, stop_blocks-count (is_type "text") m.active_blocks)

start_in-Within :
    (o : Option BlockState) (events : List SseEvent) (m m' : SseStateManager) (index : ℕ)
    (body : Json)
    → Within events m m'
    → Within (start_in o events m' index body).0 m (start_in o events m' index body).1
unfolding Within start_in
start_in-Within none events m m' index body h = h
start_in-Within (some b) events m m' index body h =
    rw (count-append "message_start", count-append "message_delta", count-append "message_stop")
      (ground (arith, h))

final-Within :
    (m : SseStateManager) (usage : Usage)
    → Within (generate_final_events m usage).0 m (generate_final_events m usage).1
unfolding Within generate_final_events send_message_delta send_message_stop message_delta_event
    message_stop_event
final-Within m usage =
    rw (count-append "message_start", count-append "message_delta", count-append "message_stop")
      (ground (arith, stop_blocks-count (λ _. true) m.active_blocks))

emit-Within : (c : Call) (m : SseStateManager) → Within (emit c m) m (step c m)
unfolding Within emit step
emit-Within (message_start event) m = unfold handle_message_start in ground arith
emit-Within (block_start index block_type body) m =
    unfold handle_content_block_start in
    start_in-Within _ (before_block m block_type).0 m (before_block m block_type).1 index body
      (before_block-Within m block_type)
emit-Within (block_delta index body) m =
    unfold handle_content_block_delta in delta_in-Within (Map.lookup index m.active_blocks) m body
emit-Within (block_stop index) m =
    unfold handle_content_block_stop in stop_in-Within (Map.lookup index m.active_blocks) m index
emit-Within block_index m = unfold take_block_index in ground arith
emit-Within (tool_use has) m = unfold set_has_tool_use in ground arith
emit-Within (reason r) m = unfold set_stop_reason in ground arith
emit-Within (final usage) m = final-Within m usage

-- The events of any sequence of calls have at most one `message_start`, at most one
-- `message_delta` and at most one `message_stop`, and none of a kind that has been sent before.
pub trace_once :
    (cs : List Call) (m : SseStateManager)
    → (count "message_start" (trace cs m) ≤ allowed m.message_started)
      × (count "message_delta" (trace cs m) ≤ allowed m.message_delta_sent)
      × (count "message_stop" (trace cs m) ≤ allowed m.message_ended)
unfolding trace Within
trace_once [] m = ground arith
trace_once (c ∷ cs) m =
    rw (count-append "message_start", count-append "message_delta", count-append "message_stop")
      (ground (arith, emit-Within c m, trace_once cs (step c m)))
