-- ===== src/Anthropic/Sse.antt =====
-- src/anthropic/stream.rs: `SseStateManager`, which keeps the events of one message in the order of the
-- Anthropic protocol. `active_blocks` is a `HashMap`; the order of the list stands for the order in
-- which the table is iterated. Indices and token counts, `i32` in the code, are numbers: an index
-- comes from `next_block_index`, which counts up from 0.
pub mod Status
pub mod Final
pub mod Trace
pub mod View
pub mod Stops
pub mod Sound
pub mod Blocks
pub mod Ending
use kiro_rs_tool.Prelude.{
  ℕ, ◌+◌, String, Bool, true, false, not, ◌&&◌, Option, none, some, List, [], ◌∷◌, ◌++◌,
  if◌then◌else◌, any,
}
use kiro_rs_tool.Prelude.Map
use kiro_rs_tool.Prelude.Map.{nat_eq, string_eq}
use kiro_rs_tool.Prelude.Text.{codes}
use kiro_rs_tool.Anthropic.Json.{Json, null, number, string, object, field, no_fields}

pub record SseEvent : Type 0 where
  pub event : String
  pub body : Json

pub record BlockState : Type 0 where
  pub block_type : String
  pub started : Bool
  pub stopped : Bool

unfoldable pub new_block : String → BlockState
new_block block_type = record { block_type = block_type; started = false; stopped = false }

pub record SseStateManager : Type 0 where
  pub message_started : Bool
  pub message_delta_sent : Bool
  pub active_blocks : List (ℕ × BlockState)
  pub message_ended : Bool
  pub next_block_index : ℕ
  pub stop_reason : Option String
  pub has_tool_use : Bool

unfoldable pub new : SseStateManager
new = record {
  message_started = false;
  message_delta_sent = false;
  active_blocks = [];
  message_ended = false;
  next_block_index = 0;
  stop_reason = none;
  has_tool_use = false;
}

abbrev pub is_open : BlockState → Bool
is_open b = b.started && not b.stopped

abbrev pub is_type : String → BlockState → Bool
is_type expected b = string_eq.beq b.block_type expected

unfoldable pub open_of_type : Option BlockState → String → Bool
open_of_type none expected = false
open_of_type (some b) expected = is_open b && is_type expected b

unfoldable pub is_block_open_of_type : SseStateManager → ℕ → String → Bool
unfolding open_of_type
is_block_open_of_type m index expected = open_of_type (Map.lookup index m.active_blocks) expected

unfoldable pub take_block_index : SseStateManager → ℕ × SseStateManager
take_block_index m = (m.next_block_index, record m { next_block_index = m.next_block_index + 1 })

unfoldable pub set_has_tool_use : SseStateManager → Bool → SseStateManager
set_has_tool_use m has = record m { has_tool_use = has }

unfoldable pub set_stop_reason : SseStateManager → String → SseStateManager
set_stop_reason m reason = record m { stop_reason = some reason }

unfoldable pub has_non_thinking_blocks : SseStateManager → Bool
has_non_thinking_blocks m = any (λ p. not (is_type "thinking" p.1)) m.active_blocks

unfoldable pub get_stop_reason : SseStateManager → String
get_stop_reason m = elim m.stop_reason [
  | some reason ↦ reason
  | none ↦ if m.has_tool_use then "tool_use" else "end_turn"
]

unfoldable pub handle_message_start : SseStateManager → Json → Option SseEvent × SseStateManager
handle_message_start m event = if m.message_started then (none, m) else (
  some (record { event = "message_start"; body = event }),
  record m { message_started = true },
)

unfoldable pub stop_event : ℕ → SseEvent
stop_event index = record {
  event = "content_block_stop";
  body =
      object (
        field "type" (string (codes "content_block_stop"))
          (field "index" (number index) no_fields));
}

abbrev pub stop_block : BlockState → BlockState
stop_block b = record b { stopped = true }

-- The loops that stop every open block that passes a test, with the events that they send.
unfoldable pub stop_blocks :
    (BlockState → Bool) → List (ℕ × BlockState) → List SseEvent × List (ℕ × BlockState)
unfolding stop_event
stop_blocks test [] = ([], [])
stop_blocks test ((index, b) ∷ rest) =
    let (events, after) = stop_blocks test rest in
    if test b && is_open b
    then (stop_event index ∷ events, (index, stop_block b) ∷ after)
    else (events, (index, b) ∷ after)

-- A `tool_use` block stops the text blocks before it.
unfoldable pub before_block : SseStateManager → String → List SseEvent × SseStateManager
unfolding stop_blocks
before_block m block_type =
    if string_eq.beq block_type "tool_use"
    then (let (events, blocks) = stop_blocks (is_type "text") m.active_blocks in
        (events, record m { active_blocks = blocks; has_tool_use = true }))
    else ([], m)

unfoldable pub start_block : Option BlockState → String → Option BlockState
unfolding new_block
start_block none block_type = some (record (new_block block_type) { started = true })
start_block (some b) block_type = if b.started then none else some (record b { started = true })

-- `none` is a block that has been started before.
unfoldable pub start_in :
    Option BlockState → List SseEvent → SseStateManager → ℕ → Json → List SseEvent × SseStateManager
start_in none events m index body = (events, m)
start_in (some b) events m index body = (
  events ++ record { event = "content_block_start"; body = body } ∷ [],
  record m { active_blocks = Map.insert index b m.active_blocks },
)

unfoldable pub handle_content_block_start :
    SseStateManager → ℕ → String → Json → List SseEvent × SseStateManager
unfolding before_block start_block start_in
handle_content_block_start m index block_type body =
    let (events, m') = before_block m block_type in
    start_in (start_block (Map.lookup index m'.active_blocks) block_type) events m' index body

unfoldable pub delta_in : Option BlockState → Json → Option SseEvent
delta_in none body = none
delta_in (some b) body =
    if is_open b then some (record { event = "content_block_delta"; body = body }) else none

-- The state stays as it is.
unfoldable pub handle_content_block_delta : SseStateManager → ℕ → Json → Option SseEvent
unfolding delta_in
handle_content_block_delta m index body = delta_in (Map.lookup index m.active_blocks) body

unfoldable pub stop_in : Option BlockState → SseStateManager → ℕ → Option SseEvent × SseStateManager
unfolding stop_event
stop_in none m index = (none, m)
stop_in (some b) m index = if b.stopped then (none, m) else (
  some (stop_event index),
  record m { active_blocks = Map.insert index (stop_block b) m.active_blocks },
)

unfoldable pub handle_content_block_stop : SseStateManager → ℕ → Option SseEvent × SseStateManager
unfolding stop_in
handle_content_block_stop m index = stop_in (Map.lookup index m.active_blocks) m index

pub record Usage : Type 0 where
  pub input_tokens : ℕ
  pub output_tokens : ℕ
  pub cache_creation_input_tokens : ℕ
  pub cache_read_input_tokens : ℕ

unfoldable pub message_delta_event : String → Usage → SseEvent
message_delta_event reason u = record {
  event = "message_delta";
  body = object (
      field "type" (string (codes "message_delta")) (
        field "delta"
          (object
            (field "stop_reason" (string (codes reason)) (field "stop_sequence" null no_fields)))
          (field "usage"
            (object (
              field "input_tokens" (number u.input_tokens) (
                field "output_tokens" (number u.output_tokens) (
                  field "cache_creation_input_tokens" (number u.cache_creation_input_tokens) (
                    field "cache_read_input_tokens" (number u.cache_read_input_tokens)
                      no_fields)))))
            no_fields)));
}

unfoldable pub message_stop_event : SseEvent
message_stop_event = record {
  event = "message_stop";
  body = object (field "type" (string (codes "message_stop")) no_fields);
}

unfoldable pub send_message_delta : SseStateManager → Usage → List SseEvent × SseStateManager
unfolding message_delta_event get_stop_reason
send_message_delta m usage = if m.message_delta_sent then ([], m) else (
  message_delta_event (get_stop_reason m) usage ∷ [],
  record m { message_delta_sent = true },
)

unfoldable pub send_message_stop : SseStateManager → List SseEvent × SseStateManager
unfolding message_stop_event
send_message_stop m =
    if m.message_ended
    then ([], m)
    else (message_stop_event ∷ [], record m { message_ended = true })

unfoldable pub generate_final_events : SseStateManager → Usage → List SseEvent × SseStateManager
unfolding stop_blocks send_message_delta send_message_stop
generate_final_events m usage =
    let (stops, blocks) = stop_blocks (λ _. true) m.active_blocks in
    let (delta, m') = send_message_delta (record m { active_blocks = blocks }) usage in
    let (stop, m'') = send_message_stop m' in (stops ++ (delta ++ stop), m'')
