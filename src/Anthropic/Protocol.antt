-- ===== src/Anthropic/Protocol.antt =====
-- The order of events that the Anthropic protocol asks for, and that the head comment of
-- `SseStateManager` in src/anthropic/stream.rs lists: what a client has seen of one message, and which
-- event may come next. It reads the events alone, and knows nothing of the code that sends them.
pub mod Strict
use kiro_rs_tool.Prelude.{
  ℕ, Bool, true, false, not, ◌&&◌, Option, none, some, List, [], ◌∷◌, if◌then◌else◌, any,
}
use kiro_rs_tool.Prelude.Map
use kiro_rs_tool.Prelude.Map.{nat_eq, string_eq}
use kiro_rs_tool.Anthropic.Json.{Json, object, number, Fields, no_fields, field}
use kiro_rs_tool.Anthropic.Sse.{SseEvent}

-- Of each content block that has been started, whether it is still open.
pub record Seen : Type 0 where
  pub started : Bool
  pub blocks : List (ℕ × Bool)
  pub finished : Bool
  pub ended : Bool

abbrev pub nothing_seen : Seen
nothing_seen = record { started = false; blocks = []; finished = false; ended = false }

abbrev pub as_number : Json → Option ℕ
as_number (number n) = some n
as_number _ = none

abbrev pub index_field : Fields → Option ℕ
index_field no_fields = none
index_field (field name value rest) =
    if string_eq.beq name "index" then as_number value else index_field rest

-- The field `index` of the body of an event.
abbrev pub index_of : Json → Option ℕ
index_of (object fields) = index_field fields
index_of _ = none

-- Content may be sent.
abbrev pub is_running : Seen → Bool
is_running s = s.started && not s.finished

abbrev pub start_once : Option Bool → ℕ → Seen → Option Seen
start_once none i s = some (record s { blocks = Map.insert i true s.blocks })
start_once (some b) i s = none

abbrev pub if_open : Option Bool → Seen → Option Seen
if_open (some true) s = some s
if_open _ s = none

-- At a block's index, if the event has one.
abbrev pub at_index : Option ℕ → Seen → (ℕ → Option Seen) → Option Seen
at_index none s f = none
at_index (some i) s f = if is_running s then f i else none

-- What has been seen after an event, if the event may come now.
abbrev pub accept : SseEvent → Seen → Option Seen
accept e s =
    if string_eq.beq e.event "message_start"
    then (if s.started then none else some (record s { started = true }))
    else if string_eq.beq e.event "content_block_start"
    then at_index (index_of e.body) s (λ i. start_once (Map.lookup i s.blocks) i s)
    else if string_eq.beq e.event "content_block_delta"
    then at_index (index_of e.body) s (λ i. if_open (Map.lookup i s.blocks) s)
    else if string_eq.beq e.event "content_block_stop"
    then at_index (index_of e.body) s
        (λ i. if_open (Map.lookup i s.blocks) (record s { blocks = Map.insert i false s.blocks }))
    else if string_eq.beq e.event "message_delta"
    then (if is_running s && not (any (λ p. p.1) s.blocks)
        then some (record s { finished = true })
        else none)
    else if string_eq.beq e.event "message_stop"
    then (if s.finished && not s.ended then some (record s { ended = true }) else none)
    else if string_eq.beq e.event "error"
    then (if s.ended then some s else none)
    else none

abbrev pub and_then : Option Seen → (Seen → Option Seen) → Option Seen
and_then none f = none
and_then (some s) f = f s

unfoldable pub accept_all : List SseEvent → Seen → Option Seen
accept_all [] s = some s
accept_all (e ∷ es) s = and_then (accept e s) (accept_all es)
