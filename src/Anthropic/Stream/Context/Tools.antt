-- ===== src/Anthropic/Stream/Context/Tools.antt =====
-- src/anthropic/stream.rs: the blocks that `StreamContext` starts and stops at once, as a client sees
-- them.
use kiro_rs_tool.Prelude.{
  ℕ, ◌+◌, ◌≡◌, refl, ap, String, Bool, true, false, not, ◌&&◌, some, List, [], ◌∷◌, arith,
  Option-cases, inl, inr, ltb,
}
use kiro_rs_tool.Prelude.Map
use kiro_rs_tool.Prelude.Map.{bytes_eq, string_eq}
use kiro_rs_tool.Anthropic.Json.{Json}
use kiro_rs_tool.Anthropic.Protocol.{index_of}
use kiro_rs_tool.Anthropic.Sse.{SseStateManager, open_of_type, take_block_index}
use kiro_rs_tool.Anthropic.Sse.View.{fine_absent, absent_lookup}
use kiro_rs_tool.Anthropic.Sse.Sound
use kiro_rs_tool.Anthropic.Sse.Sound.{Sound, Advance, thinking_at}
use kiro_rs_tool.Anthropic.Sse.Blocks.{start-Advance, stop-Advance}
use kiro_rs_tool.Anthropic.Stream.Platform.{Platform}
use kiro_rs_tool.Anthropic.Stream.ToolJson.{CompletedToolUse}
use kiro_rs_tool.Anthropic.Stream.Context.{
  StreamContext, Emit, ◌>>◌, with_next_index, start_block_at, delta_at, stop_block_at, tool_start,
  tool_delta, redacted_start,
}
use kiro_rs_tool.Anthropic.Stream.Context.Blocks.{
  count_output, tool_index, emit_tool_block, emit_completed_tool_use,
}
use kiro_rs_tool.Anthropic.Stream.Context.Ready.{
  tools_fine, is_ready, Triple, Quiet, AlwaysQuiet, AlwaysQuiet-nothing, Quiet-ready, Quiet-trans,
  thinking_open-same,
}
use kiro_rs_tool.Anthropic.Stream.Context.Quiet.{next_ready, delta_at-Quiet}

-- An index that has been given out, and at which no thinking block is open.
abbrev pub is_free : ℕ → SseStateManager → Bool
is_free i m = ltb i m.next_block_index && not (thinking_at i m)

-- Quiet, with an index that stays free.
unfoldable pub FreeQuiet : ℕ → Emit → Type 0
FreeQuiet i f =
    (c : StreamContext)
    → Sound.is_ready c.state_manager ≡ true
    → is_free i c.state_manager ≡ true
    → Quiet c (f c)

FreeQuiet-seq : (i : ℕ) (f g : Emit) → FreeQuiet i f → FreeQuiet i g → FreeQuiet i (f >> g)
unfolding FreeQuiet Quiet Advance ◌>>◌
FreeQuiet-seq i f g hf hg c h free =
    let first = hf c h free in
    Quiet-trans c (f c).1 (g (f c).1).1 (f c).0 (g (f c).1).0 first
      (hg (f c).1 first.0.1 (ground (arith, first.0.2, first.0.3 i)))

AlwaysQuiet-free : (i : ℕ) (f : Emit) → AlwaysQuiet f → FreeQuiet i f
unfolding FreeQuiet AlwaysQuiet
AlwaysQuiet-free i f q c h free = q c h

start_block_at-Free :
    (i : ℕ) (ty : String) (body : Json)
    → index_of body ≡ some i
    → string_eq.beq ty "thinking" ≡ false
    → FreeQuiet i (start_block_at i ty body)
unfolding FreeQuiet Quiet start_block_at
start_block_at-Free i ty body index other c h free = (
  start-Advance c.state_manager i ty body h (ground arith) index other,
  refl,
  refl,
  refl,
  refl,
  refl,
)

stop_block_at-Free : (i : ℕ) → FreeQuiet i (stop_block_at i)
unfolding FreeQuiet Quiet stop_block_at
stop_block_at-Free i c h free =
    (stop-Advance c.state_manager i h (ground arith), refl, refl, refl, refl, refl)

pub count_output-Quiet : (text : List ℕ) → AlwaysQuiet (count_output text)
unfolding AlwaysQuiet count_output Quiet
count_output-Quiet text c h = AlwaysQuiet-nothing c h

emit_tool_block-Free :
    (p : Platform) (t : CompletedToolUse) (i : ℕ) → FreeQuiet i (emit_tool_block p t i)
unfolding emit_tool_block
emit_tool_block-Free p t i =
    FreeQuiet-seq i (start_block_at i "tool_use" (tool_start i t.id t.name)) _
      (start_block_at-Free i "tool_use" (tool_start i t.id t.name) refl refl)
      (FreeQuiet-seq i (count_output (p.print_json t.input)) _
        (AlwaysQuiet-free i _ (count_output-Quiet (p.print_json t.input)))
        (FreeQuiet-seq i (delta_at i (tool_delta i (p.print_json t.input))) (stop_block_at i)
          (AlwaysQuiet-free i _ (delta_at-Quiet i (tool_delta i (p.print_json t.input)) refl))
          (stop_block_at-Free i)))

-- A new index is free.
next_free :
    (m : SseStateManager)
    → Sound.is_ready m ≡ true
    → is_free m.next_block_index (record m { next_block_index = m.next_block_index + 1 }) ≡ true
unfolding thinking_at open_of_type
next_free m h =
    let missing =
      absent_lookup m.next_block_index m.active_blocks
        (fine_absent m.next_block_index m.active_blocks (ground arith)) in
    ground (arith, ap (λ o. open_of_type o "thinking") missing.1)

pub with_next_index-Quiet :
    (f : ℕ → Emit) → ((i : ℕ) → FreeQuiet i (f i)) → AlwaysQuiet (with_next_index f)
unfolding AlwaysQuiet FreeQuiet Quiet Advance Sound with_next_index thinking_at take_block_index
with_next_index-Quiet f q c h =
    let m : SseStateManager = record c.state_manager {
      next_block_index = c.state_manager.next_block_index + 1;
    } in
    let (a, i, r, x, t, l) =
      q c.state_manager.next_block_index (record c { state_manager = m })
        (next_ready c.state_manager h) (next_free c.state_manager h) in
    ((a.0, a.1, omega (arith, a.2), a.3), i, r, x, t, l)

pub redacted-Quiet :
    (redacted : List ℕ)
    → AlwaysQuiet (
        with_next_index (λ index.
          start_block_at index "redacted_thinking" (redacted_start index redacted)
          >> stop_block_at index))
redacted-Quiet redacted = with_next_index-Quiet _ (λ i.
    FreeQuiet-seq i (start_block_at i "redacted_thinking" (redacted_start i redacted))
      (stop_block_at i)
      (start_block_at-Free i "redacted_thinking" (redacted_start i redacted) refl refl)
      (stop_block_at-Free i))

tools_fine-lookup :
    (m : SseStateManager) (id : List ℕ) (i : ℕ) (l : List (List ℕ × ℕ))
    → tools_fine m l ≡ true
    → Map.lookup id l ≡ some i
    → is_free i m ≡ true
tools_fine-lookup m id i [] h found = ground arith
tools_fine-lookup m id i ((k, j) ∷ rest) h found = ground (arith, tools_fine-lookup m id i rest)

tools_fine-insert :
    (m : SseStateManager) (id : List ℕ) (i : ℕ) (l : List (List ℕ × ℕ))
    → tools_fine m l ≡ true
    → is_free i m ≡ true
    → tools_fine m (Map.insert id i l) ≡ true
tools_fine-insert m id i [] h free = ground arith
tools_fine-insert m id i ((k, j) ∷ rest) h free = ground (arith, tools_fine-insert m id i rest)

tools_fine_next :
    (m : SseStateManager) (l : List (List ℕ × ℕ))
    → tools_fine m l ≡ true
    → tools_fine (record m { next_block_index = m.next_block_index + 1 }) l ≡ true
unfolding thinking_at
tools_fine_next m [] h = refl
tools_fine_next m ((id, i) ∷ rest) h = ground (arith, tools_fine_next m rest)

-- The index of a new call is kept.
next_tool_ready :
    (c : StreamContext) (id : List ℕ)
    → is_ready c ≡ true
    → let n = c.state_manager.next_block_index in
      let m : SseStateManager = record c.state_manager { next_block_index = n + 1 } in
      let c' : StreamContext = record c {
        state_manager = m;
        tool_block_indices = Map.insert id n c.tool_block_indices;
      } in
      is_ready c' ≡ true
unfolding thinking_at
next_tool_ready c id h =
    let n = c.state_manager.next_block_index in
    let m : SseStateManager = record c.state_manager { next_block_index = n + 1 } in
    ground (
      arith,
      next_ready c.state_manager,
      tools_fine-insert m id n c.tool_block_indices
          (tools_fine_next c.state_manager c.tool_block_indices (ground arith))
          (next_free c.state_manager (ground arith)),
      thinking_open-same c.state_manager m c.thinking_block_index (λ j. refl),
    )

-- A completed call, with the index of its block or a new one.
pub emit_completed-Triple :
    (p : Platform) (t : CompletedToolUse) → Triple is_ready (emit_completed_tool_use p t) is_ready
unfolding Triple emit_completed_tool_use tool_index with_next_index ◌>>◌ FreeQuiet Quiet Advance
    take_block_index Sound
emit_completed-Triple p t c h = elim (Option-cases (Map.lookup t.id c.tool_block_indices)) [
  | inr (i, found) ↦
      let quiet =
        emit_tool_block-Free p t i c (ground arith)
          (tools_fine-lookup c.state_manager t.id i c.tool_block_indices (ground arith) found) in
      rw found (quiet.0.0, Quiet-ready c (emit_tool_block p t i c) h quiet)
  | inl missing ↦
      let n = c.state_manager.next_block_index in
      let m : SseStateManager = record c.state_manager { next_block_index = n + 1 } in
      let free = next_free c.state_manager (ground arith) in
      let c' : StreamContext = record c {
        state_manager = m;
        tool_block_indices = Map.insert t.id n c.tool_block_indices;
      } in
      let ready = next_tool_ready c t.id h in
      let quiet = emit_tool_block-Free p t n c' (ground arith) free in
      rw missing (quiet.0.0, Quiet-ready c' (emit_tool_block p t n c') ready quiet)
]
