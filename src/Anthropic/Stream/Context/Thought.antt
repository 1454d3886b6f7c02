-- ===== src/Anthropic/Stream/Context/Thought.antt =====
-- src/anthropic/stream.rs: the methods of `StreamContext` that start and stop a thinking block, as a
-- client sees them.
use kiro_rs_tool.Prelude.{
  ℕ, ◌+◌, ◌≡◌, refl, ◌∙◌, Bool, true, false, not, ◌&&◌, Option, none, some, List, [], ◌∷◌, arith,
  ◌==◌, ==_iff, Bool-cases, inl, inr, if◌then◌else◌,
}
use kiro_rs_tool.Anthropic.Sse.{SseStateManager, take_block_index, handle_content_block_start}
use kiro_rs_tool.Anthropic.Protocol.{accept_all}
use kiro_rs_tool.Anthropic.Sse.View.{fine_absent}
use kiro_rs_tool.Anthropic.Sse.Sound
use kiro_rs_tool.Anthropic.Sse.Sound.{Sound, thinking_at, Sound-append}
use kiro_rs_tool.Anthropic.Sse.Blocks.{start_thinking_block, delta_past, stop-Sound}
use kiro_rs_tool.Anthropic.Stream.Context.{
  StreamContext, Emit, nothing, modify, ◌>>◌, when, with_next_index, start_block_at, stop_block_at,
  thinking_start, create_thinking_delta_event, create_signature_delta_event,
}
use kiro_rs_tool.Anthropic.Stream.Context.Blocks.{
  send_thinking, think, send_some_thinking, stop_thinking_at, stop_thinking,
  close_reasoning_if_open, leave_reasoning,
}
use kiro_rs_tool.Anthropic.Stream.Context.Content.{start_thinking, end_thinking, leave_thinking}
use kiro_rs_tool.Anthropic.Stream.Context.Ready.{
  tools_fine, thinking_open, is_sound, think_open, is_ready, Triple, Triple-seq,
}
use kiro_rs_tool.Anthropic.Stream.Context.Quiet.{next_ready}

abbrev pub Property : Type 0
Property = StreamContext → Bool

-- A change of the state that leaves the manager as it is.
pub modify-Triple :
    (P Q : Property) (f : StreamContext → StreamContext)
    → ((c : StreamContext) → (f c).state_manager ≡ c.state_manager)
    → ((c : StreamContext) → P c ≡ true → Q (f c) ≡ true)
    → Triple P (modify f) Q
unfolding Triple Sound accept_all
modify-Triple P Q f same next c h = (rw (same c) refl, next c h)

pub nothing-Triple :
    (P Q : Property) → ((c : StreamContext) → P c ≡ true → Q c ≡ true) → Triple P nothing Q
unfolding Triple Sound accept_all
nothing-Triple P Q next c h = (refl, next c h)

-- With an open thinking block, a delta is accepted.
send_thinking-Sound :
    (o : Option ℕ) (text : List ℕ) (c : StreamContext)
    → is_sound c ≡ true
    → thinking_open o c.state_manager ≡ true
    → Sound (send_thinking o text c).0 c.state_manager c.state_manager
      × ((send_thinking o text c).1 ≡ c)
unfolding send_thinking create_thinking_delta_event
send_thinking-Sound none text c h opened = ground arith
send_thinking-Sound (some i) text c h opened =
    (delta_past c.state_manager i _ (ground arith) refl opened, refl)

unfoldable pub OpenIn : Property → Type 0
OpenIn P = (c : StreamContext) → P c ≡ true → (is_sound c ≡ true) × (think_open c ≡ true)

pub think-Triple : (P : Property) → OpenIn P → (text : List ℕ) → Triple P (think text) P
unfolding Triple OpenIn
think-Triple P opened text c h =
    let (sound, open') = opened c h in
    let (s, same) = send_thinking-Sound c.thinking_block_index text c sound open' in rw same (s, h)

pub some_thinking-Triple :
    (P : Property) → OpenIn P → (text : List ℕ) → Triple P (send_some_thinking text) P
unfolding send_some_thinking
some_thinking-Triple P opened [] = nothing-Triple P P (λ c h. h)
some_thinking-Triple P opened (x ∷ xs) = think-Triple P opened (x ∷ xs)

tools_fine-stop :
    (m m' : SseStateManager) (i : ℕ) (l : List (List ℕ × ℕ))
    → m'.next_block_index ≡ m.next_block_index
    → ((j : ℕ) → thinking_at j m' ≡ (if i == j then false else thinking_at j m))
    → tools_fine m l ≡ true
    → tools_fine m' l ≡ true
tools_fine-stop m m' i [] next same h = refl
tools_fine-stop m m' i ((id, j) ∷ rest) next same h =
    ground (arith, same j, tools_fine-stop m m' i rest next same)

tools_fine-start :
    (m m' : SseStateManager) (l : List (List ℕ × ℕ))
    → m'.next_block_index ≡ m.next_block_index + 1
    → ((j : ℕ) → thinking_at j m' ≡ (if m.next_block_index == j then true else thinking_at j m))
    → tools_fine m l ≡ true
    → tools_fine m' l ≡ true
tools_fine-start m m' [] next same h = refl
tools_fine-start m m' ((id, j) ∷ rest) next same h =
    ground (arith, same j, tools_fine-start m m' rest next same, ==_iff m.next_block_index j)

-- The end of the open thinking block is accepted, and leaves the flags about it as they are.
pub stop_thinking_at-Sound :
    (o : Option ℕ) (c : StreamContext)
    → is_sound c ≡ true
    → thinking_open o c.state_manager ≡ true
    → let r = stop_thinking_at o c in
      Sound r.0 c.state_manager r.1.state_manager
      × (is_sound r.1 ≡ true)
      × (r.1.in_thinking_block ≡ c.in_thinking_block)
      × (r.1.reasoning_block_open ≡ c.reasoning_block_open)
unfolding stop_thinking_at ◌>>◌ create_thinking_delta_event create_signature_delta_event
    stop_block_at
stop_thinking_at-Sound none c h opened = ground arith
stop_thinking_at-Sound (some i) c h opened =
    let ready : Sound.is_ready c.state_manager ≡ true = ground arith in
    let (s, ready', next, same) = stop-Sound c.state_manager i ready in
    (
      Sound-append _ _ c.state_manager c.state_manager _
          (delta_past c.state_manager i _ ready refl opened)
          (Sound-append _ _ c.state_manager c.state_manager _
            (delta_past c.state_manager i _ ready refl opened) s),
      ground (arith, ready', tools_fine-stop c.state_manager _ i c.tool_block_indices next same),
      refl,
      refl,
    )

abbrev pub is_closing : Property
is_closing c = is_sound c && (think_open c && not c.in_thinking_block)

abbrev pub is_out : Property
is_out c = is_sound c && not c.in_thinking_block

pub when-Triple :
    (P Q : Property) (test : Property) (f : Emit)
    → Triple (λ c. P c && test c) f Q
    → ((c : StreamContext) → P c ≡ true → test c ≡ false → Q c ≡ true)
    → Triple P (λ c. when (test c) f c) Q
unfolding Triple Sound accept_all
when-Triple P Q test f hf skip c h = elim (Bool-cases (test c)) [
  | inl on ↦ rw on (hf c (ground arith))
  | inr off ↦ rw off (refl, skip c h off)
]

-- The case of a method that reads the state first.
pub if-Triple :
    (P Q : Property) (test : Property) (f g : Emit)
    → Triple (λ c. P c && test c) f Q
    → Triple (λ c. P c && not (test c)) g Q
    → Triple P (λ c. if test c then f c else g c) Q
unfolding Triple
if-Triple P Q test f g hf hg c h = elim (Bool-cases (test c)) [
  | inl on ↦ rw on (hf c (ground arith))
  | inr off ↦ rw off (hg c (ground arith))
]

pub weaken :
    (P P' Q : Property) (f : Emit)
    → ((c : StreamContext) → P c ≡ true → P' c ≡ true)
    → Triple P' f Q
    → Triple P f Q
unfolding Triple
weaken P P' Q f to hf c h = hf c (to c h)

pub read-Triple :
    {A : Type 0} (P Q : Property) (f : A → Emit) (g : StreamContext → A)
    → ((a : A) → Triple P (f a) Q)
    → Triple P (λ c. f (g c) c) Q
unfolding Triple
read-Triple P Q f g q c = q (g c) c

stop_thinking-out : Triple is_closing stop_thinking is_out
unfolding Triple
stop_thinking-out c h =
    let (s, sound, i, r) =
      stop_thinking_at-Sound c.thinking_block_index c (ground arith) (ground arith) in
    (s, ground (arith, sound, i))

stop_thinking-ready :
    Triple (λ c. is_closing c && not c.reasoning_block_open) stop_thinking is_ready
unfolding Triple
stop_thinking-ready c h =
    let (s, sound, i, r) =
      stop_thinking_at-Sound c.thinking_block_index c (ground arith) (ground arith) in
    (s, rw (i, r) (ground (arith, sound)))

pub close_reasoning-Triple : Triple is_ready close_reasoning_if_open is_ready
unfolding close_reasoning_if_open
close_reasoning-Triple =
    when-Triple is_ready is_ready (λ c. c.reasoning_block_open) _
      (Triple-seq (λ c. is_ready c && c.reasoning_block_open) is_out is_ready stop_thinking
        (modify leave_reasoning)
        (weaken (λ c. is_ready c && c.reasoning_block_open) is_closing is_out stop_thinking
          (λ c h. ground arith) stop_thinking-out)
        (modify-Triple is_out is_ready leave_reasoning (λ c. refl) (λ c h. ground arith)))
      (λ c h off. h)

-- Inside the thinking block of the text.
abbrev pub is_in : Property
is_in c = is_ready c && c.in_thinking_block

pub is_in-OpenIn : OpenIn is_in
unfolding OpenIn
is_in-OpenIn c h = (ground arith, ground arith)

pub end_thinking-Triple : (thinking : List ℕ) → Triple is_in (end_thinking thinking) is_ready
unfolding end_thinking
end_thinking-Triple thinking =
    Triple-seq is_in is_in is_ready (send_some_thinking thinking) _
      (some_thinking-Triple is_in is_in-OpenIn thinking)
      (Triple-seq is_in (λ c. is_closing c && not c.reasoning_block_open) is_ready
        (modify leave_thinking) stop_thinking
        (modify-Triple is_in (λ c. is_closing c && not c.reasoning_block_open) leave_thinking
          (λ c. refl) (λ c h. ground arith))
        stop_thinking-ready)

-- A thinking block with a new index.
pub start_next_thinking :
    (m : SseStateManager) (l : List (List ℕ × ℕ))
    → Sound.is_ready m ≡ true
    → tools_fine m l ≡ true
    → let n = m.next_block_index in
      let r = handle_content_block_start (take_block_index m).1 n "thinking" (thinking_start n) in
      Sound r.0 m r.1
      × (Sound.is_ready r.1 ≡ true)
      × (tools_fine r.1 l ≡ true)
      × (thinking_at n r.1 ≡ true)
unfolding take_block_index Sound thinking_at
start_next_thinking m l h fine =
    let m1 : SseStateManager = record m { next_block_index = m.next_block_index + 1 } in
    let n = m.next_block_index in
    let (s, ready, next, same) =
      start_thinking_block m1 n (thinking_start n) (next_ready m h) (ground arith) refl
        (fine_absent n m.active_blocks (ground arith)) in
    (
      s,
      ready,
      tools_fine-start m (handle_content_block_start m1 n "thinking" (thinking_start n)).1 l next
          same fine,
      same n ∙ ground (arith, ==_iff n n),
    )

pub start_thinking-Triple :
    Triple
      (λ c. is_sound c && (c.in_thinking_block && not c.reasoning_block_open))
      start_thinking
      is_ready
unfolding Triple start_thinking with_next_index ◌>>◌ start_block_at take_block_index
start_thinking-Triple c h =
    let (s, ready, tools, opened) =
      start_next_thinking c.state_manager c.tool_block_indices (ground arith) (ground arith) in
    (s, ground (arith, ready, tools, opened))
