-- ===== src/Anthropic/Stream/Context/Ready.antt =====
-- src/anthropic/stream.rs: what `StreamContext` keeps true between two calls while the message runs,
-- and the methods that send text, as a client sees them.
use kiro_rs_tool.Prelude.{
  ℕ, ◌≤◌, ◌≡◌, refl, ◌∙◌, Bool, true, false, not, ◌&&◌, ◌||◌, Option, none, some, List, [], ◌∷◌,
  ◌++◌, arith, ltb,
}
use kiro_rs_tool.Prelude.Map.{string_eq}
use kiro_rs_tool.Anthropic.Sse.{SseEvent, SseStateManager}
use kiro_rs_tool.Anthropic.Sse.Sound
use kiro_rs_tool.Anthropic.Sse.Sound.{
  Sound, Advance, thinking_at, Sound-append, Advance-nothing, Advance-trans,
}
use kiro_rs_tool.Anthropic.Stream.Context.{StreamContext, Emit, nothing, ◌>>◌}

-- The blocks of tool calls are below the next index, and no open thinking block is among them.
abbrev pub tools_fine : SseStateManager → List (List ℕ × ℕ) → Bool
tools_fine m [] = true
tools_fine m ((id, i) ∷ rest) =
    ltb i m.next_block_index && (not (thinking_at i m) && tools_fine m rest)

abbrev pub thinking_open : Option ℕ → SseStateManager → Bool
thinking_open none m = false
thinking_open (some i) m = thinking_at i m

abbrev pub is_sound : StreamContext → Bool
is_sound c = Sound.is_ready c.state_manager && tools_fine c.state_manager c.tool_block_indices

abbrev pub think_open : StreamContext → Bool
think_open c = thinking_open c.thinking_block_index c.state_manager

-- Inside the thinking block, of either kind, that block is open; and the two kinds exclude each other.
abbrev pub fits : Bool → Bool → Bool → Bool → Bool
fits opened in_thinking reasoning extracted =
    (not in_thinking || opened) && (not reasoning || (opened && (not in_thinking && extracted)))

abbrev pub is_ready : StreamContext → Bool
is_ready c =
    is_sound c
    && fits (think_open c) c.in_thinking_block c.reasoning_block_open c.thinking_extracted

-- From a state with the one property, the client accepts what is sent, and the next state has the
-- other.
unfoldable pub Triple : (StreamContext → Bool) → Emit → (StreamContext → Bool) → Type 0
Triple P f Q =
    (c : StreamContext)
    → P c ≡ true
    → Sound (f c).0 c.state_manager (f c).1.state_manager × (Q (f c).1 ≡ true)

pub Triple-seq :
    (P Q R : StreamContext → Bool) (f g : Emit) → Triple P f Q → Triple Q g R → Triple P (f >> g) R
unfolding Triple ◌>>◌
Triple-seq P Q R f g hf hg c p =
    let (s, q) = hf c p in
    let (s', r) = hg (f c).1 q in
    (
      Sound-append (f c).0 (g (f c).1).0 c.state_manager (f c).1.state_manager
          (g (f c).1).1.state_manager s s',
      r,
    )

-- The thinking block, the flags about it and the tool blocks stay as they are.
unfoldable pub Quiet : StreamContext → List SseEvent × StreamContext → Type 0
unfolding Advance
Quiet c (es, c') =
    Advance c.state_manager es c'.state_manager
    × (c'.in_thinking_block ≡ c.in_thinking_block)
    × (c'.reasoning_block_open ≡ c.reasoning_block_open)
    × (c'.thinking_extracted ≡ c.thinking_extracted)
    × (c'.thinking_block_index ≡ c.thinking_block_index)
    × (c'.tool_block_indices ≡ c.tool_block_indices)

unfoldable pub AlwaysQuiet : Emit → Type 0
unfolding Quiet
AlwaysQuiet f = (c : StreamContext) → Sound.is_ready c.state_manager ≡ true → Quiet c (f c)

pub Quiet-trans :
    (c c' c'' : StreamContext) (es es' : List SseEvent)
    → Quiet c (es, c')
    → Quiet c' (es', c'')
    → Quiet c (es ++ es', c'')
unfolding Quiet
Quiet-trans c c' c'' es es' (a, i, r, x, t, l) (a', i', r', x', t', l') = (
  Advance-trans es es' c.state_manager c'.state_manager c''.state_manager a a',
  i' ∙ i,
  r' ∙ r,
  x' ∙ x,
  t' ∙ t,
  l' ∙ l,
)

pub Quiet_seq : (f g : Emit) → AlwaysQuiet f → AlwaysQuiet g → AlwaysQuiet (f >> g)
unfolding AlwaysQuiet Quiet ◌>>◌ Advance
Quiet_seq f g hf hg c h =
    let first = hf c h in
    Quiet-trans c (f c).1 (g (f c).1).1 (f c).0 (g (f c).1).0 first (hg (f c).1 first.0.1)

tools_fine-same :
    (m m' : SseStateManager) (l : List (List ℕ × ℕ))
    → m.next_block_index ≤ m'.next_block_index
    → ((j : ℕ) → thinking_at j m' ≡ thinking_at j m)
    → tools_fine m l ≡ true
    → tools_fine m' l ≡ true
tools_fine-same m m' [] le same h = refl
tools_fine-same m m' ((id, i) ∷ rest) le same h =
    ground (arith, same i, tools_fine-same m m' rest le same)

pub thinking_open-same :
    (m m' : SseStateManager) (o : Option ℕ)
    → ((j : ℕ) → thinking_at j m' ≡ thinking_at j m)
    → thinking_open o m' ≡ thinking_open o m
thinking_open-same m m' none same = refl
thinking_open-same m m' (some i) same = same i

-- A quiet step keeps what holds.
pub Quiet-sound :
    (c : StreamContext) (r : List SseEvent × StreamContext)
    → is_sound c ≡ true
    → Quiet c r
    → (is_sound r.1 ≡ true) × (think_open r.1 ≡ think_open c)
unfolding Quiet Advance
Quiet-sound c (es, c') h ((s, ready, le, same), i, r, x, t, l) = (
  rw l (
      ground (
        arith,
        ready,
        tools_fine-same c.state_manager c'.state_manager c.tool_block_indices le same,
      )),
  rw t (thinking_open-same c.state_manager c'.state_manager c.thinking_block_index same),
)

fits-same :
    {o o' i i' r r' x x' : Bool}
    → o' ≡ o
    → i' ≡ i
    → r' ≡ r
    → x' ≡ x
    → fits o' i' r' x' ≡ fits o i r x
fits-same eo ei er ex = rw (eo, ei, er, ex) refl

pub Quiet-ready :
    (c : StreamContext) (r : List SseEvent × StreamContext)
    → is_ready c ≡ true
    → Quiet c r
    → is_ready r.1 ≡ true
unfolding Quiet
Quiet-ready c (es, c') h q =
    let (sound, opened) = Quiet-sound c (es, c') (ground arith) q in
    let (a, i, r, x, t, l) = q in rw (fits-same opened i r x) (ground (arith, sound))

pub AlwaysQuiet-ready : (f : Emit) → AlwaysQuiet f → Triple is_ready f is_ready
unfolding AlwaysQuiet Triple Quiet Advance
AlwaysQuiet-ready f q c h =
    let quiet = q c (ground arith) in (quiet.0.0, Quiet-ready c (f c) h quiet)

-- A change of the state that the client does not see.
pub AlwaysQuiet-nothing : AlwaysQuiet nothing
unfolding AlwaysQuiet Quiet
AlwaysQuiet-nothing c h = (Advance-nothing c.state_manager h, refl, refl, refl, refl, refl)

-- A method that reads the state first.
pub Quiet_read :
    {A : Type 0} (f : A → Emit) (g : StreamContext → A)
    → ((a : A) → AlwaysQuiet (f a))
    → AlwaysQuiet (λ c. f (g c) c)
unfolding AlwaysQuiet
Quiet_read f g q c = q (g c) c
