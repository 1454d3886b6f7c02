-- ===== src/Anthropic/Sse/Blocks.antt =====
-- src/anthropic/stream.rs: the start, the delta and the stop of a block, as a client sees them.
use kiro_rs_tool.Prelude.{
  ℕ, ◌≡◌, refl, sym, subst, ap, ◌∙◌, Bool, true, false, ◌&&◌, Option, none, some, List, [], ◌∷◌,
  ◌++◌, append-nil, arith, ltb, ◌==◌, ==_iff, String, Bool-cases, Option-cases, inl, inr,
  if◌then◌else◌,
}
use kiro_rs_tool.Prelude.Map
use kiro_rs_tool.Prelude.Map.{nat_eq, string_eq, lookup-insert}
use kiro_rs_tool.Anthropic.Json.{Json}
use kiro_rs_tool.Anthropic.Sse.{
  SseEvent, BlockState, SseStateManager, is_open, open_of_type, stop_block, new_block, before_block,
  start_block, start_in, delta_in, stop_in, handle_content_block_start, handle_content_block_delta,
  handle_content_block_stop,
}
use kiro_rs_tool.Anthropic.Sse.Trace.{to_list}
use kiro_rs_tool.Anthropic.Protocol.{Seen, accept, accept_all, is_running, index_of}
use kiro_rs_tool.Anthropic.Sse.View.{
  view, seen_blocks, is_absent, lookup-seen_blocks, seen_open, insert-seen_blocks, absent_lookup,
  open_lookup, fine_insert, fine_started, fine_bound,
}
use kiro_rs_tool.Anthropic.Sse.Stops.{with_blocks}
use kiro_rs_tool.Anthropic.Sse.Sound.{
  is_ready, Sound, thinking_at, Advance, Advance-nothing, Advance-trans, before_block-Advance,
  is_ready-is_running,
}

accept_start :
    (i : ℕ) (body : Json) (s : Seen)
    → is_running s ≡ true
    → index_of body ≡ some i
    → Map.lookup i s.blocks ≡ none
    → accept (record { event = "content_block_start"; body = body }) s
      ≡ some (with_blocks s (Map.insert i true s.blocks))
accept_start i body s running index absent = simp (running, index, absent) refl

-- A thinking block is open at `j` only.
unfoldable pub starts_thinking : ℕ → String → ℕ → Bool
starts_thinking i ty j = (i == j) && string_eq.beq ty "thinking"

same_thinking :
    (i j : ℕ) (bs : List (ℕ × BlockState)) (v : Bool)
    → open_of_type (Map.lookup i bs) "thinking" ≡ v
    → (i == j) ≡ true
    → open_of_type (Map.lookup j bs) "thinking" ≡ v
same_thinking i j bs v h e =
    subst (λ k. open_of_type (Map.lookup k bs) "thinking" ≡ v) ((==_iff i j).0 e) h

start_fresh :
    (m : SseStateManager) (i : ℕ) (ty : String) (body : Json)
    → is_ready m ≡ true
    → ltb i m.next_block_index ≡ true
    → index_of body ≡ some i
    → Map.lookup i m.active_blocks ≡ none
    → let r = start_in (start_block none ty) [] m i body in
      Sound r.0 m r.1
      × (is_ready r.1 ≡ true)
      × (r.1.next_block_index ≡ m.next_block_index)
      × ((j : ℕ) → thinking_at j r.1 ≡ (if starts_thinking i ty j then true else thinking_at j m))
unfolding start_in start_block new_block Sound accept_all thinking_at open_of_type starts_thinking
    seen_open
start_fresh m i ty body h bound index absent =
    let b : BlockState = record { block_type = ty; started = true; stopped = false } in
    (
      rw
          (accept_start i body (view m) (is_ready-is_running m h) index
            (lookup-seen_blocks i m.active_blocks ∙ ap seen_open absent))
          (ap (λ bs. some (with_blocks (view m) bs)) (insert-seen_blocks i b m.active_blocks)),
      ground (arith, fine_insert m.next_block_index i b m.active_blocks),
      refl,
      λ j. rw (lookup-insert i j b m.active_blocks) (
          ground (
            arith,
            same_thinking i j m.active_blocks false (ap (λ o. open_of_type o "thinking") absent),
          )),
    )

-- A thinking block under a new index.
pub start_thinking_block :
    (m : SseStateManager) (i : ℕ) (body : Json)
    → is_ready m ≡ true
    → ltb i m.next_block_index ≡ true
    → index_of body ≡ some i
    → is_absent i m.active_blocks ≡ true
    → let r = handle_content_block_start m i "thinking" body in
      Sound r.0 m r.1
      × (is_ready r.1 ≡ true)
      × (r.1.next_block_index ≡ m.next_block_index)
      × ((j : ℕ) → thinking_at j r.1 ≡ (if i == j then true else thinking_at j m))
unfolding handle_content_block_start before_block starts_thinking
start_thinking_block m i body h bound index absent =
    let missing = (absent_lookup i m.active_blocks absent).1 in
    rw missing (
      let (sound, ready, next, same) = start_fresh m i "thinking" body h bound index missing in
      (sound, ready, next, λ j. same j ∙ ground arith))

-- A thinking block that is open is not started again.
pub start_again :
    (m : SseStateManager) (i : ℕ) (body : Json)
    → is_ready m ≡ true
    → thinking_at i m ≡ true
    → handle_content_block_start m i "thinking" body ≡ ([], m)
unfolding handle_content_block_start before_block thinking_at open_of_type start_block start_in
start_again m i body h opened = elim (Option-cases (Map.lookup i m.active_blocks)) [
  | inl missing ↦ ground (arith, ap (λ o. open_of_type o "thinking") missing)
  | inr (b, found) ↦
      rw found
        (simp (fine_started m.next_block_index i b m.active_blocks (ground arith) found) refl)
]

start_in-append :
    (o : Option BlockState) (es : List SseEvent) (m : SseStateManager) (i : ℕ) (body : Json)
    → start_in o es m i body ≡ (es ++ (start_in o [] m i body).0, (start_in o [] m i body).1)
unfolding start_in
start_in-append none es m i body = ap (λ es. (es, m)) (sym (append-nil es))
start_in-append (some b) es m i body = refl

start_in-Advance :
    (m : SseStateManager) (i : ℕ) (ty : String) (body : Json)
    → is_ready m ≡ true
    → ltb i m.next_block_index ≡ true
    → index_of body ≡ some i
    → string_eq.beq ty "thinking" ≡ false
    → let r = start_in (start_block (Map.lookup i m.active_blocks) ty) [] m i body in
      Advance m r.0 r.1
unfolding start_in start_block starts_thinking Advance
start_in-Advance m i ty body h bound index other =
    elim (Option-cases (Map.lookup i m.active_blocks)) [
      | inl missing ↦
          let (sound, ready, next, same) = start_fresh m i ty body h bound index missing in
          rw missing (sound, ready, omega (arith, next), λ j. same j ∙ ground (arith, other))
      | inr (b, found) ↦ rw found (
          simp (fine_started m.next_block_index i b m.active_blocks (ground arith) found)
            (Advance-nothing m h))
    ]

-- A block that is no thinking block.
pub start-Advance :
    (m : SseStateManager) (i : ℕ) (ty : String) (body : Json)
    → is_ready m ≡ true
    → ltb i m.next_block_index ≡ true
    → index_of body ≡ some i
    → string_eq.beq ty "thinking" ≡ false
    → let r = handle_content_block_start m i ty body in Advance m r.0 r.1
unfolding handle_content_block_start Advance
start-Advance m i ty body h bound index other =
    let before = before_block m ty in
    let first = before_block-Advance m ty h in
    rw
      (start_in-append (start_block (Map.lookup i before.1.active_blocks) ty) before.0 before.1 i
        body)
      (Advance-trans _ _ m before.1
        (start_in (start_block (Map.lookup i before.1.active_blocks) ty) [] before.1 i body).1 first
        (start_in-Advance before.1 i ty body first.1 (ground (arith, first.2)) index other))

delta_in-Sound :
    (m : SseStateManager) (i : ℕ) (body : Json) (o : Option BlockState)
    → is_ready m ≡ true
    → index_of body ≡ some i
    → Map.lookup i m.active_blocks ≡ o
    → Sound (to_list (delta_in o body)) m m
unfolding delta_in Sound accept_all seen_open
delta_in-Sound m i body none h index found = refl
delta_in-Sound m i body (some b) h index found = elim (Bool-cases (is_open b)) [
  | inr closed ↦ simp closed refl
  | inl opened ↦ simp opened (
      simp (is_ready-is_running m h, index, lookup-seen_blocks i m.active_blocks, found, opened)
        refl)
]

-- A delta leaves the manager as it is.
pub delta-Advance :
    (m : SseStateManager) (i : ℕ) (body : Json)
    → is_ready m ≡ true
    → index_of body ≡ some i
    → Advance m (to_list (handle_content_block_delta m i body)) m
unfolding handle_content_block_delta Advance
delta-Advance m i body h index =
    (delta_in-Sound m i body (Map.lookup i m.active_blocks) h index refl, h, omega arith, λ j. refl)

-- A delta for a thinking block that is open, sent past the manager.
pub delta_past :
    (m : SseStateManager) (i : ℕ) (body : Json)
    → is_ready m ≡ true
    → index_of body ≡ some i
    → thinking_at i m ≡ true
    → Sound (record { event = "content_block_delta"; body = body } ∷ []) m m
unfolding Sound accept_all thinking_at
delta_past m i body h index opened =
    simp (is_ready-is_running m h, index, open_lookup i "thinking" m.active_blocks opened) refl

stop_in-Sound :
    (m : SseStateManager) (i : ℕ) (o : Option BlockState)
    → is_ready m ≡ true
    → Map.lookup i m.active_blocks ≡ o
    → let r = stop_in o m i in
      Sound (to_list r.0) m r.1
      × (is_ready r.1 ≡ true)
      × (r.1.next_block_index ≡ m.next_block_index)
      × ((j : ℕ) → thinking_at j r.1 ≡ (if i == j then false else thinking_at j m))
unfolding stop_in Sound accept_all seen_open thinking_at open_of_type
stop_in-Sound m i none h found = (
  refl,
  h,
  refl,
  λ j.
      ground (
        arith,
        same_thinking i j m.active_blocks false (ap (λ o. open_of_type o "thinking") found),
      ),
)
stop_in-Sound m i (some b) h found = elim (Bool-cases b.stopped) [
  | inl stopped ↦ simp stopped (
    refl,
    h,
    refl,
    λ j. ground (
      arith,
      same_thinking i j m.active_blocks (open_of_type (some b) "thinking")
          (ap (λ o. open_of_type o "thinking") found),
    ),
  )
  | inr running ↦
      let started = fine_started m.next_block_index i b m.active_blocks (ground arith) found in
      let opened : is_open b ≡ true = ground arith in
      let closed : is_open (stop_block b) ≡ false = ground arith in
      simp running (
        simp (is_ready-is_running m h, lookup-seen_blocks i m.active_blocks, found, opened)
            (ap (λ bs. some (with_blocks (view m) bs))
              (subst
                (λ v.
                  Map.insert i v (seen_blocks m.active_blocks)
                  ≡ seen_blocks (Map.insert i (stop_block b) m.active_blocks))
                closed (insert-seen_blocks i (stop_block b) m.active_blocks))),
        ground (
          arith,
          fine_insert m.next_block_index i (stop_block b) m.active_blocks,
          fine_bound m.next_block_index i b m.active_blocks,
          found,
        ),
        refl,
        λ j. rw (lookup-insert i j (stop_block b) m.active_blocks) (ground arith),
      )
]

-- A stop, of whatever block.
pub stop-Sound :
    (m : SseStateManager) (i : ℕ)
    → is_ready m ≡ true
    → let r = handle_content_block_stop m i in
      Sound (to_list r.0) m r.1
      × (is_ready r.1 ≡ true)
      × (r.1.next_block_index ≡ m.next_block_index)
      × ((j : ℕ) → thinking_at j r.1 ≡ (if i == j then false else thinking_at j m))
unfolding handle_content_block_stop
stop-Sound m i h = stop_in-Sound m i (Map.lookup i m.active_blocks) h refl

-- A stop of a block that is no thinking block.
pub stop-Advance :
    (m : SseStateManager) (i : ℕ)
    → is_ready m ≡ true
    → thinking_at i m ≡ false
    → let r = handle_content_block_stop m i in Advance m (to_list r.0) r.1
unfolding Advance thinking_at
stop-Advance m i h other =
    let (sound, ready, next, same) = stop-Sound m i h in
    (
      sound,
      ready,
      omega (arith, next),
      λ j. same j ∙ ground (arith, same_thinking i j m.active_blocks false other),
    )
