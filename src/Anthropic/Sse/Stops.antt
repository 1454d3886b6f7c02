-- ===== src/Anthropic/Sse/Stops.antt =====
-- src/anthropic/stream.rs: the events that stop several blocks, as a client sees them.
use kiro_rs_tool.Prelude.{
  ℕ, ◌≡◌, refl, sym, subst, ap, ◌∙◌, Bool, true, false, ◌&&◌, Option, none, some, List, [], ◌∷◌,
  arith, ◌==◌, ==_iff, String, Bool-cases, Option-cases, inl, inr, any,
}
use kiro_rs_tool.Prelude.Map
use kiro_rs_tool.Prelude.Map.{nat_eq, string_eq}
use kiro_rs_tool.Anthropic.Sse.{
  BlockState, is_open, is_type, open_of_type, stop_block, stop_blocks, stop_event,
}
use kiro_rs_tool.Anthropic.Protocol.{Seen, accept, accept_all, is_running, if_open}
use kiro_rs_tool.Anthropic.Sse.View.{seen_blocks, is_absent, is_fine}

abbrev pub with_blocks : Seen → List (ℕ × Bool) → Seen
with_blocks s bs = record s { blocks = bs }

abbrev more_block : ℕ × Bool → Option Seen → Option Seen
more_block p none = none
more_block p (some s) = some (with_blocks s (p ∷ s.blocks))

if_open_more :
    (p : ℕ × Bool) (o : Option Bool) (s : Seen)
    → if_open o (with_blocks s (p ∷ s.blocks)) ≡ more_block p (if_open o s)
if_open_more p none s = refl
if_open_more p (some true) s = refl
if_open_more p (some false) s = refl

accept_stop :
    (i : ℕ) (s : Seen)
    → is_running s ≡ true
    → accept (stop_event i) s
      ≡ if_open (Map.lookup i s.blocks) (with_blocks s (Map.insert i false s.blocks))
unfolding stop_event
accept_stop i s running = simp running refl

accept_stop_other :
    (i j : ℕ) (v : Bool) (s : Seen)
    → is_running s ≡ true
    → (j == i) ≡ false
    → accept (stop_event i) (with_blocks s ((j, v) ∷ s.blocks))
      ≡ more_block
          (j, v)
          (if_open (Map.lookup i s.blocks) (with_blocks s (Map.insert i false s.blocks)))
unfolding stop_event
accept_stop_other i j v s running other =
    simp (running, other)
      (if_open_more (j, v) (Map.lookup i s.blocks) (with_blocks s (Map.insert i false s.blocks)))

accept_stop_first :
    (i : ℕ) (bs : List (ℕ × Bool)) (s : Seen)
    → is_running s ≡ true
    → accept (stop_event i) (with_blocks s ((i, true) ∷ bs))
      ≡ some (with_blocks s ((i, false) ∷ bs))
unfolding stop_event
accept_stop_first i bs s running = simp (running, (==_iff i i).1 refl) refl

-- The stops of other blocks leave a block as it is.
accept_stops_other :
    (test : BlockState → Bool) (j : ℕ) (v : Bool) (bs : List (ℕ × BlockState)) (s : Seen)
    → is_running s ≡ true
    → is_absent j bs ≡ true
    → accept_all (stop_blocks test bs).0 (with_blocks s ((j, v) ∷ s.blocks))
      ≡ more_block (j, v) (accept_all (stop_blocks test bs).0 s)
unfolding stop_blocks accept_all
accept_stops_other test j v [] s running absent = refl
accept_stops_other test j v ((i, b) ∷ rest) s running absent =
    let other : (j == i) ≡ false = ground arith in
    let absent' : is_absent j rest ≡ true = ground arith in
    elim (Bool-cases (test b && is_open b)) [
      | inr passed ↦ simp passed (accept_stops_other test j v rest s running absent')
      | inl stops ↦ simp stops (
          rw (accept_stop_other i j v s running other, accept_stop i s running)
            (elim (Option-cases (Map.lookup i s.blocks)) [
              | inl missing ↦ rw missing refl
              | inr (true, found) ↦ rw found (
                  accept_stops_other test j v rest (with_blocks s (Map.insert i false s.blocks))
                    running absent')
              | inr (false, found) ↦ rw found refl
            ]))
    ]

-- The stops of some of the blocks are accepted, and leave the client with what the manager keeps.
pub accept_stop_blocks :
    (test : BlockState → Bool) (n : ℕ) (bs : List (ℕ × BlockState)) (s : Seen)
    → is_running s ≡ true
    → is_fine n bs ≡ true
    → accept_all (stop_blocks test bs).0 (with_blocks s (seen_blocks bs))
      ≡ some (with_blocks s (seen_blocks (stop_blocks test bs).1))
unfolding stop_blocks accept_all
accept_stop_blocks test n [] s running fine = refl
accept_stop_blocks test n ((i, b) ∷ rest) s running fine =
    let absent : is_absent i rest ≡ true = ground arith in
    let ih = accept_stop_blocks test n rest s running (ground arith) in
    elim (Bool-cases (test b && is_open b)) [
      | inr passed ↦ simp passed (
          accept_stops_other test i (is_open b) rest (with_blocks s (seen_blocks rest)) running
            absent
          ∙ ap (more_block (i, is_open b)) ih)
      | inl stops ↦
          let opened : is_open b ≡ true = ground arith in
          let closed : is_open (stop_block b) ≡ false = ground arith in
          simp stops (
            simp (opened, closed)
              (rw (accept_stop_first i (seen_blocks rest) s running) (
                accept_stops_other test i false rest (with_blocks s (seen_blocks rest)) running
                  absent
                ∙ ap (more_block (i, false)) ih)))
    ]

stop_blocks_absent :
    (test : BlockState → Bool) (i : ℕ) (bs : List (ℕ × BlockState))
    → is_absent i (stop_blocks test bs).1 ≡ is_absent i bs
unfolding stop_blocks
stop_blocks_absent test i [] = refl
stop_blocks_absent test i ((j, b) ∷ rest) = ground (arith, stop_blocks_absent test i rest)

pub stop_blocks_fine :
    (test : BlockState → Bool) (n : ℕ) (bs : List (ℕ × BlockState))
    → is_fine n bs ≡ true
    → is_fine n (stop_blocks test bs).1 ≡ true
unfolding stop_blocks
stop_blocks_fine test n [] h = refl
stop_blocks_fine test n ((j, b) ∷ rest) h =
    ground (arith, stop_blocks_fine test n rest, stop_blocks_absent test j rest)

pub thinking_no_text :
    (t : String) → string_eq.beq t "thinking" ≡ true → string_eq.beq t "text" ≡ false
thinking_no_text t h =
    subst (λ t. string_eq.beq t "text" ≡ false) (sym ((string_eq.beq_iff t "thinking").0 h)) refl

-- The stops of the text blocks leave the thinking blocks as they are.
pub stop_blocks_thinking :
    (i : ℕ) (bs : List (ℕ × BlockState))
    → open_of_type (Map.lookup i (stop_blocks (is_type "text") bs).1) "thinking"
      ≡ open_of_type (Map.lookup i bs) "thinking"
unfolding stop_blocks open_of_type
stop_blocks_thinking i [] = refl
stop_blocks_thinking i ((j, b) ∷ rest) =
    ground (arith, stop_blocks_thinking i rest, thinking_no_text b.block_type)

pub stop_blocks_seen :
    (bs : List (ℕ × BlockState))
    → any (λ p. p.1) (seen_blocks (stop_blocks (λ _. true) bs).1) ≡ false
unfolding stop_blocks
stop_blocks_seen [] = refl
stop_blocks_seen ((j, b) ∷ rest) = ground (arith, stop_blocks_seen rest)
