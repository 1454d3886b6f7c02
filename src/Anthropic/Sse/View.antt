-- ===== src/Anthropic/Sse/View.antt =====
-- src/anthropic/stream.rs: what the state manager takes a client to have seen, and the blocks that it
-- keeps.
use kiro_rs_tool.Prelude.{
  ℕ, ◌+◌, ◌≡◌, refl, ap, Bool, true, false, not, ◌&&◌, Option, none, some, List, [], ◌∷◌, ◌++◌,
  arith, ltb, ◌==◌, ==_iff, String, Bool-cases, Option-cases, inl, inr,
}
use kiro_rs_tool.Prelude.Map
use kiro_rs_tool.Prelude.Map.{nat_eq, string_eq}
use kiro_rs_tool.Anthropic.Sse.{SseEvent, BlockState, SseStateManager, is_open, open_of_type}
use kiro_rs_tool.Anthropic.Protocol.{Seen, accept, accept_all, and_then}

abbrev pub seen_blocks : List (ℕ × BlockState) → List (ℕ × Bool)
seen_blocks [] = []
seen_blocks ((i, b) ∷ rest) = (i, is_open b) ∷ seen_blocks rest

abbrev pub view : SseStateManager → Seen
view m = record {
  started = m.message_started;
  blocks = seen_blocks m.active_blocks;
  finished = m.message_delta_sent;
  ended = m.message_ended;
}

abbrev pub is_absent : ℕ → List (ℕ × BlockState) → Bool
is_absent i [] = true
is_absent i ((j, b) ∷ rest) = not (j == i) && is_absent i rest

-- Every block has been started, under an index of its own below `n`.
abbrev pub is_fine : ℕ → List (ℕ × BlockState) → Bool
is_fine n [] = true
is_fine n ((i, b) ∷ rest) = ltb i n && (b.started && (is_absent i rest && is_fine n rest))

pub accept_all-append :
    (xs ys : List SseEvent) (s : Seen)
    → accept_all (xs ++ ys) s ≡ and_then (accept_all xs s) (accept_all ys)
unfolding accept_all
accept_all-append [] ys s = refl
accept_all-append (x ∷ xs) ys s = elim (Option-cases (accept x s)) [
  | inl refused ↦ rw refused refl
  | inr (s', accepted) ↦ rw accepted (accept_all-append xs ys s')
]

unfoldable pub seen_open : Option BlockState → Option Bool
seen_open none = none
seen_open (some b) = some (is_open b)

pub lookup-seen_blocks :
    (i : ℕ) (bs : List (ℕ × BlockState))
    → Map.lookup i (seen_blocks bs) ≡ seen_open (Map.lookup i bs)
unfolding seen_open
lookup-seen_blocks i [] = refl
lookup-seen_blocks i ((j, b) ∷ rest) = ground (arith, lookup-seen_blocks i rest)

pub insert-seen_blocks :
    (i : ℕ) (b : BlockState) (bs : List (ℕ × BlockState))
    → Map.insert i (is_open b) (seen_blocks bs) ≡ seen_blocks (Map.insert i b bs)
insert-seen_blocks i b [] = refl
insert-seen_blocks i b ((j, w) ∷ rest) = elim (Bool-cases (j == i)) [
  | inl same ↦ simp same refl
  | inr other ↦ simp other (ap (λ r. (j, is_open w) ∷ r) (insert-seen_blocks i b rest))
]

pub absent_lookup :
    (i : ℕ) (bs : List (ℕ × BlockState))
    → is_absent i bs ≡ true
    → (Map.lookup i (seen_blocks bs) ≡ none) × (Map.lookup i bs ≡ none)
absent_lookup i [] h = (refl, refl)
absent_lookup i ((j, b) ∷ rest) h = ground (arith, absent_lookup i rest)

pub open_lookup :
    (i : ℕ) (ty : String) (bs : List (ℕ × BlockState))
    → open_of_type (Map.lookup i bs) ty ≡ true
    → Map.lookup i (seen_blocks bs) ≡ some true
unfolding open_of_type
open_lookup i ty [] h = ground arith
open_lookup i ty ((j, b) ∷ rest) h = ground (arith, open_lookup i ty rest)

pub fine_absent : (n : ℕ) (bs : List (ℕ × BlockState)) → is_fine n bs ≡ true → is_absent n bs ≡ true
fine_absent n [] h = refl
fine_absent n ((j, b) ∷ rest) h = ground (arith, fine_absent n rest)

pub fine_suc :
    (n : ℕ) (bs : List (ℕ × BlockState)) → is_fine n bs ≡ true → is_fine (n + 1) bs ≡ true
fine_suc n [] h = refl
fine_suc n ((j, b) ∷ rest) h = ground (arith, fine_suc n rest)

absent_insert :
    (i j : ℕ) (b : BlockState) (bs : List (ℕ × BlockState))
    → is_absent i bs ≡ true
    → (j == i) ≡ false
    → is_absent i (Map.insert j b bs) ≡ true
absent_insert i j b [] h other = ground arith
absent_insert i j b ((k, w) ∷ rest) h other =
    ground (arith, absent_insert i j b rest, ==_iff k i, ==_iff k j)

pub fine_insert :
    (n i : ℕ) (b : BlockState) (bs : List (ℕ × BlockState))
    → b.started ≡ true
    → ltb i n ≡ true
    → is_fine n bs ≡ true
    → is_fine n (Map.insert i b bs) ≡ true
fine_insert n i b [] started bound h = ground arith
fine_insert n i b ((j, w) ∷ rest) started bound h =
    ground (arith, fine_insert n i b rest, absent_insert j i b rest, ==_iff j i, ==_iff i j)

pub fine_bound :
    (n i : ℕ) (b : BlockState) (bs : List (ℕ × BlockState))
    → is_fine n bs ≡ true
    → Map.lookup i bs ≡ some b
    → ltb i n ≡ true
fine_bound n i b [] h found = ground arith
fine_bound n i b ((j, w) ∷ rest) h found = ground (arith, fine_bound n i b rest, ==_iff j i)

pub fine_started :
    (n i : ℕ) (b : BlockState) (bs : List (ℕ × BlockState))
    → is_fine n bs ≡ true
    → Map.lookup i bs ≡ some b
    → b.started ≡ true
fine_started n i b [] h found = ground arith
fine_started n i b ((j, w) ∷ rest) h found = ground (arith, fine_started n i b rest)
