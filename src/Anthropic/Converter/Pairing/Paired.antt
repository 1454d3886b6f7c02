-- ===== src/Anthropic/Converter/Pairing/Paired.antt =====
-- src/anthropic/converter.rs: the tool calls and results of a request after the pairing.
use kiro_rs_tool.Prelude.{
  ℕ, ◌+◌, ◌≤◌, ◌≡◌, refl, ap, true, not, ◌&&◌, ◌||◌, none, some, List, [], ◌∷◌, ◌++◌, arith,
  if◌then◌else◌, Bool-cases, inl, inr,
}
use kiro_rs_tool.Prelude.Map.{bytes_eq, bytes_beq_iff}
use kiro_rs_tool.Anthropic.Converter.Pairing.{
  Message, user, assistant, ToolUseEntry, ToolResult, contains, ids_of_uses, ids_of_results,
  all_tool_use_ids, history_tool_result_ids, difference, remove_id, filter_results,
  validate_tool_pairing, retain_uses, none_if_empty, retain_all, remove_orphaned_tool_uses,
}

contains-append :
    (id : List ℕ) (xs ys : List (List ℕ))
    → contains id (xs ++ ys) ≡ contains id xs || contains id ys
unfolding contains
contains-append id [] ys = refl
contains-append id (x ∷ xs) ys = ground (arith, contains-append id xs ys)

-- Equal ids are in the same lists.
contains_same :
    (i j : List ℕ) (xs : List (List ℕ)) → bytes_eq.beq i j ≡ true → contains i xs ≡ contains j xs
contains_same i j xs h = ap (λ k. contains k xs) ((bytes_beq_iff i j).0 h)

contains-difference :
    (id : List ℕ) (xs ys : List (List ℕ))
    → contains id (difference xs ys) ≡ contains id xs && not (contains id ys)
unfolding contains difference
contains-difference id [] ys = refl
contains-difference id (x ∷ xs) ys =
    ground (arith, contains-difference id xs ys, contains_same x id ys)

contains-remove_id :
    (id j : List ℕ) (xs : List (List ℕ))
    → contains id (remove_id j xs) ≡ contains id xs && not (bytes_eq.beq j id)
unfolding contains remove_id
contains-remove_id id j [] = refl
contains-remove_id id j (x ∷ xs) =
    ground
      (arith, contains-remove_id id j xs, bytes_beq_iff x j, bytes_beq_iff x id, bytes_beq_iff j id)

filter_results-ids :
    (id : List ℕ) (rs : List ToolResult) (unpaired : List (List ℕ))
    → let (filtered, unanswered) = filter_results rs unpaired in
      (contains id (ids_of_results filtered)
        ≡ contains id (ids_of_results rs) && contains id unpaired)
      × (contains id unanswered ≡ contains id unpaired && not (contains id (ids_of_results rs)))
unfolding contains filter_results ids_of_results
filter_results-ids id [] unpaired = ground arith
filter_results-ids id (r ∷ rs) unpaired = elim (Bool-cases (contains r.tool_use_id unpaired)) [
  | inl paired ↦ simp paired (
      ground (
        arith,
        paired,
        filter_results-ids id rs (remove_id r.tool_use_id unpaired),
        contains-remove_id id r.tool_use_id unpaired,
        contains_same r.tool_use_id id unpaired,
      ))
  | inr skipped ↦ simp skipped (
      ground (
        arith,
        skipped,
        filter_results-ids id rs unpaired,
        contains_same r.tool_use_id id unpaired,
      ))
]

-- How often an id stands in a list.
abbrev pub times : List ℕ → List (List ℕ) → ℕ
times id [] = 0
times id (j ∷ ids) = (if bytes_eq.beq j id then 1 else 0) + times id ids

filter_results-times :
    (id : List ℕ) (rs : List ToolResult) (unpaired : List (List ℕ))
    → times id (ids_of_results (filter_results rs unpaired).0)
      ≤ (if contains id unpaired then 1 else 0)
unfolding filter_results ids_of_results
filter_results-times id [] unpaired = ground arith
filter_results-times id (r ∷ rs) unpaired = elim (Bool-cases (contains r.tool_use_id unpaired)) [
  | inl paired ↦ simp paired (
      ground (
        arith,
        paired,
        filter_results-times id rs (remove_id r.tool_use_id unpaired),
        contains-remove_id id r.tool_use_id unpaired,
        contains_same r.tool_use_id id unpaired,
      ))
  | inr skipped ↦ simp skipped (filter_results-times id rs unpaired)
]

contains-retain_uses :
    (id : List ℕ) (orphaned : List (List ℕ)) (us : List ToolUseEntry)
    → contains id (ids_of_uses (retain_uses orphaned us))
      ≡ contains id (ids_of_uses us) && not (contains id orphaned)
unfolding contains retain_uses ids_of_uses
contains-retain_uses id orphaned [] = refl
contains-retain_uses id orphaned (u ∷ us) =
    ground (arith, contains-retain_uses id orphaned us, contains_same u.tool_use_id id orphaned)

ids_of_optional :
    (us : List ToolUseEntry) (history : List Message)
    → all_tool_use_ids (assistant (none_if_empty us) ∷ history)
      ≡ ids_of_uses us ++ all_tool_use_ids history
unfolding none_if_empty all_tool_use_ids ids_of_uses
ids_of_optional [] history = refl
ids_of_optional (u ∷ us) history = refl

contains-retain_all :
    (id : List ℕ) (orphaned : List (List ℕ)) (history : List Message)
    → contains id (all_tool_use_ids (retain_all orphaned history))
      ≡ contains id (all_tool_use_ids history) && not (contains id orphaned)
unfolding contains retain_all all_tool_use_ids
contains-retain_all id orphaned [] = refl
contains-retain_all id orphaned (user results ∷ history) = contains-retain_all id orphaned history
contains-retain_all id orphaned (assistant none ∷ history) = contains-retain_all id orphaned history
contains-retain_all id orphaned (assistant (some us) ∷ history) =
    rw (ids_of_optional (retain_uses orphaned us) (retain_all orphaned history)) (
      rw (contains-append id (ids_of_uses us) (all_tool_use_ids history)) (
        rw
          (contains-append id (ids_of_uses (retain_uses orphaned us))
            (all_tool_use_ids (retain_all orphaned history)))
          (ground
            (arith, contains-retain_uses id orphaned us, contains-retain_all id orphaned history))))

contains-remove_orphaned :
    (id : List ℕ) (orphaned : List (List ℕ)) (history : List Message)
    → contains id (all_tool_use_ids (remove_orphaned_tool_uses history orphaned))
      ≡ contains id (all_tool_use_ids history) && not (contains id orphaned)
unfolding contains remove_orphaned_tool_uses
contains-remove_orphaned id [] history = ground arith
contains-remove_orphaned id (o ∷ os) history = contains-retain_all id (o ∷ os) history

-- After the pairing, a result is kept just if a call of the history has its id and no result of the
-- history has it, and no id is kept twice; and a call stays in the history just if a result of the
-- history or of the message has its id.
pub validate_tool_pairing_complete :
    (history : List Message) (results : List ToolResult) (id : List ℕ)
    → let (kept, orphaned) = validate_tool_pairing history results in
      let called = contains id (all_tool_use_ids history) in
      let answered = contains id (history_tool_result_ids history) in
      let given = contains id (ids_of_results results) in
      (contains id (ids_of_results kept) ≡ given && (called && not answered))
      × (times id (ids_of_results kept) ≤ 1)
      × (contains id (all_tool_use_ids (remove_orphaned_tool_uses history orphaned))
          ≡ called && (answered || given))
unfolding validate_tool_pairing
validate_tool_pairing_complete history results id =
    let unpaired = difference (all_tool_use_ids history) (history_tool_result_ids history) in
    ground (
      arith,
      filter_results-ids id results unpaired,
      filter_results-times id results unpaired,
      contains-difference id (all_tool_use_ids history) (history_tool_result_ids history),
      contains-remove_orphaned id (filter_results results unpaired).1 history,
    )
