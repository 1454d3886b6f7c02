-- ===== src/Anthropic/Protocol/Strict.antt =====
-- The order of the head comment of `SseStateManager`, in which `message_stop` is the last event, and
-- the events that may stand behind it.
use kiro_rs_tool.Prelude.{
  ◌≡◌, refl, sym, ap, ◌∙◌, subst, some-eq, String, Bool, true, Option, none, some, List, [], ◌∷◌,
  ◌++◌, if◌then◌else◌, All, arith, Bool-cases, Option-cases, inl, inr,
}
use kiro_rs_tool.Prelude.Map.{string_eq}
use kiro_rs_tool.Anthropic.Sse.{SseEvent}
use kiro_rs_tool.Anthropic.Protocol.{Seen, accept, accept_all, and_then}

abbrev pub is_error : SseEvent → Bool
is_error e = string_eq.beq e.event "error"

-- The order without errors.
abbrev pub accept_strict : SseEvent → Seen → Option Seen
accept_strict e s = if is_error e then none else accept e s

unfoldable pub accept_all_strict : List SseEvent → Seen → Option Seen
accept_all_strict [] s = some s
accept_all_strict (e ∷ es) s = and_then (accept_strict e s) (accept_all_strict es)

-- What has ended was finished, and what was finished was started.
abbrev pub IsOrdered : Seen → Type 0
IsOrdered s = (s.ended ≡ true → s.finished ≡ true) × (s.finished ≡ true → s.started ≡ true)

accept-IsOrdered : (e : SseEvent) (s t : Seen) → IsOrdered s → accept e s ≡ some t → IsOrdered t
accept-IsOrdered e s t h k = (ground (arith, h), ground (arith, h))

accept_ended :
    (e : SseEvent) (s t : Seen)
    → s.started ≡ true
    → s.finished ≡ true
    → s.ended ≡ true
    → accept e s ≡ some t
    → (is_error e ≡ true) × (t ≡ s)
accept_ended e s t b f h k = (ground arith, ground arith)

accept_error :
    (e : SseEvent) (s t : Seen)
    → is_error e ≡ true
    → accept e s ≡ some t
    → (s.ended ≡ true) × (t ≡ s)
accept_error e s t h k =
    let q : e.event ≡ "error" = (string_eq.beq_iff e.event "error").0 h in
    let k' : (if s.ended then some s else none) ≡ some t =
      subst (λ (n : String). accept (record e { event = n }) s ≡ some t) q k in
    (ground (arith, k'), ground (arith, k'))

-- Behind the end there are errors alone.
errors_after_end :
    (es : List SseEvent) (s t : Seen)
    → s.started ≡ true
    → s.finished ≡ true
    → s.ended ≡ true
    → accept_all es s ≡ some t
    → All (λ e. is_error e ≡ true) es × (t ≡ s)
unfolding accept_all
errors_after_end [] s t b f h k = (tt, sym (some-eq k))
errors_after_end (e ∷ es) s t b f h k = elim (Option-cases (accept e s)) [
  | inl refused ↦ absurd (ground (arith, ap (λ o. and_then o (accept_all es)) refused, k))
  | inr (u, goes) ↦
      let (error, same) = accept_ended e s u b f h goes in
      let rest : accept_all es s ≡ some t =
        subst (λ (v : Seen). accept_all es v ≡ some t) same
          (sym (ap (λ o. and_then o (accept_all es)) goes) ∙ k) in
      let (errors, last) = errors_after_end es s t b f h rest in ((error, errors), last)
]

-- What a client accepts is a message in the order without errors, and errors behind it.
unfoldable pub Splits : List SseEvent → Seen → Seen → Type 0
Splits es s t =
    (sent : List SseEvent) × (errors : List SseEvent) × (es ≡ sent ++ errors)
    × (accept_all_strict sent s ≡ some t)
    × All (λ e. is_error e ≡ true) errors

pub accept_all-Splits :
    (es : List SseEvent) (s t : Seen) → IsOrdered s → accept_all es s ≡ some t → Splits es s t
unfolding accept_all accept_all_strict Splits
accept_all-Splits [] s t o k = ([], [], refl, k, tt)
accept_all-Splits (e ∷ es) s t o k = elim (Option-cases (accept e s)) [
  | inl refused ↦ absurd (ground (arith, ap (λ o. and_then o (accept_all es)) refused, k))
  | inr (u, goes) ↦
      let rest : accept_all es u ≡ some t = sym (ap (λ o. and_then o (accept_all es)) goes) ∙ k in
      elim (Bool-cases (is_error e)) [
        | inl error ↦
            let (ended, same) = accept_error e s u error goes in
            let (errors, last) =
              errors_after_end (e ∷ es) s t (o.1 (o.0 ended)) (o.0 ended) ended k in
            ([], e ∷ es, refl, ap (λ v. some v) (sym last), errors)
        | inr other ↦
            let (sent, errors, parts, strict, only) =
              accept_all-Splits es u t (accept-IsOrdered e s u o goes) rest in
            (
              e ∷ sent,
              errors,
              ap (λ xs. e ∷ xs) parts,
              ap (λ (b : Bool). and_then (if b then none else accept e s) (accept_all_strict sent))
                    other
                  ∙ ap (λ o. and_then o (accept_all_strict sent)) goes
                  ∙ strict,
              only,
            )
      ]
]
