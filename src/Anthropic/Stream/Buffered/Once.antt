-- ===== src/Anthropic/Stream/Buffered/Once.antt =====
-- src/anthropic/stream.rs: behind the start of a message, a stream that a client accepts has no other.
use kiro_rs_tool.Prelude.{
  ℕ, ◌≡◌, refl, sym, ap, ◌∙◌, subst, String, true, false, some, List, [], ◌∷◌, arith, Option-cases,
  inl, inr,
}
use kiro_rs_tool.Prelude.Map.{string_eq}
use kiro_rs_tool.Anthropic.Sse.{SseEvent}
use kiro_rs_tool.Anthropic.Protocol.{Seen, nothing_seen, accept, accept_all, and_then}
use kiro_rs_tool.Anthropic.Stream.Buffered.{correct, correct_all}

-- A client that has seen the start of the message still has after any other event.
accept_started :
    (e : SseEvent) (s t : Seen)
    → s.started ≡ true
    → accept e s ≡ some t
    → (string_eq.beq e.event "message_start" ≡ false) × (t.started ≡ true)
accept_started e s t h k = ground arith

-- The usage is put into nothing behind the start.
correct_all_started :
    (usage : ℕ × ℕ × ℕ) (es : List SseEvent) (s t : Seen)
    → s.started ≡ true
    → accept_all es s ≡ some t
    → correct_all usage es ≡ es
unfolding accept_all correct_all correct
correct_all_started usage [] s t h k = refl
correct_all_started usage (e ∷ es) s t h k = elim (Option-cases (accept e s)) [
  | inl refused ↦ absurd (ground (arith, ap (λ o. and_then o (accept_all es)) refused, k))
  | inr (u, goes) ↦
      let (other, started) = accept_started e s u h goes in
      let rest : accept_all es u ≡ some t = sym (ap (λ o. and_then o (accept_all es)) goes) ∙ k in
      rw other (ap (λ xs. e ∷ xs) (correct_all_started usage es u t started rest))
]

pub correct_all_behind :
    (usage : ℕ × ℕ × ℕ) (e : SseEvent) (es : List SseEvent) (t : Seen)
    → e.event ≡ "message_start"
    → accept_all (e ∷ es) nothing_seen ≡ some t
    → correct_all usage es ≡ es
unfolding accept_all
correct_all_behind usage e es t start h =
    correct_all_started usage es (record nothing_seen { started = true }) t refl
      (subst
        (λ (n : String).
          and_then (accept (record e { event = n }) nothing_seen) (accept_all es) ≡ some t)
        start h)
