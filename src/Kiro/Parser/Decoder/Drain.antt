-- ===== src/Kiro/Parser/Decoder/Drain.antt =====
-- src/kiro/parser/decoder.rs: the iterator `decode_iter` ends, and where.
use kiro_rs_tool.Prelude.{
  ℕ, zero, suc, ◌<◌, ◌≡◌, ◌≢◌, refl, ap, ◌∙◌, Option, none, some, List, [], ◌∷◌, arith, length,
  length-drop, Option-cases, inl, inr, ◌⊎◌,
}
use kiro_rs_tool.Kiro.Parser.Error.{ParseResult, ok, err, fault, ParseError}
use kiro_rs_tool.Kiro.Parser.Frame.{Frame, parse_frame}
use kiro_rs_tool.Kiro.Parser.Decoder.{
  EventStreamDecoder, ready, stopped, decode_running, item, decode, next, prepend, drain,
}
use kiro_rs_tool.Kiro.Parser.Frame.Total.{parse_frame_few}
use kiro_rs_tool.Kiro.Parser.Decoder.Invariant.{IsValid, decode-IsValid}
use kiro_rs_tool.Kiro.Parser.Decoder.Progress.{Step, decode-Step, decode_lem}

module _ (crc32 : List ℕ → ℕ) where
  -- A frame or an error means that there was a byte, and that there are fewer now, unless the
  -- decoder has stopped.
  abbrev Shrinks : EventStreamDecoder → ParseResult (Option Frame) × EventStreamDecoder → Type 0
  Shrinks d (ok none, after) = Unit
  Shrinks d (_, after) =
      (0 < length d.buffer) × ((length after.buffer < length d.buffer) ⊎ (after.state ≡ stopped))

  error_needs_bytes :
      (bytes : List ℕ) (e : ParseError) → parse_frame crc32 bytes ≡ err e → 0 < length bytes
  error_needs_bytes [] e h = cc (h, parse_frame_few crc32 [] refl)
  error_needs_bytes (b ∷ bs) e h = omega arith

  Step-Shrinks :
      (d : EventStreamDecoder) (r : ParseResult (Option Frame)) (after : EventStreamDecoder)
      → Step crc32 d (r, after)
      → Shrinks d (r, after)
  Step-Shrinks d (ok none) after s = tt
  Step-Shrinks d (ok (some frame)) after (n, m, e) = (
    omega (arith, m.small, m.fits),
    inl (rw e (omega (arith, m.small, m.fits, length-drop n d.buffer))),
  )
  Step-Shrinks d (err x) after (e, p, inl (l, f, a)) = (error_needs_bytes d.buffer e p, inr (rw a))
  Step-Shrinks d (err x) after (e, p, inr (l, f, n, h, k, a)) =
      (error_needs_bytes d.buffer e p, inl (rw a (omega (arith, h, k, length-drop n d.buffer))))
  Step-Shrinks d (fault x) after s = absurd s

  next-IsValid : (d : EventStreamDecoder) → IsValid d → IsValid (next crc32 d).1
  unfolding next item
  next-IsValid d v = ground (arith, decode-IsValid crc32 d v)

  -- After the iterator has ended, asking again ends it again.
  next_ended :
      (d : EventStreamDecoder) → (next crc32 d).0 ≡ none → (next crc32 (next crc32 d).1).0 ≡ none
  unfolding next item
  next_ended d h = ground (
    arith,
    decode-Step crc32 d,
    decode_lem crc32 d,
    decode_lem crc32 (record d { state = ready }),
    decode_running_ready d,
  )
    where
      decode_running_ready :
          (d : EventStreamDecoder)
          → decode_running crc32 (record d { state = ready }) ≡ decode_running crc32 d
      decode_running_ready d = unfold decode_running in refl

  next_shrinks :
      (d : EventStreamDecoder) (x : ParseResult Frame)
      → (next crc32 d).0 ≡ some x
      → (0 < length d.buffer)
        × ((length (next crc32 d).1.buffer < length d.buffer) ⊎ ((next crc32 d).1.state ≡ stopped))
  unfolding next item
  next_shrinks d x h =
      ground (arith, Step-Shrinks d (decode crc32 d).0 (decode crc32 d).1, decode-Step crc32 d)

  -- How a run of the iterator goes: with enough fuel it ends, with a decoder that is valid and
  -- that the iterator has nothing more to take from.
  abbrev Drains : ℕ → EventStreamDecoder → Type 0
  Drains fuel d =
      (xs : List (ParseResult Frame)) × (last : EventStreamDecoder) × (drain crc32 fuel d
        ≡ some (xs, last))
      × IsValid last
      × ((next crc32 last).0 ≡ none)

  -- The fuel that is still needed.
  abbrev Enough : ℕ → EventStreamDecoder → Type 0
  Enough fuel d = (0 < fuel) × ((length d.buffer < fuel) ⊎ (d.state ≡ stopped))

  pub drain-none :
      (fuel : ℕ) (d : EventStreamDecoder)
      → (next crc32 d).0 ≡ none
      → drain crc32 (suc fuel) d ≡ some ([], (next crc32 d).1)
  unfolding drain
  drain-none fuel d e = rw (e, drain)

  pub drain-some :
      (fuel : ℕ) (d : EventStreamDecoder) (x : ParseResult Frame)
      → (next crc32 d).0 ≡ some x
      → drain crc32 (suc fuel) d ≡ prepend x (drain crc32 fuel (next crc32 d).1)
  unfolding drain
  drain-some fuel d x e = rw (e, drain)

  -- A stopped decoder gives no item.
  stopped-next :
      (d : EventStreamDecoder) (x : ParseResult Frame)
      → d.state ≡ stopped
      → (next crc32 d).0 ≢ some x
  unfolding next
  stopped-next d x h e = ground arith

  step-Enough :
      (fuel : ℕ) (d : EventStreamDecoder) (x : ParseResult Frame)
      → Enough (suc fuel) d
      → (next crc32 d).0 ≡ some x
      → Enough fuel (next crc32 d).1
  step-Enough fuel d x h e =
      ground (arith, next_shrinks d x e, λ (s : d.state ≡ stopped). stopped-next d x s e)

  prepend-some :
      (fuel : ℕ) (d : EventStreamDecoder) (x : ParseResult Frame)
      → (next crc32 d).0 ≡ some x
      → Drains fuel (next crc32 d).1
      → Drains (suc fuel) d
  unfolding prepend
  prepend-some fuel d x e (xs, last, run, v, quiet) =
      (x ∷ xs, last, drain-some fuel d x e ∙ ap (prepend x) run, v, quiet)

  drain-Enough : (fuel : ℕ) (d : EventStreamDecoder) → IsValid d → Enough fuel d → Drains fuel d
  drain-Enough zero d v h = absurd (omega arith)
  drain-Enough (suc fuel) d v h = elim (Option-cases (next crc32 d).0) [
    | inl e ↦ ([], (next crc32 d).1, drain-none fuel d e, next-IsValid d v, next_ended d e)
    | inr (x, e) ↦
        prepend-some fuel d x e
          (drain-Enough fuel (next crc32 d).1 (next-IsValid d v) (step-Enough fuel d x h e))
  ]

  -- From a valid decoder the loop over `decode_iter` ends after at most one round for each byte of
  -- the buffer and one more. It leaves a valid decoder from which the iterator has no further item.
  pub drain_total :
      (d : EventStreamDecoder) (fuel : ℕ)
      → IsValid d
      → length d.buffer < fuel
      → (xs : List (ParseResult Frame)) × (last : EventStreamDecoder) × (drain crc32 fuel d
          ≡ some (xs, last))
        × IsValid last
        × ((next crc32 last).0 ≡ none)
  drain_total d fuel v h = drain-Enough fuel d v (omega arith, inl h)
