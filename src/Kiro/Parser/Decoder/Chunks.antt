-- ===== src/Kiro/Parser/Decoder/Chunks.antt =====
-- src/kiro/parser/decoder.rs: the frames do not depend on how the stream was cut into chunks.
use kiro_rs_tool.Prelude.{
  ℕ, zero, suc, ◌+◌, ◌≤◌, ◌≡◌, ◌≢◌, refl, sym, ap, ◌∙◌, subst, Option, none, some, List, [], ◌∷◌,
  ◌++◌, map, arith, append_assoc, length, drop, length-append, drop-append, Option-cases, inl, inr,
}
use kiro_rs_tool.Kiro.Parser.Error.{ParseResult, ok}
use kiro_rs_tool.Kiro.Parser.Frame.{Frame}
use kiro_rs_tool.Kiro.Parser.Frame.Sound.{IsMessage, parse_frame-IsMessage}
use kiro_rs_tool.Kiro.Parser.Frame.Stream.{parse_frame-append}
use kiro_rs_tool.Kiro.Parser.Decoder.{
  EventStreamDecoder, ready, feed, is_empty, settle, decode_running, item, decode, next, prepend,
  drain,
}
use kiro_rs_tool.Kiro.Parser.Decoder.Progress.{decode-Step}
use kiro_rs_tool.Kiro.Parser.Decoder.Progress.{decode-Step}
use kiro_rs_tool.Kiro.Parser.Decoder.Drain.{drain-none, drain-some}

abbrev pub push : EventStreamDecoder → List ℕ → EventStreamDecoder
push d more = record d { buffer = d.buffer ++ more }

prepend_lem :
    (x : ParseResult Frame) (xs : List (ParseResult Frame)) (d : EventStreamDecoder)
    → prepend x (some (xs, d)) ≡ some (x ∷ xs, d)
unfolding prepend
prepend_lem x xs d = refl

prepend-ne-nil :
    (x : ParseResult Frame) (o : Option (List (ParseResult Frame) × EventStreamDecoder))
    {d : EventStreamDecoder}
    → prepend x o ≢ some ([], d)
unfolding prepend
prepend-ne-nil x o e = ground arith

prepend-eq-some :
    (x : ParseResult Frame) (o : Option (List (ParseResult Frame) × EventStreamDecoder))
    {y : ParseResult Frame} {ys : List (ParseResult Frame)} {d : EventStreamDecoder}
    → prepend x o ≡ some (y ∷ ys, d)
    → (x ≡ y) × (o ≡ some (ys, d))
unfolding prepend
prepend-eq-some x o e = ground arith

ended-eq :
    {xs ys : List (ParseResult Frame)} {a b : EventStreamDecoder}
    → ◌≡◌ {A = Option (List (ParseResult Frame) × EventStreamDecoder)} (some (xs, a)) (some (ys, b))
    → a ≡ b
ended-eq e = ground arith

module _ (crc32 : List ℕ → ℕ) where
  drain_mono :
      (f g : ℕ) (d : EventStreamDecoder) (r : List (ParseResult Frame) × EventStreamDecoder)
      → f ≤ g
      → drain crc32 f d ≡ some r
      → drain crc32 g d ≡ some r
  unfolding drain
  drain_mono zero g d r h e = cc
  drain_mono (suc f) zero d r h e = absurd (omega arith)
  drain_mono (suc f) (suc g) d r h e = elim (Option-cases (next crc32 d).0) [
    | inl n ↦ drain-none crc32 g d n ∙ sym (drain-none crc32 f d n) ∙ e
    | inr (x, n) ↦
        drain-some crc32 g d x n
        ∙ mono_prepend x (drain crc32 f (next crc32 d).1) (drain crc32 g (next crc32 d).1) r
            (λ r' e'. drain_mono f g (next crc32 d).1 r' (omega arith) e')
            (sym (drain-some crc32 f d x n) ∙ e)
  ]
    where
      mono_prepend :
          (x : ParseResult Frame) (a b : Option (List (ParseResult Frame) × EventStreamDecoder))
          (r : List (ParseResult Frame) × EventStreamDecoder)
          → ((r' : List (ParseResult Frame) × EventStreamDecoder) → a ≡ some r' → b ≡ some r')
          → prepend x a ≡ some r
          → prepend x b ≡ some r
      mono_prepend x none b r h e = unfold prepend in cc e
      mono_prepend x (some p) b r h e = ap (prepend x) (h p refl) ∙ e

  abbrev taken : EventStreamDecoder → ℕ → EventStreamDecoder
  taken d n = record d {
    buffer = drop n d.buffer;
    state = ready;
    frames_decoded = d.frames_decoded + 1;
    error_count = 0;
  }

  IsMessage-there :
      (d : EventStreamDecoder) (frame : Frame)
      → d.state ≡ ready
      → (next crc32 d).0 ≡ some (ok frame)
      → (n : ℕ) × IsMessage crc32 d.buffer frame n × ((next crc32 d).1 ≡ taken d n)
  unfolding next item
  IsMessage-there d frame h e = ground (arith, decode-Step crc32 d)

  next_message :
      (d : EventStreamDecoder) (frame : Frame) (n : ℕ)
      → d.state ≡ ready
      → IsMessage crc32 d.buffer frame n
      → next crc32 d ≡ (some (ok frame), taken d n)
  unfolding next item decode decode_running settle is_empty
  next_message d frame n h m =
      ground (arith, (parse_frame-IsMessage crc32 d.buffer frame n).1 m, m.small, m.fits)

  IsMessage-push :
      (d : EventStreamDecoder) (more : List ℕ) (frame : Frame) (n : ℕ)
      → IsMessage crc32 d.buffer frame n
      → IsMessage crc32 (d.buffer ++ more) frame n
  IsMessage-push d more frame n m =
      let parsed = (parse_frame-IsMessage crc32 d.buffer frame n).1 m in
      (parse_frame-IsMessage crc32 (d.buffer ++ more) frame n).0
        (parse_frame-append crc32 d.buffer more (λ waits. cc (parsed, waits)) ∙ parsed)

  -- A frame that is there is taken the same way when more bytes stand behind it.
  next-push :
      (d : EventStreamDecoder) (more : List ℕ) (frame : Frame)
      → d.state ≡ ready
      → (next crc32 d).0 ≡ some (ok frame)
      → (next crc32 (push d more) ≡ (some (ok frame), push (next crc32 d).1 more))
        × ((next crc32 d).1.state ≡ ready)
  next-push d more frame h e =
      let (n, m, after) = IsMessage-there d frame h e in
      (
        next_message (push d more) frame n h (IsMessage-push d more frame n m)
            ∙ rw (after, drop-append n d.buffer more m.fits),
        rw after,
      )

  -- Where nothing is left to take, the decoder stays as it is.
  next-none :
      (d : EventStreamDecoder) → d.state ≡ ready → (next crc32 d).0 ≡ none → (next crc32 d).1 ≡ d
  unfolding next item
  next-none d h e = ground (arith, decode-Step crc32 d)

  drain-push :
      (f f' g : ℕ) (d d' last : EventStreamDecoder) (more : List ℕ) (frames : List Frame)
      (ys : List (ParseResult Frame))
      → d.state ≡ ready
      → f + f' ≤ g
      → drain crc32 f d ≡ some (map ok frames, d')
      → drain crc32 f' (push d' more) ≡ some (ys, last)
      → drain crc32 g (push d more) ≡ some (map ok frames ++ ys, last)
  unfolding drain
  drain-push zero f' g d d' last more frames ys h k e e' = cc
  drain-push (suc f) f' zero d d' last more frames ys h k e e' = absurd (omega arith)
  drain-push (suc f) f' (suc g) d d' last more [] ys h k e e' =
      elim (Option-cases (next crc32 d).0) [
        | inl quiet ↦
            let same : d' ≡ d =
              ended-eq (sym e ∙ drain-none crc32 f d quiet) ∙ next-none d h quiet in
            drain_mono f' (suc g) (push d more) (ys, last) (omega arith)
              (subst (λ c. drain crc32 f' (push c more) ≡ some (ys, last)) same e')
        | inr (x, item) ↦ absurd (
            prepend-ne-nil x (drain crc32 f (next crc32 d).1)
              (sym (drain-some crc32 f d x item) ∙ e))
      ]
  drain-push (suc f) f' (suc g) d d' last more (frame ∷ frames) ys h k e e' =
      elim (Option-cases (next crc32 d).0) [
        | inl quiet ↦ cc (e, drain-none crc32 f d quiet)
        | inr (x, item) ↦
            let (first, rest) =
              prepend-eq-some x (drain crc32 f (next crc32 d).1)
                (sym (drain-some crc32 f d x item) ∙ e) in
            let (pushed, still) = next-push d more frame h (item ∙ ap some first) in
            drain-some crc32 g (push d more) (ok frame) (ap (λ p. p.0) pushed)
            ∙ ap (λ p. prepend (ok frame) (drain crc32 g p.1)) pushed
            ∙ ap (prepend (ok frame)) (
                drain-push f f' g (next crc32 d).1 d' last more frames ys still (omega arith) rest
                  e')
            ∙ prepend_lem (ok frame) (map ok frames ++ ys) last
      ]

  drain_ready :
      (f : ℕ) (d d' : EventStreamDecoder) (frames : List Frame)
      → d.state ≡ ready
      → drain crc32 f d ≡ some (map ok frames, d')
      → d'.state ≡ ready
  unfolding drain
  drain_ready zero d d' frames h e = cc
  drain_ready (suc f) d d' [] h e = elim (Option-cases (next crc32 d).0) [
    | inl quiet ↦
        ap (λ c. c.state) (ended-eq (sym e ∙ drain-none crc32 f d quiet) ∙ next-none d h quiet) ∙ h
    | inr (x, item) ↦
        absurd (
          prepend-ne-nil x (drain crc32 f (next crc32 d).1) (sym (drain-some crc32 f d x item) ∙ e))
  ]
  drain_ready (suc f) d d' (frame ∷ frames) h e = elim (Option-cases (next crc32 d).0) [
    | inl quiet ↦ cc (e, drain-none crc32 f d quiet)
    | inr (x, item) ↦
        let (first, rest) =
          prepend-eq-some x (drain crc32 f (next crc32 d).1)
            (sym (drain-some crc32 f d x item) ∙ e) in
        drain_ready f (next crc32 d).1 d' frames (next-push d [] frame h (item ∙ ap some first)).1
          rest
  ]

  feed-push :
      (d : EventStreamDecoder) (bytes : List ℕ)
      → d.state ≡ ready
      → length d.buffer + length bytes ≤ d.max_buffer_size
      → (feed d bytes).1 ≡ push d bytes
  unfolding feed
  feed-push d bytes h room = ground arith

  -- The stream may be cut anywhere: where the first chunk, fed to a decoder that is Ready, gives
  -- frames alone, and the second, fed to the decoder that this leaves, gives some items, the two
  -- fed as one chunk give the same frames and then the same items, and the same decoder at the
  -- end, in any fuel that is no less than both runs took. Both ways must fit the buffer.
  pub drain-feed-append :
      (d d' last : EventStreamDecoder) (a b : List ℕ) (frames : List Frame)
      (ys : List (ParseResult Frame)) (f f' g : ℕ)
      → d.state ≡ ready
      → length d.buffer + length (a ++ b) ≤ d.max_buffer_size
      → drain crc32 f (feed d a).1 ≡ some (map ok frames, d')
      → length d'.buffer + length b ≤ d'.max_buffer_size
      → drain crc32 f' (feed d' b).1 ≡ some (ys, last)
      → f + f' ≤ g
      → drain crc32 g (feed d (a ++ b)).1 ≡ some (map ok frames ++ ys, last)
  drain-feed-append d d' last a b frames ys f f' g h room e room' e' k =
      let fed = feed-push d a h (omega (arith, length-append a b)) in
      let e₁ : drain crc32 f (push d a) ≡ some (map ok frames, d') = rw (← fed) e in
      let ready' : d'.state ≡ ready = drain_ready f (push d a) d' frames h e₁ in
      let fed' = feed-push d' b ready' room' in
      let e₂ : drain crc32 f' (push d' b) ≡ some (ys, last) = rw (← fed') e' in
      ap (drain crc32 g) (
        feed-push d (a ++ b) h room
        ∙ ap (λ bytes. record d { buffer = bytes }) (sym (append_assoc d.buffer a b)))
      ∙ drain-push f f' g (push d a) d' last b frames ys h k e₁ e₂
