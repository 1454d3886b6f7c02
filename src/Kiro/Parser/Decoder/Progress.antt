-- ===== src/Kiro/Parser/Decoder/Progress.antt =====
-- src/kiro/parser/decoder.rs: what one call of `decode` does to the buffer, the counts and the state.
use kiro_rs_tool.Prelude.{
  ℕ, ◌+◌, ◌≤◌, ◌<◌, ◌≡◌, ◌≢◌, refl, Option, none, some, List, [], arith, leb, length, drop,
  Bool-cases, inl, inr, ◌⊎◌,
}
use kiro_rs_tool.Kiro.Parser.Error.{
  ParseResult, ok, err, fault, ParseError, Returns, too_many_errors, display,
}
use kiro_rs_tool.Kiro.Parser.Frame.{Frame, parse_frame}
use kiro_rs_tool.Kiro.Parser.Frame.Total.{parse_frame-Returns}
use kiro_rs_tool.Kiro.Parser.Frame.Sound.{IsMessage, parse_frame-IsMessage}
use kiro_rs_tool.Kiro.Parser.Decoder.{
  EventStreamDecoder, ready, parsing, recovering, stopped, skip, is_empty, settle, decode_running,
  decode,
}
use kiro_rs_tool.Kiro.Parser.Decoder.Invariant.{try_recover-Skips}

module _ (crc32 : List ℕ → ℕ) where
  -- One call of a decoder that has not stopped. A frame takes its message off the front of the
  -- buffer. A call that wants more data keeps the buffer. An error skips some bytes, or stops the
  -- decoder with its buffer as it was.
  abbrev pub Step : EventStreamDecoder → ParseResult (Option Frame) × EventStreamDecoder → Type 0
  Step d (ok (some frame), after) =
      (n : ℕ) × IsMessage crc32 d.buffer frame n
      × (after ≡ record d {
        buffer = drop n d.buffer;
        state = ready;
        frames_decoded = d.frames_decoded + 1;
        error_count = 0;
      })
  Step d (ok none, after) =
      (after ≡ record d { state = ready })
      × ((d.buffer ≡ []) ⊎ (parse_frame crc32 d.buffer ≡ ok none))
  Step d (err e, after) =
      (e' : ParseError) × (parse_frame crc32 d.buffer ≡ err e')
      × (((d.max_errors ≤ d.error_count + 1)
            × (e ≡ too_many_errors (d.error_count + 1) (display e'))
            × (after ≡ record d { state = stopped; error_count = d.error_count + 1 }))
          ⊎ ((d.error_count + 1 < d.max_errors)
              × (e ≡ e')
              × (n : ℕ) × (0 < n)
              × (n ≤ length d.buffer)
              × (after ≡ record d {
                buffer = drop n d.buffer;
                state = recovering;
                error_count = d.error_count + 1;
                bytes_skipped = d.bytes_skipped + n;
              })))
  Step d (fault x, after) = ⊥

  settle-Step :
      (d : EventStreamDecoder) (r : ParseResult (Option (Frame × ℕ)))
      → 0 < length d.buffer
      → parse_frame crc32 d.buffer ≡ r
      → Returns r
      → Step d (settle (record d { state = parsing }) r)
  unfolding settle skip
  settle-Step d (ok (some (frame, n))) h p r =
      (n, (parse_frame-IsMessage crc32 d.buffer frame n).0 p, refl)
  settle-Step d (ok none) h p r = (refl, inr p)
  settle-Step d (fault x) h p r = absurd r
  settle-Step d (err e) h p r = elim (Bool-cases (leb d.max_errors (d.error_count + 1))) [
    | inl last ↦ rw last (e, p, inl (ground arith, refl, refl))
    | inr more ↦
        let (n, recovered, some_bytes, there) =
          try_recover-Skips (record d { state = parsing; error_count = d.error_count + 1 }) e h in
        rw (more, recovered) (e, p, inr (ground arith, refl, n, some_bytes, there, refl))
  ]

  decode_running-Step : (d : EventStreamDecoder) → Step d (decode_running crc32 d)
  unfolding decode_running is_empty
  decode_running-Step d = elim (Bool-cases (is_empty d.buffer)) [
    | inl no_bytes ↦ rw no_bytes (refl, inl (ground arith))
    | inr bytes ↦
        rw bytes (settle-Step d _ (ground arith) refl (parse_frame-Returns crc32 d.buffer))
  ]

  pub decode_lem :
      (d : EventStreamDecoder) → d.state ≢ stopped → decode crc32 d ≡ decode_running crc32 d
  unfolding decode
  decode_lem d h = ground arith

  -- A decoder that has not stopped does one of four things: take a message that meets the
  -- declarative description off the buffer and clear its errors, keep a buffer that holds no whole
  -- message, skip some bytes after an error, or stop, which it does when the limit is reached.
  pub decode-Step : (d : EventStreamDecoder) → d.state ≢ stopped → Step d (decode crc32 d)
  decode-Step d h = rw (decode_lem d h) (decode_running-Step d)
