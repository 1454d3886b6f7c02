-- ===== src/Kiro/Parser/Decoder/Invariant.antt =====
-- src/kiro/parser/decoder.rs: what every method keeps true of a decoder.
use kiro_rs_tool.Prelude.{
  ℕ, ◌+◌, ◌≤◌, ◌<◌, ◌≡◌, refl, Option, none, some, List, arith, leb, ◌&&◌, length, length-append,
  length-drop, Bool-cases, inl, inr,
}
use kiro_rs_tool.Kiro.Parser.Error.{
  ParseResult, ok, err, fault, ParseError, Returns, header_parse_failed, message_crc_mismatch,
}
use kiro_rs_tool.Kiro.Parser.Frame.{Frame, parse_frame, prelude_size}
use kiro_rs_tool.Kiro.Parser.Frame.Total.{parse_frame-Returns}
use kiro_rs_tool.Kiro.Parser.Decoder.{
  EventStreamDecoder, DecoderState, parsing, stopped, new, feed, skip, skip_frame, recover_from,
  is_empty, total_length, try_recover, settle, decode,
}

-- A running decoder has errors to spare, a stopped one has used them up, and between two calls no
-- decoder is Parsing.
abbrev pub Budget : DecoderState → ℕ → ℕ → Type 0
Budget stopped count max = max ≤ count
Budget parsing count max = ⊥
Budget _ count max = count < max

pub record IsValid (d : EventStreamDecoder) : Type 0 where
  pub some_errors : 0 < d.max_errors
  pub budget : Budget d.state d.error_count d.max_errors
  pub bounded : length d.buffer ≤ d.max_buffer_size

pub new-IsValid : IsValid new
unfolding new
new-IsValid = record { some_errors = omega arith; budget = omega arith; bounded = omega arith }

-- `feed` keeps the decoder valid, whether or not the buffer has room.
pub feed-IsValid : (d : EventStreamDecoder) (bytes : List ℕ) → IsValid d → IsValid (feed d bytes).1
unfolding feed
feed-IsValid d bytes v = ground (arith, length-append d.buffer bytes)

-- What the recovery skips: some bytes, of those that are there.
abbrev pub Skips : EventStreamDecoder → EventStreamDecoder → Type 0
Skips d d' = (n : ℕ) × (d' ≡ skip d n) × (0 < n) × (n ≤ length d.buffer)

skip_frame-Skips : (d : EventStreamDecoder) → 0 < length d.buffer → Skips d (skip_frame d)
unfolding skip_frame
skip_frame-Skips d h =
    let n = total_length d.buffer in
    elim (Bool-cases
      (leb prelude_size (length d.buffer) && (leb 16 n && leb n (length d.buffer)))) [
        | inl sound ↦ (n, rw sound, ground arith, ground arith)
        | inr unsound ↦ (1, rw unsound, omega arith, omega arith)
      ]

recover_from-Skips :
    (d : EventStreamDecoder) (e : ParseError) → 0 < length d.buffer → Skips d (recover_from e d)
unfolding recover_from
recover_from-Skips d (message_crc_mismatch expected actual) h = skip_frame-Skips d h
recover_from-Skips d (header_parse_failed message) h = skip_frame-Skips d h
recover_from-Skips d _ h = (1, refl, omega arith, h)

pub try_recover-Skips :
    (d : EventStreamDecoder) (e : ParseError) → 0 < length d.buffer → Skips d (try_recover d e)
unfolding try_recover
try_recover-Skips d e h = elim (Bool-cases (is_empty d.buffer)) [
  | inl no_bytes ↦ absurd (ground arith)
  | inr bytes ↦ rw bytes (recover_from-Skips d e h)
]

pub settle-IsValid :
    (d : EventStreamDecoder) (r : ParseResult (Option (Frame × ℕ)))
    → 0 < length d.buffer
    → d.error_count < d.max_errors
    → length d.buffer ≤ d.max_buffer_size
    → Returns r
    → IsValid (settle d r).1
unfolding settle skip
settle-IsValid d (ok (some (frame, n))) h k b r = ground (arith, length-drop n d.buffer)
settle-IsValid d (ok none) h k b r = ground arith
settle-IsValid d (fault x) h k b r = absurd r
settle-IsValid d (err e) h k b r = ground (
  arith,
  try_recover-Skips (record d { error_count = d.error_count + 1 }) e h,
  length-drop (try_recover-Skips (record d { error_count = d.error_count + 1 }) e h).0 d.buffer,
)

-- `decode` keeps the decoder valid on every branch: it stops exactly when the consecutive errors
-- reach the limit, and never stays in state Parsing.
pub decode-IsValid :
    (crc32 : List ℕ → ℕ) (d : EventStreamDecoder) → IsValid d → IsValid (decode crc32 d).1
unfolding decode is_empty
decode-IsValid crc32 d v = ground (
  arith,
  settle-IsValid (record d { state = parsing }) (parse_frame crc32 d.buffer),
  parse_frame-Returns crc32 d.buffer,
)
