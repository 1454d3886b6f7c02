-- ===== src/Kiro/Parser/Decoder.antt =====
-- src/kiro/parser/decoder.rs: the streaming decoder. A method returns its result and the decoder after
-- it. `BytesMut` is the list of the bytes that it holds: `advance(n)` drops n bytes of at least n
-- that are there. Logging is not modelled, and the capacity of a buffer is only a hint.
pub mod Invariant
pub mod Progress
pub mod Drain
pub mod Chunks
use kiro_rs_tool.Prelude.{
  ℕ, zero, suc, ◌+◌, ◌*◌, Bool, true, false, Option, none, some, List, [], ◌∷◌, ◌++◌, ◌&&◌, String,
  ltb, leb, if◌then◌else◌, length, drop,
}
use kiro_rs_tool.Kiro.Parser.Error.{
  ParseError, ParseResult, ok, err, fault, prelude_crc_mismatch, message_crc_mismatch,
  header_parse_failed, message_too_small, message_too_large, too_many_errors, buffer_overflow,
  display,
}
use kiro_rs_tool.Kiro.Parser.Frame.{Frame, prelude_size, parse_frame}

abbrev pub default_max_buffer_size : ℕ
default_max_buffer_size = 16 * 1024 * 1024

abbrev pub default_max_errors : ℕ
default_max_errors = 5

pub data DecoderState : Type 0 where
  ready parsing recovering stopped : DecoderState

pub record EventStreamDecoder : Type 0 where
  pub buffer : List ℕ
  pub state : DecoderState
  pub frames_decoded : ℕ
  pub error_count : ℕ
  pub max_errors : ℕ
  pub max_buffer_size : ℕ
  pub bytes_skipped : ℕ

-- `new` and `with_capacity`
unfoldable pub new : EventStreamDecoder
new = record {
  buffer = [];
  state = ready;
  frames_decoded = 0;
  error_count = 0;
  max_errors = default_max_errors;
  max_buffer_size = default_max_buffer_size;
  bytes_skipped = 0;
}

-- From Recovering back to Ready.
resume : DecoderState → DecoderState
resume recovering = ready
resume s = s

unfoldable pub feed : EventStreamDecoder → List ℕ → ParseResult (Unit {0}) × EventStreamDecoder
unfolding resume
feed d bytes =
    let new_size = length d.buffer + length bytes in
    if ltb d.max_buffer_size new_size
    then (err (buffer_overflow new_size d.max_buffer_size), d)
    else (ok tt, record d { buffer = d.buffer ++ bytes; state = resume d.state })

unfoldable pub is_empty : List ℕ → Bool
is_empty [] = true
is_empty (b ∷ bs) = false

pub skip : EventStreamDecoder → ℕ → EventStreamDecoder
skip d n = record d { buffer = drop n d.buffer; bytes_skipped = d.bytes_skipped + n }

-- `u32::from_be_bytes` of the first four bytes, which the test before it makes sure of.
pub total_length : List ℕ → ℕ
total_length (a ∷ b ∷ c ∷ d ∷ rest) = (a * 256 + b) * 65536 + (c * 256 + d)
total_length _ = 0

-- The whole frame if its length is sound and it is there, else one byte.
pub skip_frame : EventStreamDecoder → EventStreamDecoder
unfolding skip total_length
skip_frame d =
    let n = total_length d.buffer in
    if leb prelude_size (length d.buffer) && (leb 16 n && leb n (length d.buffer))
    then skip d n
    else skip d 1

pub recover_from : ParseError → EventStreamDecoder → EventStreamDecoder
unfolding skip_frame
recover_from (prelude_crc_mismatch expected actual) d = skip d 1
recover_from (message_too_small n min) d = skip d 1
recover_from (message_too_large n max) d = skip d 1
recover_from (message_crc_mismatch expected actual) d = skip_frame d
recover_from (header_parse_failed message) d = skip_frame d
recover_from _ d = skip d 1

unfoldable pub try_recover : EventStreamDecoder → ParseError → EventStreamDecoder
unfolding is_empty recover_from
try_recover d e = if is_empty d.buffer then d else recover_from e d

-- The arms of `match parse_frame(&self.buffer)`; the decoder is already in state Parsing.
unfoldable pub settle :
    EventStreamDecoder
    → ParseResult (Option (Frame × ℕ))
    → ParseResult (Option Frame) × EventStreamDecoder
settle d (ok (some (frame, consumed))) = (
  ok (some frame),
  record d {
    buffer = drop consumed d.buffer;
    state = ready;
    frames_decoded = d.frames_decoded + 1;
    error_count = 0;
  },
)
settle d (ok none) = (ok none, record d { state = ready })
settle d (err e) =
    let count = d.error_count + 1 in
    if leb d.max_errors count
    then (
      err (too_many_errors count (display e)),
      record d { state = stopped; error_count = count },
    )
    else (err e, record (try_recover (record d { error_count = count }) e) { state = recovering })
settle d (fault x) = (fault x, d)

-- What the iterator makes of a result of `decode`.
pub item : ParseResult (Option Frame) → Option (ParseResult Frame)
item (ok (some frame)) = some (ok frame)
item (ok none) = none
item (err e) = some (err e)
item (fault x) = some (fault x)

pub prepend :
    ParseResult Frame
    → Option (List (ParseResult Frame) × EventStreamDecoder)
    → Option (List (ParseResult Frame) × EventStreamDecoder)
prepend x none = none
prepend x (some (xs, last)) = some (x ∷ xs, last)

module _ (crc32 : List ℕ → ℕ) where
  pub decode_running : EventStreamDecoder → ParseResult (Option Frame) × EventStreamDecoder
  decode_running d =
      if is_empty d.buffer
      then (ok none, record d { state = ready })
      else settle (record d { state = parsing }) (parse_frame crc32 d.buffer)

  unfoldable pub decode : EventStreamDecoder → ParseResult (Option Frame) × EventStreamDecoder
  unfolding decode_running
  decode d = elim d.state [
    | stopped ↦ (err (too_many_errors d.error_count "解码器已停止"), d)
    | _ ↦ decode_running d
  ]

  -- `DecodeIter::next`
  unfoldable pub next : EventStreamDecoder → Option (ParseResult Frame) × EventStreamDecoder
  unfolding item
  next d = elim d.state [
    | stopped ↦ (none, d)
    | recovering ↦ (none, d)
    | _ ↦ (let (result, after) = decode d in (item result, after))
  ]

  -- `for result in decoder.decode_iter()`: the items until `next` is `None`. Each item takes a byte
  -- or more off the buffer (Decoder/Drain.antt), so its length and one are enough fuel; `none` is
  -- the lack of it.
  unfoldable pub drain :
      ℕ → EventStreamDecoder → Option (List (ParseResult Frame) × EventStreamDecoder)
  unfolding prepend
  drain zero d = none
  drain (suc fuel) d =
      let (x, after) = next d in
      elim x [ none ↦ some ([], after) | some r ↦ prepend r (drain fuel after) ]
