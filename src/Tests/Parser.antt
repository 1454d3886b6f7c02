-- ===== src/Tests/Parser.antt =====
-- src/kiro/parser/: runs on two small messages. The checksum is the sum of the bytes.
use kiro_rs_tool.Prelude.{ℕ, ◌+◌, ◌≡◌, ◌≢◌, ◌↔◌, refl, none, some, List, [], ◌∷◌, ◌++◌, arith}
use kiro_rs_tool.Prelude.Text.{codes}
use kiro_rs_tool.Kiro.Parser.Error.{ParseResult, ok, err, message_crc_mismatch, Returns}
use kiro_rs_tool.Kiro.Parser.Bytes.{be32, slice}
use kiro_rs_tool.Kiro.Parser.Utf8.{from_utf8_lossy}
use kiro_rs_tool.Kiro.Parser.Header.{string_value, parse_headers}
use kiro_rs_tool.Kiro.Parser.Header.Total.{parse_headers-Returns}
use kiro_rs_tool.Kiro.Parser.Frame.{Frame, parse_frame}
use kiro_rs_tool.Kiro.Parser.Frame.Total.{parse_frame-Returns}
use kiro_rs_tool.Kiro.Parser.Frame.Stream.{parse_frame-append}
use kiro_rs_tool.Kiro.Parser.Frame.Sound.{parse_frame-IsMessage, IsMessage}
use kiro_rs_tool.Kiro.Parser.Decoder.{
  ready, recovering, EventStreamDecoder, new, feed, decode, next, drain, settle, try_recover,
  is_empty,
}
use kiro_rs_tool.Kiro.Parser.Decoder.Invariant.{IsValid, new-IsValid, feed-IsValid, decode-IsValid}
use kiro_rs_tool.Kiro.Parser.Decoder.Progress.{Step, decode-Step}
use kiro_rs_tool.Kiro.Parser.Decoder.Drain.{drain_total}
use kiro_rs_tool.Kiro.Parser.Decoder.Chunks.{drain-feed-append}

abbrev checksum : List ℕ → ℕ
checksum [] = 0
checksum (b ∷ bs) = b + checksum bs

-- One header, "a" with the text "b".
abbrev header_bytes : List ℕ
header_bytes = 1 ∷ 97 ∷ 7 ∷ 0 ∷ 1 ∷ 98 ∷ []

abbrev message : List ℕ
message =
    0 ∷ 0 ∷ 0 ∷ 23 ∷ 0 ∷ 0 ∷ 0 ∷ 6 ∷ 0 ∷ 0 ∷ 0 ∷ 29 ∷ 1 ∷ 97 ∷ 7 ∷ 0 ∷ 1 ∷ 98 ∷ 123 ∷ 0 ∷ 0 ∷ 1
    ∷ 129 ∷ []

abbrev frame : Frame
frame = record {
  headers = record { inner = (codes "a", string_value (codes "b")) ∷ [] };
  payload = 123 ∷ [];
}

-- The message with a wrong checksum at its end.
abbrev corrupt : List ℕ
corrupt =
    0 ∷ 0 ∷ 0 ∷ 23 ∷ 0 ∷ 0 ∷ 0 ∷ 6 ∷ 0 ∷ 0 ∷ 0 ∷ 29 ∷ 1 ∷ 97 ∷ 7 ∷ 0 ∷ 1 ∷ 98 ∷ 123 ∷ 0 ∷ 0 ∷ 1
    ∷ 130 ∷ []

parse_message_test : parse_frame checksum message ≡ ok (some (frame, 23))
unfolding parse_frame be32 slice parse_headers from_utf8_lossy
parse_message_test = refl

parse_frame_decided : parse_frame checksum message ≢ ok none
parse_frame_decided e = cc (e, parse_message_test)

parse_headers-Returns_example : Returns (parse_headers header_bytes 6)
parse_headers-Returns_example = parse_headers-Returns header_bytes 6

parse_frame-Returns_example : Returns (parse_frame checksum corrupt)
parse_frame-Returns_example = parse_frame-Returns checksum corrupt

parse_frame-append_example :
    parse_frame checksum (message ++ corrupt) ≡ parse_frame checksum message
parse_frame-append_example = parse_frame-append checksum message corrupt parse_frame_decided

parse_frame-IsMessage_example :
    (parse_frame checksum message ≡ ok (some (frame, 23))) ↔ IsMessage checksum message frame 23
parse_frame-IsMessage_example = parse_frame-IsMessage checksum message frame 23

-- A new decoder that was fed some bytes.
abbrev fed : List ℕ → EventStreamDecoder
fed bytes = (feed new bytes).1

fed-IsValid : (bytes : List ℕ) → IsValid (fed bytes)
fed-IsValid bytes = feed-IsValid new bytes new-IsValid

decode-IsValid_example : IsValid (decode checksum (fed corrupt)).1
decode-IsValid_example = decode-IsValid checksum (fed corrupt) (fed-IsValid corrupt)

drain_total_example :
    (xs : List (ParseResult Frame)) × (last : EventStreamDecoder) × (drain checksum 47
        (fed (message ++ corrupt))
      ≡ some (xs, last))
    × IsValid last
    × ((next checksum last).0 ≡ none)
drain_total_example =
    drain_total checksum (fed (message ++ corrupt)) 47 (fed-IsValid (message ++ corrupt))
      (unfold feed new in omega arith)

fed_ready : (bytes : List ℕ) → (fed bytes).state ≡ ready
unfolding feed new
fed_ready bytes = ground arith

decode-Step_example : Step checksum (fed corrupt) (decode checksum (fed corrupt))
decode-Step_example = decode-Step checksum (fed corrupt) (λ e. cc (e, fed_ready corrupt))

abbrev after_one : EventStreamDecoder
after_one = record {
  buffer = [];
  state = ready;
  frames_decoded = 1;
  error_count = 0;
  max_errors = 5;
  max_buffer_size = 16777216;
  bytes_skipped = 0;
}

abbrev after_two : EventStreamDecoder
after_two = record after_one { state = recovering; error_count = 1; bytes_skipped = 23 }

drain_one : drain checksum 2 (feed new message).1 ≡ some (ok frame ∷ [], after_one)
unfolding drain next decode is_empty feed new parse_frame be32 slice parse_headers from_utf8_lossy
    settle
drain_one = refl

drain_two :
    drain checksum 2 (feed after_one corrupt).1
    ≡ some (err (message_crc_mismatch 386 385) ∷ [], after_two)
unfolding drain next decode is_empty settle try_recover feed parse_frame be32 slice
drain_two = refl

drain-feed-append_example :
    drain checksum 4 (feed new (message ++ corrupt)).1
    ≡ some (ok frame ∷ err (message_crc_mismatch 386 385) ∷ [], after_two)
drain-feed-append_example =
    drain-feed-append checksum new after_one after_two message corrupt (frame ∷ [])
      (err (message_crc_mismatch 386 385) ∷ []) 2 2 4 (unfold new in refl)
      (unfold new in omega arith) drain_one (omega arith) drain_two (omega arith)
