-- ===== src/Kiro/Parser/Frame.antt =====
-- src/kiro/parser/frame.rs: one message of the event stream. `crc::crc32` comes from the crate `crc`
-- (src/kiro/parser/crc.rs passes the call on), and is a parameter.
pub mod Total
pub mod Stream
pub mod Sound
use kiro_rs_tool.Prelude.{
  ℕ, ◌+◌, ◌-◌, ◌*◌, Option, none, some, List, not, ltb, ◌==◌, if◌then◌else◌, length,
}
use kiro_rs_tool.Kiro.Parser.Error.{
  ParseResult, ok, prelude_crc_mismatch, message_crc_mismatch, header_parse_failed,
  message_too_small, message_too_large, require, ◌>>=◌, ◌>>◌,
}
use kiro_rs_tool.Kiro.Parser.Bytes.{be32, slice}
use kiro_rs_tool.Kiro.Parser.Header
use kiro_rs_tool.Kiro.Parser.Header.{Headers, parse_headers}

abbrev pub prelude_size : ℕ
prelude_size = 12

abbrev pub min_message_size : ℕ
min_message_size = prelude_size + 4

abbrev pub max_message_size : ℕ
max_message_size = 16 * 1024 * 1024

pub record Frame : Type 0 where
  pub headers : Headers
  pub payload : List ℕ

pub message_type : Frame → Option (List ℕ)
message_type frame = Header.message_type frame.headers

pub event_type : Frame → Option (List ℕ)
event_type frame = Header.event_type frame.headers

module _ (crc32 : List ℕ → ℕ) where
  -- The message at the front of the buffer, once all its `total_length` bytes are there.
  pub parse_message : List ℕ → ℕ → ℕ → ℕ → ParseResult (Option (Frame × ℕ))
  parse_message buffer total_length header_length prelude_crc = do
    prelude ← slice buffer 0 8
    require (crc32 prelude == prelude_crc) (prelude_crc_mismatch prelude_crc (crc32 prelude))
    message_crc ← be32 buffer (total_length - 4)
    message ← slice buffer 0 (total_length - 4)
    require (crc32 message == message_crc) (message_crc_mismatch message_crc (crc32 message))
    let headers_end = prelude_size + header_length
    require (not (ltb (total_length - 4) headers_end)) (header_parse_failed "头部长度超出消息边界")
    header_bytes ← slice buffer prelude_size headers_end
    headers ← parse_headers header_bytes header_length
    payload ← slice buffer headers_end (total_length - 4)
    ok (some (record { headers = headers; payload = payload }, total_length))

  -- The checks on the three numbers of the prelude.
  pub parse_checked : List ℕ → ℕ → ℕ → ℕ → ParseResult (Option (Frame × ℕ))
  parse_checked buffer total_length header_length prelude_crc = do
    require (not (ltb total_length min_message_size))
        (message_too_small total_length min_message_size)
    require (not (ltb max_message_size total_length))
        (message_too_large total_length max_message_size)
    if ltb (length buffer) total_length
        then ok none
        else parse_message buffer total_length header_length prelude_crc

  pub parse_prelude : List ℕ → ParseResult (Option (Frame × ℕ))
  parse_prelude buffer = do
    total_length ← be32 buffer 0
    header_length ← be32 buffer 4
    prelude_crc ← be32 buffer 8
    parse_checked buffer total_length header_length prelude_crc

  unfoldable pub parse_frame : List ℕ → ParseResult (Option (Frame × ℕ))
  unfolding parse_prelude parse_checked parse_message
  parse_frame buffer = if ltb (length buffer) prelude_size then ok none else parse_prelude buffer
