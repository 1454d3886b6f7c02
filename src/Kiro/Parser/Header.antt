-- ===== src/Kiro/Parser/Header.antt =====
-- src/kiro/parser/header.rs: the headers of a message. The loop of `parse_headers` takes fuel; one
-- round reads two bytes at least, so the header length is enough (Header/Total.antt).
pub mod Total
use kiro_rs_tool.Prelude.{
  ℕ, zero, suc, ◌+◌, ◌-◌, ◌≡◌, refl, Bool, true, false, Option, none, some, List, [], ◌∷◌, ltb, leb,
  ◌==◌, if◌then◌else◌, length, drop,
}
use kiro_rs_tool.Prelude.Int.{ℤ, as_signed}
use kiro_rs_tool.Prelude.Map
use kiro_rs_tool.Prelude.Map.{bytes_eq}
use kiro_rs_tool.Prelude.Text.{codes}
use kiro_rs_tool.Kiro.Parser.Error.{
  ParseResult, ok, err, fault, out_of_fuel, incomplete, invalid_header_type, header_parse_failed,
  ◌>>=◌, ◌>>◌,
}
use kiro_rs_tool.Kiro.Parser.Bytes.{index, slice, be16, be32, be64}
use kiro_rs_tool.Kiro.Parser.Utf8.{from_utf8_lossy}

pub data HeaderValueType : Type 0 where
  bool_true bool_false byte short integer long byte_array string timestamp uuid : HeaderValueType

pub try_from : ℕ → ParseResult HeaderValueType
try_from value =
    if value == 0
    then ok bool_true
    else if value == 1
    then ok bool_false
    else if value == 2
    then ok byte
    else if value == 3
    then ok short
    else if value == 4
    then ok integer
    else if value == 5
    then ok long
    else if value == 6
    then ok byte_array
    else if value == 7
    then ok string
    else if value == 8
    then ok timestamp
    else if value == 9
    then ok uuid
    else err (invalid_header_type value)

-- A text is the list of its UTF-8 bytes; the sixteen bytes of a UUID are a list.
pub data HeaderValue : Type 0 where
  bool_value : Bool → HeaderValue
  byte_value : ℤ → HeaderValue
  short_value : ℤ → HeaderValue
  integer_value : ℤ → HeaderValue
  long_value : ℤ → HeaderValue
  byte_array_value : List ℕ → HeaderValue
  string_value : List ℕ → HeaderValue
  timestamp_value : ℤ → HeaderValue
  uuid_value : List ℕ → HeaderValue

pub as_str : HeaderValue → Option (List ℕ)
as_str (string_value s) = some s
as_str _ = none

-- `HashMap<String, HeaderValue>`
pub record Headers : Type 0 where
  pub inner : List (List ℕ × HeaderValue)

pub new : Headers
new = record { inner = [] }

pub insert : Headers → List ℕ → HeaderValue → Headers
insert headers name value = record { inner = Map.insert name value headers.inner }

pub get : Headers → List ℕ → Option HeaderValue
get headers name = Map.lookup name headers.inner

and_as_str : Option HeaderValue → Option (List ℕ)
unfolding as_str
and_as_str none = none
and_as_str (some v) = as_str v

pub get_string : Headers → List ℕ → Option (List ℕ)
unfolding and_as_str get
get_string headers name = and_as_str (get headers name)

pub message_type : Headers → Option (List ℕ)
unfolding get_string
message_type headers = get_string headers (codes ":message-type")

pub event_type : Headers → Option (List ℕ)
unfolding get_string
event_type headers = get_string headers (codes ":event-type")

pub exception_type : Headers → Option (List ℕ)
unfolding get_string
exception_type headers = get_string headers (codes ":exception-type")

pub error_code : Headers → Option (List ℕ)
unfolding get_string
error_code headers = get_string headers (codes ":error-code")

pub ensure_bytes : List ℕ → ℕ → ParseResult (Unit {0})
ensure_bytes bytes needed =
    if ltb (length bytes) needed then err (incomplete needed (length bytes)) else ok tt

-- The value, and `global_offset` moved past it. The offset of a failed read is not used again.
pub parse_header_value : List ℕ → HeaderValueType → ℕ → ParseResult (HeaderValue × ℕ)
parse_header_value bytes bool_true global_offset = ok (bool_value true, global_offset + 0)
parse_header_value bytes bool_false global_offset = ok (bool_value false, global_offset + 0)
parse_header_value bytes byte global_offset = do
  ensure_bytes bytes 1
  v ← index bytes 0
  ok (byte_value (as_signed 8 v), global_offset + 1)
parse_header_value bytes short global_offset = do
  ensure_bytes bytes 2
  v ← be16 bytes 0
  ok (short_value (as_signed 16 v), global_offset + 2)
parse_header_value bytes integer global_offset = do
  ensure_bytes bytes 4
  v ← be32 bytes 0
  ok (integer_value (as_signed 32 v), global_offset + 4)
parse_header_value bytes long global_offset = do
  ensure_bytes bytes 8
  v ← be64 bytes 0
  ok (long_value (as_signed 64 v), global_offset + 8)
parse_header_value bytes timestamp global_offset = do
  ensure_bytes bytes 8
  v ← be64 bytes 0
  ok (timestamp_value (as_signed 64 v), global_offset + 8)
parse_header_value bytes byte_array global_offset = do
  ensure_bytes bytes 2
  len ← be16 bytes 0
  ensure_bytes bytes (2 + len)
  v ← slice bytes 2 (2 + len)
  ok (byte_array_value v, global_offset + (2 + len))
parse_header_value bytes string global_offset = do
  ensure_bytes bytes 2
  len ← be16 bytes 0
  ensure_bytes bytes (2 + len)
  v ← slice bytes 2 (2 + len)
  ok (string_value (from_utf8_lossy v), global_offset + (2 + len))
parse_header_value bytes uuid global_offset = do
  ensure_bytes bytes 16
  v ← slice bytes 0 16
  ok (uuid_value v, global_offset + 16)

read_value : List ℕ → List ℕ → ℕ → ParseResult (List ℕ × HeaderValue × ℕ)
read_value bytes name offset = do
  tag ← index bytes offset
  value_type ← try_from tag
  rest ← slice bytes (offset + 1) (length bytes)
  (value, after) ← parse_header_value rest value_type (offset + 1)
  ok (name, value, after)

read_name : List ℕ → ℕ → ℕ → ParseResult (List ℕ × HeaderValue × ℕ)
read_name bytes name_len offset =
    if ltb (length bytes) (offset + name_len)
    then err (incomplete name_len (length bytes - offset))
    else do
      name ← slice bytes offset (offset + name_len)
      if leb (length bytes) (offset + name_len)
          then err (incomplete 1 0)
          else read_value bytes (from_utf8_lossy name) (offset + name_len)

-- One round of the loop, at an offset inside the data: the header that stands there, and the
-- offset after it.
pub read_header : List ℕ → ℕ → ParseResult (List ℕ × HeaderValue × ℕ)
read_header bytes offset = do
  name_len ← index bytes offset
  if name_len == 0
      then err (header_parse_failed "头部名称长度不能为 0")
      else read_name bytes name_len (offset + 1)

-- `while offset < header_length`, with its `break` at the end of the data.
pub parse_loop : ℕ → List ℕ → ℕ → ℕ → Headers → ParseResult Headers
parse_loop zero bytes header_length offset headers =
    if ltb offset header_length then fault out_of_fuel else ok headers
parse_loop (suc fuel) bytes header_length offset headers =
    let rest = (do
      (name, value, after) ← read_header bytes offset
      parse_loop fuel bytes header_length after (insert headers name value)) in
    if ltb offset header_length
    then (if leb (length bytes) offset then ok headers else rest)
    else ok headers

unfoldable pub parse_headers : List ℕ → ℕ → ParseResult Headers
unfolding parse_loop read_header read_name read_value parse_header_value try_from new insert
    ensure_bytes
parse_headers bytes header_length =
    if ltb (length bytes) header_length
    then err (incomplete header_length (length bytes))
    else parse_loop header_length bytes header_length 0 new

-- The source's own test: one header, "x" with the text "ab".
parse_headers_test :
    parse_headers (1 ∷ b'x' ∷ 7 ∷ 0 ∷ 2 ∷ b'a' ∷ b'b' ∷ []) 7
    ≡ ok (record { inner = (codes "x", string_value (codes "ab")) ∷ [] })
unfolding parse_headers be16 slice from_utf8_lossy
parse_headers_test = refl
