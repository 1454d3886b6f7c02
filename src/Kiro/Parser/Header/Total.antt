-- ===== src/Kiro/Parser/Header/Total.antt =====
-- src/kiro/parser/header.rs: `parse_headers` returns on every input, since each round of its loop moves
-- the offset forward inside the data.
use kiro_rs_tool.Prelude.{
  ℕ, zero, suc, ◌+◌, ◌-◌, ◌≤◌, ◌<◌, List, arith, ltb, leb, ◌==◌, length, take, drop, length-drop,
  length-take, ltb→le,
}
use kiro_rs_tool.Kiro.Parser.Error.{
  ParseResult, ok, ◌>>=◌, ◌>>◌, Ensures, Returns, Ensures-bind, Ensures-if, Ensures-mono,
}
use kiro_rs_tool.Kiro.Parser.Bytes.{
  index, slice, be16, index_total, slice-Returns, be16_total, be32_total, be64_total, slice_lem,
  Reads-Returns,
}
use kiro_rs_tool.Kiro.Parser.Utf8.{from_utf8_lossy}
use kiro_rs_tool.Kiro.Parser.Header.{
  HeaderValueType, HeaderValue, Headers, try_from, ensure_bytes, parse_header_value, read_value,
  read_name, read_header, parse_loop, parse_headers, insert, new, bool_true, bool_false, byte,
  short, integer, long, byte_array, string, timestamp, uuid, byte_array_value, string_value,
}

ensure_bytes-Ensures :
    (bytes : List ℕ) (n : ℕ) → Ensures (λ _. n ≤ length bytes) (ensure_bytes bytes n)
unfolding ensure_bytes
ensure_bytes-Ensures bytes n = ground arith

-- The offset after a value: past the start, and within the data.
abbrev Within : List ℕ → ℕ → (HeaderValue × ℕ) → Type 0
Within bytes start (v, after) = (start ≤ after) × (after ≤ start + length bytes)

module _ (bytes : List ℕ) (start : ℕ) where
  -- A value of a fixed size, once the bytes are there.
  fixed-Within :
      {A : Type 0} (n : ℕ) (read : ParseResult A) (value : A → HeaderValue)
      → (n ≤ length bytes → Returns read)
      → Ensures (Within bytes start) (do ensure_bytes bytes n; v ← read; ok (value v, start + n))
  fixed-Within n read value h =
      Ensures-bind (λ _. n ≤ length bytes) (Within bytes start) (ensure_bytes bytes n) _
        (ensure_bytes-Ensures bytes n)
        λ _ enough.
          Ensures-bind (λ _. Unit) (Within bytes start) read _ (h enough)
            λ v _. (omega arith, omega arith)

  -- A value with its length in front.
  sized-Within :
      (value : List ℕ → HeaderValue)
      → Ensures (Within bytes start) (do
        ensure_bytes bytes 2
        len ← be16 bytes 0
        ensure_bytes bytes (2 + len)
        v ← slice bytes 2 (2 + len)
        ok (value v, start + (2 + len)))
  sized-Within value =
      Ensures-bind (λ _. 2 ≤ length bytes) (Within bytes start) (ensure_bytes bytes 2) _
        (ensure_bytes-Ensures bytes 2)
        λ _ enough.
          Ensures-bind (λ _. Unit) (Within bytes start) (be16 bytes 0) _
            (Reads-Returns _ (be16_total bytes 0 (omega arith)))
            λ len _.
              fixed-Within (2 + len) (slice bytes 2 (2 + len)) value
                λ k. slice-Returns bytes 2 (2 + len) (omega arith) k

  pub parse_header_value-Within :
      (t : HeaderValueType) → Ensures (Within bytes start) (parse_header_value bytes t start)
  unfolding parse_header_value
  parse_header_value-Within bool_true = (omega arith, omega arith)
  parse_header_value-Within bool_false = (omega arith, omega arith)
  parse_header_value-Within byte =
      fixed-Within 1 _ _ λ k. Reads-Returns _ (index_total bytes 0 (omega arith))
  parse_header_value-Within short =
      fixed-Within 2 _ _ λ k. Reads-Returns _ (be16_total bytes 0 (omega arith))
  parse_header_value-Within integer =
      fixed-Within 4 _ _ λ k. Reads-Returns _ (be32_total bytes 0 (omega arith))
  parse_header_value-Within long =
      fixed-Within 8 _ _ λ k. Reads-Returns _ (be64_total bytes 0 (omega arith))
  parse_header_value-Within timestamp =
      fixed-Within 8 _ _ λ k. Reads-Returns _ (be64_total bytes 0 (omega arith))
  parse_header_value-Within byte_array = sized-Within byte_array_value
  parse_header_value-Within string = sized-Within (λ v. string_value (from_utf8_lossy v))
  parse_header_value-Within uuid = fixed-Within 16 _ _ λ k. slice-Returns bytes 0 16 (omega arith) k

try_from-Returns : (t : ℕ) → Returns (try_from t)
unfolding try_from
try_from-Returns t = ground arith

-- Where a header read at `start` ends.
abbrev Ends : List ℕ → ℕ → (List ℕ × HeaderValue × ℕ) → Type 0
Ends bytes start (name, value, after) = (start < after) × (after ≤ length bytes)

read_value-Ends :
    (bytes name : List ℕ) (i : ℕ)
    → i < length bytes
    → Ensures (Ends bytes i) (read_value bytes name i)
unfolding read_value
read_value-Ends bytes name i h =
    Ensures-bind (λ _. Unit) (Ends bytes i) (index bytes i) _
      (Reads-Returns _ (index_total bytes i h))
      λ tag _.
        Ensures-bind (λ _. Unit) (Ends bytes i) (try_from tag) _ (try_from-Returns tag)
          λ t _. rw (slice_lem bytes (i + 1) (length bytes) (omega arith) (omega arith)) (
            Ensures-bind (Within (take (length bytes - (i + 1)) (drop (i + 1) bytes)) (i + 1))
              (Ends bytes i)
              (parse_header_value (take (length bytes - (i + 1)) (drop (i + 1) bytes)) t (i + 1)) _
              (parse_header_value-Within _ (i + 1) t)
              λ (v, after) w. omega (
                arith,
                w,
                length-take (length bytes - (i + 1)) (drop (i + 1) bytes),
                length-drop (i + 1) bytes,
              ))

read_name-Ends : (bytes : List ℕ) (n i : ℕ) → Ensures (Ends bytes i) (read_name bytes n i)
unfolding read_name
read_name-Ends bytes n i =
    Ensures-if (Ends bytes i) (ltb (length bytes) (i + n)) _ _ (λ _. tt)
      λ fits. rw (slice_lem bytes i (i + n) (omega arith) (ltb→le (length bytes) (i + n) fits)) (
        Ensures-if (Ends bytes i) (leb (length bytes) (i + n)) _ _ (λ _. tt)
          λ more.
            Ensures-mono (Ends bytes (i + n)) (Ends bytes i) _
              (read_value-Ends bytes _ (i + n) (ground arith)) λ r e. (omega (arith, e.0), e.1))

pub read_header-Ends :
    (bytes : List ℕ) (i : ℕ) → i < length bytes → Ensures (Ends bytes i) (read_header bytes i)
unfolding read_header
read_header-Ends bytes i h =
    Ensures-bind (λ _. Unit) (Ends bytes i) (index bytes i) _
      (Reads-Returns _ (index_total bytes i h))
      λ n _.
        Ensures-if (Ends bytes i) (n == 0) _ _ (λ _. tt)
          λ _.
            Ensures-mono (Ends bytes (i + 1)) (Ends bytes i) _ (read_name-Ends bytes n (i + 1))
              λ r e. (omega (arith, e.0), e.1)

parse_loop-Returns :
    (fuel : ℕ) (bytes : List ℕ) (n i : ℕ) (headers : Headers)
    → n ≤ length bytes
    → n ≤ fuel + i
    → Returns (parse_loop fuel bytes n i headers)
unfolding parse_loop
parse_loop-Returns zero bytes n i headers h k = ground arith
parse_loop-Returns (suc fuel) bytes n i headers h k =
    Ensures-if (λ _. Unit) (ltb i n) _ _
      (λ more.
        Ensures-if (λ _. Unit) (leb (length bytes) i) _ _ (λ _. tt)
          λ inside.
            Ensures-bind (Ends bytes i) (λ _. Unit) (read_header bytes i) _
              (read_header-Ends bytes i (ground arith))
              λ (name, value, after) e.
                parse_loop-Returns fuel bytes n after (insert headers name value) h
                  (omega (arith, e.0)))
      (λ _. tt)

-- `parse_headers` returns headers or an error on every input: its loop ends within as many rounds
-- as the header length, and no read is out of bounds.
pub parse_headers-Returns : (bytes : List ℕ) (n : ℕ) → Returns (parse_headers bytes n)
unfolding parse_headers
parse_headers-Returns bytes n =
    Ensures-if (λ _. Unit) (ltb (length bytes) n) _ _ (λ _. tt)
      λ enough. parse_loop-Returns n bytes n 0 new (ltb→le (length bytes) n enough) (omega arith)
