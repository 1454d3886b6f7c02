-- ===== src/Kiro/Parser/Frame/Sound.antt =====
-- src/kiro/parser/frame.rs: what a buffer holds when `parse_frame` returns a frame, written without
-- the order of its checks.
use kiro_rs_tool.Prelude.{
  ℕ, ◌+◌, ◌-◌, ◌≤◌, ◌≡◌, ◌↔◌, subst, sym, ◌∙◌, false, Option, some, List, arith, ltb, length, take,
  drop, Bool-cases, inl, inr, ltb→le, le→ltb,
}
use kiro_rs_tool.Kiro.Parser.Error.{ok, Ensures-ok}
use kiro_rs_tool.Kiro.Parser.Bytes.{be32, be32_total}
use kiro_rs_tool.Kiro.Parser.Header.{parse_headers}
use kiro_rs_tool.Kiro.Parser.Frame.Total.{
  parse_message_lem, parse_message_outside, parse_frame_few, parse_frame_checked,
}
use kiro_rs_tool.Kiro.Parser.Frame.{
  Frame, prelude_size, min_message_size, max_message_size, parse_message, parse_checked,
  parse_frame,
}

module _ (crc32 : List ℕ → ℕ) where
  -- The first `n` bytes of the buffer are a message with this frame.
  pub record IsMessage (buffer : List ℕ) (frame : Frame) (n : ℕ) : Type 0 where
    pub header_length : ℕ
    pub small : min_message_size ≤ n
    pub large : n ≤ max_message_size
    pub fits : n ≤ length buffer
    pub inside : 12 + header_length ≤ n - 4
    pub total_read : be32 buffer 0 ≡ ok n
    pub header_read : be32 buffer 4 ≡ ok header_length
    pub prelude_crc : be32 buffer 8 ≡ ok (crc32 (take 8 buffer))
    pub message_crc : be32 buffer (n - 4) ≡ ok (crc32 (take (n - 4) buffer))
    pub headers_read :
        parse_headers (take header_length (drop 12 buffer)) header_length ≡ ok frame.headers
    pub payload_read :
        frame.payload ≡ take (n - 4 - (12 + header_length)) (drop (12 + header_length) buffer)

  module _ (buffer : List ℕ) (n h c crc : ℕ) (frame : Frame) (m : ℕ) where
    message_parts :
        min_message_size ≤ n
        → n ≤ length buffer
        → be32 buffer (n - 4) ≡ ok crc
        → parse_message crc32 buffer n h c ≡ ok (some (frame, m))
        → (n ≡ m)
          × (12 + h ≤ n - 4)
          × (crc32 (take 8 buffer) ≡ c)
          × (crc32 (take (n - 4) buffer) ≡ crc)
          × (parse_headers (take h (drop 12 buffer)) h ≡ ok frame.headers)
          × (frame.payload ≡ take (n - 4 - (12 + h)) (drop (12 + h) buffer))
    message_parts small fits read parsed = elim (Bool-cases (ltb (n - 4) (12 + h))) [
      | inl outside ↦ absurd (
          Ensures-ok (λ _. ⊥) _
            (parse_message_outside crc32 buffer n h c crc small fits read outside) parsed)
      | inr inside ↦
          let ladder =
            sym (parse_message_lem crc32 buffer n h c crc small fits read inside) ∙ parsed in
          ground (arith, ltb→le (n - 4) (12 + h) inside, ladder)
    ]

  checked_sizes :
      (buffer : List ℕ) (n h c : ℕ) (r : Frame × ℕ)
      → parse_checked crc32 buffer n h c ≡ ok (some r)
      → (min_message_size ≤ n)
        × (n ≤ max_message_size)
        × (n ≤ length buffer)
        × (parse_message crc32 buffer n h c ≡ ok (some r))
  unfolding parse_checked
  checked_sizes buffer n h c r parsed = ground arith

  checked_parts :
      (buffer : List ℕ) (n h c : ℕ) (frame : Frame) (m : ℕ)
      → be32 buffer 0 ≡ ok n
      → be32 buffer 4 ≡ ok h
      → be32 buffer 8 ≡ ok c
      → parse_checked crc32 buffer n h c ≡ ok (some (frame, m))
      → IsMessage buffer frame m
  checked_parts buffer n h c frame m en eh ec parsed =
      let (small, large, fits, message) = checked_sizes buffer n h c (frame, m) parsed in
      let (crc, read) = be32_total buffer (n - 4) (omega arith) in
      let (same, inside, pc, mc, headers, payload) =
        message_parts buffer n h c crc frame m small fits read message in
      subst (IsMessage buffer frame) same (record {
        header_length = h;
        small = small;
        large = large;
        fits = fits;
        inside = inside;
        total_read = en;
        header_read = eh;
        prelude_crc = rw pc ec;
        message_crc = rw mc read;
        headers_read = headers;
        payload_read = payload;
      })

  frame_parts :
      (buffer : List ℕ) (frame : Frame) (n : ℕ)
      → parse_frame crc32 buffer ≡ ok (some (frame, n))
      → IsMessage buffer frame n
  frame_parts buffer frame n parsed = elim (Bool-cases (ltb (length buffer) prelude_size)) [
    | inl few ↦ cc (parsed, parse_frame_few crc32 buffer few)
    | inr enough ↦
        let there : 12 ≤ length buffer = ltb→le (length buffer) prelude_size enough in
        let (total, en) = be32_total buffer 0 (omega arith) in
        let (h, eh) = be32_total buffer 4 (omega arith) in
        let (c, ec) = be32_total buffer 8 (omega arith) in
        checked_parts buffer total h c frame n en eh ec
          (sym (parse_frame_checked crc32 buffer total h c enough en eh ec) ∙ parsed)
  ]

  checked_message :
      (buffer : List ℕ) (n h c : ℕ) (r : Option (Frame × ℕ))
      → min_message_size ≤ n
      → n ≤ max_message_size
      → n ≤ length buffer
      → parse_message crc32 buffer n h c ≡ ok r
      → parse_checked crc32 buffer n h c ≡ ok r
  unfolding parse_checked
  checked_message buffer n h c r small large fits parsed = ground arith

  message_frame :
      (buffer : List ℕ) (frame : Frame) (n : ℕ)
      → IsMessage buffer frame n
      → parse_frame crc32 buffer ≡ ok (some (frame, n))
  message_frame buffer frame n m =
      parse_frame_checked crc32 buffer n h c enough m.total_read m.header_read m.prelude_crc
      ∙ checked_message buffer n h c (some (frame, n)) m.small m.large m.fits (
          parse_message_lem crc32 buffer n h c _ m.small m.fits m.message_crc
            (le→ltb (n - 4) (12 + h) m.inside)
          ∙ ground (arith, m.headers_read, m.payload_read))
    where
      h : ℕ
      h = m.header_length

      c : ℕ
      c = crc32 (take 8 buffer)

      enough : ltb (length buffer) prelude_size ≡ false
      enough = le→ltb _ _ (omega (arith, m.small, m.fits))

  -- `parse_frame` returns a frame and a length exactly when the buffer starts with a message of
  -- that length: both checksums agree, the length is between 16 bytes and 16 MiB and is there, the
  -- headers end before the last four bytes and parse to those of the frame, and the payload is
  -- what stands between them.
  pub parse_frame-IsMessage :
      (buffer : List ℕ) (frame : Frame) (n : ℕ)
      → (parse_frame crc32 buffer ≡ ok (some (frame, n))) ↔ IsMessage buffer frame n
  parse_frame-IsMessage buffer frame n = (frame_parts buffer frame n, message_frame buffer frame n)
