-- ===== src/Kiro/Parser/Frame/Total.antt =====
-- src/kiro/parser/frame.rs: `parse_frame` returns on every buffer.
use kiro_rs_tool.Prelude.{
  ℕ, ◌+◌, ◌-◌, ◌≤◌, ◌≡◌, true, false, none, some, List, arith, ltb, ◌==◌, length, take, drop,
  Bool-cases, inl, inr, ltb→le,
}
use kiro_rs_tool.Kiro.Parser.Error.{
  ok, prelude_crc_mismatch, message_crc_mismatch, ◌>>=◌, ◌>>◌, require, Ensures, Returns,
  Ensures-mono,
}
use kiro_rs_tool.Kiro.Parser.Bytes.{be32, be32_total, slice_lem, slice_prefix}
use kiro_rs_tool.Kiro.Parser.Header.{parse_headers}
use kiro_rs_tool.Kiro.Parser.Header.Total.{parse_headers-Returns}
use kiro_rs_tool.Kiro.Parser.Frame.{
  prelude_size, min_message_size, parse_message, parse_checked, parse_frame,
}

module _ (crc32 : List ℕ → ℕ) where
  -- `parse_message` with its reads done, where the headers end inside the message.
  pub parse_message_lem :
      (buffer : List ℕ) (n h c crc : ℕ)
      → min_message_size ≤ n
      → n ≤ length buffer
      → be32 buffer (n - 4) ≡ ok crc
      → ltb (n - 4) (12 + h) ≡ false
      → parse_message crc32 buffer n h c ≡ (do
        require (crc32 (take 8 buffer) == c) (prelude_crc_mismatch c (crc32 (take 8 buffer)))
        require
            (crc32 (take (n - 4) buffer) == crc)
            (message_crc_mismatch crc (crc32 (take (n - 4) buffer)))
        headers ← parse_headers (take h (drop 12 buffer)) h
        ok (
            some (
              record {
                headers = headers;
                payload = take (n - 4 - (12 + h)) (drop (12 + h) buffer);
              },
              n,
            )))
  unfolding parse_message
  parse_message_lem buffer n h c crc small fits read inside =
      let ends : 12 + h ≤ n - 4 = ltb→le (n - 4) (12 + h) inside in
      let size : 12 + h - 12 ≡ h = omega arith in
      rw (
        slice_prefix buffer 8 (omega arith),
        read,
        slice_prefix buffer (n - 4) (omega arith),
        inside,
        slice_lem buffer 12 (12 + h) (omega arith) (omega arith),
        slice_lem buffer (12 + h) (n - 4) ends (omega arith),
        size,
      )

  -- Where they do not, it ends in an error.
  pub parse_message_outside :
      (buffer : List ℕ) (n h c crc : ℕ)
      → min_message_size ≤ n
      → n ≤ length buffer
      → be32 buffer (n - 4) ≡ ok crc
      → ltb (n - 4) (12 + h) ≡ true
      → Ensures (λ _. ⊥) (parse_message crc32 buffer n h c)
  unfolding parse_message
  parse_message_outside buffer n h c crc small fits read outside =
      rw
        (
          slice_prefix buffer 8 (omega arith),
          read,
          slice_prefix buffer (n - 4) (omega arith),
          outside,
        )
        (ground arith)

  parse_message-Returns :
      (buffer : List ℕ) (n h c : ℕ)
      → min_message_size ≤ n
      → n ≤ length buffer
      → Returns (parse_message crc32 buffer n h c)
  parse_message-Returns buffer n h c small fits =
      let (crc, read) = be32_total buffer (n - 4) (omega arith) in
      elim (Bool-cases (ltb (n - 4) (12 + h))) [
        | inl outside ↦
            Ensures-mono (λ _. ⊥) (λ _. Unit) _
              (parse_message_outside buffer n h c crc small fits read outside) (λ _ x. absurd x)
        | inr inside ↦
            rw (parse_message_lem buffer n h c crc small fits read inside)
              (ground (arith, parse_headers-Returns (take h (drop 12 buffer)) h))
      ]

  parse_checked-Returns : (buffer : List ℕ) (n h c : ℕ) → Returns (parse_checked crc32 buffer n h c)
  unfolding parse_checked
  parse_checked-Returns buffer n h c = ground (arith, parse_message-Returns buffer n h c)

  pub parse_frame_few :
      (buffer : List ℕ)
      → ltb (length buffer) prelude_size ≡ true
      → parse_frame crc32 buffer ≡ ok none
  unfolding parse_frame
  parse_frame_few buffer few = rw few

  pub parse_frame_checked :
      (buffer : List ℕ) (n h c : ℕ)
      → ltb (length buffer) prelude_size ≡ false
      → be32 buffer 0 ≡ ok n
      → be32 buffer 4 ≡ ok h
      → be32 buffer 8 ≡ ok c
      → parse_frame crc32 buffer ≡ parse_checked crc32 buffer n h c
  unfolding parse_frame
  parse_frame_checked buffer n h c enough en eh ec = rw (enough, en, eh, ec)

  -- Whatever the bytes of the buffer, `parse_frame` returns a frame, a request for more data or an
  -- error: no index or range is out of bounds and the header loop ends.
  pub parse_frame-Returns : (buffer : List ℕ) → Returns (parse_frame crc32 buffer)
  parse_frame-Returns buffer = elim (Bool-cases (ltb (length buffer) prelude_size)) [
    | inl few ↦ rw (parse_frame_few buffer few) tt
    | inr enough ↦
        let there : 12 ≤ length buffer = ltb→le (length buffer) prelude_size enough in
        let (n, en) = be32_total buffer 0 (omega arith) in
        let (h, eh) = be32_total buffer 4 (omega arith) in
        let (c, ec) = be32_total buffer 8 (omega arith) in
        rw (parse_frame_checked buffer n h c enough en eh ec) (parse_checked-Returns buffer n h c)
  ]
