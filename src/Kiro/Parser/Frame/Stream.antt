-- ===== src/Kiro/Parser/Frame/Stream.antt =====
-- src/kiro/parser/frame.rs: what `parse_frame` decides does not change when more bytes arrive.
use kiro_rs_tool.Prelude.{
  ℕ, ◌+◌, ◌-◌, ◌≤◌, ◌≡◌, ◌≢◌, refl, sym, ◌∙◌, false, Option, none, List, ◌++◌, arith, ltb, length,
  length-append, Bool-cases, inl, inr, ltb→le, le→ltb,
}
use kiro_rs_tool.Kiro.Parser.Error.{ParseResult, ok, ◌>>=◌}
use kiro_rs_tool.Kiro.Parser.Bytes.{be32, be32-append, slice-append}
use kiro_rs_tool.Kiro.Parser.Frame.{
  Frame, prelude_size, min_message_size, parse_message, parse_checked, parse_prelude, parse_frame,
}

-- Three reads, and a continuation that another may replace where it decides.
replace_after :
    (a b c : ParseResult ℕ) (f g : ℕ → ℕ → ℕ → ParseResult (Option (Frame × ℕ)))
    → ((x y z : ℕ) → f x y z ≢ ok none → g x y z ≡ f x y z)
    → (do x ← a; y ← b; z ← c; f x y z) ≢ ok none
    → (do x ← a; y ← b; z ← c; g x y z) ≡ (do x ← a; y ← b; z ← c; f x y z)
replace_after (ok x) (ok y) (ok z) f g same decided = same x y z decided
replace_after (ok x) (ok y) _ f g same decided = refl
replace_after (ok x) _ c f g same decided = refl
replace_after _ b c f g same decided = refl

module _ (crc32 : List ℕ → ℕ) (buffer more : List ℕ) where
  parse_message-append :
      (n h c : ℕ)
      → min_message_size ≤ n
      → n ≤ length buffer
      → parse_message crc32 (buffer ++ more) n h c ≡ parse_message crc32 buffer n h c
  unfolding parse_message
  parse_message-append n h c small fits = elim (Bool-cases (ltb (n - 4) (12 + h))) [
    | inl outside ↦
        rw
          (
            slice-append buffer more 0 8 (omega arith) (omega arith),
            be32-append buffer more (n - 4) (omega arith),
            slice-append buffer more 0 (n - 4) (omega arith) (omega arith),
          )
          (simp outside)
    | inr inside ↦
        let ends : 12 + h ≤ n - 4 = ltb→le (n - 4) (12 + h) inside in
        rw (
          slice-append buffer more 0 8 (omega arith) (omega arith),
          be32-append buffer more (n - 4) (omega arith),
          slice-append buffer more 0 (n - 4) (omega arith) (omega arith),
          slice-append buffer more 12 (12 + h) (omega arith) (omega arith),
          slice-append buffer more (12 + h) (n - 4) ends (omega arith),
        )
  ]

  parse_checked-append :
      (n h c : ℕ)
      → parse_checked crc32 buffer n h c ≢ ok none
      → parse_checked crc32 (buffer ++ more) n h c ≡ parse_checked crc32 buffer n h c
  unfolding parse_checked
  parse_checked-append n h c decided =
      ground (arith, parse_message-append n h c, length-append buffer more)

  parse_prelude-append :
      prelude_size ≤ length buffer
      → parse_prelude crc32 buffer ≢ ok none
      → parse_prelude crc32 (buffer ++ more) ≡ parse_prelude crc32 buffer
  unfolding parse_prelude
  parse_prelude-append enough decided =
      rw
        (
          be32-append buffer more 0 (omega arith),
          be32-append buffer more 4 (omega arith),
          be32-append buffer more 8 (omega arith),
        )
        (replace_after (be32 buffer 0) (be32 buffer 4) (be32 buffer 8) (parse_checked crc32 buffer)
          (parse_checked crc32 (buffer ++ more)) parse_checked-append decided)

module _ (crc32 : List ℕ → ℕ) (buffer more : List ℕ) where
  -- Once `parse_frame` has returned a frame or an error for a buffer, any bytes that arrive
  -- behind it leave that answer as it is: only a request for more data can change.
  pub parse_frame-append :
      parse_frame crc32 buffer ≢ ok none
      → parse_frame crc32 (buffer ++ more) ≡ parse_frame crc32 buffer
  parse_frame-append decided = elim (Bool-cases (ltb (length buffer) prelude_size)) [
    | inl few ↦ absurd (decided (unfold parse_frame in rw few))
    | inr enough ↦
        let there : prelude_size ≤ length buffer = ltb→le (length buffer) prelude_size enough in
        let still : ltb (length (buffer ++ more)) prelude_size ≡ false =
          le→ltb _ _ (omega (arith, length-append buffer more)) in
        prelude_frame (buffer ++ more) still
        ∙ parse_prelude-append crc32 buffer more there
            (λ e. decided (prelude_frame buffer enough ∙ e))
        ∙ sym (prelude_frame buffer enough)
  ]
    where
      prelude_frame :
          (b : List ℕ)
          → ltb (length b) prelude_size ≡ false
          → parse_frame crc32 b ≡ parse_prelude crc32 b
      prelude_frame b h = unfold parse_frame in rw h
