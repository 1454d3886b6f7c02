-- ===== src/ImageResize/Shrink.antt =====
-- src/image_resize.rs: `maybe_shrink_image`. The two loops over the size and the quality of a picture
-- take fuel, and answer `none` without it.
pub mod Read
pub mod Ends
use kiro_rs_tool.Prelude.{
  ℕ, zero, suc, ◌+◌, ◌-◌, ◌*◌, ◌/◌, max, min, Bool, true, false, not, ◌||◌, Option, none, some,
  List, [], ◌∷◌, ltb, leb, ◌⊎◌, inl, inr, if◌then◌else◌, length, map, take,
}
use kiro_rs_tool.Prelude.Map.{bytes_eq}
use kiro_rs_tool.Prelude.Text.{codes, decimal}
use kiro_rs_tool.Prelude.Chars.{byte_len}
use kiro_rs_tool.Prelude.Search.{to_ascii_lower}
use kiro_rs_tool.ImageResize.Limits.{
  Codec, ResizeConfig, ResizeError, limit_exceeded, base64, undecodable, unencodable, ImageFormat,
  png, jpeg, web_p, gif, other, Done, usize_max, and_then, map_err, too_large, guess_format,
  validate_base64_limits, decode_checked, read_dimensions_from_raw, peek_dimensions_checked,
}

pub record ProcessedImage : Type 0 where
  pub format : List ℕ
  pub data_base64 : List ℕ
  pub was_resized : Bool
  pub original_bytes : ℕ
  pub final_bytes : ℕ

abbrev pub min_jpeg_quality : ℕ
min_jpeg_quality = 35

abbrev pub min_long_side : ℕ
min_long_side = 256

-- Whether the bytes, a third more in base64, are within the budget.
unfoldable pub fits : ResizeConfig → List ℕ → Bool
fits cfg out = leb (min (length out * 4) usize_max / 3) cfg.max_bytes

-- An unknown size is let through only within the budget.
unfoldable pub passes : ResizeConfig → List ℕ → Option (ℕ × ℕ) ⊎ ResizeError → Done ⊎ ResizeError
passes cfg text (inl (some size)) = inl tt
passes cfg text (inr (limit_exceeded e)) = inr (limit_exceeded e)
passes cfg text (inr (unencodable e)) = inr (unencodable e)
passes cfg text _ =
    if leb (byte_len text) cfg.max_bytes
    then inl tt
    else inr (limit_exceeded (codes "oversized image payload has unknown or invalid dimensions"))

unfoldable pub format_name : ImageFormat → Option (List ℕ)
format_name png = some (codes "png")
format_name jpeg = some (codes "jpeg")
format_name gif = some (codes "gif")
format_name web_p = some (codes "webp")
format_name other = none

-- A round of the inner loop, with what comes out of the later rounds.
unfoldable pub after_encode :
    ResizeConfig
    → ℕ
    → List ℕ ⊎ List ℕ
    → Option ((List ℕ × ℕ) ⊎ ResizeError)
    → Option ((List ℕ × ℕ) ⊎ ResizeError)
unfolding fits
after_encode cfg quality (inr e) rest = some (inr (unencodable e))
after_encode cfg quality (inl out) rest =
    if fits cfg out || leb quality min_jpeg_quality then some (inl (out, quality)) else rest

-- A round of the outer loop.
unfoldable pub after_rounds :
    ResizeConfig
    → ℕ
    → Option ((List ℕ × ℕ) ⊎ ResizeError)
    → Option (List ℕ ⊎ ResizeError)
    → Option (List ℕ ⊎ ResizeError)
unfolding fits
after_rounds cfg cur_long none rest = none
after_rounds cfg cur_long (some (inr e)) rest = some (inr e)
after_rounds cfg cur_long (some (inl (out, quality))) rest =
    if fits cfg out || leb cur_long min_long_side then some (inl out) else rest

-- `?` on the check of the limits.
unfoldable pub within_limits :
    Done ⊎ ResizeError
    → Option (ProcessedImage ⊎ ResizeError)
    → Option (ProcessedImage ⊎ ResizeError)
within_limits (inr e) rest = some (inr e)
within_limits (inl ok) rest = rest

-- The result, with the bytes of the picture.
unfoldable pub finish :
    (List ℕ → ProcessedImage)
    → Option (List ℕ ⊎ ResizeError)
    → Option (ProcessedImage ⊎ ResizeError)
finish make none = none
finish make (some (inr e)) = some (inr e)
finish make (some (inl out)) = some (inl (make out))

module _ {Picture : Type 0} (codec : Codec Picture) where
  unfoldable pub validate_passthrough_safe : ResizeConfig → List ℕ → List ℕ → Done ⊎ ResizeError
  unfolding peek_dimensions_checked passes
  validate_passthrough_safe cfg format text =
      passes cfg text (peek_dimensions_checked codec cfg format text)

  unfoldable pub detect_format_from_bytes : List ℕ → Option (List ℕ)
  unfolding format_name
  detect_format_from_bytes text = elim (codec.decode_base64 (take 24 text)) [
    | inr e ↦ none
    | inl bytes ↦ elim (codec.guess_from_bytes bytes) [
      | none ↦ none
      | some format ↦ format_name format
    ]
  ]

  unfoldable pub passthrough : List ℕ → List ℕ → ProcessedImage
  unfolding detect_format_from_bytes
  passthrough format text = record {
    format = elim (detect_format_from_bytes text) [ none ↦ format | some real ↦ real ];
    data_base64 = text;
    was_resized = false;
    original_bytes = byte_len text;
    final_bytes = byte_len text;
  }

  -- The inner loop, over the quality.
  unfoldable pub encode_rounds :
      ResizeConfig → ℕ → Picture → ℕ → Option ((List ℕ × ℕ) ⊎ ResizeError)
  unfolding after_encode
  encode_rounds cfg zero rgb quality = none
  encode_rounds cfg (suc fuel) rgb quality =
      after_encode cfg quality (codec.encode_jpeg rgb quality)
        (encode_rounds cfg fuel rgb (max (quality - 10) min_jpeg_quality))

  unfoldable pub resized : Picture → ℕ → ℕ → ℕ → Picture
  resized img w h cur_long =
      let longest = max w h in
      if ltb cur_long longest
      then codec.resize img (codec.scale_side w cur_long longest)
          (codec.scale_side h cur_long longest)
      else img

  -- The outer loop, over the long side.
  unfoldable pub shrink_rounds :
      ResizeConfig → ℕ → Picture → ℕ → ℕ → ℕ → Option (List ℕ ⊎ ResizeError)
  unfolding encode_rounds resized after_rounds
  shrink_rounds cfg zero img w h cur_long = none
  shrink_rounds cfg (suc fuel) img w h cur_long =
      after_rounds cfg cur_long
        (encode_rounds cfg (cfg.jpeg_quality + 1) (resized img w h cur_long) cfg.jpeg_quality)
        (shrink_rounds cfg fuel img w h (max (codec.four_fifths cur_long) min_long_side))

  abbrev pub processed : List ℕ → List ℕ → ProcessedImage
  processed text out =
      let encoded = codec.encode_base64 out in
      record {
        format = codes "jpeg";
        data_base64 = encoded;
        was_resized = true;
        original_bytes = byte_len text;
        final_bytes = byte_len encoded;
      }

  -- The picture with its dimensions, which a picture of the crate may exceed.
  unfoldable pub shrink_picture :
      ResizeConfig → List ℕ → Picture → ℕ → ℕ → Option (ProcessedImage ⊎ ResizeError)
  unfolding shrink_rounds finish
  shrink_picture cfg text img width height =
      let w = max width (codec.width img) in
      let h = max height (codec.height img) in
      let cur_long = max (min (max w h) cfg.max_long_side) 1 in
      finish (processed text) (shrink_rounds cfg (cur_long + 1) img w h cur_long)

  -- What is known before the picture is decoded: its bytes and its dimensions.
  unfoldable pub read_picture : ResizeConfig → List ℕ → List ℕ → (Picture × ℕ × ℕ) ⊎ ResizeError
  unfolding decode_checked and_then read_dimensions_from_raw map_err guess_format
  read_picture cfg format text = and_then (decode_checked codec cfg text) λ raw.
      and_then (read_dimensions_from_raw codec cfg format raw) λ size. elim size [
        | none ↦ inr (undecodable (codes "image dimensions are unavailable"))
        | some (w, h) ↦
            and_then (map_err undecodable (codec.decode (guess_format format) raw))
              λ img. inl (img, w, h)
      ]

  unfoldable pub shrink_read :
      ResizeConfig
      → List ℕ
      → (Picture × ℕ × ℕ) ⊎ ResizeError
      → Option (ProcessedImage ⊎ ResizeError)
  unfolding shrink_picture
  shrink_read cfg text (inr e) = some (inr e)
  shrink_read cfg text (inl (img, w, h)) = shrink_picture cfg text img w h

  unfoldable pub shrink_static_image :
      ResizeConfig → List ℕ → List ℕ → Option (ProcessedImage ⊎ ResizeError)
  unfolding read_picture shrink_read
  shrink_static_image cfg format text = shrink_read cfg text (read_picture cfg format text)

  unfoldable pub shrink_or_keep_gif :
      ResizeConfig → List ℕ → List ℕ → Option (ProcessedImage ⊎ ResizeError)
  unfolding validate_passthrough_safe and_then passthrough shrink_static_image
  shrink_or_keep_gif cfg format text =
      if bytes_eq.beq format (codes "gif")
      then some (
          and_then (validate_passthrough_safe cfg format text) λ _.
            if ltb cfg.max_bytes (byte_len text)
            then inr (
                too_large (codes "gif image too large for passthrough: ") (byte_len text)
                  cfg.max_bytes (codes " base64 bytes"))
            else inl (passthrough format text))
      else shrink_static_image cfg format text

  -- A text within the budget of bytes may still have too large a side.
  unfoldable pub shrink_by_size :
      ResizeConfig
      → List ℕ
      → List ℕ
      → Option (ℕ × ℕ) ⊎ ResizeError
      → Option (ProcessedImage ⊎ ResizeError)
  unfolding passthrough shrink_or_keep_gif
  shrink_by_size cfg format text (inl none) = some (inl (passthrough format text))
  shrink_by_size cfg format text (inr e) = some (inr e)
  shrink_by_size cfg format text (inl (some (w, h))) =
      if leb (max w h) cfg.max_long_side
      then some (inl (passthrough format text))
      else shrink_or_keep_gif cfg format text

  unfoldable pub shrink_checked :
      ResizeConfig → List ℕ → List ℕ → Option (ProcessedImage ⊎ ResizeError)
  unfolding validate_passthrough_safe and_then passthrough shrink_by_size shrink_or_keep_gif
      peek_dimensions_checked
  shrink_checked cfg format text =
      if not cfg.enabled
      then some
          (and_then (validate_passthrough_safe cfg format text) λ _. inl (passthrough format text))
      else if leb (byte_len text) cfg.max_bytes
      then shrink_by_size cfg format text (peek_dimensions_checked codec cfg format text)
      else shrink_or_keep_gif cfg format text

  unfoldable pub maybe_shrink_image :
      ResizeConfig → List ℕ → List ℕ → Option (ProcessedImage ⊎ ResizeError)
  unfolding validate_base64_limits shrink_checked within_limits
  maybe_shrink_image cfg format text =
      within_limits (validate_base64_limits cfg text)
        (shrink_checked cfg (map to_ascii_lower format) text)
