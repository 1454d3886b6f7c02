-- ===== src/ImageResize/Limits.antt =====
-- src/image_resize.rs: the limits of inline images, and the estimate of their tokens. A text is the
-- list of its code points; what the crates base64 and image compute is given by functions.
use kiro_rs_tool.Prelude.{
  ℕ, ◌-◌, ◌*◌, ◌/◌, ◌^◌, max, min, Bool, ◌||◌, Option, none, some, List, [], ◌∷◌, ◌++◌, ltb, ◌==◌,
  ◌⊎◌, inl, inr, if◌then◌else◌, length, map,
}
use kiro_rs_tool.Prelude.Map.{bytes_eq}
use kiro_rs_tool.Prelude.Text.{codes, decimal}
use kiro_rs_tool.Prelude.Chars.{byte_len}
use kiro_rs_tool.Prelude.Search.{to_ascii_lower}

pub data ResizeError : Type 0 where
  limit_exceeded : List ℕ → ResizeError
  base64 : List ℕ → ResizeError
  undecodable : List ℕ → ResizeError
  unencodable : List ℕ → ResizeError

pub record ResizeConfig : Type 0 where
  pub enabled : Bool
  pub max_long_side : ℕ
  pub max_bytes : ℕ
  pub jpeg_quality : ℕ
  pub max_base64_bytes : ℕ
  pub max_decoded_bytes : ℕ
  pub max_pixels : ℕ

pub data ImageFormat : Type 0 where
  png : ImageFormat
  jpeg : ImageFormat
  web_p : ImageFormat
  gif : ImageFormat
  other : ImageFormat

-- The crates base64 and image, and arithmetic on floating point numbers.
pub record Codec (Picture : Type 0) : Type 0 where
  -- Decoded bytes, or the text of the error, and back.
  pub decode_base64 : List ℕ → List ℕ ⊎ List ℕ
  pub encode_base64 : List ℕ → List ℕ
  pub guess_from_bytes : List ℕ → Option ImageFormat
  -- What a reader of the bytes with a given format, or with the format that it guesses, finds out.
  pub dimensions : Option ImageFormat → List ℕ → Option (ℕ × ℕ)
  pub decode : Option ImageFormat → List ℕ → Picture ⊎ List ℕ
  pub width : Picture → ℕ
  pub height : Picture → ℕ
  -- `resize_exact`, and `to_rgb8` with an encoder of a quality.
  pub resize : Picture → ℕ → ℕ → Picture
  pub encode_jpeg : Picture → ℕ → List ℕ ⊎ List ℕ
  -- `((side as f32) * (long as f32 / longest as f32)).round().max(1.0) as u32`, `(n as f32 * 0.8) as
  -- u32`, and the share of tokens of a picture whose long side is scaled down to 1568.
  pub scale_side : ℕ → ℕ → ℕ → ℕ
  pub four_fifths : ℕ → ℕ
  pub area_tokens : ℕ → ℕ → ℕ

abbrev pub Done : Type 0
Done = Unit

abbrev pub too_large : List ℕ → ℕ → ℕ → List ℕ → ResizeError
too_large what n limit unit =
    limit_exceeded (what ++ codes (decimal n) ++ codes " > " ++ codes (decimal limit) ++ unit)

pub record RequestImageLimits : Type 0 where
  pub max_count : ℕ
  pub max_total_base64_bytes : ℕ

unfoldable pub validate : RequestImageLimits → ℕ → ℕ → Done ⊎ ResizeError
validate limits count total =
    if ltb limits.max_count count
    then inr (too_large (codes "too many inline images: ") count limits.max_count [])
    else if ltb limits.max_total_base64_bytes total
    then inr (
        too_large (codes "inline image payload too large: ") total limits.max_total_base64_bytes
          (codes " base64 bytes"))
    else inl tt

-- `trim_end_matches`
unfoldable pub trim_end_char : ℕ → List ℕ → List ℕ
trim_end_char c [] = []
trim_end_char c (d ∷ text) =
    let rest = trim_end_char c text in
    elim rest [ [] ↦ if d == c then [] else d ∷ [] | e ∷ es ↦ d ∷ e ∷ es ]

abbrev pub usize_max : ℕ
usize_max = 2 ^ 64 - 1

unfoldable pub estimated_decoded_len : List ℕ → ℕ
unfolding trim_end_char
estimated_decoded_len text = min (byte_len (trim_end_char b'=' text) * 3) usize_max / 4

unfoldable pub validate_base64_limits : ResizeConfig → List ℕ → Done ⊎ ResizeError
unfolding estimated_decoded_len
validate_base64_limits cfg text =
    if ltb cfg.max_base64_bytes (byte_len text)
    then inr (
        too_large (codes "image base64 too large: ") (byte_len text) cfg.max_base64_bytes
          (codes " bytes"))
    else if ltb cfg.max_decoded_bytes (estimated_decoded_len text)
    then inr (
        too_large (codes "decoded image too large: ") (estimated_decoded_len text)
          cfg.max_decoded_bytes (codes " bytes"))
    else inl tt

unfoldable pub validate_pixel_count : ResizeConfig → ℕ → ℕ → Done ⊎ ResizeError
validate_pixel_count cfg w h =
    let pixels = min (w * h) usize_max in
    if ltb cfg.max_pixels pixels
    then inr (too_large (codes "image pixels too large: ") pixels cfg.max_pixels [])
    else inl tt

unfoldable pub guess_format : List ℕ → Option ImageFormat
guess_format s =
    if bytes_eq.beq s (codes "png")
    then some png
    else if bytes_eq.beq s (codes "jpeg") || bytes_eq.beq s (codes "jpg")
    then some jpeg
    else if bytes_eq.beq s (codes "webp")
    then some web_p
    else if bytes_eq.beq s (codes "gif")
    then some gif
    else none

-- `rsplit(c).next()`
unfoldable pub after_last : ℕ → List ℕ → List ℕ → List ℕ
after_last c [] part = part
after_last c (d ∷ text) part = after_last c text (if d == c then [] else part ++ (d ∷ []))

unfoldable pub and_then {ℓ κ} :
    {A : Type ℓ} {B : Type κ} → A ⊎ ResizeError → (A → B ⊎ ResizeError) → B ⊎ ResizeError
and_then (inl a) f = f a
and_then (inr e) f = inr e

unfoldable pub map_err : {A : Type 0} → (List ℕ → ResizeError) → A ⊎ List ℕ → A ⊎ ResizeError
map_err f (inl a) = inl a
map_err f (inr e) = inr (f e)

module _ {Picture : Type 0} (codec : Codec Picture) where
  unfoldable pub read_dimensions_from_raw :
      ResizeConfig → List ℕ → List ℕ → Option (ℕ × ℕ) ⊎ ResizeError
  unfolding guess_format validate_pixel_count and_then
  read_dimensions_from_raw cfg format raw = elim (codec.dimensions (guess_format format) raw) [
    | none ↦ inl none
    | some (w, h) ↦ and_then (validate_pixel_count cfg w h) (λ _. inl (some (w, h)))
  ]

  -- The bytes of a text within the limits.
  unfoldable pub decode_checked : ResizeConfig → List ℕ → List ℕ ⊎ ResizeError
  unfolding validate_base64_limits and_then map_err
  decode_checked cfg text = and_then (validate_base64_limits cfg text) λ _.
      and_then (map_err base64 (codec.decode_base64 text)) λ bytes.
        if ltb cfg.max_decoded_bytes (length bytes)
        then inr (
            too_large (codes "decoded image too large: ") (length bytes) cfg.max_decoded_bytes
              (codes " bytes"))
        else inl bytes

  unfoldable pub peek_dimensions_checked :
      ResizeConfig → List ℕ → List ℕ → Option (ℕ × ℕ) ⊎ ResizeError
  unfolding decode_checked and_then read_dimensions_from_raw
  peek_dimensions_checked cfg format text =
      and_then (decode_checked cfg text) (read_dimensions_from_raw cfg format)

  abbrev pub image_token_fallback : ℕ
  image_token_fallback = 1600

  unfoldable pub tokens_of : Option (ℕ × ℕ) ⊎ ResizeError → ℕ
  tokens_of (inl (some (w, h))) =
      if w == 0 || h == 0 then image_token_fallback else max (codec.area_tokens w h) 1
  tokens_of _ = image_token_fallback

  unfoldable pub estimate_image_tokens : ResizeConfig → List ℕ → List ℕ → ℕ
  unfolding peek_dimensions_checked tokens_of after_last
  estimate_image_tokens cfg media_type text =
      tokens_of
        (peek_dimensions_checked cfg (map to_ascii_lower (after_last b'/' media_type [])) text)
