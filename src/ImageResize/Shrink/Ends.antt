-- ===== src/ImageResize/Shrink/Ends.antt =====
-- src/image_resize.rs: the loops of `maybe_shrink_image` end, and what comes out of them.
use kiro_rs_tool.Prelude.{
  ℕ, ◌≤◌, ◌<◌, ◌≡◌, max, true, false, Option, some, ltb, List, ◌⊎◌, inl, inr,
}
use kiro_rs_tool.Prelude.Text.{codes}
use kiro_rs_tool.Prelude.Map.{bytes_eq}
use kiro_rs_tool.Prelude.Chars.{byte_len}
use kiro_rs_tool.ImageResize.Limits.{
  Codec, ResizeConfig, ResizeError, unencodable, validate_base64_limits, peek_dimensions_checked,
}
use kiro_rs_tool.ImageResize.Shrink.Read.{IsRead}
use kiro_rs_tool.ImageResize.Shrink.{
  ProcessedImage, min_jpeg_quality, min_long_side, fits, resized, processed, read_picture,
  validate_passthrough_safe,
}

module _ {Picture : Type 0} (codec : Codec Picture) (cfg : ResizeConfig) where
  -- What the inner loop ends with, for a picture.
  IsEncoded : Picture → (List ℕ × ℕ) ⊎ ResizeError → Type 0
  IsEncoded rgb (inr e) =
      (q : ℕ) × (m : List ℕ) × (codec.encode_jpeg rgb q ≡ inr m) × (e ≡ unencodable m)
  IsEncoded rgb (inl (out, q)) =
      (codec.encode_jpeg rgb q ≡ inl out) × ((fits cfg out ≡ true) ⊎ (q ≤ min_jpeg_quality))

  -- The bytes of a picture that was scaled down, if need be, fit into the budget, or they have the least quality
  -- that is tried, of a picture with the least long side that is tried.
  pub IsShrunk : Picture → ℕ → ℕ → List ℕ → Type 0
  IsShrunk img w h out =
      (long : ℕ) × (q : ℕ) × (codec.encode_jpeg (resized codec img w h long) q ≡ inl out)
      × ((fits cfg out ≡ true) ⊎ ((q ≤ min_jpeg_quality) × (long ≤ min_long_side)))

  -- A picture could not be encoded.
  pub IsUnencodable : ResizeError → Type 0
  IsUnencodable e =
      (rgb : Picture) × (q : ℕ) × (m : List ℕ) × (codec.encode_jpeg rgb q ≡ inr m)
      × (e ≡ unencodable m)

  IsShrunkResult : Picture → ℕ → ℕ → List ℕ ⊎ ResizeError → Type 0
  IsShrunkResult img w h (inr e) = IsUnencodable e
  IsShrunkResult img w h (inl out) = IsShrunk img w h out

  module _ (smaller : (n : ℕ) → min_long_side < n → codec.four_fifths n < n) where
    -- Why an image is answered for with an error.
    pub data IsFailure (format text : List ℕ) (e : ResizeError) : Type 0 where
      over_limits : validate_base64_limits cfg text ≡ inr e → IsFailure format text e
      unsafe : validate_passthrough_safe codec cfg format text ≡ inr e → IsFailure format text e
      over_size : peek_dimensions_checked codec cfg format text ≡ inr e → IsFailure format text e
      unread : read_picture codec cfg format text ≡ inr e → IsFailure format text e
      unmade : IsUnencodable e → IsFailure format text e
      large_gif :
          bytes_eq.beq format (codes "gif") ≡ true
          → ltb cfg.max_bytes (byte_len text) ≡ true
          → IsFailure format text e

    pub IsProcessed : List ℕ → List ℕ → ProcessedImage ⊎ ResizeError → Type 0
    IsProcessed format text (inr e) = IsFailure format text e
    IsProcessed format text (inl p) =
        ((p.was_resized ≡ false) × (p.data_base64 ≡ text))
        ⊎ ((img : Picture) × (w : ℕ) × (h : ℕ) × (out : List ℕ) × IsRead codec cfg format text img w
              h
            × IsShrunk img (max w (codec.width img)) (max h (codec.height img)) out
            × (p ≡ processed codec text out))

    Ends : List ℕ → List ℕ → Option (ProcessedImage ⊎ ResizeError) → Type 0
    Ends format text o =
        (p : ProcessedImage ⊎ ResizeError) × (o ≡ some p) × IsProcessed format text p
