-- ===== src/ImageResize/Shrink/Read.antt =====
-- src/image_resize.rs: the picture that `shrink_static_image` decodes is the one that the text holds.
use kiro_rs_tool.Prelude.{
  ℕ, ◌≡◌, refl, ap, ◌∙◌, Bool, true, false, Option, none, some, List, ltb, ◌⊎◌, inl, inr,
  if◌then◌else◌, length, arith,
}
use kiro_rs_tool.ImageResize.Limits.{
  Codec, ResizeConfig, ResizeError, base64, undecodable, and_then, map_err, guess_format,
  validate_base64_limits, validate_pixel_count, decode_checked, read_dimensions_from_raw,
}
use kiro_rs_tool.ImageResize.Shrink.{read_picture}

and_then-inl :
    {A B : Type 0} (x : A ⊎ ResizeError) (f : A → B ⊎ ResizeError) (b : B)
    → and_then x f ≡ inl b
    → (a : A) × (x ≡ inl a) × (f a ≡ inl b)
unfolding and_then
and_then-inl (inl a) f b h = (a, refl, h)
and_then-inl (inr e) f b h = absurd (ground (arith, h))

map_err-inl :
    {A : Type 0} (f : List ℕ → ResizeError) (x : A ⊎ List ℕ) (a : A)
    → map_err f x ≡ inl a
    → x ≡ inl a
unfolding map_err
map_err-inl f (inl b) a h = ground (arith, h)
map_err-inl f (inr e) a h = absurd (ground (arith, h))

if_inl :
    {A : Type 0} (b : Bool) (e : ResizeError) (x y : A)
    → ◌≡◌ {A = A ⊎ ResizeError} (if b then inr e else inl x) (inl y)
    → x ≡ y
if_inl true e x y h = absurd (ground (arith, h))
if_inl false e x y h = ground (arith, h)

module _ {Picture : Type 0} (codec : Codec Picture) (cfg : ResizeConfig) where
  -- The picture that the text holds, and the size that its bytes give.
  pub record IsRead (format text : List ℕ) (img : Picture) (w h : ℕ) : Type 0 where
    pub raw : List ℕ
    pub bytes : codec.decode_base64 text ≡ inl raw
    pub size : codec.dimensions (guess_format format) raw ≡ some (w, h)
    pub picture : codec.decode (guess_format format) raw ≡ inl img

  decode_checked-inl :
      (text raw : List ℕ)
      → decode_checked codec cfg text ≡ inl raw
      → codec.decode_base64 text ≡ inl raw
  unfolding decode_checked
  decode_checked-inl text raw h =
      let (_, _, rest) = and_then-inl (validate_base64_limits cfg text) _ raw h in
      let (bytes, decoded, last) =
        and_then-inl (map_err base64 (codec.decode_base64 text)) _ raw rest in
      map_err-inl base64 (codec.decode_base64 text) bytes decoded
      ∙ ap (λ b. inl b) (if_inl (ltb cfg.max_decoded_bytes (length bytes)) _ bytes raw last)

  sized :
      (o : Option (ℕ × ℕ)) (w h : ℕ)
      → ◌≡◌ {A = Option (ℕ × ℕ) ⊎ ResizeError}
          (elim o [
            | none ↦ inl none
            | some (a, b) ↦ and_then (validate_pixel_count cfg a b) (λ _. inl (some (a, b)))
          ])
          (inl (some (w, h)))
      → o ≡ some (w, h)
  unfolding and_then
  sized none w h e = absurd (ground (arith, e))
  sized (some (a, b)) w h e =
      let (_, _, last) = and_then-inl (validate_pixel_count cfg a b) _ (some (w, h)) e in
      ground (arith, last)

  picked :
      (o : Option (ℕ × ℕ)) (d : Picture ⊎ List ℕ) (none_left : ResizeError) (img : Picture)
      (w h : ℕ)
      → ◌≡◌ {A = (Picture × ℕ × ℕ) ⊎ ResizeError}
          (elim o [
            | none ↦ inr none_left
            | some (a, b) ↦ and_then (map_err undecodable d) (λ x. inl (x, a, b))
          ])
          (inl (img, w, h))
      → (o ≡ some (w, h)) × (d ≡ inl img)
  unfolding and_then map_err
  picked none d none_left img w h e = absurd (ground (arith, e))
  picked (some (a, b)) (inl x) none_left img w h e = (ground (arith, e), ground (arith, e))
  picked (some (a, b)) (inr m) none_left img w h e = absurd (ground (arith, e))

  pub read_picture-IsRead :
      (format text : List ℕ) (img : Picture) (w h : ℕ)
      → read_picture codec cfg format text ≡ inl (img, w, h)
      → IsRead format text img w h
  unfolding read_picture read_dimensions_from_raw
  read_picture-IsRead format text img w h e =
      let (raw, decoded, e') = and_then-inl (decode_checked codec cfg text) _ (img, w, h) e in
      let (size, known, e'') =
        and_then-inl (read_dimensions_from_raw codec cfg format raw) _ (img, w, h) e' in
      let (there, made) = picked size (codec.decode (guess_format format) raw) _ img w h e'' in
      record {
        raw = raw;
        bytes = decode_checked-inl text raw decoded;
        size =
            sized (codec.dimensions (guess_format format) raw) w h (known ∙ ap (λ o. inl o) there);
        picture = made;
      }
