-- ===== src/Tests/ImageResize.antt =====
-- src/image_resize.rs: an image that is scaled down.
use kiro_rs_tool.Prelude.{ℕ, ◌*◌, ◌/◌, ◌≡◌, refl, some, [], ◌∷◌, inl, true, if◌then◌else◌, ltb}
use kiro_rs_tool.Prelude.Text.{codes}
use kiro_rs_tool.Prelude.Search.{to_ascii_lower}
use kiro_rs_tool.ImageResize.Limits.{Codec, ResizeConfig, jpeg}
use kiro_rs_tool.ImageResize.Shrink.{maybe_shrink_image}

-- A picture is its width, and a quality above 55 takes four bytes.
abbrev small_codec : Codec ℕ
small_codec = record {
  decode_base64 = λ text. inl text;
  encode_base64 = λ bytes. bytes;
  guess_from_bytes = λ bytes. some jpeg;
  dimensions = λ format bytes. some (2000, 2);
  decode = λ format bytes. inl 2000;
  width = λ picture. picture;
  height = λ picture. 2;
  resize = λ picture w h. w;
  encode_jpeg = λ picture quality. inl (if ltb 55 quality then 1 ∷ 2 ∷ 3 ∷ 4 ∷ [] else 1 ∷ 2 ∷ []);
  scale_side = λ side long longest. side * long / longest;
  four_fifths = λ side. side * 4 / 5;
  area_tokens = λ w h. 2;
}

abbrev small_config : ResizeConfig
small_config = record {
  enabled = true;
  max_long_side = 1568;
  max_bytes = 4;
  jpeg_quality = 85;
  max_base64_bytes = 100;
  max_decoded_bytes = 100;
  max_pixels = 40000000;
}

maybe_shrink_image_test :
    maybe_shrink_image small_codec small_config (codes "PNG") (codes "image")
    ≡ some (
        inl (record {
          format = codes "jpeg";
          data_base64 = 1 ∷ 2 ∷ [];
          was_resized = true;
          original_bytes = 5;
          final_bytes = 2;
        }))
unfolding maybe_shrink_image to_ascii_lower
maybe_shrink_image_test = refl
