-- ===== src/Anthropic/CacheMetering/Signature.antt =====
-- src/anthropic/cache_metering.rs: what of a prompt is hashed, and what is counted. `get` of a value
-- that is no object answers nothing.
use kiro_rs_tool.Prelude.{
  ℕ, String, Bool, true, false, Option, none, some, List, [], ◌∷◌, ◌++◌, if◌then◌else◌,
}
use kiro_rs_tool.Prelude.Map.{bytes_eq, string_eq}
use kiro_rs_tool.Prelude.Text.{codes}
use kiro_rs_tool.Anthropic.Json.{
  Json, null, bool, number, negative, float, string, array, object, Items, no_items, item, Fields,
  no_fields, field, get_field,
}
use kiro_rs_tool.Anthropic.Request.{Tool}
use kiro_rs_tool.Anthropic.CacheMetering.Canonical.{join, canonical_json}

unfoldable pub get : String → Json → Option Json
get key (object fs) = get_field key fs
get key _ = none

unfoldable pub as_str : Option Json → Option (List ℕ)
as_str (some (string text)) = some text
as_str _ = none

unfoldable pub as_bool : Option Json → Option Bool
as_bool (some (bool b)) = some b
as_bool _ = none

abbrev pub unwrap_or {ℓ} : {A : Type ℓ} → A → Option A → A
unwrap_or d none = d
unwrap_or d (some a) = a

-- The text in a field, or nothing.
unfoldable pub text_at : String → Json → List ℕ
unfolding get as_str
text_at key v = unwrap_or [] (as_str (get key v))

abbrev pub is : List ℕ → String → Bool
is text name = bytes_eq.beq text (codes name)

unfoldable pub nested : Option Json → String → Option Json
unfolding get
nested none key = none
nested (some v) key = get key v

unfoldable pub image_source_parts : Json → List ℕ × List ℕ
unfolding nested as_str get
image_source_parts v =
    let src = get "source" v in
    (unwrap_or [] (as_str (nested src "media_type")), unwrap_or [] (as_str (nested src "data")))

unfoldable pub is_image : Json → Bool
unfolding get as_str
is_image v = elim (as_str (get "type" v)) [ none ↦ false | some t ↦ is t "image" ]

abbrev pub is_empty : List ℕ → Bool
is_empty [] = true
is_empty (c ∷ cs) = false

unfoldable pub drop_empty : List (List ℕ) → List (List ℕ)
drop_empty [] = []
drop_empty (x ∷ xs) = let rest = drop_empty xs in if is_empty x then rest else x ∷ rest

abbrev pub bar : List ℕ
bar = codes "|"

abbrev pub space : List ℕ
space = codes " "

module _ (print_json : Json → List ℕ) where
  unfoldable pub tool_signature : Tool → List ℕ
  tool_signature t =
      codes "tool:" ++ t.name ++ bar ++ t.description ++ bar ++ print_json (object t.input_schema)

  unfoldable pub tool_token_text : Tool → List ℕ
  tool_token_text t =
      t.name ++ space ++ t.description ++ space ++ print_json (object t.input_schema)

  unfoldable pub canonical_at : String → Json → List ℕ
  unfolding canonical_json get
  canonical_at key v = elim (get key v) [ none ↦ [] | some x ↦ canonical_json print_json x ]

  unfoldable pub image_signature_value : Json → List ℕ
  unfolding image_source_parts canonical_json
  image_signature_value v =
      let (media_type, encoded) = image_source_parts v in
      codes "block:image|"
      ++ media_type
      ++ bar
      ++ (if is_empty encoded then canonical_json print_json v else encoded)

  unfoldable pub block_signature_value : Json → List ℕ
  unfolding text_at canonical_at image_signature_value canonical_json as_bool get
  block_signature_value v =
      let type = text_at "type" v in
      if is type "text"
      then codes "block:text|" ++ text_at "text" v
      else if is type "thinking"
      then codes "block:thinking|" ++ text_at "thinking" v
      else if is type "redacted_thinking"
      then codes "block:redacted_thinking|" ++ text_at "data" v
      else if is type "tool_use"
      then codes "block:tool_use|" ++ text_at "name" v ++ bar ++ canonical_at "input" v
      else if is type "tool_result"
      then codes "block:tool_result|"
        ++ codes (if unwrap_or false (as_bool (get "is_error" v)) then "true" else "false")
        ++ bar
        ++ canonical_at "content" v
      else if is type "image"
      then image_signature_value v
      else codes "block:" ++ type ++ bar ++ canonical_json print_json v

  -- The text of a block of `type` but for the content of a tool result, which `content` is.
  unfoldable pub token_text : Json → List ℕ → List ℕ
  unfolding text_at canonical_at canonical_json
  token_text v content =
      let type = text_at "type" v in
      if is type "text"
      then text_at "text" v
      else if is type "thinking"
      then text_at "thinking" v
      else if is type "redacted_thinking"
      then text_at "data" v
      else if is type "tool_use"
      then (if is_empty (text_at "name" v)
          then canonical_at "input" v
          else text_at "name" v ++ space ++ canonical_at "input" v)
      else if is type "tool_result"
      then content
      else if is type "image"
      then []
      else canonical_json print_json v

  unfoldable mutual
    unfolding token_text canonical_json drop_empty join is_image

    pub block_token_text : Json → List ℕ
    block_token_text (object fs) = token_text (object fs) (content_field_text fs)
    block_token_text (array vs) = token_text (array vs) []
    block_token_text null = token_text null []
    block_token_text (bool b) = token_text (bool b) []
    block_token_text (number n) = token_text (number n) []
    block_token_text (negative n) = token_text (negative n) []
    block_token_text (float bits) = token_text (float bits) []
    block_token_text (string text) = token_text (string text) []

    -- `v.get("content").map(block_content_token_text)`, on the fields of `v`.
    pub content_field_text : Fields → List ℕ
    content_field_text no_fields = []
    content_field_text (field key v fs) =
        if string_eq.beq key "content" then block_content_token_text v else content_field_text fs

    pub block_content_token_text : Json → List ℕ
    block_content_token_text (string text) = text
    block_content_token_text (array vs) = join space (drop_empty (item_texts vs))
    block_content_token_text (object fs) = canonical_json print_json (object fs)
    block_content_token_text null = canonical_json print_json null
    block_content_token_text (bool b) = canonical_json print_json (bool b)
    block_content_token_text (number n) = canonical_json print_json (number n)
    block_content_token_text (negative n) = canonical_json print_json (negative n)
    block_content_token_text (float bits) = canonical_json print_json (float bits)

    pub item_texts : Items → List (List ℕ)
    item_texts no_items = []
    item_texts (item v vs) = (if is_image v then [] else block_token_text v) ∷ item_texts vs
