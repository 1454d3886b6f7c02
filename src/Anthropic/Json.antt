-- ===== src/Anthropic/Json.antt =====
-- `serde_json::Value`. `number n` is n, `negative n` is -(n + 1) and `float` has the 64 bits of a
-- floating point number; a text is the list of its code points. The order of the fields of an object
-- has no meaning.
use kiro_rs_tool.Prelude.{ℕ, String, Bool, Option, none, some, List, if◌then◌else◌}
use kiro_rs_tool.Prelude.Map.{string_eq}

mutual
  pub data Json : Type 0 where
    null : Json
    bool : Bool → Json
    number : ℕ → Json
    negative : ℕ → Json
    float : ℕ → Json
    string : List ℕ → Json
    array : Items → Json
    object : Fields → Json

  pub data Items : Type 0 where
    no_items : Items
    item : Json → Items → Items

  pub data Fields : Type 0 where
    no_fields : Fields
    field : String → Json → Fields → Fields

-- `get`
unfoldable pub get_field : String → Fields → Option Json
get_field name no_fields = none
get_field name (field key value rest) =
    if string_eq.beq key name then some value else get_field name rest

-- `insert`
unfoldable pub set_field : String → Json → Fields → Fields
set_field name new no_fields = field name new no_fields
set_field name new (field key value rest) =
    if string_eq.beq key name then field key new rest else field key value (set_field name new rest)
