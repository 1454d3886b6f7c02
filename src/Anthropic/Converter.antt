-- ===== src/Anthropic/Converter.antt =====
-- src/anthropic/converter.rs: the names of the models.
pub mod ToolInput
pub mod FromKiro
pub mod RoundTrip
pub mod Pairing
pub mod ToolName
use kiro_rs_tool.Prelude.{
  ℕ, String, Bool, false, ◌||◌, ◌≡◌, refl, Option, none, some, if◌then◌else◌,
}
use kiro_rs_tool.Prelude.Map.{string_eq}
use kiro_rs_tool.Prelude.Search.{lower_contains}

unfoldable pub has_version : String → String → String → Bool
unfolding lower_contains
has_version model dashed dotted = lower_contains model dashed || lower_contains model dotted

unfoldable pub map_model : String → Option String
unfolding has_version
map_model model =
    if lower_contains model "sonnet"
    then if has_version model "4-6" "4.6"
      then some "claude-sonnet-4.6"
      else if has_version model "4-5" "4.5"
      then some "claude-sonnet-4.5"
      else none
    else if lower_contains model "opus"
    then if has_version model "4-8" "4.8"
      then some "claude-opus-4.8"
      else if has_version model "4-7" "4.7"
      then some "claude-opus-4.7"
      else if has_version model "4-5" "4.5"
      then some "claude-opus-4.5"
      else if has_version model "4-6" "4.6"
      then some "claude-opus-4.6"
      else none
    else if lower_contains model "haiku"
    then some "claude-haiku-4.5"
    else none

unfoldable pub is_large : Option String → Bool
is_large none = false
is_large (some mapped) =
    string_eq.beq mapped "claude-sonnet-4.6"
    || (string_eq.beq mapped "claude-opus-4.6"
        || (string_eq.beq mapped "claude-opus-4.7" || string_eq.beq mapped "claude-opus-4.8"))

unfoldable pub get_context_window_size : String → ℕ
unfolding map_model is_large
get_context_window_size model = if is_large (map_model model) then 1000000 else 200000

window_test : get_context_window_size "claude-Opus-4-7-thinking" ≡ 1000000
unfolding get_context_window_size lower_contains
window_test = refl
