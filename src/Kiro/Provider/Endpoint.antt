-- ===== src/Kiro/Provider/Endpoint.antt =====
-- src/kiro/endpoint/mod.rs: what the body of an error response says. `parse_json` reads JSON.
use kiro_rs_tool.Prelude.{
  ℕ, String, Bool, true, false, ◌&&◌, ◌||◌, Option, none, some, List, [], ◌∷◌, ◌⊎◌, inl, inr,
  if◌then◌else◌, map,
}
use kiro_rs_tool.Prelude.Map.{bytes_eq}
use kiro_rs_tool.Prelude.Text.{codes}
use kiro_rs_tool.Prelude.Search.{contains, to_ascii_lower}
use kiro_rs_tool.Anthropic.Json.{Json, object, string, get_field}

-- The tests of the trait, which an endpoint may replace.
pub record KiroEndpoint : Type 0 where
  pub is_monthly_request_limit : List ℕ → Bool
  pub is_bearer_token_invalid : List ℕ → Bool
  pub is_account_throttled : List ℕ → Bool
  pub is_client_validation_error : List ℕ → Bool
  pub is_gateway_timeout : List ℕ → Bool

unfoldable pub has : List ℕ → String → Bool
unfolding contains
has body part = contains body (codes part)

unfoldable pub text_field : String → Option Json → Option (List ℕ)
unfolding get_field
text_field name (some (object fs)) = elim (get_field name fs) [
  | some (string text) ↦ some text
  | _ ↦ none
]
text_field name _ = none

unfoldable pub object_field : String → Json → Option Json
unfolding get_field
object_field name (object fs) = get_field name fs
object_field name _ = none

unfoldable pub is_one_of : List String → Option (List ℕ) → Bool
is_one_of reasons none = false
is_one_of [] (some text) = false
is_one_of (r ∷ rs) (some text) = bytes_eq.beq text (codes r) || is_one_of rs (some text)

-- The field `reason`, or that of the field `error`.
unfoldable pub has_reason : List String → Json → Bool
unfolding text_field object_field is_one_of
has_reason reasons value =
    is_one_of reasons (text_field "reason" (some value))
    || is_one_of reasons (text_field "reason" (object_field "error" value))

unfoldable pub mentions : List String → List ℕ → Bool
unfolding has
mentions [] body = false
mentions (r ∷ rs) body = has body r || mentions rs body

abbrev pub quota_exhausted_reasons : List String
quota_exhausted_reasons = "MONTHLY_REQUEST_COUNT" ∷ "OVERAGE_REQUEST_LIMIT_EXCEEDED" ∷ []

abbrev pub client_validation_reasons : List String
client_validation_reasons = "TOOL_USE_RESULT_MISMATCH" ∷ "TOOL_SCHEMA_INVALID" ∷ []

abbrev pub client_validation_message_markers : List String
client_validation_message_markers = "Expected toolResult blocks" ∷ []

-- A text that is not JSON need only mention a reason.
unfoldable pub confirmed : List String → Json ⊎ List ℕ → Bool
unfolding has_reason
confirmed reasons (inl value) = has_reason reasons value
confirmed reasons (inr e) = true

module _ (parse_json : List ℕ → Json ⊎ List ℕ) where
  unfoldable pub default_is_monthly_request_limit : List ℕ → Bool
  unfolding mentions confirmed
  default_is_monthly_request_limit body =
      if mentions quota_exhausted_reasons body
      then confirmed quota_exhausted_reasons (parse_json body)
      else false

  unfoldable pub default_is_client_validation_error : List ℕ → Bool
  unfolding mentions confirmed
  default_is_client_validation_error body =
      (mentions client_validation_reasons body
        && confirmed client_validation_reasons (parse_json body))
      || mentions client_validation_message_markers body

unfoldable pub default_is_bearer_token_invalid : List ℕ → Bool
unfolding has
default_is_bearer_token_invalid body =
    has body "The bearer token included in the request is invalid"

unfoldable pub default_is_account_throttled : List ℕ → Bool
unfolding has
default_is_account_throttled body = has body "suspicious activity" && has body "temporary limits"

unfoldable pub default_is_gateway_timeout : List ℕ → Bool
unfolding has to_ascii_lower
default_is_gateway_timeout body =
    let lower = map to_ascii_lower body in
    has body "524"
    && (has lower "status code" || has lower "gateway timeout" || has lower "server-side issue")

unfoldable pub default_endpoint : (List ℕ → Json ⊎ List ℕ) → KiroEndpoint
unfolding default_is_monthly_request_limit default_is_bearer_token_invalid
    default_is_account_throttled default_is_client_validation_error default_is_gateway_timeout
default_endpoint parse_json = record {
  is_monthly_request_limit = default_is_monthly_request_limit parse_json;
  is_bearer_token_invalid = default_is_bearer_token_invalid;
  is_account_throttled = default_is_account_throttled;
  is_client_validation_error = default_is_client_validation_error parse_json;
  is_gateway_timeout = default_is_gateway_timeout;
}
