-- ===== src/Anthropic/Stream/Event.antt =====
-- src/kiro/model/events: the events of the upstream service that the stream reads. A percentage and
-- an amount of credits are the 64 bits of a floating point number.
use kiro_rs_tool.Prelude.{ℕ, String, Option, List}
use kiro_rs_tool.Anthropic.Stream.ToolJson.{ToolUseEvent}

-- The signature of the service is not read.
pub record ReasoningContentEvent : Type 0 where
  pub text : List ℕ
  pub signature : Option (List ℕ)
  pub redacted_content : Option (List ℕ)

-- Of the payloads of the code, the fields that are read.
pub data Event : Type 0 where
  assistant_response : List ℕ → Event
  code : List ℕ → Event
  tool_use : ToolUseEvent → Event
  metering : ℕ → Event
  context_usage : ℕ → Event
  reasoning_content : ReasoningContentEvent → Event
  unknown : Event
  error : List ℕ → List ℕ → Event
  exception : String → List ℕ → Event
