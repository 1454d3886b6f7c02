-- ===== src/Anthropic/Stream.antt =====
-- src/anthropic/stream.rs: the events of the upstream service, turned into those of the Anthropic
-- protocol. A text is the list of its code points.
pub mod XmlFilter
pub mod Thinking
pub mod Platform
pub mod ToolJson
pub mod Event
pub mod Tokens
pub mod Context
pub mod Buffered
