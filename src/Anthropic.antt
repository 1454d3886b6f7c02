-- ===== src/Anthropic.antt =====
-- src/anthropic/: the Anthropic side of the gateway.
pub mod Json
pub mod Sse
pub mod Converter
pub mod Protocol
pub mod CacheMetering
pub mod Request
pub mod Stream
