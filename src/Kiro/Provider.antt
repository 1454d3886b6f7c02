-- ===== src/Kiro/Provider.antt =====
-- src/kiro/provider.rs: the calls of the upstream service, each with its attempts over the pool of
-- credentials. A length of time is in milliseconds.
pub mod Policy
pub mod Endpoint
pub mod Acquire
pub mod Call
pub mod Mcp
