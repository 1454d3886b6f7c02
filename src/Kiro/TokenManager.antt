-- ===== src/Kiro/TokenManager.antt =====
-- src/kiro/token_manager.rs: the pool of upstream credentials.
pub mod Entry
pub mod Select
pub mod Report
pub mod Admin
pub mod Tokens
pub mod Health
pub mod Failover
pub mod Sound
pub mod Calls
