-- ===== src/Kiro.antt =====
-- src/kiro/: the client side of the upstream service.
pub mod Parser
pub mod TokenManager
pub mod Provider
