-- ===== src/Tests.antt =====
-- Concrete runs of the modelled code, and the theorems applied to them.
mod Parser
mod TokenManager
mod Sse
mod ProxyPool
mod ClientKeys
mod Stream
mod CacheMetering
mod ImageResize
mod Provider
mod Converter
