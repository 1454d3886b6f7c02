-- ===== src/Admin.antt =====
-- src/admin/: the state that the Admin API manages.
pub mod ProxyPool
pub mod ClientKeys
