-- ===== src/Http.antt =====
-- internal/proxyhttp: the child-facing HTTP forward proxy.
pub mod Authority
pub mod Sets
pub mod Handlers
pub mod Shutdown
