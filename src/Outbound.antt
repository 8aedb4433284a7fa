-- ===== src/Outbound.antt =====
-- internal/outbound: connections from the outer namespace, to approved addresses only.
pub mod Direct
pub mod Environment
pub mod Tunnel
