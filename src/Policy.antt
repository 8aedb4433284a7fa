-- ===== src/Policy.antt =====
-- internal/policy: the egress policy. Each child models one part of the package.
pub mod Errors
pub mod Library
pub mod Hostname
pub mod Destination
pub mod Rules
pub mod Decision
pub mod Resolve
