-- ===== src/Tests.antt =====
-- A small library of names and addresses, on which the theorems' witnesses and the tests run.
pub mod Policies
pub mod Rules
pub mod Decisions
pub mod Dials
pub mod Outer
pub mod Services
pub mod Parser
pub mod Http
pub mod Supervision
pub mod Launches
pub mod Setups
