-- ===== src/Supervision.antt =====
-- internal/namespace/run_linux.go: the command that is started, waited for and cleaned up after.
pub mod Wait
pub mod Signals
pub mod Start
pub mod Setup
pub mod Forwarder
