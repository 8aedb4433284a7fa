-- ===== src/Application.antt =====
-- internal/application: what the program inside the namespace is started with.
pub mod ChildEnvironment
pub mod Runtime
pub mod Proxies
pub mod Launch
