-- ===== src/CommandLine.antt =====
-- main.go, internal/cli/cli.go, internal/config/config.go and the arguments of Run in
-- internal/namespace/namespace_linux.go: the two command lines of airjail, the public one and that of
-- its hidden supervisor.
pub mod Pflag
pub mod Supervise
pub mod Plain
pub mod LogLevel
pub mod Handover
pub mod Invocation
