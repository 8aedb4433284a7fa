-- ===== src/Lib.antt =====
-- airjail: network isolation by rules. A policy of allow and block rules decides which destinations
-- the proxies outside a network namespace may connect to for the program inside it.
--
-- Base: shared notation, lists, equality tests, results with errors, and Go strings as bytes.
-- Netip: the Go standard library's net/netip, as far as it is used (addresses, prefixes, masking).
-- Policy (internal/policy): Hostname is NormalizeHostname, Destination is ParseDestination, Rules is
--   parseRules with splitRulePort and parsePort, Resolve is New with resolveHostRules and
--   normalizeAddresses, Decision is Allows with ruleSet.matches. Library holds what comes from
--   elsewhere as parameters: netip.ParseAddr, netip.ParsePrefix and idna.Lookup.ToASCII.
-- Outbound.Direct (internal/outbound/direct.go): Dial over a resolver and a dialer that are parameters;
--   what is dialed and decided is recorded in a trace.
-- Outbound.Environment and Outbound.Tunnel (internal/outbound/environment.go): the proxy that the
--   environment names, the choice between it and a direct dial, and the CONNECT handshake, over a peer
--   that is a parameter; the loop that reads the header runs over the list of the reads.
-- Application.ChildEnvironment (internal/application/application.go): childEnvironment, which the
--   readers of Outbound.Environment are applied to. Launch is Run, which decides on the policy whether
--   there are proxies, Proxies is runWithProxies over the results that it receives.
-- Application.Runtime (internal/application/runtime.go): the private directory with the sockets.
-- Capabilities (internal/namespace/capabilities_linux.go): which capabilities may be kept and are, and
--   in Drop the calls that take the others away, with the bits of the sets in Clearing.
-- Http (internal/proxyhttp/server.go): Authority is parseAuthority and canonicalAuthority, Sets the
--   connectionSet and the activitySet, with their specification in Sets.Spec, and Handlers is ServeHTTP
--   with what it does, in order, to the client, the upstream connection and the sets, the closes of the
--   relay included; Shutdown is the end of Serve.
-- CommandLine: Supervise is what Run in internal/namespace/namespace_linux.go passes to the hidden
--   supervisor and what main.go reads of it, Invocation is internal/cli/cli.go with
--   internal/config/config.go; Pflag has the laws of the parser of flags that both use.
-- Supervision (internal/namespace/run_linux.go, namespace_linux.go): Start is runSandboxedProcess and the
--   attributes of what is started, Wait its loop over the list of wait4's answers, where a transfer of
--   the terminal's foreground is recorded as asked for, since its errors are only logged; Signals is
--   forwardSignals, Setup is RunSupervisor up to its goroutines, and Forwarder is internal/namespace/forwarder.go with the results of the bridges.
-- Restricted (internal/namespace/seccomp_linux.go): ExecRestricted, and the filter of local sockets, whose
--   effect is what go-seccomp-bpf documents, as a parameter.
-- Relay (internal/relay/relay.go): the loop of Bidirectional over the events that it receives.
-- Socks (internal/proxysocks/server.go): the dial function, which hands a parsed destination to the
--   policy-checked connector, the resolver, the connections kept, the handshake's deadline and, in
--   Serve, the accept loop.
-- Logging (internal/logging/logging.go): levels and the line that a message becomes.
-- Tests: witnesses and tests on a small library of names.
--
-- A pointer receiver that is changed is a value that is returned. Errors are data types with a
-- constructor for each message. A map that is used as a set is the list of its keys; the resolver's
-- cache is an association list beside the list of the questions asked. Messages to the logger are
-- left out but for the decisions of Dial. Loops run over lists, of what arrives or of what is asked for, so no
-- fuel is needed; an answer `none` of such a loop is one that still waits.
--
-- Not modelled: the instructions of the architecture guard (internal/namespace/seccomp_arch_linux.go),
-- the ioctl calls of the terminal, the transport of a forwarded
-- HTTP request, which net/http carries, the SOCKS protocol, which the library speaks, and what is only
-- printed.
pub mod Base
pub mod Netip
pub mod Policy
pub mod Outbound
pub mod Application
pub mod Capabilities
pub mod Http
pub mod Relay
pub mod Supervision
pub mod CommandLine
pub mod Restricted
pub mod Logging
pub mod Socks
pub mod Tests
