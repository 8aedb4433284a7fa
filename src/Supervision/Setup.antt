-- ===== src/Supervision/Setup.antt =====
-- internal/namespace/namespace_linux.go, RunSupervisor up to the start of its goroutines, and what
-- becomes of their results. The outcomes of system calls are parameters, and what is done is recorded.
pub mod Listeners
pub mod Bounding
pub mod Isolated
use airjail.Base.{
  ℕ, zero, suc, ◌+◌, ◌-◌, ◌/◌, ◌%◌, Bool, true, false, not, ◌&&◌, ◌||◌, Option, none, some, List,
  [], ◌∷◌, ◌++◌, if◌then◌else◌, Result, ok, err, ◌==◌, list_eq, nat_eq,
}
use airjail.Base.Bytes.{Bytes, codes}
use airjail.Capabilities.{Unix, unsafe_capability_values}
use airjail.Capabilities.Drop.{
  Kernel, Effect, Errno, einval, other, DropError, drop_dangerous_capabilities,
}
use airjail.CommandLine.Supervise.{SupervisorOptions, restricted_exec_command}

pub data Bridge : Type 0 where
  http_bridge socks_bridge : Bridge

pub data Act : Type 0 where
  control_opened control_closed loopback_up : Act
  opened closed : Bridge → Act
  subreaper_set : Act
  bounding_lost : ℕ → Act
  sets_cleared no_new_privileges : Act
  dangerous_dropped : List Effect → Act

-- os.Stat: an error, or whether the mode is that of a socket
pub data Inspection : Type 0 where
  not_inspected : Inspection
  socket_mode : Bool → Inspection

-- `interface_request` is whether NewIfreq works, and the flags are none where they cannot be read.
pub record Host : Type 0 where
  pub unix : Unix
  pub kernel : Kernel
  pub inspect : Bytes → Inspection
  pub control_socket : Bool
  pub interface_request : Bool
  pub set_flags : Bool
  pub flags : Option ℕ
  pub listens : Bridge → Bool
  pub subreaper : Bool
  pub drop_bounding : ℕ → Option Errno
  pub clear_sets : Bool
  pub no_new_privs : Bool

pub data SetupError : Type 0 where
  socket_not_inspected not_a_socket : Bytes → SetupError
  loopback_control loopback_request loopback_flags loopback_not_up : SetupError
  not_listening : Bridge → SetupError
  no_subreaper : SetupError
  bounding_kept : ℕ → SetupError
  sets_kept privileges_kept : SetupError
  dangerous_kept : DropError → SetupError
  unknown_ambient : Bytes → SetupError

-- what was done, and the result
abbrev pub Done : Type 0 → Type 0
Done A = List Act × Result SetupError A

abbrev pub before : {A : Type 0} → List Act → Done A → Done A
before acts done = (acts ++ done.0, done.1)

-- a call, and the rest that runs if it worked
abbrev pub then_ : {A B : Type 0} → Done A → (A → Done B) → Done B
then_ (acts, err e) rest = (acts, err e)
then_ (acts, ok a) rest = before acts (rest a)

-- validateProxySocket
unfoldable pub validate_proxy_socket : Host → Bytes → Result SetupError (Unit {0})
validate_proxy_socket host path = elim (host.inspect path) [
  | not_inspected ↦ err (socket_not_inspected path)
  | socket_mode is_socket ↦ if not is_socket then err (not_a_socket path) else ok tt
]

-- the loop over the paths
unfoldable pub validate_each : Host → List Bytes → Result SetupError (Unit {0})
unfolding validate_proxy_socket
validate_each host [] = ok tt
validate_each host (path ∷ paths) =
    let rest = validate_each host paths in
    if path == []
    then rest
    else elim (validate_proxy_socket host path) [ err e ↦ err e | ok _ ↦ rest ]

-- bringLoopbackUp; the deferred close is behind every return but the first
unfoldable pub bring_loopback_up : Host → Done (Unit {0})
bring_loopback_up host =
    if not host.control_socket
    then ([], err loopback_control)
    else if not host.interface_request
    then (control_opened ∷ control_closed ∷ [], err loopback_request)
    else elim host.flags [
      | none ↦ (control_opened ∷ control_closed ∷ [], err loopback_flags)
      | some flags ↦
          if not host.set_flags
          then (control_opened ∷ control_closed ∷ [], err loopback_not_up)
          else (control_opened ∷ loopback_up ∷ control_closed ∷ [], ok tt)
    ]

-- the loop of dropSetupCapabilities, for the `left` capabilities from one on
unfoldable pub drop_bounding_from : Host → (capability left : ℕ) → Done (Unit {0})
drop_bounding_from host capability zero = ([], ok tt)
drop_bounding_from host capability (suc left) =
    let rest = drop_bounding_from host (suc capability) left in
    elim (host.drop_bounding capability) [
      | some einval ↦ ([], ok tt)
      | some (other code) ↦ ([], err (bounding_kept capability))
      | none ↦ before (bounding_lost capability ∷ []) rest
    ]

-- dropSetupCapabilities; the sets that it writes are empty
unfoldable pub drop_setup_capabilities : Host → Done (Unit {0})
unfolding drop_bounding_from
drop_setup_capabilities host = then_ (drop_bounding_from host 0 64) (λ _.
    if not host.clear_sets
    then ([], err sets_kept)
    else if not host.no_new_privs
    then (sets_cleared ∷ [], err privileges_kept)
    else (sets_cleared ∷ no_new_privileges ∷ [], ok tt))

unfoldable pub drop_dangerous : Host → List Bytes → Done (Unit {0})
drop_dangerous host kept = elim (drop_dangerous_capabilities host.unix host.kernel kept) [
  | err e ↦ ([], err (dangerous_kept e))
  | ok effects ↦ (dangerous_dropped effects ∷ [], ok tt)
]

-- closeBridgeListeners
abbrev pub close_bridge_listeners : List Bridge → List Act
close_bridge_listeners [] = []
close_bridge_listeners (server ∷ servers) = closed server ∷ close_bridge_listeners servers

-- a call whose error closes the listeners
unfoldable pub or_close : {A : Type 0} → List Bridge → Done A → Done A
or_close servers (acts, ok a) = (acts, ok a)
or_close servers (acts, err e) = (acts ++ close_bridge_listeners servers, err e)

-- the ambient capabilities of the child, which are none where permissions are not preserved
unfoldable pub ambient : Host → SupervisorOptions → Done (List ℕ)
ambient host options =
    if options.preserve_permissions
    then (elim (unsafe_capability_values host.unix options.keep_unsafe_capabilities) [
      | err raw ↦ ([], err (unknown_ambient raw))
      | ok numbers ↦ ([], ok numbers)
    ])
    else ([], ok [])

-- what is started: the bridges and the child's ambient capabilities
pub record Ready : Type 0 where
  pub servers : List Bridge
  pub ambient_capabilities : List ℕ

unfoldable pub set_subreaper : Host → Done (Unit {0})
set_subreaper host = if host.subreaper then (subreaper_set ∷ [], ok tt) else ([], err no_subreaper)

unfoldable pub drop_capabilities : Host → SupervisorOptions → Done (Unit {0})
unfolding drop_setup_capabilities drop_dangerous
drop_capabilities host options =
    if options.preserve_permissions
    then drop_dangerous host options.keep_unsafe_capabilities
    else drop_setup_capabilities host

-- from the subreaper on
unfoldable pub isolate : Host → SupervisorOptions → List Bridge → Done Ready
unfolding set_subreaper drop_capabilities or_close ambient
isolate host options servers = then_ (or_close servers (set_subreaper host)) (λ _.
    then_ (or_close servers (drop_capabilities host options)) (λ _.
      then_ (or_close servers (ambient host options))
        (λ numbers. ([], ok (record { servers = servers; ambient_capabilities = numbers })))))

-- One listener, if its socket is given: the servers behind it.
unfoldable pub listen_on : Host → List Bridge → Bridge → Bytes → Done (List Bridge)
unfolding or_close
listen_on host servers bridge socket =
    if socket == []
    then ([], ok servers)
    else or_close servers (
        if host.listens bridge
        then (opened bridge ∷ [], ok (servers ++ (bridge ∷ [])))
        else ([], err (not_listening bridge)))

-- RunSupervisor, up to its goroutines
unfoldable pub setup : Host → SupervisorOptions → Done Ready
unfolding validate_each bring_loopback_up listen_on isolate
setup host options =
    then_ ([], validate_each host (options.http_socket ∷ options.socks_socket ∷ []))
      (λ _. then_ (bring_loopback_up host) (λ _.
        then_ (listen_on host [] http_bridge options.http_socket) (λ servers.
          then_ (listen_on host servers socks_bridge options.socks_socket)
            (λ both. isolate host options both))))
