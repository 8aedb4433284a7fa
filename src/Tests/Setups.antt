-- ===== src/Tests/Setups.antt =====
-- Witnesses of what is started for a command line, of the restricted child and of the setup of the
-- supervisor.
use airjail.Base.{
  ℕ, ◌+◌, ◌≤◌, ◌%◌, Bool, true, false, not, ◌&&◌, ◌||◌, Option, none, some, List, [], ◌∷◌, ◌++◌,
  ◌≡◌, ◌↔◌, ◌⊎◌, refl, arith, Result, ok, err, inl, inr, any, all, Some, All, if◌then◌else◌, ◌==◌,
  ==_iff, list_eq, nat_eq, or_iff, and_iff, drop, Bool-cases,
}
use airjail.Base.Bytes.{Bytes, codes}
use airjail.Capabilities.{Unix, rootless}
use airjail.Capabilities.Drop.{Kernel, einval}
use airjail.Logging.{Logger}
use airjail.Policy.Decision.{Policy}
use airjail.Policy.Decision.Covers.{any_iff}
use airjail.Policy.Resolve.{Lookups, new_policy}
use airjail.CommandLine.Supervise.{SupervisorOptions, Process, run}
use airjail.CommandLine.Supervise
use airjail.CommandLine.Invocation.{Files, Config, empty_config, end_of_file, child}
use airjail.CommandLine.Invocation
use airjail.Application.Launch.{System, Launch, without_proxies, parent_options, launch}
use airjail.Application.Launch.Chosen.{Suits, launch-Suits}
use airjail.Restricted.{
  Host, executed, no_new_privs_set, guard_loaded, filter_loaded, exec_restricted,
}
use airjail.Restricted
use airjail.Restricted.Executed.{child_command-executed}
use airjail.Restricted.Filter.{
  Operation, equal, other_operation, Action, action_allow, action_errno, Condition,
  NameWithConditions, SyscallGroup, Seccomp, Meets, Names, Selects, Documented, Denied,
  restricted_socket_filter, restricted_socket_filter-denies,
}
use airjail.Supervision.Setup.{
  Bridge, Act, subreaper_set, socket_mode, Ready, setup, drop_capabilities,
}
use airjail.Supervision.Setup
use airjail.Supervision.Setup.Listeners.{Kept, setup-Kept}
use airjail.Supervision.Setup.Isolated.{Cleared, Reduced, setup-isolated}
use airjail.Tests.Policies.{library}
use airjail.Tests.Parser.{parse}

abbrev logger : Logger
logger = record { colored = false; level = 1; prefix = []; has_writer = true }

abbrev files : Files
files = record {
  read_file = λ path. none;
  decode = λ contents. end_of_file;
  decode_extra = λ contents. end_of_file;
}

abbrev system : System
system = record {
  parser = parse;
  files = files;
  trim_space = λ s. s;
  working_directory = some (codes "/");
  executable = some (codes "airjail");
  terminal = false;
  sys_admin = 21;
  net_admin = 12;
  effective = some (0, 0);
  non_dumpable = true;
  library = library;
  resolver = λ n host. none;
  environ = codes "A=b" ∷ codes "HTTP_PROXY=x" ∷ [];
}

abbrev config : Config
config = record empty_config { log = codes "warning" }

abbrev command : List Bytes
command = codes "ls" ∷ []

abbrev chosen : Launch
chosen =
    without_proxies (parent_options config command (codes "airjail") rootless logger)
      (codes "A=b" ∷ []) (codes "/")

parsed : Invocation.parse parse files command ≡ ok (child config command)
unfolding airjail.CommandLine.Invocation.parse airjail.CommandLine.Invocation.invocation
    airjail.CommandLine.Invocation.effective_config airjail.CommandLine.Invocation.merge
    airjail.Base.list_beq airjail.Base.Bytes.has_prefix airjail.Base.contains
parsed = refl

launched : launch system command ≡ ok chosen
unfolding launch airjail.Application.Launch.launch_child airjail.Application.Launch.protect
    airjail.Application.Launch.choose airjail.CommandLine.Invocation.parse
    airjail.CommandLine.Invocation.invocation airjail.CommandLine.Invocation.effective_config
    airjail.CommandLine.Invocation.merge airjail.Base.list_beq airjail.Base.Bytes.has_prefix
    airjail.Base.contains airjail.CommandLine.Supervise.detect_mode
    airjail.CommandLine.Supervise.capability_effective airjail.Logging.new airjail.Logging.level_of
    airjail.Base.Bytes.to_lower new_policy airjail.Policy.Decision.is_empty
    airjail.Policy.Decision.empty airjail.Application.ChildEnvironment.child_environment
    airjail.Application.ChildEnvironment.keep airjail.Application.ChildEnvironment.is_proxy_setting
    airjail.Base.Bytes.cut airjail.Policy.Resolve.resolve_host_rules
    airjail.Policy.Rules.parse_rules airjail.Policy.Rules.add_all
launched = refl

launch-Suits_example :
    (policy : Policy) × (lookups : Lookups) × (new_policy library system.resolver false [] []
      ≡ ok (policy, lookups))
    × Suits policy chosen
launch-Suits_example = launch-Suits system command config command chosen parsed launched

abbrev host : Host
host = record {
  look_path = λ name. some (codes "/bin/ls");
  sets_no_new_privs = true;
  loads_guard = true;
  loads_filter = true;
  executes = λ path. true;
}

abbrev process : Process
process = record {
  trim_space = λ s. s;
  terminal = false;
  non_dumpable = true;
  working_directory = some (codes "/");
  environ = [];
}

abbrev started : List Bytes
started = codes "airjail" ∷ codes "__restricted-exec" ∷ codes "--" ∷ codes "ls" ∷ codes "--" ∷ []

child_command-executed_example :
    (given : List Bytes) × (run parse process (drop 1 started)
      ≡ ok (Supervise.exec_restricted given))
    × ((exec_restricted host given).1 ≡ none
        → (exec_restricted host given).0
          ≡ no_new_privs_set
            ∷ guard_loaded
            ∷ filter_loaded
            ∷ executed (codes "/bin/ls") (codes "ls" ∷ codes "--" ∷ [])
            ∷ [])
unfolding airjail.Restricted.child_command
child_command-executed_example =
    child_command-executed parse process host (codes "airjail") (codes "ls") (codes "/bin/ls")
      (codes "--" ∷ []) started refl refl

-- the two operations of a library, the second of which never holds
abbrev holds : Operation → ℕ → ℕ → Bool
holds equal a b = a == b
holds (other_operation n) a b = false

abbrev meets : (ℕ → ℕ) → Condition → Bool
meets arguments condition = holds condition.operation (arguments condition.argument) condition.value

abbrev names : Bytes → (ℕ → ℕ) → NameWithConditions → Bool
names name arguments entry = entry.name == name && all (meets arguments) entry.conditions

abbrev selects : Bytes → (ℕ → ℕ) → SyscallGroup → Bool
selects name arguments group =
    any (λ n. n == name) group.names || any (names name arguments) group.names_with_conditions

abbrev first_action : Action → Bytes → (ℕ → ℕ) → List SyscallGroup → Action
first_action default name arguments [] = default
first_action default name arguments (group ∷ groups) =
    if selects name arguments group
    then group.action
    else first_action default name arguments groups

abbrev seccomp : Seccomp
seccomp = record {
  holds = holds;
  decides = λ filter name arguments.
      first_action filter.policy.default_action name arguments filter.policy.syscalls;
}

all_iff :
    (arguments : ℕ → ℕ) (conditions : List Condition)
    → (all (meets arguments) conditions ≡ true) ↔ All (Meets seccomp arguments) conditions
all_iff arguments [] = ((λ h. tt), (λ h. refl))
all_iff arguments (c ∷ conditions) =
    and_iff (meets arguments c) (all (meets arguments) conditions) ((λ h. h), (λ h. h))
      (all_iff arguments conditions)

selects_iff :
    (name : Bytes) (arguments : ℕ → ℕ) (group : SyscallGroup)
    → (selects name arguments group ≡ true) ↔ Selects seccomp name arguments group
selects_iff name arguments group =
    or_iff (any (λ n. n == name) group.names)
      (any (names name arguments) group.names_with_conditions)
      (any_iff (λ n. n == name) (λ n. n ≡ name) (λ n. ==_iff n name) group.names)
      (any_iff (names name arguments) (Names seccomp name arguments)
        (λ entry.
          and_iff (entry.name == name) (all (meets arguments) entry.conditions)
            (==_iff entry.name name) (all_iff arguments entry.conditions))
        group.names_with_conditions)

seccomp-Documented : Documented seccomp
seccomp-Documented = record {
  equals = λ a b. ==_iff a b;
  taken = λ filter group name arguments one selected.
      let chosen = (selects_iff name arguments group).1 selected in rw (one, chosen) refl;
  otherwise = λ filter group name arguments one missed.
      elim (Bool-cases (selects name arguments group)) [
        | inl e ↦ absurd (missed ((selects_iff name arguments group).0 e))
        | inr e ↦ rw (one, e) refl
      ];
}

restricted_socket_filter-denies_example :
    (Denied false (codes "socket") (λ n. 40)
      × (seccomp.decides (restricted_socket_filter false) (codes "socket") (λ n. 40)
          ≡ action_errno))
    ⊎ ((¬ Denied false (codes "socket") (λ n. 40))
        × (seccomp.decides (restricted_socket_filter false) (codes "socket") (λ n. 40)
            ≡ action_allow))
restricted_socket_filter-denies_example =
    restricted_socket_filter-denies seccomp false (codes "socket") (λ n. 40) seccomp-Documented

abbrev unix : Unix
unix = record { to_upper = λ s. s; trim_space = λ s. s; number = λ s. 1 }

abbrev kernel : Kernel
kernel = record {
  drop_bounding = λ n. none;
  ambient = λ n. (none, 0);
  lower = λ n. none;
  capget = none;
  capset = λ w. true;
}

abbrev linux : Setup.Host
linux = record {
  unix = unix;
  kernel = kernel;
  inspect = λ path. socket_mode true;
  control_socket = true;
  interface_request = true;
  set_flags = true;
  flags = some 8;
  listens = λ bridge. true;
  subreaper = true;
  drop_bounding = λ n. if n == 2 then some einval else none;
  clear_sets = true;
  no_new_privs = true;
}

abbrev options : SupervisorOptions
options = record {
  command = codes "ls" ∷ [];
  environment = [];
  directory = codes "/";
  http_socket = codes "/h";
  socks_socket = codes "/s";
  preserve_permissions = false;
  restrict_unix_sockets = false;
  manage_foreground = false;
  keep_unsafe_capabilities = [];
  logger = logger;
}

setup-Kept_example : Kept (λ (ready : Ready). ready.servers) [] (setup linux options)
setup-Kept_example = setup-Kept linux options

abbrev ready : Ready
ready = record { servers = Setup.http_bridge ∷ Setup.socks_bridge ∷ []; ambient_capabilities = [] }

set_up : (setup linux options).1 ≡ ok ready
unfolding setup airjail.Supervision.Setup.validate_each
    airjail.Supervision.Setup.validate_proxy_socket airjail.Supervision.Setup.bring_loopback_up
    airjail.Supervision.Setup.listen_on airjail.Supervision.Setup.or_close
    airjail.Supervision.Setup.isolate airjail.Supervision.Setup.set_subreaper
    airjail.Supervision.Setup.drop_capabilities airjail.Supervision.Setup.drop_setup_capabilities
    airjail.Supervision.Setup.drop_bounding_from airjail.Supervision.Setup.ambient
    airjail.Base.list_beq
set_up = refl

setup-isolated_example :
    ((options.preserve_permissions ≡ false) × Cleared linux (setup linux options).0 [])
    ⊎ ((options.preserve_permissions ≡ true)
        × Reduced linux options.keep_unsafe_capabilities (setup linux options).0 [])
setup-isolated_example = setup-isolated linux options ready set_up
