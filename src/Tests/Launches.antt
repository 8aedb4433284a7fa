-- ===== src/Tests/Launches.antt =====
-- Witnesses of the command lines, of what they launch, and of the runtime directory.
use airjail.Base.{
  ℕ, ◌+◌, ◌≤◌, ◌%◌, Bool, true, false, not, ◌&&◌, ◌||◌, Option, none, some, List, [], ◌∷◌, ◌++◌,
  ◌≡◌, ◌↔◌, refl, arith, Result, ok, inl, any, all, Some, All, if◌then◌else◌, ◌==◌, ==_iff, list_eq,
  nat_eq, or_iff, and_iff, drop, length, Bool-cases,
}
use airjail.Base.Bytes.{Bytes, codes}
use airjail.Capabilities.{Unix, permission_preserving, Permitted, preserves}
use airjail.Logging.{Logger}
use airjail.CommandLine.Supervise.{
  ParentOptions, Process, Variables, run_arguments, run, supervise, exec_restricted,
}
use airjail.CommandLine.LogLevel.{leveled}
use airjail.CommandLine.Handover.{run-run_arguments}
use airjail.CommandLine.Invocation.{
  Files, Config, empty_config, end_of_file, decoded, no_child_command, FlagValues,
}
use airjail.CommandLine.Invocation
use airjail.CommandLine.Invocation.Written.{Given, allow, config, restrict_sockets}
use airjail.Application.Runtime.{FileSystem, RuntimeDir, already_exists}
use airjail.Application.Proxies.{Calls, Event, command_ended, server_ended, run_with_proxies}
use airjail.Application.Proxies.Selected.{
  result_of, IsCommand, EndsFirst, servers_ended, run_with_proxies-code_iff,
}
use airjail.Tests.Parser.{parse, parse-Laws}

abbrev logger : Logger
logger = record { colored = false; level = 2; prefix = []; has_writer = true }

abbrev options : ParentOptions
options = record {
  executable = codes "airjail";
  command = codes "ls" ∷ codes "--all" ∷ [];
  http_socket = codes "/h";
  socks_socket = [];
  mode = permission_preserving;
  restrict_unix_sockets = true;
  keep_unsafe_capabilities = codes "bpf" ∷ [];
  logger = some logger;
}

abbrev process : Process
process = record {
  trim_space = λ s. s;
  terminal = false;
  non_dumpable = true;
  working_directory = some (codes "/");
  environ = codes "A=b" ∷ [];
}

abbrev unix : Unix
unix = record {
  to_upper = λ s. if s == codes "bpf" then codes "BPF" else s;
  trim_space = λ s. s;
  number = λ s. if s == codes "CAP_BPF" then 39 else 1;
}

abbrev words : Permitted
words = record { low = 0; high = 128 }

abbrev arguments : List Bytes
arguments =
    codes "airjail"
    ∷ codes "__netns-supervisor"
    ∷ codes "--http-socket"
    ∷ codes "/h"
    ∷ codes "--preserve-permissions"
    ∷ codes "--restrict-unix-sockets"
    ∷ codes "--manage-foreground"
    ∷ codes "--keep-unsafe-capability"
    ∷ codes "CAP_BPF"
    ∷ codes "--log-level"
    ∷ codes "traffic"
    ∷ codes "--"
    ∷ codes "ls"
    ∷ codes "--all"
    ∷ []

run-run_arguments_example :
    run parse process (drop 1 arguments)
    ≡ ok (
        supervise (record {
          command = codes "ls" ∷ codes "--all" ∷ [];
          environment = codes "A=b" ∷ [];
          directory = codes "/";
          http_socket = codes "/h";
          socks_socket = [];
          preserve_permissions = true;
          restrict_unix_sockets = true;
          manage_foreground = true;
          keep_unsafe_capabilities = codes "CAP_BPF" ∷ [];
          logger = leveled process 2;
        }))
unfolding airjail.Base.list_beq airjail.Capabilities.resolve_unsafe_capabilities
    airjail.Capabilities.parse_unsafe_capabilities airjail.Capabilities.parse_each
    airjail.Capabilities.by_name airjail.Capabilities.full_name
    airjail.Capabilities.dangerous_capabilities airjail.Base.contains
    airjail.Capabilities.select_unsafe_capabilities airjail.Capabilities.capability_permitted
    airjail.Base.Bytes.has_prefix run_arguments airjail.CommandLine.Supervise.supervisor_arguments
    airjail.Supervision.Wait.owns_terminal_foreground airjail.Logging.level_name
    airjail.Logging.level_string
run-run_arguments_example =
    run-run_arguments parse unix (some words) true 5 5 options logger (codes "CAP_BPF" ∷ [])
      arguments process (codes "/") parse-Laws (λ s h. refl) refl (omega arith) (λ e. absurd (cc))
      refl refl refl refl

-- the configuration of the one file
abbrev in_file : Config
in_file = record empty_config { allow = codes "10.0.0.2" ∷ []; log = codes "error" }

abbrev files : Files
files = record {
  read_file = λ path. if path == codes "f" then some (codes "text") else none;
  decode = λ contents. decoded in_file;
  decode_extra = λ contents. end_of_file;
}

abbrev given : List Given
given = allow (codes "10.0.0.1") ∷ config (codes "f") ∷ restrict_sockets ∷ []

abbrev meant : Config
meant = record {
  allow = codes "10.0.0.2" ∷ codes "10.0.0.1" ∷ [];
  block = [];
  log = codes "error";
  restrict_unix_sockets = true;
  allow_unresolved_rules = false;
  keep_unsafe_capabilities = [];
}

abbrev system : FileSystem
system = record {
  join = λ directory name. directory ++ codes "/" ++ name;
  decimal = λ n. codes "1000";
  mkdir = λ path. already_exists;
  lstat = λ path.
      some (record { is_dir = true; is_symlink = false; owner = some 1000; permissions = 448 });
  mkdir_temp = λ base. some (base ++ codes "/session-1");
  chmod = λ path. true;
  remove_all = λ path. true;
}

abbrev dir : RuntimeDir
dir = record { directory = codes "/d"; http_socket = codes "/d/h"; socks_socket = codes "/d/s" }

abbrev calls : Calls
calls = record { http_listens = true; socks_listens = true; routes = true; socks_server = true }

abbrev events : List Event
events = command_ended (ok 3) ∷ server_ended none ∷ server_ended none ∷ []

run_with_proxies-code_iff_example :
    ((code : ℕ)
      → (result_of (run_with_proxies (ok dir) calls events) ≡ some (ok code))
        ↔ EndsFirst events code)
    × (Some IsCommand events
        → 2 ≤ servers_ended events
        → (r : _) × (result_of (run_with_proxies (ok dir) calls events) ≡ some r))
run_with_proxies-code_iff_example =
    run_with_proxies-code_iff dir calls events (refl, refl, refl, refl)
