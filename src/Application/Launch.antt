-- ===== src/Application/Launch.antt =====
-- internal/application/application.go, Run, up to the call that starts the supervisor: what it decides
-- to run, from the command line, the environment and the answers of the system.
pub mod Chosen
use airjail.Base.{
  ℕ, Bool, true, false, not, Option, none, some, List, [], ◌∷◌, ◌++◌, if◌then◌else◌, Result, ok,
  err, wrap, ◌>>=◌,
}
use airjail.Base.Bytes.{Bytes}
use airjail.Logging.{Logger, new}
use airjail.Capabilities.{Mode, preserves}
use airjail.Policy.Errors.{PolicyError}
use airjail.Policy.Library.{Library}
use airjail.Policy.Decision.{Policy, is_empty}
use airjail.Policy.Resolve.{Resolver, Lookups, new_policy}
use airjail.Application.ChildEnvironment.{child_environment}
use airjail.CommandLine.Pflag.{Parser}
use airjail.CommandLine.Supervise.{ParentOptions, detect_mode}
use airjail.CommandLine.Invocation.{
  Config, Files, FlagValues, Invocation, help, version_asked, child, CliError, parse,
}

-- The parser of the flags, the files, the package strings, the working directory, the executable,
-- whether standard error is a terminal, the numbers of the two capabilities with the effective sets,
-- SetNonDumpable, the policy's library and resolver, and os.Environ.
pub record System : Type 0 where
  pub parser : Parser FlagValues
  pub files : Files
  pub trim_space : Bytes → Bytes
  pub working_directory : Option Bytes
  pub executable : Option Bytes
  pub terminal : Bool
  pub sys_admin : ℕ
  pub net_admin : ℕ
  pub effective : Option (ℕ × ℕ)
  pub non_dumpable : Bool
  pub library : Library
  pub resolver : Resolver
  pub environ : List Bytes

pub data RunError : Type 0 where
  bad_command_line : CliError → RunError
  no_working_directory no_executable no_logger no_capabilities not_non_dumpable : RunError
  bad_policy : PolicyError → RunError

-- the arguments of namespace.Run, or those of runWithProxies, with the child's environment and directory
pub data Launch : Type 0 where
  show_help show_version : Launch
  without_proxies : ParentOptions → (environment : List Bytes) → (directory : Bytes) → Launch
  with_proxies : Policy → ParentOptions → (environment : List Bytes) → (directory : Bytes) → Launch

-- the options of namespace.Run; runWithProxies puts in the sockets of its directory
unfoldable pub parent_options : Config → List Bytes → Bytes → Mode → Logger → ParentOptions
parent_options config command executable mode logger = record {
  executable = executable;
  command = command;
  http_socket = [];
  socks_socket = [];
  mode = mode;
  restrict_unix_sockets = config.restrict_unix_sockets;
  keep_unsafe_capabilities = config.keep_unsafe_capabilities;
  logger = some logger;
}

abbrev pub or_else : {A : Type 0} → RunError → Option A → Result RunError A
or_else error none = err error
or_else error (some a) = ok a

-- `SetNonDumpable` in the permission-preserving mode
unfoldable pub protect : System → Mode → Result RunError (Unit {0})
protect system mode =
    if preserves mode then (if system.non_dumpable then ok tt else err not_non_dumpable) else ok tt

-- the choice at the end of Run
unfoldable pub choose : System → Policy → ParentOptions → Bytes → Launch
choose system policy options directory =
    let environment = child_environment system.environ (not (is_empty policy)) in
    if is_empty policy
    then without_proxies options environment directory
    else with_proxies policy options environment directory

-- Run, behind the command line
unfoldable pub launch_child : System → Config → List Bytes → Result RunError Launch
unfolding parent_options protect choose
launch_child system config command = do
  directory ← or_else no_working_directory system.working_directory
  executable ← or_else no_executable system.executable
  logger ← or_else no_logger (new system.trim_space true system.terminal config.log [])
  mode ← or_else no_capabilities (detect_mode system.sys_admin system.net_admin system.effective)
  _ ← protect system mode
  built ← wrap bad_policy (
      new_policy system.library system.resolver config.allow_unresolved_rules config.allow
        config.block)
  ok (choose system built.0 (parent_options config command executable mode logger) directory)

-- Run
unfoldable pub launch : System → List Bytes → Result RunError Launch
unfolding launch_child
launch system args = elim (parse system.parser system.files args) [
  | err e ↦ err (bad_command_line e)
  | ok help ↦ ok show_help
  | ok version_asked ↦ ok show_version
  | ok (child config command) ↦ launch_child system config command
]
