-- ===== src/CommandLine/Supervise.antt =====
-- internal/namespace/namespace_linux.go, the arguments that Run starts the hidden supervisor with, and
-- main.go, run and runSupervisor, which read them again.
use airjail.Base.{
  ℕ, ◌/◌, ◌%◌, ◌^◌, Bool, true, false, not, ◌&&◌, Option, none, some, List, [], ◌∷◌, ◌++◌,
  if◌then◌else◌, Result, ok, err, wrap, ◌>>=◌, ◌==◌, list_eq, nat_eq, ltb,
}
use airjail.Base.Bytes.{Bytes, codes}
use airjail.Capabilities.{
  Unix, Mode, preserves, rootless, permission_preserving, Permitted, ResolveError,
  resolve_unsafe_capabilities,
}
use airjail.Logging.{Logger, new, level_name}
use airjail.Supervision.Wait.{owns_terminal_foreground}
use airjail.CommandLine.Pflag.{
  Binding, string_var, bool_var, string_array_var, Flag, FlagError, as_option, dashes, Parser,
}

abbrev pub supervisor_command : Bytes
supervisor_command = codes "__netns-supervisor"

abbrev pub restricted_exec_command : Bytes
restricted_exec_command = codes "__restricted-exec"

abbrev pub http_socket_option : Bytes
http_socket_option = codes "http-socket"

abbrev pub socks_socket_option : Bytes
socks_socket_option = codes "socks-socket"

abbrev pub preserve_permissions_option : Bytes
preserve_permissions_option = codes "preserve-permissions"

abbrev pub restrict_sockets_option : Bytes
restrict_sockets_option = codes "restrict-unix-sockets"

abbrev pub keep_unsafe_capability_option : Bytes
keep_unsafe_capability_option = codes "keep-unsafe-capability"

abbrev pub manage_foreground_option : Bytes
manage_foreground_option = codes "manage-foreground"

abbrev pub log_level_option : Bytes
log_level_option = codes "log-level"

-- data[capability / 32].Effective & (1 << (capability % 32)); the second word is the last
unfoldable pub capability_effective : ℕ × ℕ → ℕ → Bool
capability_effective words capability =
    let word = if ltb (capability / 32) 1 then words.0 else words.1 in
    (word / 2 ^ (capability % 32)) % 2 == 1

-- DetectMode; `none` is a failed Capget, and the numbers are those of CAP_SYS_ADMIN and CAP_NET_ADMIN.
unfoldable pub detect_mode : ℕ → ℕ → Option (ℕ × ℕ) → Option Mode
unfolding capability_effective
detect_mode sys_admin net_admin none = none
detect_mode sys_admin net_admin (some words) =
    if capability_effective words sys_admin && capability_effective words net_admin
    then some permission_preserving
    else some rootless

pub record ParentOptions : Type 0 where
  pub executable : Bytes
  pub command : List Bytes
  pub http_socket : Bytes
  pub socks_socket : Bytes
  pub mode : Mode
  pub restrict_unix_sockets : Bool
  pub keep_unsafe_capabilities : List Bytes
  pub logger : Option Logger

abbrev pub string_option : Bytes → Bytes → List Bytes
string_option name value = if value == [] then [] else as_option name ∷ value ∷ []

abbrev pub bool_option : Bytes → Bool → List Bytes
bool_option name value = if value then as_option name ∷ [] else []

abbrev pub keep_options : List Bytes → List Bytes
keep_options [] = []
keep_options (capability ∷ rest) =
    as_option keep_unsafe_capability_option ∷ capability ∷ keep_options rest

-- The arguments that Run appends, for the capabilities that it keeps.
unfoldable pub supervisor_arguments : ParentOptions → Bool → List Bytes → List Bytes
supervisor_arguments options owns_foreground kept =
    options.executable
    ∷ supervisor_command
    ∷ (string_option http_socket_option options.http_socket
        ++ (string_option socks_socket_option options.socks_socket
            ++ (bool_option preserve_permissions_option (preserves options.mode)
                ++ (bool_option restrict_sockets_option options.restrict_unix_sockets
                    ++ (bool_option manage_foreground_option owns_foreground
                        ++ (keep_options kept
                            ++ (as_option log_level_option
                                ∷ level_name options.logger
                                ∷ dashes
                                ∷ options.command)))))))

-- The start of Run, up to the process: the terminal, its group and the current one.
unfoldable pub run_arguments :
    Unix → Option Permitted → Bool → ℕ → ℕ → ParentOptions → Result ResolveError (List Bytes)
unfolding supervisor_arguments owns_terminal_foreground
run_arguments unix words terminal foreground current options =
    resolve_unsafe_capabilities unix options.keep_unsafe_capabilities options.mode words >>= λ kept.
    ok (supervisor_arguments options (owns_terminal_foreground terminal foreground current) kept)

-- the variables of runSupervisor
pub record Variables : Type 0 where
  pub http_socket : Bytes
  pub socks_socket : Bytes
  pub log_level : Bytes
  pub preserve_permissions : Bool
  pub restrict_unix_sockets : Bool
  pub manage_foreground : Bool
  pub keep_unsafe_capabilities : List Bytes

abbrev pub default_variables : Variables
default_variables = record {
  http_socket = [];
  socks_socket = [];
  log_level = codes "warning";
  preserve_permissions = false;
  restrict_unix_sockets = false;
  manage_foreground = false;
  keep_unsafe_capabilities = [];
}

abbrev pub flag : Bytes → Binding Variables → Flag Variables
flag name binding = record { name = name; binding = binding }

unfoldable pub supervisor_flags : List (Flag Variables)
supervisor_flags =
    flag http_socket_option (string_var (λ x v. record v { http_socket = x }))
    ∷ flag socks_socket_option (string_var (λ x v. record v { socks_socket = x }))
    ∷ flag log_level_option (string_var (λ x v. record v { log_level = x }))
    ∷ flag preserve_permissions_option (bool_var (λ x v. record v { preserve_permissions = x }))
    ∷ flag restrict_sockets_option (bool_var (λ x v. record v { restrict_unix_sockets = x }))
    ∷ flag manage_foreground_option (bool_var (λ x v. record v { manage_foreground = x }))
    ∷ flag keep_unsafe_capability_option (
        string_array_var
          (λ x v. record v { keep_unsafe_capabilities = v.keep_unsafe_capabilities ++ (x ∷ []) }))
    ∷ []

pub record SupervisorOptions : Type 0 where
  pub command : List Bytes
  pub environment : List Bytes
  pub directory : Bytes
  pub http_socket : Bytes
  pub socks_socket : Bytes
  pub preserve_permissions : Bool
  pub restrict_unix_sockets : Bool
  pub manage_foreground : Bool
  pub keep_unsafe_capabilities : List Bytes
  pub logger : Logger

-- strings.TrimSpace, whether standard error is a terminal, SetNonDumpable, os.Getwd and os.Environ
pub record Process : Type 0 where
  pub trim_space : Bytes → Bytes
  pub terminal : Bool
  pub non_dumpable : Bool
  pub working_directory : Option Bytes
  pub environ : List Bytes

pub data MainError : Type 0 where
  parse_supervisor_flags : FlagError → MainError
  setup_supervisor_logger not_non_dumpable no_child_command no_working_directory : MainError

-- runSupervisor, up to the options that it calls RunSupervisor with
unfoldable pub run_supervisor :
    Parser Variables → Process → List Bytes → Result MainError SupervisorOptions
unfolding supervisor_flags
run_supervisor parse process args =
    wrap parse_supervisor_flags (parse supervisor_flags default_variables args) >>= λ parsed.
    elim (new process.trim_space true process.terminal parsed.values.log_level
      (codes "supervisor")) [
        | none ↦ err setup_supervisor_logger
        | some logger ↦
            if not process.non_dumpable
            then err not_non_dumpable
            else if parsed.arguments == []
            then err no_child_command
            else elim process.working_directory [
              | none ↦ err no_working_directory
              | some directory ↦ ok (record {
                command = parsed.arguments;
                environment = process.environ;
                directory = directory;
                http_socket = parsed.values.http_socket;
                socks_socket = parsed.values.socks_socket;
                preserve_permissions = parsed.values.preserve_permissions;
                restrict_unix_sockets = parsed.values.restrict_unix_sockets;
                manage_foreground = parsed.values.manage_foreground;
                keep_unsafe_capabilities = parsed.values.keep_unsafe_capabilities;
                logger = logger;
              })
            ]
      ]

-- what the program runs: RunSupervisor, ExecRestricted or application.Run
pub data Entry : Type 0 where
  supervise : SupervisorOptions → Entry
  exec_restricted run_application : List Bytes → Entry

-- run of main.go
unfoldable pub run : Parser Variables → Process → List Bytes → Result MainError Entry
unfolding run_supervisor
run parse process [] = ok (run_application [])
run parse process (name ∷ args) =
    if name == supervisor_command
    then (run_supervisor parse process args >>= λ options. ok (supervise options))
    else if name == restricted_exec_command
    then ok (exec_restricted args)
    else ok (run_application (name ∷ args))
