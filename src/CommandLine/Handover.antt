-- ===== src/CommandLine/Handover.antt =====
-- What Run hands over to the supervisor by its arguments is what the supervisor runs with.
use airjail.Base.{
  ℕ, zero, suc, all, ◌≤◌, Bool, true, false, not, ◌&&◌, ◌||◌, Option, none, some, List, [], ◌∷◌,
  ◌++◌, ◌≡◌, ◌≢◌, ◌∙◌, refl, sym, ap, subst, if◌then◌else◌, Result, ok, err, wrap, ◌>>=◌, ◌==◌,
  ==_iff, list_eq, nat_eq, arith, Bool-cases, Result-cases, Option-cases, inl, inr, append_assoc,
  append-nil, drop,
}
use airjail.Base.Bytes.{Bytes, codes}
use airjail.Capabilities.{Unix, preserves, Permitted, resolve_unsafe_capabilities}
use airjail.Logging.{Logger, new, level_name}
use airjail.Supervision.Wait.{owns_terminal_foreground}
use airjail.CommandLine.Pflag.{Parsed, as_option, dashes, Parser, Laws, find}
use airjail.CommandLine.Supervise.{
  http_socket_option, socks_socket_option, preserve_permissions_option, restrict_sockets_option,
  keep_unsafe_capability_option, manage_foreground_option, log_level_option, ParentOptions,
  string_option, bool_option, keep_options, supervisor_arguments, run_arguments, Variables,
  default_variables, supervisor_flags, SupervisorOptions, Process, run_supervisor, supervise, run,
}
use airjail.CommandLine.Plain.{
  plain, plain-string, plain-array, plain-string_option, plain-bool_option, plain-ok,
}
use airjail.CommandLine.LogLevel.{Trims, leveled, new-level_name}

-- the supervisor's variables, once all options are read
abbrev pub handed_over : ParentOptions → Bool → List Bytes → Variables
handed_over options owns_foreground kept = record {
  http_socket = options.http_socket;
  socks_socket = options.socks_socket;
  log_level = level_name options.logger;
  preserve_permissions = preserves options.mode;
  restrict_unix_sockets = options.restrict_unix_sockets;
  manage_foreground = owns_foreground;
  keep_unsafe_capabilities = kept;
}

module _ (parse : Parser Variables) (lib : Laws parse) where
  plain-keep_options :
      (v : Variables) (kept rest : List Bytes)
      → plain (parse supervisor_flags v (keep_options kept ++ rest))
        ≡ plain (
            parse supervisor_flags
              (record v { keep_unsafe_capabilities = v.keep_unsafe_capabilities ++ kept })
              rest)
  unfolding supervisor_flags find airjail.Base.list_beq
  plain-keep_options v [] rest = rw (append-nil v.keep_unsafe_capabilities)
  plain-keep_options v (capability ∷ kept) rest =
      let next : Variables = record v {
        keep_unsafe_capabilities = v.keep_unsafe_capabilities ++ (capability ∷ []);
      } in
      plain-array parse lib supervisor_flags v keep_unsafe_capability_option capability
        (keep_options kept ++ rest)
        (λ x v. record v { keep_unsafe_capabilities = v.keep_unsafe_capabilities ++ (x ∷ []) })
        (refl, refl) refl
      ∙ plain-keep_options next kept rest
      ∙ rw (append_assoc v.keep_unsafe_capabilities (capability ∷ []) kept)

  plain-supervisor_arguments :
      (options : ParentOptions) (owns_foreground : Bool) (kept : List Bytes)
      → plain (
          parse supervisor_flags default_variables
            (drop 2 (supervisor_arguments options owns_foreground kept)))
        ≡ ok (handed_over options owns_foreground kept, options.command)
  unfolding supervisor_flags find supervisor_arguments airjail.Base.list_beq
  plain-supervisor_arguments options owns_foreground kept =
      let last =
        as_option log_level_option ∷ level_name options.logger ∷ dashes ∷ options.command in
      let keep = keep_options kept ++ last in
      let manage = bool_option manage_foreground_option owns_foreground ++ keep in
      let restrict = bool_option restrict_sockets_option options.restrict_unix_sockets ++ manage in
      let preserve = bool_option preserve_permissions_option (preserves options.mode) ++ restrict in
      let socks = string_option socks_socket_option options.socks_socket ++ preserve in
      let v0 = default_variables in
      let v1 : Variables = record v0 { http_socket = options.http_socket } in
      let v2 : Variables = record v1 { socks_socket = options.socks_socket } in
      let v3 : Variables = record v2 { preserve_permissions = preserves options.mode } in
      let v4 : Variables = record v3 { restrict_unix_sockets = options.restrict_unix_sockets } in
      let v5 : Variables = record v4 { manage_foreground = owns_foreground } in
      let v6 : Variables = record v5 { keep_unsafe_capabilities = kept } in
      let v7 : Variables = record v6 { log_level = level_name options.logger } in
      plain-string_option parse lib supervisor_flags v0 http_socket_option options.http_socket socks
        _ (refl, refl) refl refl
      ∙ plain-string_option parse lib supervisor_flags v1 socks_socket_option options.socks_socket
          preserve _ (refl, refl) refl refl
      ∙ plain-bool_option parse lib supervisor_flags v2 preserve_permissions_option
          (preserves options.mode) restrict _ (refl, refl) refl refl
      ∙ plain-bool_option parse lib supervisor_flags v3 restrict_sockets_option
          options.restrict_unix_sockets manage _ (refl, refl) refl refl
      ∙ plain-bool_option parse lib supervisor_flags v4 manage_foreground_option owns_foreground
          keep _ (refl, refl) refl refl
      ∙ plain-keep_options v5 kept last
      ∙ plain-string parse lib supervisor_flags v6 log_level_option (level_name options.logger)
          (dashes ∷ options.command) _ (refl, refl) refl
      ∙ ap plain (lib.terminator supervisor_flags v7 options.command)

run_arguments-supervisor_arguments :
    (unix : Unix) (words : Option Permitted) (terminal : Bool) (foreground current : ℕ)
    (options : ParentOptions) (kept arguments : List Bytes)
    → resolve_unsafe_capabilities unix options.keep_unsafe_capabilities options.mode words ≡ ok kept
    → run_arguments unix words terminal foreground current options ≡ ok arguments
    → arguments
      ≡ supervisor_arguments options (owns_terminal_foreground terminal foreground current) kept
unfolding run_arguments
run_arguments-supervisor_arguments unix words terminal foreground current options kept arguments
      keeps runs =
    ground (arith, keeps, runs)

run-supervisor_arguments :
    (parse : Parser Variables) (process : Process) (options : ParentOptions) (owns : Bool)
    (kept : List Bytes) (supervisor : SupervisorOptions)
    → run_supervisor parse process (drop 2 (supervisor_arguments options owns kept)) ≡ ok supervisor
    → run parse process (drop 1 (supervisor_arguments options owns kept))
      ≡ ok (supervise supervisor)
unfolding run supervisor_arguments airjail.Base.list_beq
run-supervisor_arguments parse process options owns kept supervisor h = rw h

-- the options of RunSupervisor that runSupervisor makes
abbrev pub started : Variables → List Bytes → Process → Bytes → Logger → SupervisorOptions
started v command process directory logger = record {
  command = command;
  environment = process.environ;
  directory = directory;
  http_socket = v.http_socket;
  socks_socket = v.socks_socket;
  preserve_permissions = v.preserve_permissions;
  restrict_unix_sockets = v.restrict_unix_sockets;
  manage_foreground = v.manage_foreground;
  keep_unsafe_capabilities = v.keep_unsafe_capabilities;
  logger = logger;
}

run_supervisor-parsed :
    (parse : Parser Variables) (process : Process) (args : List Bytes) (parsed : Parsed Variables)
    (logger : Logger) (directory : Bytes)
    → parse supervisor_flags default_variables args ≡ ok parsed
    → new process.trim_space true process.terminal parsed.values.log_level (codes "supervisor")
      ≡ some logger
    → process.non_dumpable ≡ true
    → parsed.arguments ≢ []
    → process.working_directory ≡ some directory
    → run_supervisor parse process args
      ≡ ok (started parsed.values parsed.arguments process directory logger)
unfolding run_supervisor
run_supervisor-parsed parse process args parsed logger directory p l n c d =
    ground (arith, p, l, n, d, ==_iff parsed.arguments [])

run_supervisor-ok :
    (parse : Parser Variables) (process : Process) (args command : List Bytes) (v : Variables)
    (logger : Logger) (directory : Bytes)
    → plain (parse supervisor_flags default_variables args) ≡ ok (v, command)
    → new process.trim_space true process.terminal v.log_level (codes "supervisor") ≡ some logger
    → process.non_dumpable ≡ true
    → command ≢ []
    → process.working_directory ≡ some directory
    → run_supervisor parse process args ≡ ok (started v command process directory logger)
run_supervisor-ok parse process args command v logger directory p l n c d =
    let (parsed, is, values, rest) =
      plain-ok (parse supervisor_flags default_variables args) v command p in
    let level =
      subst
        (λ (w : Variables).
          new process.trim_space true process.terminal w.log_level (codes "supervisor")
          ≡ some logger)
        (sym values) l in
    let filled = subst (λ c. c ≢ []) (sym rest) c in
    run_supervisor-parsed parse process args parsed logger directory is level n filled d
    ∙ rw (values, rest)

-- The supervisor that Run starts, by the arguments that Run gives it, calls RunSupervisor with the
-- sockets, the switches, the kept capabilities and the command of Run's options, and with a logger of
-- the same level; this is where the logger has one of the five levels, the command is not empty, and
-- the process can be made non-dumpable and has a working directory.
pub run-run_arguments :
    (parse : Parser Variables) (unix : Unix) (words : Option Permitted) (terminal : Bool)
    (foreground current : ℕ) (options : ParentOptions) (l : Logger) (kept arguments : List Bytes)
    (process : Process) (directory : Bytes)
    → Laws parse
    → Trims process.trim_space
    → options.logger ≡ some l
    → l.level ≤ 4
    → options.command ≢ []
    → process.non_dumpable ≡ true
    → process.working_directory ≡ some directory
    → resolve_unsafe_capabilities unix options.keep_unsafe_capabilities options.mode words ≡ ok kept
    → run_arguments unix words terminal foreground current options ≡ ok arguments
    → run parse process (drop 1 arguments)
      ≡ ok (
          supervise (record {
            command = options.command;
            environment = process.environ;
            directory = directory;
            http_socket = options.http_socket;
            socks_socket = options.socks_socket;
            preserve_permissions = preserves options.mode;
            restrict_unix_sockets = options.restrict_unix_sockets;
            manage_foreground = owns_terminal_foreground terminal foreground current;
            keep_unsafe_capabilities = kept;
            logger = leveled process l.level;
          }))
run-run_arguments parse unix words terminal foreground current options l kept arguments process
      directory lib trims has known command dumpable dir keeps runs =
    let owns = owns_terminal_foreground terminal foreground current in
    let made =
      run_arguments-supervisor_arguments unix words terminal foreground current options kept
        arguments keeps runs in
    let v = handed_over options owns kept in
    let given = drop 2 (supervisor_arguments options owns kept) in
    let level =
      subst
        (λ o.
          new process.trim_space true process.terminal (level_name o) (codes "supervisor")
          ≡ some (leveled process l.level))
        (sym has) (new-level_name process l trims known) in
    let supervised =
      run_supervisor-ok parse process given options.command v (leveled process l.level) directory
        (plain-supervisor_arguments parse lib options owns kept) level dumpable command dir in
    ap (λ a. run parse process (drop 1 a)) made
    ∙ run-supervisor_arguments parse process options owns kept
        (started v options.command process directory (leveled process l.level)) supervised
