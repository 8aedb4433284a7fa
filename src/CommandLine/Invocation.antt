-- ===== src/CommandLine/Invocation.antt =====
-- internal/cli/cli.go, Parse, and internal/config/config.go, Load. Reading a file and decoding YAML are
-- parameters.
pub mod Written
pub mod Merged
use airjail.Base.{
  ℕ, Bool, true, false, not, ◌&&◌, ◌||◌, Option, none, some, List, [], ◌∷◌, ◌++◌, if◌then◌else◌,
  Result, ok, err, wrap, ◌>>=◌, ◌==◌, list_eq, nat_eq, contains,
}
use airjail.Base.Bytes.{Bytes, codes}
use airjail.CommandLine.Pflag.{
  Binding, string_var, bool_var, string_array_var, Flag, Parsed, FlagError, help_requested,
  bad_arguments, Parser,
}

pub record Config : Type 0 where
  pub allow : List Bytes
  pub block : List Bytes
  pub log : Bytes
  pub restrict_unix_sockets : Bool
  pub allow_unresolved_rules : Bool
  pub keep_unsafe_capabilities : List Bytes

-- Config{}
abbrev pub empty_config : Config
empty_config = record {
  allow = [];
  block = [];
  log = [];
  restrict_unix_sockets = false;
  allow_unresolved_rules = false;
  keep_unsafe_capabilities = [];
}

-- One Decode: io.EOF, another error, or a value.
pub data Decoded (A : Type 0) : Type 0 where
  end_of_file undecodable : Decoded A
  decoded : A → Decoded A

-- os.ReadFile, and the first two calls of Decode, into a Config with known fields only and into any
pub record Files : Type 0 where
  pub read_file : Bytes → Option Bytes
  pub decode : Bytes → Decoded Config
  pub decode_extra : Bytes → Decoded Unit

pub data ConfigError : Type 0 where
  not_read not_decoded trailing_not_decoded multiple_documents : Bytes → ConfigError

-- Load
unfoldable pub load : Files → Bytes → Result ConfigError Config
load files path = elim (files.read_file path) [
  | none ↦ err (not_read path)
  | some contents ↦ elim (files.decode contents) [
    | end_of_file ↦ ok empty_config
    | undecodable ↦ err (not_decoded path)
    | decoded loaded ↦ elim (files.decode_extra contents) [
      | end_of_file ↦ ok loaded
      | undecodable ↦ err (trailing_not_decoded path)
      | decoded extra ↦ err (multiple_documents path)
    ]
  ]
]

pub record FlagValues : Type 0 where
  pub config_path : Bytes
  pub allow_rules : List Bytes
  pub block_rules : List Bytes
  pub log_level : Bytes
  pub allow_unresolved : Bool
  pub restrict_unix_sockets : Bool
  pub keep_unsafe_capabilities : List Bytes
  pub version : Bool

abbrev pub default_values : FlagValues
default_values = record {
  config_path = [];
  allow_rules = [];
  block_rules = [];
  log_level = codes "warning";
  allow_unresolved = false;
  restrict_unix_sockets = false;
  keep_unsafe_capabilities = [];
  version = false;
}

abbrev pub flag : Bytes → Binding FlagValues → Flag FlagValues
flag name binding = record { name = name; binding = binding }

-- newFlagSet, without the usage texts and the short name of `log`
unfoldable pub new_flag_set : List (Flag FlagValues)
new_flag_set =
    flag (codes "config") (string_var (λ x v. record v { config_path = x }))
    ∷ flag (codes "allow")
        (string_array_var (λ x v. record v { allow_rules = v.allow_rules ++ (x ∷ []) }))
    ∷ flag (codes "block")
        (string_array_var (λ x v. record v { block_rules = v.block_rules ++ (x ∷ []) }))
    ∷ flag (codes "log") (string_var (λ x v. record v { log_level = x }))
    ∷ flag (codes "allow-unresolved-rules") (bool_var (λ x v. record v { allow_unresolved = x }))
    ∷ flag (codes "restrict-sockets") (bool_var (λ x v. record v { restrict_unix_sockets = x }))
    ∷ flag (codes "keep-unsafe-capability") (
        string_array_var
          (λ x v. record v { keep_unsafe_capabilities = v.keep_unsafe_capabilities ++ (x ∷ []) }))
    ∷ flag (codes "version") (bool_var (λ x v. record v { version = x }))
    ∷ []

pub data Invocation : Type 0 where
  help version_asked : Invocation
  child : Config → List Bytes → Invocation

pub data CliError : Type 0 where
  parse_flags : FlagError → CliError
  load_config : ConfigError → CliError
  no_child_command : CliError

-- what the flags change of the loaded configuration
unfoldable pub merge : Config → Parsed FlagValues → Config
merge effective parsed = record {
  allow = effective.allow ++ parsed.values.allow_rules;
  block = effective.block ++ parsed.values.block_rules;
  log =
      if contains parsed.changed (codes "log") || effective.log == []
      then parsed.values.log_level
      else effective.log;
  restrict_unix_sockets =
      if contains parsed.changed (codes "restrict-sockets")
      then parsed.values.restrict_unix_sockets
      else effective.restrict_unix_sockets;
  allow_unresolved_rules =
      if contains parsed.changed (codes "allow-unresolved-rules")
      then parsed.values.allow_unresolved
      else effective.allow_unresolved_rules;
  keep_unsafe_capabilities =
      effective.keep_unsafe_capabilities ++ parsed.values.keep_unsafe_capabilities;
}

-- the configuration of the flag `config`, if it is not empty
unfoldable pub effective_config : Files → Bytes → Result ConfigError Config
unfolding load
effective_config files path = if path == [] then ok empty_config else load files path

-- Parse, behind the parsing of the flags
unfoldable pub invocation : Files → Parsed FlagValues → Result CliError Invocation
unfolding effective_config merge
invocation files parsed =
    if parsed.values.version
    then ok version_asked
    else wrap load_config (effective_config files parsed.values.config_path) >>= λ loaded.
        if parsed.arguments == []
        then err no_child_command
        else ok (child (merge loaded parsed) parsed.arguments)

-- Parse
unfoldable pub parse : Parser FlagValues → Files → List Bytes → Result CliError Invocation
unfolding new_flag_set invocation
parse parser files args = elim (parser new_flag_set default_values args) [
  | err help_requested ↦ ok help
  | err (bad_arguments text) ↦ err (parse_flags (bad_arguments text))
  | ok parsed ↦ invocation files parsed
]
