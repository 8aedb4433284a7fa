-- ===== src/CommandLine/Invocation/Written.antt =====
-- A command line that is written with airjail's flags is read with the meaning that the flags have.
use airjail.Base.{
  ℕ, Bool, true, false, not, ◌&&◌, ◌||◌, Option, none, some, List, [], ◌∷◌, ◌++◌, ◌≡◌, ◌≢◌, ◌∙◌,
  refl, sym, ap, subst, if◌then◌else◌, Result, ok, err, wrap, ◌>>=◌, ◌==◌, ==_iff, list_eq, nat_eq,
  contains, append-nil, append_assoc, arith, Bool-cases, Option-cases, inl, inr,
}
use airjail.Base.Bytes.{Bytes, codes}
use airjail.CommandLine.Pflag.{Parsed, FlagError, as_option, dashes, Parser, Laws, mark, find}
use airjail.CommandLine.Invocation.{Config, FlagValues, new_flag_set}

-- A flag of airjail that is given, with its value, other than `version`.
pub data Given : Type 0 where
  config allow block log keep_unsafe_capability : Bytes → Given
  allow_unresolved_rules restrict_sockets : Given

-- the arguments that write an option
abbrev pub written : List Given → List Bytes
written [] = []
written (config x ∷ rest) = as_option (codes "config") ∷ x ∷ written rest
written (allow x ∷ rest) = as_option (codes "allow") ∷ x ∷ written rest
written (block x ∷ rest) = as_option (codes "block") ∷ x ∷ written rest
written (log x ∷ rest) = as_option (codes "log") ∷ x ∷ written rest
written (keep_unsafe_capability x ∷ rest) =
    as_option (codes "keep-unsafe-capability") ∷ x ∷ written rest
written (allow_unresolved_rules ∷ rest) = as_option (codes "allow-unresolved-rules") ∷ written rest
written (restrict_sockets ∷ rest) = as_option (codes "restrict-sockets") ∷ written rest

-- What the options stand for, after `before`: the last file and level, all rules, and whether a switch
-- is set.
pub record Meaning : Type 0 where
  pub file : Bytes
  pub allowed : List Bytes
  pub blocked : List Bytes
  pub level : Option Bytes
  pub kept : List Bytes
  pub unresolved : Bool
  pub restricted : Bool

abbrev pub means : Meaning → List Given → Meaning
means before [] = before
means before (config x ∷ rest) = means (record before { file = x }) rest
means before (allow x ∷ rest) = means (record before { allowed = before.allowed ++ (x ∷ []) }) rest
means before (block x ∷ rest) = means (record before { blocked = before.blocked ++ (x ∷ []) }) rest
means before (log x ∷ rest) = means (record before { level = some x }) rest
means before (keep_unsafe_capability x ∷ rest) =
    means (record before { kept = before.kept ++ (x ∷ []) }) rest
means before (allow_unresolved_rules ∷ rest) = means (record before { unresolved = true }) rest
means before (restrict_sockets ∷ rest) = means (record before { restricted = true }) rest

abbrev pub nothing : Meaning
nothing = record {
  file = [];
  allowed = [];
  blocked = [];
  level = none;
  kept = [];
  unresolved = false;
  restricted = false;
}

-- the level of the options, or else of the file, or else `warning`
abbrev pub level_of_options : Meaning → Config → Bytes
level_of_options m loaded = elim m.level [
  | some x ↦ x
  | none ↦ if loaded.log == [] then codes "warning" else loaded.log
]

abbrev pub configured : Meaning → Config → Config
configured m loaded = record {
  allow = loaded.allow ++ m.allowed;
  block = loaded.block ++ m.blocked;
  log = level_of_options m loaded;
  restrict_unix_sockets = m.restricted || loaded.restrict_unix_sockets;
  allow_unresolved_rules = m.unresolved || loaded.allow_unresolved_rules;
  keep_unsafe_capabilities = loaded.keep_unsafe_capabilities ++ m.kept;
}

-- the variables that stand for a meaning
abbrev pub values_of : Meaning → FlagValues
values_of m = record {
  config_path = m.file;
  allow_rules = m.allowed;
  block_rules = m.blocked;
  log_level = elim m.level [ some x ↦ x | none ↦ codes "warning" ];
  allow_unresolved = m.unresolved;
  restrict_unix_sockets = m.restricted;
  keep_unsafe_capabilities = m.kept;
  version = false;
}

-- the names that are changed
abbrev pub names : List Given → List Bytes
names [] = []
names (config x ∷ rest) = codes "config" ∷ names rest
names (allow x ∷ rest) = codes "allow" ∷ names rest
names (block x ∷ rest) = codes "block" ∷ names rest
names (log x ∷ rest) = codes "log" ∷ names rest
names (keep_unsafe_capability x ∷ rest) = codes "keep-unsafe-capability" ∷ names rest
names (allow_unresolved_rules ∷ rest) = codes "allow-unresolved-rules" ∷ names rest
names (restrict_sockets ∷ rest) = codes "restrict-sockets" ∷ names rest

module _ (parser : Parser FlagValues) (lib : Laws parser) (command : List Bytes) where
  -- what the parser returns behind `m`
  abbrev pub outcome : Meaning → List Given → Result FlagError (Parsed FlagValues)
  outcome m options = ok (record {
    values = values_of (means m options);
    arguments = command;
    changed = names options;
  })

  pub parser-written :
      (m : Meaning) (options : List Given)
      → parser new_flag_set (values_of m) (written options ++ (dashes ∷ command))
        ≡ outcome m options
  unfolding new_flag_set find airjail.Base.list_beq
  parser-written m [] = lib.terminator new_flag_set (values_of m) command
  parser-written m (config x ∷ rest) =
      lib.string_flag new_flag_set (values_of m) (codes "config") x
        (written rest ++ (dashes ∷ command)) _ (refl, refl) refl
      ∙ ap (mark (codes "config")) (parser-written (record m { file = x }) rest)
  parser-written m (allow x ∷ rest) =
      lib.array_flag new_flag_set (values_of m) (codes "allow") x
        (written rest ++ (dashes ∷ command)) _ (refl, refl) refl
      ∙ ap (mark (codes "allow"))
          (parser-written (record m { allowed = m.allowed ++ (x ∷ []) }) rest)
  parser-written m (block x ∷ rest) =
      lib.array_flag new_flag_set (values_of m) (codes "block") x
        (written rest ++ (dashes ∷ command)) _ (refl, refl) refl
      ∙ ap (mark (codes "block"))
          (parser-written (record m { blocked = m.blocked ++ (x ∷ []) }) rest)
  parser-written m (log x ∷ rest) =
      lib.string_flag new_flag_set (values_of m) (codes "log") x
        (written rest ++ (dashes ∷ command)) _ (refl, refl) refl
      ∙ ap (mark (codes "log")) (parser-written (record m { level = some x }) rest)
  parser-written m (keep_unsafe_capability x ∷ rest) =
      lib.array_flag new_flag_set (values_of m) (codes "keep-unsafe-capability") x
        (written rest ++ (dashes ∷ command)) _ (refl, refl) refl
      ∙ ap (mark (codes "keep-unsafe-capability"))
          (parser-written (record m { kept = m.kept ++ (x ∷ []) }) rest)
  parser-written m (allow_unresolved_rules ∷ rest) =
      lib.bool_flag new_flag_set (values_of m) (codes "allow-unresolved-rules")
        (written rest ++ (dashes ∷ command)) _ (refl, refl) refl
      ∙ ap (mark (codes "allow-unresolved-rules"))
          (parser-written (record m { unresolved = true }) rest)
  parser-written m (restrict_sockets ∷ rest) =
      lib.bool_flag new_flag_set (values_of m) (codes "restrict-sockets")
        (written rest ++ (dashes ∷ command)) _ (refl, refl) refl
      ∙ ap (mark (codes "restrict-sockets")) (parser-written (record m { restricted = true }) rest)
