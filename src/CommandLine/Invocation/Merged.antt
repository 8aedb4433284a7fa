-- ===== src/CommandLine/Invocation/Merged.antt =====
-- The configuration of a command line: the file's, with what the flags add to it and replace in it.
use airjail.Base.{
  ℕ, Bool, true, false, not, ◌&&◌, Option, none, some, List, [], ◌≡◌, ◌⊎◌, ◌≢◌, ◌∙◌, sym, ap, subst,
  Result, wrap, ◌>>=◌, list_eq, nat_eq, append-nil, append_assoc, Bool-cases,
}
use airjail.Base.Bytes.{Bytes}
use airjail.CommandLine.Pflag.{Parsed}
use airjail.CommandLine.Invocation.{Config, Files, FlagValues, empty_config, end_of_file, decoded}
use airjail.CommandLine.Invocation.Written.{
  Given, allow, block, log, allow_unresolved_rules, means, nothing, values_of, names,
}

abbrev is_some : Option Bytes → Bool
is_some none = false
is_some (some x) = true

-- what the parser returns for options
abbrev read : List Given → List Bytes → Parsed FlagValues
read options command = record {
  values = values_of (means nothing options);
  arguments = command;
  changed = names options;
}

abbrev config_with : List Bytes → List Bytes → List Bytes → Bytes → Bool → Bool → Config
config_with allowed blocked kept l r u = record {
  allow = allowed;
  block = blocked;
  log = l;
  restrict_unix_sockets = r;
  allow_unresolved_rules = u;
  keep_unsafe_capabilities = kept;
}

-- What the configuration flag loads: nothing for an empty name, and otherwise the one value in the
-- file of that name, which may be empty.
abbrev pub Loads : Files → Bytes → Config → Type 0
Loads files path loaded =
    ((path ≡ []) × (loaded ≡ empty_config))
    ⊎ ((path ≢ [])
        × ((contents : Bytes) × (files.read_file path ≡ some contents)
            × (((files.decode contents ≡ end_of_file) × (loaded ≡ empty_config))
                ⊎ ((files.decode contents ≡ decoded loaded)
                    × (files.decode_extra contents ≡ end_of_file)))))
