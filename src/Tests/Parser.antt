-- ===== src/Tests/Parser.antt =====
-- A parser of flags with the documented behaviour, for the witnesses of the command lines.
use airjail.Base.{
  ℕ, Bool, true, false, ◌&&◌, ◌||◌, Option, none, some, List, [], ◌∷◌, ◌++◌, ◌≡◌, refl, arith,
  Result, ok, err, drop, if◌then◌else◌, ◌==◌, list_eq, nat_eq,
}
use airjail.Base.Bytes.{Bytes, has_prefix}
use airjail.CommandLine.Pflag.{
  Binding, string_var, bool_var, string_array_var, Flag, Parsed, FlagError, bad_arguments, find,
  as_option, dashes, IsName, mark, Parser, Laws,
}

-- what an argument is; a flag with its name
pub data Argument (V : Type 0) : Type 0 where
  ends positional unknown : Argument V
  takes : Bytes → (Bytes → V → V) → Argument V
  sets : Bytes → (Bool → V → V) → Argument V

abbrev pub bound : {V : Type 0} → Bytes → Option (Binding V) → Argument V
bound name none = unknown
bound name (some (string_var set)) = takes name set
bound name (some (string_array_var add)) = takes name add
bound name (some (bool_var set)) = sets name set

abbrev pub argument : {V : Type 0} → List (Flag V) → Bytes → Argument V
argument flags a =
    if a == dashes
    then ends
    else if has_prefix a dashes
    then bound (drop 2 a) (find flags (drop 2 a))
    else positional

-- a flag that waits for its value
pub data Pending (V : Type 0) : Type 0 where
  idle : Pending V
  awaiting : Bytes → (Bytes → V → V) → Pending V

abbrev pub parse_from :
    {V : Type 0} → List (Flag V) → V → Pending V → List Bytes → Result FlagError (Parsed V)
parse_from flags v idle [] = ok (record { values = v; arguments = []; changed = [] })
parse_from flags v (awaiting name set) [] = err (bad_arguments name)
parse_from flags v (awaiting name set) (x ∷ rest) = mark name (parse_from flags (set x v) idle rest)
parse_from flags v idle (a ∷ rest) = elim (argument flags a) [
  | ends ↦ ok (record { values = v; arguments = rest; changed = [] })
  | positional ↦ ok (record { values = v; arguments = a ∷ rest; changed = [] })
  | unknown ↦ err (bad_arguments a)
  | takes name set ↦ parse_from flags v (awaiting name set) rest
  | sets name set ↦ mark name (parse_from flags (set true v) idle rest)
]

abbrev pub parse : {V : Type 0} → Parser V
parse flags v args = parse_from flags v idle args

argument-option :
    {V : Type 0} (flags : List (Flag V)) (name : Bytes) (binding : Binding V)
    → IsName name
    → find flags name ≡ some binding
    → argument flags (as_option name) ≡ bound name (some binding)
unfolding has_prefix airjail.Base.list_beq
argument-option flags [] binding h found = absurd h
argument-option flags (c ∷ name) binding h found = rw found

pub parse-Laws : {V : Type 0} → Laws (parse {V = V})
unfolding airjail.Base.list_beq
parse-Laws = record {
  string_flag = λ flags v name value rest set h found.
      rw (argument-option flags name (string_var set) h found);
  array_flag = λ flags v name value rest add h found.
      rw (argument-option flags name (string_array_var add) h found);
  bool_flag =
      λ flags v name rest set h found. rw (argument-option flags name (bool_var set) h found);
  terminator = λ flags v rest. refl;
}
