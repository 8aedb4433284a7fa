-- ===== src/CommandLine/Pflag.antt =====
-- github.com/spf13/pflag, as main.go and internal/cli/cli.go use it: a set of flags that are bound to
-- variables of type `V`, not interspersed, and what pflag documents of its Parse.
use airjail.Base.{
  ℕ, Bool, true, ◌&&◌, ◌||◌, Option, none, some, List, [], ◌∷◌, ◌++◌, ◌≡◌, if◌then◌else◌, Result,
  ok, err, ◌==◌, list_eq, nat_eq, leb, all,
}
use airjail.Base.Bytes.{Bytes, codes}

-- StringVar, BoolVar and StringArrayVar with a nil default, each with what a value does to the
-- variables.
pub data Binding (V : Type 0) : Type 0 where
  string_var : (Bytes → V → V) → Binding V
  bool_var : (Bool → V → V) → Binding V
  string_array_var : (Bytes → V → V) → Binding V

pub record Flag (V : Type 0) : Type 0 where
  pub name : Bytes
  pub binding : Binding V

-- the variables, Args() and the names for which Changed is true
pub record Parsed (V : Type 0) : Type 0 where
  pub values : V
  pub arguments : List Bytes
  pub changed : List Bytes

pub data FlagError : Type 0 where
  help_requested : FlagError
  bad_arguments : Bytes → FlagError

unfoldable pub find : {V : Type 0} → List (Flag V) → Bytes → Option (Binding V)
find [] name = none
find (flag ∷ flags) name = if flag.name == name then some flag.binding else find flags name

abbrev pub dashes : Bytes
dashes = codes "--"

abbrev pub as_option : Bytes → Bytes
as_option name = dashes ++ name

-- small letters and dashes
abbrev pub is_name_byte : ℕ → Bool
is_name_byte c = (leb b'a' c && leb c b'z') || c == b'-'

abbrev pub IsName : Bytes → Type 0
IsName [] = ⊥
IsName (c ∷ name) = ((leb b'a' c && leb c b'z') ≡ true) × (all is_name_byte name ≡ true)

abbrev pub mark : {V : Type 0} → Bytes → Result FlagError (Parsed V) → Result FlagError (Parsed V)
mark name (err e) = err e
mark name (ok parsed) = ok (record parsed { changed = name ∷ parsed.changed })

-- Parse: the flags, the variables before it and the arguments
abbrev pub Parser : Type 0 → Type 0
Parser V = List (Flag V) → V → List Bytes → Result FlagError (Parsed V)

-- `--name value` sets a string and appends to an array, `--name` sets a Boolean, and `--` ends the
-- flags.
pub record Laws {V : Type 0} (parse : Parser V) : Type 0 where
  pub string_flag :
      (flags : List (Flag V)) (v : V) (name value : Bytes) (rest : List Bytes) (set : Bytes → V → V)
      → IsName name
      → find flags name ≡ some (string_var set)
      → parse flags v (as_option name ∷ value ∷ rest) ≡ mark name (parse flags (set value v) rest)
  pub array_flag :
      (flags : List (Flag V)) (v : V) (name value : Bytes) (rest : List Bytes) (add : Bytes → V → V)
      → IsName name
      → find flags name ≡ some (string_array_var add)
      → parse flags v (as_option name ∷ value ∷ rest) ≡ mark name (parse flags (add value v) rest)
  pub bool_flag :
      (flags : List (Flag V)) (v : V) (name : Bytes) (rest : List Bytes) (set : Bool → V → V)
      → IsName name
      → find flags name ≡ some (bool_var set)
      → parse flags v (as_option name ∷ rest) ≡ mark name (parse flags (set true v) rest)
  pub terminator :
      (flags : List (Flag V)) (v : V) (rest : List Bytes)
      → parse flags v (dashes ∷ rest) ≡ ok (record { values = v; arguments = rest; changed = [] })
