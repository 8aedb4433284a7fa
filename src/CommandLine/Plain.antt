-- ===== src/CommandLine/Plain.antt =====
-- Parse of pflag on options that are given, or left out for their default.
use airjail.Base.{
  ℕ, zero, suc, all, ◌≤◌, Bool, true, false, not, ◌&&◌, ◌||◌, Option, none, some, List, [], ◌∷◌,
  ◌++◌, ◌≡◌, ◌≢◌, ◌∙◌, refl, sym, ap, if◌then◌else◌, Result, ok, err, wrap, ◌>>=◌, ◌==◌, ==_iff,
  list_eq, nat_eq, arith, Bool-cases, Result-cases, Option-cases, inl, inr, append_assoc,
  append-nil, drop,
}
use airjail.Base.Bytes.{Bytes}
use airjail.CommandLine.Pflag.{
  string_var, bool_var, string_array_var, Flag, Parsed, FlagError, as_option, Parser, Laws, mark,
  find, IsName,
}
use airjail.CommandLine.Supervise.{string_option, bool_option}

-- the values and the arguments of an outcome, without the names that were changed
abbrev pub plain : {V : Type 0} → Result FlagError (Parsed V) → Result FlagError (V × List Bytes)
plain (err e) = err e
plain (ok parsed) = ok (parsed.values, parsed.arguments)

plain-mark :
    {V : Type 0} (name : Bytes) (r : Result FlagError (Parsed V)) → plain (mark name r) ≡ plain r
plain-mark name (err e) = refl
plain-mark name (ok parsed) = refl

module _ {V : Type 0} (parse : Parser V) (lib : Laws parse) (flags : List (Flag V)) where
  pub plain-string :
      (v : V) (name value : Bytes) (rest : List Bytes) (set : Bytes → V → V)
      → IsName name
      → find flags name ≡ some (string_var set)
      → plain (parse flags v (as_option name ∷ value ∷ rest))
        ≡ plain (parse flags (set value v) rest)
  plain-string v name value rest set n h =
      ap plain (lib.string_flag flags v name value rest set n h)
      ∙ plain-mark name (parse flags (set value v) rest)

  pub plain-array :
      (v : V) (name value : Bytes) (rest : List Bytes) (add : Bytes → V → V)
      → IsName name
      → find flags name ≡ some (string_array_var add)
      → plain (parse flags v (as_option name ∷ value ∷ rest))
        ≡ plain (parse flags (add value v) rest)
  plain-array v name value rest add n h =
      ap plain (lib.array_flag flags v name value rest add n h)
      ∙ plain-mark name (parse flags (add value v) rest)

  pub plain-bool :
      (v : V) (name : Bytes) (rest : List Bytes) (set : Bool → V → V)
      → IsName name
      → find flags name ≡ some (bool_var set)
      → plain (parse flags v (as_option name ∷ rest)) ≡ plain (parse flags (set true v) rest)
  plain-bool v name rest set n h =
      ap plain (lib.bool_flag flags v name rest set n h)
      ∙ plain-mark name (parse flags (set true v) rest)

  -- a string that is left out where it is empty, which is the default
  pub plain-string_option :
      (v : V) (name value : Bytes) (rest : List Bytes) (set : Bytes → V → V)
      → IsName name
      → find flags name ≡ some (string_var set)
      → set [] v ≡ v
      → plain (parse flags v (string_option name value ++ rest))
        ≡ plain (parse flags (set value v) rest)
  unfolding airjail.Base.list_beq
  plain-string_option v name [] rest set n h same = rw same
  plain-string_option v name (c ∷ value) rest set n h same =
      plain-string v name (c ∷ value) rest set n h

  pub plain-bool_option :
      (v : V) (name : Bytes) (value : Bool) (rest : List Bytes) (set : Bool → V → V)
      → IsName name
      → find flags name ≡ some (bool_var set)
      → set false v ≡ v
      → plain (parse flags v (bool_option name value ++ rest))
        ≡ plain (parse flags (set value v) rest)
  plain-bool_option v name false rest set n h same = rw same
  plain-bool_option v name true rest set n h same = plain-bool v name rest set n h

pub plain-ok :
    {V : Type 0} (r : Result FlagError (Parsed V)) (v : V) (rest : List Bytes)
    → plain r ≡ ok (v, rest)
    → (parsed : Parsed V) × (r ≡ ok parsed) × (parsed.values ≡ v) × (parsed.arguments ≡ rest)
plain-ok (err e) v rest h = absurd (cc)
plain-ok (ok parsed) v rest h = (parsed, refl, cc, cc)
