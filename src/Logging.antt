-- ===== src/Logging.antt =====
-- internal/logging/logging.go: the levels, the prefixes and the line that a message becomes.
-- strings.TrimSpace and fmt.Sprintf are parameters; the writer is the list of what was written to it.
pub mod Levels
use airjail.Base.{
  ℕ, Bool, true, false, not, ◌&&◌, ◌||◌, Option, none, some, List, [], ◌∷◌, ◌++◌, if◌then◌else◌,
  Result, ok, err, ltb, ◌==◌, list_eq, nat_eq,
}
use airjail.Base.Bytes.{Bytes, codes, to_lower}

-- Level is an unsigned integer
abbrev pub Level : Type 0
Level = ℕ

abbrev pub silent : Level
silent = 0

abbrev pub warning : Level
warning = 1

abbrev pub traffic : Level
traffic = 2

abbrev pub info : Level
info = 3

abbrev pub debug : Level
debug = 4

-- Level.String
unfoldable pub level_string : Level → Bytes
level_string level =
    if level == silent
    then codes "silent"
    else if level == warning
    then codes "warning"
    else if level == traffic
    then codes "traffic"
    else if level == info
    then codes "info"
    else if level == debug
    then codes "debug"
    else codes "warning"

-- the switch of New, on the trimmed text in lower case
unfoldable pub level_of : Bytes → Option Level
level_of name =
    if name == codes "silent"
    then some silent
    else if name == codes "warning"
    then some warning
    else if name == codes "traffic"
    then some traffic
    else if name == codes "info"
    then some info
    else if name == codes "debug"
    then some debug
    else none

-- `has_writer` is whether the writer is not nil.
pub record Logger : Type 0 where
  pub colored : Bool
  pub level : Level
  pub prefix : Bytes
  pub has_writer : Bool

unfoldable pub joined : Bytes → Bytes → Bytes
joined outer prefix = if not (outer == []) then outer ++ codes ": " ++ prefix else prefix

-- `none` is a nil logger.
unfoldable pub with_prefix : Option Logger → Bytes → Option Logger
unfolding joined
with_prefix none prefix = none
with_prefix (some l) prefix = some (record l { prefix = joined l.prefix prefix })

unfoldable pub level_name : Option Logger → Bytes
unfolding level_string
level_name none = level_string silent
level_name (some l) = level_string l.level

-- `terminal` is whether the writer is a file that is a terminal; `none` is the error.
unfoldable pub new : (Bytes → Bytes) → Bool → Bool → Bytes → Bytes → Option Logger
unfolding level_of with_prefix
new trim_space has_writer terminal level prefix = elim (level_of (to_lower (trim_space level))) [
  | none ↦ none
  | some l ↦
      let logger : Logger = record {
        colored = terminal;
        level = l;
        prefix = [];
        has_writer = has_writer;
      } in
      if prefix == [] then some logger else with_prefix (some logger) prefix
]

unfoldable pub message : (Bytes → Bytes) → Option (Bytes → Bytes) → Bytes → Bytes
message trim_space none format = trim_space format
message trim_space (some print) format = print (trim_space format)

-- logf: what is written. `sprintf` is fmt.Sprintf with the arguments, where there are any.
unfoldable pub logf :
    (Bytes → Bytes)
    → Option (Bytes → Bytes)
    → Option Logger
    → Level
    → Bytes
    → Bytes
    → Bytes
    → List Bytes
unfolding message
logf trim_space sprintf none level label color format = []
logf trim_space sprintf (some l) level label color format =
    if not l.has_writer || level == silent || ltb l.level level
    then []
    else (let text = message trim_space sprintf format in
        let reset = if l.colored then 27 ∷ codes "[0m" else [] in
        let start = if l.colored then color else [] in
        let prefix = if not (l.prefix == []) then l.prefix ++ codes ": " else [] in
        (start ++ codes "airjail: " ++ label ++ codes ": " ++ prefix ++ text ++ reset ++ codes "\n")
        ∷ [])

-- Debugf, Infof, Allowf, Blockf and Warnf: the level, the label and the color of each
pub data Kind : Type 0 where
  debugf infof allowf blockf warnf : Kind

abbrev pub level_for : Kind → Level
level_for debugf = debug
level_for infof = info
level_for allowf = traffic
level_for blockf = traffic
level_for warnf = warning

abbrev pub label_for : Kind → Bytes
label_for debugf = codes "debug"
label_for infof = codes "info"
label_for allowf = codes "allowed"
label_for blockf = codes "blocked"
label_for warnf = codes "warning"

abbrev pub color_for : Kind → Bytes
color_for debugf = 27 ∷ codes "[2m"
color_for infof = 27 ∷ codes "[36m"
color_for allowf = 27 ∷ codes "[32m"
color_for blockf = 27 ∷ codes "[31m"
color_for warnf = 27 ∷ codes "[33m"

unfoldable pub emit :
    (Bytes → Bytes) → Option (Bytes → Bytes) → Option Logger → Kind → Bytes → List Bytes
unfolding logf
emit trim_space sprintf logger kind format =
    logf trim_space sprintf logger (level_for kind) (label_for kind) (color_for kind) format
