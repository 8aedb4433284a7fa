-- ===== src/CommandLine/LogLevel.antt =====
-- The level that airjail names to its supervisor is the level of the supervisor's logger.
use airjail.Base.{
  ℕ, zero, suc, all, ◌≤◌, Bool, true, false, not, ◌&&◌, ◌||◌, Option, none, some, List, [], ◌∷◌,
  ◌++◌, ◌≡◌, ◌≢◌, ◌∙◌, refl, sym, ap, if◌then◌else◌, Result, ok, err, wrap, ◌>>=◌, ◌==◌, ==_iff,
  list_eq, nat_eq, arith, Bool-cases, Result-cases, Option-cases, inl, inr, append_assoc,
  append-nil, drop,
}
use airjail.Base.Bytes.{Bytes, codes, to_lower}
use airjail.Logging.{Level, Logger, new, level_name, level_string, level_of, with_prefix}
use airjail.Logging.Levels.{level_of_iff}
use airjail.CommandLine.Pflag.{is_name_byte}
use airjail.CommandLine.Supervise.{Process}

-- the logger of New for the name of a level
abbrev pub leveled : Process → Level → Logger
leveled process level = record {
  colored = process.terminal;
  level = level;
  prefix = codes "supervisor";
  has_writer = true;
}

-- strings.TrimSpace keeps a text of letters and dashes.
abbrev pub Trims : (Bytes → Bytes) → Type 0
Trims trim_space = (s : Bytes) → all is_name_byte s ≡ true → trim_space s ≡ s

level_string-name : (level : Level) → level ≤ 4 → all is_name_byte (level_string level) ≡ true
unfolding level_string
level_string-name zero h = refl
level_string-name (suc zero) h = refl
level_string-name (suc (suc zero)) h = refl
level_string-name (suc (suc (suc zero))) h = refl
level_string-name (suc (suc (suc (suc zero)))) h = refl
level_string-name (suc (suc (suc (suc (suc n))))) h = absurd (omega arith)

to_lower-level_string :
    (level : Level) → level ≤ 4 → to_lower (level_string level) ≡ level_string level
unfolding level_string to_lower
to_lower-level_string zero h = refl
to_lower-level_string (suc zero) h = refl
to_lower-level_string (suc (suc zero)) h = refl
to_lower-level_string (suc (suc (suc zero))) h = refl
to_lower-level_string (suc (suc (suc (suc zero)))) h = refl
to_lower-level_string (suc (suc (suc (suc (suc n))))) h = absurd (omega arith)

new-level :
    (process : Process) (text : Bytes) (level : Level)
    → level_of (to_lower (process.trim_space text)) ≡ some level
    → new process.trim_space true process.terminal text (codes "supervisor")
      ≡ some (leveled process level)
unfolding new with_prefix airjail.Base.list_beq
new-level process text level found =
    elim (Option-cases (level_of (to_lower (process.trim_space text)))) [
      | inl e ↦ absurd (cc)
      | inr (n, e) ↦ ground (arith, e, found)
    ]

pub new-level_name :
    (process : Process) (l : Logger)
    → Trims process.trim_space
    → l.level ≤ 4
    → new process.trim_space true process.terminal (level_name (some l)) (codes "supervisor")
      ≡ some (leveled process l.level)
unfolding level_name
new-level_name process l trims known =
    let text = level_string l.level in
    let read =
      ap to_lower (trims text (level_string-name l.level known))
      ∙ to_lower-level_string l.level known in
    new-level process text l.level
      ((level_of_iff (to_lower (process.trim_space text)) l.level).1 (known, sym read))
