-- ===== src/Logging/Levels.antt =====
-- Level names are read back, and the level of a logger decides what it writes.
use airjail.Base.{
  ℕ, zero, Bool, true, false, not, ◌||◌, Option, none, some, List, [], ◌∷◌, ◌++◌, ◌≡◌, ◌≢◌, refl,
  subst, suc, Option-cases, ◌↔◌, ◌≤◌, arith, ◌==◌, ==_iff, list_eq, nat_eq, Bool-cases, inl, inr,
  ltb,
}
use airjail.Base.Bytes.{Bytes, codes, to_lower}
use airjail.Logging.{
  Level, level_string, level_of, Logger, logf, Kind, emit, level_for, new, level_name, with_prefix,
  debugf, infof, allowf, blockf, warnf,
}

level_of_sound :
    (name : Bytes) (level : Level)
    → level_of name ≡ some level
    → (level ≤ 4) × (level_string level ≡ name)
unfolding level_of level_string
level_of_sound name level h = ground (
  arith,
  ==_iff name (codes "silent"),
  ==_iff name (codes "warning"),
  ==_iff name (codes "traffic"),
  ==_iff name (codes "info"),
  ==_iff name (codes "debug"),
)

level_of_complete : (level : Level) → level ≤ 4 → level_of (level_string level) ≡ some level
unfolding level_of level_string airjail.Base.list_beq
level_of_complete zero h = refl
level_of_complete (suc zero) h = refl
level_of_complete (suc (suc zero)) h = refl
level_of_complete (suc (suc (suc zero))) h = refl
level_of_complete (suc (suc (suc (suc zero)))) h = refl
level_of_complete (suc (suc (suc (suc (suc n))))) h = absurd (omega arith)

-- A level is read from a text exactly if the text is its name.
pub level_of_iff :
    (name : Bytes) (level : Level)
    → (level_of name ≡ some level) ↔ ((level ≤ 4) × (level_string level ≡ name))
level_of_iff name level = (
  level_of_sound name level,
  (λ (known, named). subst (λ s. level_of s ≡ some level) named (level_of_complete level known)),
)

-- A logger that New makes names the level that was asked for, in lower case and without the space
-- around it.
pub level_name-new :
    (trim_space : Bytes → Bytes) (has_writer terminal : Bool) (level prefix : Bytes) (l : Logger)
    → new trim_space has_writer terminal level prefix ≡ some l
    → level_name (some l) ≡ to_lower (trim_space level)
unfolding new level_name with_prefix
level_name-new trim_space has_writer terminal level prefix l h =
    let text = to_lower (trim_space level) in
    elim (Option-cases (level_of text)) [
      | inl e ↦ absurd (ground (arith, e))
      | inr (n, e) ↦ ground (arith, e, level_of_sound text n e)
    ]

-- A message is written, as one line, exactly if its logger has a writer and a level that is at least
-- the message's; a logger of level silent writes none.
pub emit-written :
    (trim_space : Bytes → Bytes) (sprintf : Option (Bytes → Bytes)) (l : Logger) (kind : Kind)
    (format : Bytes)
    → (emit trim_space sprintf (some l) kind format ≢ [])
      ↔ ((l.has_writer ≡ true) × (level_for kind ≤ l.level))
unfolding emit logf
emit-written trim_space sprintf l kind format = elim kind [
  | debugf ↦ ground arith
  | infof ↦ ground arith
  | allowf ↦ ground arith
  | blockf ↦ ground arith
  | warnf ↦ ground arith
]
