-- ===== src/Capabilities.antt =====
-- internal/namespace/capabilities_linux.go: which of the capabilities that airjail drops a caller may
-- ask to keep, and which of these are kept.
pub mod Parsed
pub mod Drop
pub mod Clearing
use airjail.Base.{
  ℕ, ◌+◌, ◌/◌, ◌%◌, ◌^◌, Bool, true, false, not, ◌&&◌, ◌||◌, Option, none, some, List, [], ◌∷◌,
  ◌++◌, map, if◌then◌else◌, Result, ok, err, ◌>>=◌, ltb, ◌==◌, list_eq, nat_eq, contains,
}
use airjail.Base.Bytes.{Bytes, codes, has_prefix}

pub record DangerousCapability : Type 0 where
  pub name : Bytes
  pub value : ℕ

abbrev pub values : List DangerousCapability → List ℕ
values = map (λ (c : DangerousCapability). c.value)

-- strings.ToUpper, strings.TrimSpace, and the numbers that golang.org/x/sys/unix gives the names
pub record Unix : Type 0 where
  pub to_upper : Bytes → Bytes
  pub trim_space : Bytes → Bytes
  pub number : Bytes → ℕ

abbrev pub dangerous_names : List Bytes
dangerous_names =
    codes "CAP_SYS_ADMIN"
    ∷ codes "CAP_NET_ADMIN"
    ∷ codes "CAP_SYS_PTRACE"
    ∷ codes "CAP_SYS_MODULE"
    ∷ codes "CAP_SYS_RAWIO"
    ∷ codes "CAP_BPF"
    ∷ codes "CAP_PERFMON"
    ∷ codes "CAP_CHECKPOINT_RESTORE"
    ∷ []

unfoldable pub dangerous_capabilities : Unix → List DangerousCapability
dangerous_capabilities unix =
    map (λ name. record { name = name; value = unix.number name }) dangerous_names

-- capabilitiesByName[name]; the names of the table are different
unfoldable pub by_name : List DangerousCapability → Bytes → Option DangerousCapability
by_name [] name = none
by_name (capability ∷ rest) name =
    if capability.name == name then some capability else by_name rest name

unfoldable pub full_name : Unix → Bytes → Bytes
full_name unix raw =
    let name = unix.to_upper (unix.trim_space raw) in
    if has_prefix name (codes "CAP_") then name else codes "CAP_" ++ name

-- The loop of parseUnsafeCapabilities; `seen` and `parsed` are its variables, the error is the name
-- that is not known.
unfoldable pub parse_each :
    Unix → List Bytes → List ℕ → List DangerousCapability → Result Bytes (List DangerousCapability)
unfolding by_name full_name dangerous_capabilities
parse_each unix [] seen parsed = ok parsed
parse_each unix (raw ∷ requested) seen parsed =
    elim (by_name (dangerous_capabilities unix) (full_name unix raw)) [
      | none ↦ err raw
      | some capability ↦
          if contains seen capability.value
          then parse_each unix requested seen parsed
          else parse_each unix requested (capability.value ∷ seen) (parsed ++ capability ∷ [])
    ]

unfoldable pub parse_unsafe_capabilities :
    Unix → List Bytes → Result Bytes (List DangerousCapability)
unfolding parse_each
parse_unsafe_capabilities unix requested = parse_each unix requested [] []

unfoldable pub unsafe_capability_values : Unix → List Bytes → Result Bytes (List ℕ)
unfolding parse_unsafe_capabilities
unsafe_capability_values unix names =
    parse_unsafe_capabilities unix names >>= λ capabilities. ok (values capabilities)

-- the permitted sets of the two words of unix.CapUserData
pub record Permitted : Type 0 where
  pub low : ℕ
  pub high : ℕ

-- data[capability / 32] & (1 << (capability % 32)); the second word is the last
unfoldable pub capability_permitted : Permitted → ℕ → Bool
capability_permitted data_words capability =
    let word = if ltb (capability / 32) 1 then data_words.low else data_words.high in
    (word / 2 ^ (capability % 32)) % 2 == 1

pub data Mode : Type 0 where
  rootless permission_preserving : Mode

abbrev pub preserves : Mode → Bool
preserves rootless = false
preserves permission_preserving = true

unfoldable pub select_unsafe_capabilities : List DangerousCapability → Mode → Permitted → List Bytes
unfolding capability_permitted
select_unsafe_capabilities [] mode data_words = []
select_unsafe_capabilities (capability ∷ requested) mode data_words =
    let kept = select_unsafe_capabilities requested mode data_words in
    if not (capability_permitted data_words capability.value)
    then kept
    else if not (preserves mode)
    then kept
    else capability.name ∷ kept

-- resolveUnsafeCapabilities: `none` in place of the words is a failed Capget
pub data ResolveError : Type 0 where
  unknown_name : Bytes → ResolveError
  capget_failed : ResolveError

unfoldable pub resolve_unsafe_capabilities :
    Unix → List Bytes → Mode → Option Permitted → Result ResolveError (List Bytes)
unfolding parse_unsafe_capabilities select_unsafe_capabilities
resolve_unsafe_capabilities unix requested mode words =
    elim (parse_unsafe_capabilities unix requested) [
      | err raw ↦ err (unknown_name raw)
      | ok parsed ↦ elim words [
        | none ↦ err capget_failed
        | some data_words ↦ ok (select_unsafe_capabilities parsed mode data_words)
      ]
    ]
