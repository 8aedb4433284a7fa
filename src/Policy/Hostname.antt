-- ===== src/Policy/Hostname.antt =====
-- internal/policy/rules.go: NormalizeHostname and the checks of a label.
pub mod Laws
pub mod Stable
use airjail.Base.{
  ℕ, ◌-◌, Bool, true, false, ◌&&◌, ◌||◌, Option, none, some, List, [], ◌∷◌, ◌++◌, leb, ltb,
  if◌then◌else◌, length, drop, all, Result, ok, err, ◌>>=◌, ◌>>◌, guard, ◌==◌, nat_eq, list_eq,
}
use airjail.Base.Bytes.{Bytes, trim_suffix, to_lower, split}
use airjail.Policy.Errors.{
  HostnameError, not_utf8, hostname_empty, idna_failed, hostname_too_long, empty_label,
  label_too_long, label_hyphen, label_character,
}
use airjail.Policy.Library.{Library}

abbrev in_range : ℕ → ℕ → ℕ → Bool
in_range lo hi c = leb lo c && leb c hi

-- a continuation byte of UTF-8
abbrev trail : ℕ → Bool
trail = in_range 0x80 0xbf

-- utf8.ValidString: no overlong form, no surrogate, nothing above U+10FFFF.
utf8_two : ℕ → ℕ → Bool
utf8_two a b = in_range 0xc2 0xdf a && trail b

utf8_three : ℕ → ℕ → ℕ → Bool
utf8_three a b c =
    trail c
    && (a == 0xe0 && in_range 0xa0 0xbf b
        || in_range 0xe1 0xec a && trail b
        || a == 0xed && in_range 0x80 0x9f b
        || in_range 0xee 0xef a && trail b)

utf8_four : ℕ → ℕ → ℕ → ℕ → Bool
utf8_four a b c d =
    trail c
    && trail d
    && (a == 0xf0 && in_range 0x90 0xbf b
        || in_range 0xf1 0xf3 a && trail b
        || a == 0xf4 && in_range 0x80 0x8f b)

unfoldable pub valid_utf8 : Bytes → Bool
unfolding utf8_two utf8_three utf8_four
valid_utf8 [] = true
valid_utf8 (a ∷ []) = ltb a 0x80
valid_utf8 (a ∷ b ∷ []) = ltb a 0x80 && valid_utf8 (b ∷ []) || utf8_two a b
valid_utf8 (a ∷ b ∷ c ∷ []) =
    ltb a 0x80 && valid_utf8 (b ∷ c ∷ []) || utf8_two a b && valid_utf8 (c ∷ []) || utf8_three a b c
valid_utf8 (a ∷ b ∷ c ∷ d ∷ s) = elim (ltb a 0x80) [
  | true ↦ valid_utf8 (b ∷ c ∷ d ∷ s)
  | false ↦ elim (utf8_two a b) [
    | true ↦ valid_utf8 (c ∷ d ∷ s)
    | false ↦ elim (utf8_three a b c) [
      | true ↦ valid_utf8 (d ∷ s)
      | false ↦ utf8_four a b c d && valid_utf8 s
    ]
  ]
]

-- What the loop over a label lets pass. A byte that is not ASCII belongs to a rune that fails.
unfoldable pub label_byte : ℕ → Bool
label_byte c = leb b'a' c && leb c b'z' || leb b'0' c && leb c b'9' || c == b'-'

-- the last byte, with `c` for the byte before the rest
unfoldable pub last_from : ℕ → Bytes → ℕ
last_from c [] = c
last_from c (d ∷ s) = last_from d s

unfoldable pub validate_hostname_label : Bytes → Result HostnameError (Unit {0})
unfolding label_byte last_from
validate_hostname_label [] = err empty_label
validate_hostname_label (c ∷ s) =
    if ltb 63 (length (c ∷ s))
    then err label_too_long
    else if c == b'-' || last_from c s == b'-'
    then err label_hyphen
    else if all label_byte (c ∷ s)
    then ok tt
    else err label_character

unfoldable pub validate_labels : List Bytes → Result HostnameError (Unit {0})
unfolding validate_hostname_label
validate_labels [] = ok tt
validate_labels (label ∷ labels) = validate_hostname_label label >> validate_labels labels

-- the part behind idna.Lookup.ToASCII
unfoldable pub check_ascii : Option Bytes → Result HostnameError Bytes
unfolding validate_labels
check_ascii none = err idna_failed
check_ascii (some ascii) =
    let host = to_lower ascii in
    if ltb 253 (length host)
    then err hostname_too_long
    else (validate_labels (split host b'.') >> ok host)

unfoldable pub normalize_hostname : Library → Bytes → Result HostnameError Bytes
unfolding check_ascii
normalize_hostname lib raw =
    if valid_utf8 raw
    then (let host = trim_suffix raw (b'.' ∷ []) in
        if host == [] then err hostname_empty else check_ascii (lib.to_ascii host))
    else err not_utf8
