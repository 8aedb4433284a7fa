-- ===== src/Policy/Hostname/Laws.antt =====
-- What NormalizeHostname guarantees of its result.
use airjail.Base.{
  ℕ, ◌≤◌, true, Option, none, some, List, [], ◌∷◌, ◌++◌, ◌≡◌, ◌≢◌, refl, arith, length, All, ok,
  all, ◌⊎◌,
}
use airjail.Base.Bytes.{Bytes, split, trim_suffix, to_lower}
use airjail.Policy.Library.{Library}
use airjail.Policy.Hostname.{
  label_byte, last_from, validate_hostname_label, validate_labels, check_ascii, normalize_hostname,
}

-- a byte that a canonical label may hold: a-z, 0-9 or a hyphen
abbrev pub IsLabelByte : ℕ → Type 0
IsLabelByte c = ((b'a' ≤ c) × (c ≤ b'z')) ⊎ (((b'0' ≤ c) × (c ≤ b'9')) ⊎ (c ≡ b'-'))

pub record IsLabel (s : Bytes) : Type 0 where
  pub nonempty : s ≢ []
  pub short : length s ≤ 63
  pub bytes : All IsLabelByte s
  pub starts : (c : ℕ) (r : Bytes) → s ≡ c ∷ r → c ≢ b'-'
  pub ends : (r : Bytes) (c : ℕ) → s ≡ r ++ c ∷ [] → c ≢ b'-'

-- A hostname as the policy stores and compares it: dot-separated labels, at most 253 bytes.
pub record IsCanonical (host : Bytes) : Type 0 where
  pub short : length host ≤ 253
  pub labels : All IsLabel (split host b'.')

label_byte_sound : (c : ℕ) → label_byte c ≡ true → IsLabelByte c
unfolding label_byte
label_byte_sound c h = ground arith

pub label_byte_complete : (c : ℕ) → IsLabelByte c → label_byte c ≡ true
unfolding label_byte
label_byte_complete c h = ground arith

all_sound : (s : Bytes) → all label_byte s ≡ true → All IsLabelByte s
all_sound [] h = tt
all_sound (c ∷ s) h = ground (arith, label_byte_sound c, all_sound s)

last_from-append : (c d : ℕ) (r : Bytes) → last_from c (r ++ d ∷ []) ≡ d
unfolding last_from
last_from-append c d [] = refl
last_from-append c d (x ∷ r) = last_from-append x d r

last_lem : (c d : ℕ) (s r : Bytes) → c ∷ s ≡ r ++ d ∷ [] → last_from c s ≡ d
unfolding last_from
last_lem c d s [] e = cc
last_lem c d s (x ∷ r) e = ground (arith, last_from-append c d r)

-- An accepted label is well formed.
validate_hostname_label-IsLabel : (s : Bytes) → validate_hostname_label s ≡ ok tt → IsLabel s
unfolding validate_hostname_label
validate_hostname_label-IsLabel [] h = cc
validate_hostname_label-IsLabel (c ∷ s) h = record {
  nonempty = λ e. cc;
  short = ground arith;
  bytes = all_sound (c ∷ s) (ground arith);
  starts = λ d r e. ground arith;
  ends = λ r d e. ground (arith, last_lem c d s r e);
}

validate_labels-IsLabel : (ls : List Bytes) → validate_labels ls ≡ ok tt → All IsLabel ls
unfolding validate_labels
validate_labels-IsLabel [] h = tt
validate_labels-IsLabel (l ∷ ls) h =
    (validate_hostname_label-IsLabel l (ground arith), validate_labels-IsLabel ls (ground arith))

check_ascii_inversion :
    (a host : Bytes)
    → check_ascii (some a) ≡ ok host
    → (to_lower a ≡ host) × (length host ≤ 253) × (validate_labels (split host b'.') ≡ ok tt)
unfolding check_ascii
check_ascii_inversion a host h = ground arith

check_ascii-IsCanonical :
    (o : Option Bytes) (host : Bytes) → check_ascii o ≡ ok host → IsCanonical host
check_ascii-IsCanonical none host h = unfold check_ascii in cc
check_ascii-IsCanonical (some a) host h =
    let (_, short, labels) = check_ascii_inversion a host h in
    record { short = short; labels = validate_labels-IsLabel (split host b'.') labels }

-- Whatever IDNA answers, an accepted hostname is canonical: at most 253 bytes, in dot-separated
-- labels of 1 to 63 bytes out of a-z, 0-9 and the hyphen, with no hyphen at either end.
pub normalize_hostname-IsCanonical :
    (lib : Library) (raw host : Bytes) → normalize_hostname lib raw ≡ ok host → IsCanonical host
unfolding normalize_hostname
normalize_hostname-IsCanonical lib raw host h =
    check_ascii-IsCanonical (lib.to_ascii (trim_suffix raw (b'.' ∷ []))) host (ground arith)
