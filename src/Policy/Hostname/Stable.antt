-- ===== src/Policy/Hostname/Stable.antt =====
-- A canonical hostname is accepted and left as it is.
use airjail.Base.{
  ℕ, ◌-◌, true, false, some, List, [], ◌∷◌, ◌++◌, ◌≡◌, ◌≢◌, refl, ap, arith, length, take, drop,
  take-append-drop, All, ok, all, ltb, ◌⊎◌, inl, inr, ◌==◌, ==_iff, Bool-cases, nat_eq, list_eq,
}
use airjail.Base.Bytes.{Bytes, split, split_from, trim_suffix, has_suffix, to_lower, lower_byte}
use airjail.Policy.Library.{Library}
use airjail.Policy.Hostname.{
  label_byte, last_from, validate_hostname_label, validate_labels, check_ascii, normalize_hostname,
  valid_utf8,
}
use airjail.Policy.Hostname.Laws.{IsLabelByte, IsLabel, IsCanonical, label_byte_complete}

abbrev IsHostByte : ℕ → Type 0
IsHostByte c = IsLabelByte c ⊎ (c ≡ b'.')

append-nonempty : (r : Bytes) (c : ℕ) → r ++ c ∷ [] ≢ []
append-nonempty [] c e = cc
append-nonempty (x ∷ r) c e = cc

All-init : (P : ℕ → Type 0) (r : Bytes) (d : ℕ) → All P (r ++ d ∷ []) → All P r × P d
All-init P [] d h = (tt, h.0)
All-init P (x ∷ r) d h = let (hr, hd) = All-init P r d h.1 in ((h.0, hr), hd)

-- every byte of the text is a separator or stands in a part
split_from-All :
    (first s : Bytes)
    → All (All IsLabelByte) (split_from first s b'.')
    → All IsHostByte s × All IsLabelByte first
unfolding split_from
split_from-All first [] h = (tt, h.0)
split_from-All first (d ∷ s) h =
    ground
      (arith, split_from-All [] s, split_from-All (first ++ d ∷ []) s, All-init IsLabelByte first d)

-- a text that ends with the separator has an empty last part
split_from_ends : (first r : Bytes) → All (λ l. l ≢ []) (split_from first (r ++ b'.' ∷ []) b'.') → ⊥
unfolding split_from
split_from_ends first [] h = h.1.0 refl
split_from_ends first (d ∷ r) h =
    ground (arith, split_from_ends [] r, split_from_ends (first ++ d ∷ []) r)

All-map {ℓ} :
    {A : Type ℓ} (P Q : A → Type 0) (f : (a : A) → P a → Q a) (xs : List A) → All P xs → All Q xs
All-map P Q f [] h = tt
All-map P Q f (x ∷ xs) h = (f x h.0, All-map P Q f xs h.1)

lower_byte_stable : (c : ℕ) → IsHostByte c → lower_byte c ≡ c
unfolding lower_byte
lower_byte_stable c h = ground arith

to_lower_stable : (s : Bytes) → All IsHostByte s → to_lower s ≡ s
unfolding to_lower
to_lower_stable [] h = refl
to_lower_stable (c ∷ s) h = cc (lower_byte_stable c h.0, to_lower_stable s h.1)

host_byte_ascii : (c : ℕ) → IsHostByte c → ltb c 0x80 ≡ true
host_byte_ascii c h = ground arith

valid_utf8_stable : (s : Bytes) → All IsHostByte s → valid_utf8 s ≡ true
unfolding valid_utf8
valid_utf8_stable [] h = refl
valid_utf8_stable (a ∷ []) h = host_byte_ascii a h.0
valid_utf8_stable (a ∷ b ∷ []) h = ground (arith, host_byte_ascii a h.0, host_byte_ascii b h.1.0)
valid_utf8_stable (a ∷ b ∷ c ∷ []) h =
    rw (host_byte_ascii a h.0, valid_utf8_stable (b ∷ c ∷ []) h.1)
valid_utf8_stable (a ∷ b ∷ c ∷ d ∷ s) h =
    rw (host_byte_ascii a h.0, valid_utf8) (valid_utf8_stable (b ∷ c ∷ d ∷ s) h.1)

-- a text that does not end with a dot is left as it is
trim_suffix_stable :
    (s : Bytes) → ((r : Bytes) → s ≢ r ++ b'.' ∷ []) → trim_suffix s (b'.' ∷ []) ≡ s
unfolding trim_suffix has_suffix
trim_suffix_stable s h = elim (Bool-cases (has_suffix s (b'.' ∷ []))) [
  | inl e ↦ absurd (
      h (take (length s - 1) s) (
        ground
          (arith, take-append-drop (length s - 1) s, ==_iff (drop (length s - 1) s) (b'.' ∷ []))))
  | inr e ↦ rw e
]

module _ (host : Bytes) (c : IsCanonical host) where
  canonical_nonempty : All (λ l. l ≢ []) (split host b'.')
  canonical_nonempty = All-map IsLabel (λ l. l ≢ []) (λ l h. h.nonempty) (split host b'.') c.labels

  canonical_bytes : All IsHostByte host
  unfolding split
  canonical_bytes =
      (split_from-All [] host
        (All-map IsLabel (All IsLabelByte) (λ l h. h.bytes) (split host b'.') c.labels)).0

  canonical_no_dot : (r : Bytes) → host ≢ r ++ b'.' ∷ []
  unfolding split
  canonical_no_dot r e = split_from_ends [] r (rw e at canonical_nonempty)

  pub canonical_ne_nil : host ≢ []
  unfolding split split_from
  canonical_ne_nil e =
      let parts : All (λ l. l ≢ []) (split [] b'.') = rw e at canonical_nonempty in parts.0 refl

  canonical_test : (host == []) ≡ false
  canonical_test = ground (arith, ==_iff host [], canonical_ne_nil)

all_complete : (s : Bytes) → All IsLabelByte s → all label_byte s ≡ true
all_complete [] h = refl
all_complete (c ∷ s) h = ground (arith, label_byte_complete c, all_complete s h.1)

-- the last byte, with the bytes before it
last_split : (c : ℕ) (s : Bytes) → (r : Bytes) × (c ∷ s ≡ r ++ last_from c s ∷ [])
unfolding last_from
last_split c [] = ([], refl)
last_split c (d ∷ s) = let (r, e) = last_split d s in (c ∷ r, ap (λ t. c ∷ t) e)

-- Every well formed label is accepted.
pub validate_hostname_label_complete : (s : Bytes) → IsLabel s → validate_hostname_label s ≡ ok tt
unfolding validate_hostname_label
validate_hostname_label_complete [] l = absurd (l.nonempty refl)
validate_hostname_label_complete (c ∷ s) l =
    let (r, e) = last_split c s in
    ground
      (arith, l.short, l.starts c s refl, l.ends r (last_from c s) e, all_complete (c ∷ s) l.bytes)

validate_labels_complete : (ls : List Bytes) → All IsLabel ls → validate_labels ls ≡ ok tt
unfolding validate_labels
validate_labels_complete [] h = refl
validate_labels_complete (l ∷ ls) h =
    rw (validate_hostname_label_complete l h.0) (validate_labels_complete ls h.1)

-- A canonical hostname that IDNA leaves alone is accepted and returned as it is.
pub normalize_hostname_stable :
    (lib : Library) (host : Bytes)
    → IsCanonical host
    → lib.to_ascii host ≡ some host
    → normalize_hostname lib host ≡ ok host
unfolding normalize_hostname check_ascii
normalize_hostname_stable lib host c kept = ground (
  arith,
  kept,
  valid_utf8_stable host (canonical_bytes host c),
  trim_suffix_stable host (canonical_no_dot host c),
  to_lower_stable host (canonical_bytes host c),
  validate_labels_complete (split host b'.') c.labels,
  c.short,
  canonical_test host c,
)
