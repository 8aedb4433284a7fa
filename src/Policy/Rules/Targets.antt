-- ===== src/Policy/Rules/Targets.antt =====
-- How a rule is taken apart into a target and a port.
use airjail.Base.{
  ℕ, zero, suc, ◌-◌, ◌<◌, true, false, Option, none, some, [], ◌∷◌, ◌++◌, ◌≡◌, ◌≢◌, ◌⊎◌, inl, inr,
  refl, sym, ap, ◌∙◌, subst, arith, ok, ◌==◌, ==_iff, nat_eq, list_eq, list_beq, Option-cases,
  Result-cases, Bool-cases, length, take, drop, length-append, contains,
}
use airjail.Base.Bytes.{Bytes, codes, has_prefix, index_byte, last_index_byte}
use airjail.Policy.Library.{Library}
use airjail.Policy.Rules.{
  PortMatcher, Target, any_port, parse_port, split_bracketed, split_at_colon, split_rule_port,
}

-- How a rule may be written, with the target that it denotes.
pub data Written (raw : Bytes) : Target → Type 0 where
  bare : (t : Target) → t.host ≡ raw → t.port ≡ any_port → t.bracketed ≡ false → Written raw t
  with_port :
      (t : Target) (port : Bytes)
      → raw ≡ t.host ++ b':' ∷ port
      → t.host ≢ []
      → parse_port port ≡ ok t.port
      → t.bracketed ≡ false
      → Written raw t
  in_brackets :
      (t : Target) (port : Bytes)
      → raw ≡ b'[' ∷ (t.host ++ b']' ∷ b':' ∷ port)
      → t.host ≢ []
      → contains t.host b']' ≡ false
      → parse_port port ≡ ok t.port
      → t.bracketed ≡ true
      → Written raw t

-- the place of a byte cuts the text there
index_byte_cut :
    (s : Bytes) (c i : ℕ)
    → index_byte s c ≡ some i
    → (s ≡ take i s ++ c ∷ drop (suc i) s) × (contains (take i s) c ≡ false)
unfolding index_byte contains
index_byte_cut [] c i h = cc
index_byte_cut (d ∷ s) c zero h = ground (arith, Option-cases (index_byte s c))
index_byte_cut (d ∷ s) c (suc i) h =
    ground (arith, Option-cases (index_byte s c), index_byte_cut s c i)

last_index_byte_cut :
    (s : Bytes) (c i : ℕ) → last_index_byte s c ≡ some i → s ≡ take i s ++ c ∷ drop (suc i) s
unfolding last_index_byte
last_index_byte_cut [] c i h = cc
last_index_byte_cut (d ∷ s) c zero h = ground (arith, Option-cases (last_index_byte s c))
last_index_byte_cut (d ∷ s) c (suc i) h =
    ground (arith, Option-cases (last_index_byte s c), last_index_byte_cut s c i)

drop_next : (s : Bytes) (i c : ℕ) (r : Bytes) → drop i s ≡ c ∷ r → drop (suc i) s ≡ r
drop_next [] zero c r h = cc
drop_next [] (suc i) c r h = cc
drop_next (d ∷ s) zero c r h = cc
drop_next (d ∷ s) (suc i) c r h = drop_next s i c r h

-- a text whose first byte is a colon
colon_first : (s : Bytes) → (take 1 s == codes ":") ≡ true → (r : Bytes) × (s ≡ b':' ∷ r)
unfolding list_beq
colon_first [] h = cc
colon_first (c ∷ s) h = (s, ground arith)

split_bracketed_inversion :
    (r : Bytes) (i : ℕ) (t : Target)
    → split_bracketed (b'[' ∷ r) (some (suc i)) ≡ ok t
    → (0 < i)
      × ((take 1 (drop (suc i) r) == codes ":") ≡ true)
      × (parse_port (drop (suc (suc i)) r) ≡ ok t.port)
      × (t.host ≡ take i r)
      × (t.bracketed ≡ true)
unfolding split_bracketed
split_bracketed_inversion r i t h =
    let here : suc i - 1 ≡ i = omega arith in
    elim (Result-cases (parse_port (drop (suc (suc i)) r))) [
      | inl (port, e) ↦ ground (arith, e, here)
      | inr (fault, e) ↦ absurd (ground (arith, e))
    ]

take_pos : (i : ℕ) (r : Bytes) → 0 < i → r ≢ [] → take i r ≢ []
take_pos zero r h ne e = absurd (omega arith)
take_pos (suc i) [] h ne e = ne refl
take_pos (suc i) (c ∷ r) h ne e = cc

index_byte-ne-nil : (s : Bytes) (c i : ℕ) → index_byte s c ≡ some i → s ≢ []
unfolding index_byte
index_byte-ne-nil [] c i h e = cc
index_byte-ne-nil (d ∷ s) c i h e = cc

split_bracketed-Written :
    (r : Bytes) (i : ℕ) (t : Target)
    → index_byte r b']' ≡ some i
    → split_bracketed (b'[' ∷ r) (some (suc i)) ≡ ok t
    → Written (b'[' ∷ r) t
split_bracketed-Written r i t e h =
    let (pos, colon, parsed, host, bracketed) = split_bracketed_inversion r i t h in
    let (cut, lacks) = index_byte_cut r b']' i e in
    let (port, tail) = colon_first (drop (suc i) r) colon in
    let rest : drop (suc (suc i)) r ≡ port = drop_next r (suc i) b':' port tail in
    let spelled : r ≡ take i r ++ b']' ∷ b':' ∷ port = cut ∙ ap (λ s. take i r ++ b']' ∷ s) tail in
    in_brackets t port (ap (λ s. b'[' ∷ s) (spelled ∙ ap (λ s. s ++ b']' ∷ b':' ∷ port) (sym host)))
      (λ p. take_pos i r pos (index_byte-ne-nil r b']' i e) (sym host ∙ p))
      (subst (λ s. contains s b']' ≡ false) (sym host) lacks)
      (subst (λ s. parse_port s ≡ ok t.port) rest parsed) bracketed

split_at_colon_inversion :
    (raw : Bytes) (i : ℕ) (t : Target)
    → split_at_colon raw (some i) ≡ ok t
    → (0 < i)
      × (parse_port (drop (suc i) raw) ≡ ok t.port)
      × (t.host ≡ take i raw)
      × (t.bracketed ≡ false)
unfolding split_at_colon
split_at_colon_inversion raw i t h = elim (Result-cases (parse_port (drop (suc i) raw))) [
  | inl (port, e) ↦ ground (arith, e)
  | inr (fault, e) ↦ absurd (ground (arith, e))
]

last_index_byte-ne-nil : (s : Bytes) (c i : ℕ) → last_index_byte s c ≡ some i → s ≢ []
unfolding last_index_byte
last_index_byte-ne-nil [] c i h e = cc
last_index_byte-ne-nil (d ∷ s) c i h e = cc

split_at_colon-Written :
    (raw : Bytes) (o : Option ℕ) (t : Target)
    → last_index_byte raw b':' ≡ o
    → split_at_colon raw o ≡ ok t
    → Written raw t
split_at_colon-Written raw none t e h = unfold split_at_colon in cc
split_at_colon-Written raw (some i) t e h =
    let (pos, parsed, host, bare_host) = split_at_colon_inversion raw i t h in
    let cut = last_index_byte_cut raw b':' i e in
    with_port t (drop (suc i) raw) (cut ∙ ap (λ s. s ++ b':' ∷ drop (suc i) raw) (sym host))
      (λ p. take_pos i raw pos (last_index_byte-ne-nil raw b':' i e) (sym host ∙ p)) parsed
      bare_host

-- the three ways out of the part that is not in brackets
unbracketed_inversion :
    (lib : Library) (raw : Bytes) (t : Target)
    → raw ≢ []
    → has_prefix raw (codes "[") ≡ false
    → split_rule_port lib raw ≡ ok t
    → (t ≡ record { host = raw; port = any_port; bracketed = false })
      ⊎ (split_at_colon raw (last_index_byte raw b':') ≡ ok t)
unfolding split_rule_port
unbracketed_inversion lib raw t ne unbracketed h =
    ground
      (arith, ==_iff raw [], Option-cases (lib.parse_addr raw), Option-cases (lib.parse_prefix raw))

bracketed_inversion :
    (lib : Library) (r : Bytes) (t : Target)
    → split_rule_port lib (b'[' ∷ r) ≡ ok t
    → (i : ℕ) × (index_byte r b']' ≡ some i) × (split_bracketed (b'[' ∷ r) (some (suc i)) ≡ ok t)
unfolding split_rule_port has_prefix index_byte list_beq
bracketed_inversion lib r t h = elim (Option-cases (index_byte r b']')) [
  | inl e ↦ absurd (ground (arith, e))
  | inr (i, e) ↦ (i, e, ground (arith, e))
]

unbracketed-Written :
    (lib : Library) (raw : Bytes) (t : Target)
    → raw ≢ []
    → has_prefix raw (codes "[") ≡ false
    → split_rule_port lib raw ≡ ok t
    → Written raw t
unbracketed-Written lib raw t ne unbracketed h =
    elim (unbracketed_inversion lib raw t ne unbracketed h) [
      | inl e ↦
          bare t (ap (λ (u : Target). u.host) e) (ap (λ (u : Target). u.port) e)
            (ap (λ (u : Target). u.bracketed) e)
      | inr e ↦ split_at_colon-Written raw (last_index_byte raw b':') t refl e
    ]

-- A rule is taken apart only in one of three ways: as a whole with any port, as a nonempty target
-- before its last colon with a port behind it, or as a nonempty text in brackets that holds no
-- closing bracket, with a colon and a port behind it. The pieces spell the rule.
pub split_rule_port-Written :
    (lib : Library) (raw : Bytes) (t : Target) → split_rule_port lib raw ≡ ok t → Written raw t
split_rule_port-Written lib [] t h = unfold split_rule_port list_beq in cc
split_rule_port-Written lib (c ∷ r) t h = elim (Bool-cases (c == b'[')) [
  | inl e ↦
      let first : c ≡ b'[' = ground arith in
      let h' : split_rule_port lib (b'[' ∷ r) ≡ ok t =
        subst (λ d. split_rule_port lib (d ∷ r) ≡ ok t) first h in
      let (i, place, inner) = bracketed_inversion lib r t h' in
      subst (λ d. Written (d ∷ r) t) (sym first) (split_bracketed-Written r i t place inner)
  | inr e ↦ unbracketed-Written lib (c ∷ r) t (λ p. cc) (unfold has_prefix in rw e) h
]

take_here : (s : Bytes) (r : Bytes) → take (length s) (s ++ r) ≡ s
take_here [] r = refl
take_here (c ∷ s) r = ap (λ t. c ∷ t) (take_here s r)

drop_here : (s : Bytes) (c : ℕ) (r : Bytes) → drop (suc (length s)) (s ++ c ∷ r) ≡ r
drop_here [] c r = refl
drop_here (d ∷ s) c r = drop_here s c r

index_byte_here :
    (s : Bytes) (c : ℕ) (r : Bytes)
    → contains s c ≡ false
    → index_byte (s ++ c ∷ r) c ≡ some (length s)
unfolding index_byte contains
index_byte_here [] c r h = ground arith
index_byte_here (d ∷ s) c r h = ground (arith, index_byte_here s c r)

split_bracketed_here :
    (host port : Bytes) (m : PortMatcher)
    → host ≢ []
    → parse_port port ≡ ok m
    → split_bracketed (b'[' ∷ (host ++ b']' ∷ b':' ∷ port)) (some (suc (length host)))
      ≡ ok (record { host = host; port = m; bracketed = true })
unfolding split_bracketed list_beq
split_bracketed_here [] port m ne parsed = absurd (ne refl)
split_bracketed_here (c ∷ host) port m ne parsed =
    let text : Bytes = (c ∷ host) ++ b']' ∷ b':' ∷ port in
    let behind : drop (suc (length host)) (host ++ b']' ∷ b':' ∷ port) ≡ b':' ∷ port =
      drop_here host b']' (b':' ∷ port) in
    let last : drop (suc (suc (length host))) (host ++ b']' ∷ b':' ∷ port) ≡ port =
      drop_next (host ++ b']' ∷ b':' ∷ port) (suc (length host)) b':' port behind in
    let count : suc (suc (length host)) - 1 ≡ suc (length host) = omega arith in
    let here : take (suc (length host)) text ≡ c ∷ host = take_here (c ∷ host) _ in
    ground (arith, behind, last, count, here, parsed, length-append host (b']' ∷ b':' ∷ port))

-- A target in brackets is read back from its text, whatever it holds but a closing bracket: the
-- target need not be an address here.
pub split_rule_port-in_brackets :
    (lib : Library) (host port : Bytes) (m : PortMatcher)
    → host ≢ []
    → contains host b']' ≡ false
    → parse_port port ≡ ok m
    → split_rule_port lib (b'[' ∷ (host ++ b']' ∷ b':' ∷ port))
      ≡ ok (record { host = host; port = m; bracketed = true })
unfolding split_rule_port has_prefix index_byte list_beq
split_rule_port-in_brackets lib host port m ne lacks parsed =
    rw (index_byte_here host b']' (b':' ∷ port) lacks) (split_bracketed_here host port m ne parsed)
