-- ===== src/Policy/Rules/Ports.antt =====
-- parsePort accepts exactly the decimal numbers from 1 to 65535.
use airjail.Base.{
  ℕ, ◌+◌, ◌-◌, ◌*◌, ◌≤◌, ◌<◌, true, some, [], ◌∷◌, ◌≡◌, ◌≢◌, ◌↔◌, inl, inr, refl, arith, All, ok,
  Option-cases, subst,
}
use airjail.Base.Bytes.{Bytes}
use airjail.Policy.Rules.{PortMatcher, parse_digits, parse_port, port_matches}

abbrev pub IsDigit : ℕ → Type 0
IsDigit digit = (digit ≤ b'9') × (b'0' ≤ digit)

abbrev push : ℕ → ℕ → ℕ
push high digit = high * 10 + (digit - b'0')

-- the number that decimal digits spell behind `high`, unbounded
abbrev pub spelled : Bytes → ℕ → ℕ
spelled [] high = high
spelled (digit ∷ low) high = spelled low (push high digit)

spelled_grows : (text : Bytes) (high : ℕ) → high ≤ spelled text high
spelled_grows [] high = omega arith
spelled_grows (digit ∷ low) high = omega (arith, spelled_grows low (push high digit))

-- the loop from any start: what it returns, and when it returns
digits_sound :
    (text : Bytes) (high port : ℕ)
    → high ≤ 65535
    → parse_digits text high ≡ some port
    → (port ≤ 65535) × (port ≡ spelled text high) × All IsDigit text
unfolding parse_digits
digits_sound [] high port bound read = ground arith
digits_sound (digit ∷ low) high port bound read =
    ground (arith, digits_sound low (push high digit) port)

digits_complete :
    (text : Bytes) (high : ℕ)
    → spelled text high ≤ 65535
    → All IsDigit text
    → parse_digits text high ≡ some (spelled text high)
unfolding parse_digits
digits_complete [] high bound _ = refl
digits_complete (digit ∷ low) high bound decimal = ground (
  arith,
  digits_complete low (push high digit) bound decimal.1,
  spelled_grows low (push high digit),
)

-- A text that spells the port `n`.
pub record Spells (s : Bytes) (n : ℕ) : Type 0 where
  pub nonempty : s ≢ []
  pub digits : All IsDigit s
  pub exact : n ≡ spelled s 0
  pub positive : 0 < n
  pub fits : n ≤ 65535

pub parse_port_sound :
    (s : Bytes) (m : PortMatcher) → parse_port s ≡ ok m → (m.set ≡ true) × Spells s m.port
unfolding parse_port
parse_port_sound [] m h = absurd (cc)
parse_port_sound (c ∷ s) m h = elim (Option-cases (parse_digits (c ∷ s) 0)) [
  | inl e ↦ absurd (ground (arith, e))
  | inr (n, e) ↦
      let (fits, exact, all_digits) = digits_sound (c ∷ s) 0 n (omega arith) e in
      (
        ground (arith, e),
        record {
          nonempty = λ p. cc;
          digits = all_digits;
          exact = ground (arith, e);
          positive = ground (arith, e);
          fits = ground (arith, e);
        },
      )
]

pub parse_port_complete :
    (s : Bytes) (n : ℕ) → Spells s n → parse_port s ≡ ok (record { port = n; set = true })
unfolding parse_port
parse_port_complete [] n sp = absurd (sp.nonempty refl)
parse_port_complete (c ∷ s) n sp =
    ground (arith, sp.digits, digits_complete (c ∷ s) 0, sp.exact, sp.positive, sp.fits)

-- A port text is accepted as the port `n` exactly when it is one or more decimal digits that
-- spell `n`, and `n` is from 1 to 65535; the matcher then holds at the port `n` and no other.
pub parse_port_iff :
    (s : Bytes) (n : ℕ)
    → ((m : PortMatcher) × (parse_port s ≡ ok m)
        × (port_matches m n ≡ true)
        × ((q : ℕ) → port_matches m q ≡ true → q ≡ n))
      ↔ Spells s n
unfolding port_matches
parse_port_iff s n = (
  (λ (m, parsed, here, only).
      let (set, spells) = parse_port_sound s m parsed in
      let same : m.port ≡ n = ground arith in subst (Spells s) same spells),
  (λ spells. (
    record { port = n; set = true },
    parse_port_complete s n spells,
    ground arith,
    λ q h. ground arith,
  )),
)
