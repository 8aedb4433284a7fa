-- ===== src/Policy/Decision/Covers.antt =====
-- Which destinations a rule covers, as a relation, and that the loops of `matches` decide it.
use airjail.Base.{
  ℕ, suc, ◌+◌, ◌-◌, Bool, true, false, not, List, [], ◌∷◌, ◌++◌, ◌≡◌, ◌≢◌, ◌⊎◌, inl, inr, ◌↔◌, sym,
  ap, ◌∙◌, subst, arith, any, Some, and_iff, or_iff, length, take, drop, take-append-drop,
  length-append, drop-append, ◌==◌, ==_iff, nat_eq, list_eq, contains, Bool-cases,
}
use airjail.Base.Bytes.{Bytes, has_suffix}
use airjail.Netip.{Addr, addr_eq, is_valid, prefix_contains}
use airjail.Policy.Rules.{PortMatcher, HostRule, AddressRule, PrefixRule, RuleSet, port_matches}
use airjail.Policy.Decision.{
  matches_hostname, host_rule_matches, address_rule_matches, prefix_rule_matches, matches,
}

-- A rule with no port covers every port.
abbrev pub CoversPort : PortMatcher → ℕ → Type 0
CoversPort m port = (m.set ≡ false) ⊎ (m.port ≡ port)

-- `*.example.com` covers what ends with `.example.com`, and not `example.com`.
pub data CoversName (rule : HostRule) (hostname : Bytes) : Type 0 where
  exact : rule.wildcard ≡ false → hostname ≡ rule.hostname → CoversName rule hostname
  below :
      rule.wildcard ≡ true
      → (front : Bytes) → hostname ≡ front ++ b'.' ∷ rule.hostname
      → CoversName rule hostname

abbrev pub CoversHost : Bytes → Addr → ℕ → HostRule → Type 0
CoversHost hostname address port rule =
    CoversPort rule.port port
    × (((hostname ≢ []) × CoversName rule hostname)
        ⊎ ((is_valid address ≡ true) × (contains rule.resolved address ≡ true)))

abbrev pub CoversAddress : Addr → ℕ → AddressRule → Type 0
CoversAddress address port rule = CoversPort rule.port port × (rule.address ≡ address)

abbrev pub CoversPrefix : Addr → ℕ → PrefixRule → Type 0
CoversPrefix address port rule =
    CoversPort rule.port port × (prefix_contains rule.prefix address ≡ true)

-- Some rule of the set covers the destination; only host rules can cover one with no address.
abbrev pub Covers : RuleSet → Bytes → Addr → ℕ → Type 0
Covers rules hostname address port =
    Some (CoversHost hostname address port) rules.hosts
    ⊎ ((is_valid address ≡ true)
        × (Some (CoversAddress address port) rules.addresses
            ⊎ Some (CoversPrefix address port) rules.prefixes))

pub any_iff {ℓ} :
    {A : Type ℓ} (p : A → Bool) (P : A → Type 0)
    → ((x : A) → (p x ≡ true) ↔ P x)
    → (xs : List A) → (any p xs ≡ true) ↔ Some P xs
any_iff p P iff [] = ((λ h. cc), (λ h. absurd h))
any_iff p P iff (x ∷ xs) = (
  (λ h. elim (Bool-cases (p x)) [
    | inl e ↦ inl ((iff x).0 e)
    | inr e ↦ inr ((any_iff p P iff xs).0 (ground arith))
  ]),
  (λ h. elim h [
    | inl here ↦ rw ((iff x).1 here)
    | inr there ↦ ground (arith, (any_iff p P iff xs).1 there)
  ]),
)

suffix_sound : (s t : Bytes) → has_suffix s t ≡ true → s ≡ take (length s - length t) s ++ t
unfolding has_suffix
suffix_sound s t h =
    let same : drop (length s - length t) s ≡ t =
      ground (arith, ==_iff (drop (length s - length t) s) t) in
    sym (take-append-drop (length s - length t) s)
    ∙ ap (λ r. take (length s - length t) s ++ r) same

suffix_complete : (front t : Bytes) → has_suffix (front ++ t) t ≡ true
unfolding has_suffix
suffix_complete front t =
    let count : length (front ++ t) - length t ≡ length front =
      omega (arith, length-append front t) in
    let same : drop (length (front ++ t) - length t) (front ++ t) ≡ t =
      ap (λ n. drop n (front ++ t)) count ∙ drop-append front t in
    ground
      (arith, length-append front t, ==_iff (drop (length (front ++ t) - length t) (front ++ t)) t)

-- The test of a hostname: equality for an exact rule, and a label boundary for a wildcard.
pub matches_hostname_iff :
    (rule : HostRule) (hostname : Bytes)
    → (matches_hostname rule hostname ≡ true) ↔ CoversName rule hostname
unfolding matches_hostname
matches_hostname_iff rule hostname = (
  (λ h. elim (Bool-cases rule.wildcard) [
    | inl e ↦ below e _ (suffix_sound hostname (b'.' ∷ rule.hostname) (ground arith))
    | inr e ↦ exact e (ground (arith, ==_iff hostname rule.hostname))
  ]),
  covered,
)
  where
    covered : CoversName rule hostname → matches_hostname rule hostname ≡ true
    covered (exact e same) = ground (arith, ==_iff hostname rule.hostname)
    covered (below e front same) =
        let ends : has_suffix hostname (b'.' ∷ rule.hostname) ≡ true =
          subst (λ s. has_suffix s (b'.' ∷ rule.hostname) ≡ true) (sym same)
            (suffix_complete front (b'.' ∷ rule.hostname)) in
        let long : length hostname ≡ length front + suc (length rule.hostname) =
          ap length same ∙ length-append front (b'.' ∷ rule.hostname) in
        ground (arith, ends, long, e)

port_matches_iff : (m : PortMatcher) (port : ℕ) → (port_matches m port ≡ true) ↔ CoversPort m port
unfolding port_matches
port_matches_iff m port = ground arith

not_empty_iff : (s : Bytes) → (not (s == []) ≡ true) ↔ (s ≢ [])
not_empty_iff s = ground (arith, ==_iff s [])

id_iff : (A : Type 0) → A ↔ A
id_iff A = ((λ a. a), (λ a. a))

host_rule_matches_iff :
    (hostname : Bytes) (address : Addr) (port : ℕ) (rule : HostRule)
    → (host_rule_matches hostname address port rule ≡ true) ↔ CoversHost hostname address port rule
unfolding host_rule_matches
host_rule_matches_iff hostname address port rule = and_iff _ _ (port_matches_iff rule.port port) (
    or_iff _ _ (and_iff _ _ (not_empty_iff hostname) (matches_hostname_iff rule hostname))
      (and_iff _ _ (id_iff _) (id_iff _)))

address_rule_matches_iff :
    (address : Addr) (port : ℕ) (rule : AddressRule)
    → (address_rule_matches address port rule ≡ true) ↔ CoversAddress address port rule
unfolding address_rule_matches
address_rule_matches_iff address port rule =
    ground (arith, port_matches_iff rule.port port, ==_iff rule.address address)

prefix_rule_matches_iff :
    (address : Addr) (port : ℕ) (rule : PrefixRule)
    → (prefix_rule_matches address port rule ≡ true) ↔ CoversPrefix address port rule
unfolding prefix_rule_matches
prefix_rule_matches_iff address port rule = ground (arith, port_matches_iff rule.port port)

-- The loops of `matches` answer whether some rule covers the destination.
pub matches_iff :
    (rules : RuleSet) (hostname : Bytes) (address : Addr) (port : ℕ)
    → (matches rules hostname address port ≡ true) ↔ Covers rules hostname address port
unfolding matches
matches_iff rules hostname address port = ground (
  arith,
  any_iff _ _ (host_rule_matches_iff hostname address port) rules.hosts,
  any_iff _ _ (address_rule_matches_iff address port) rules.addresses,
  any_iff _ _ (prefix_rule_matches_iff address port) rules.prefixes,
)
