-- ===== src/Policy/Resolve/Cached.antt =====
-- The shared cache: a hostname is asked for once, and has one answer for all rules of a policy.
use airjail.Base.{
  Bool, true, false, not, Option, none, some, List, [], ◌∷◌, ◌≡◌, ◌≢◌, inl, inr, refl, sym, subst,
  arith, ==_iff, ==_refl, nat_eq, list_eq, contains, contains-append, Distinct, Distinct-append,
  Bool-cases, Option-cases, Result-cases, ok,
}
use airjail.Base.Bytes.{Bytes}
use airjail.Netip.{Addr}
use airjail.Policy.Rules.{HostRule}
use airjail.Policy.Resolve.{Resolver, Lookups, cached, lookup, expand, resolve_rule}

abbrev known : Option (Option (List Addr)) → Bool
known none = false
known (some r) = true

-- The questions asked are those in the cache, each asked once.
pub record IsCoherent (s : Lookups) : Type 0 where
  pub once : Distinct s.asked
  pub same : (host : Bytes) → contains s.asked host ≡ known (cached s.cache host)

-- Nothing that is in the cache is lost or replaced.
abbrev pub Extends : Lookups → Lookups → Type 0
Extends s s' =
    (host : Bytes) (r : Option (List Addr))
    → cached s.cache host ≡ some r
    → cached s'.cache host ≡ some r

module _ (resolver : Resolver) (host : Bytes) (s : Lookups) where
  lookup-IsCoherent : IsCoherent s → IsCoherent (lookup resolver host s).1
  unfolding lookup
  lookup-IsCoherent c = elim (Option-cases (cached s.cache host)) [
    | inr (r, e) ↦ rw e c
    | inl e ↦ rw e (record {
      once = Distinct-append s.asked host c.once (ground (arith, c.same host, e));
      same = λ h.
          unfold contains cached in ground (arith, c.same h, contains-append s.asked (host ∷ []) h);
    })
  ]

  lookup-Extends : Extends s (lookup resolver host s).1
  unfolding lookup cached
  lookup-Extends h r known_r = elim (Option-cases (cached s.cache host)) [
    | inr (q, e) ↦ ground (arith, e)
    | inl e ↦ ground (arith, e, ==_iff host h)
  ]

  lookup-cached : cached (lookup resolver host s).1.cache host ≡ some (lookup resolver host s).0
  unfolding lookup cached
  lookup-cached = elim (Option-cases (cached s.cache host)) [
    | inr (q, e) ↦ ground (arith, e)
    | inl e ↦ ground (arith, e, ==_refl host)
  ]

abbrev pub addresses_of : Option (List Addr) → List Addr
addresses_of none = []
addresses_of (some xs) = xs

-- A rule as expansion leaves it: a wildcard has no addresses, and an exact rule has those of the one
-- answer for its hostname.
pub record IsResolved (s : Lookups) (r : HostRule) : Type 0 where
  pub wild : r.wildcard ≡ true → r.resolved ≡ []
  pub exact :
      r.wildcard ≡ false
      → (answer : Option (List Addr)) × (cached s.cache r.hostname ≡ some answer)
        × (r.resolved ≡ addresses_of answer)

pub IsResolved-Extends :
    (s s' : Lookups) (r : HostRule) → Extends s s' → IsResolved s r → IsResolved s' r
IsResolved-Extends s s' r ext is = record {
  wild = is.wild;
  exact = λ e. let (answer, hit, same) = is.exact e in (answer, ext r.hostname answer hit, same);
}

expand_lem :
    (allow_unresolved : Bool) (r r' : HostRule) (answer : Option (List Addr))
    → r.resolved ≡ []
    → expand allow_unresolved r answer ≡ ok r'
    → (r' ≡ record r { resolved = addresses_of answer })
      × (allow_unresolved ≡ false → addresses_of answer ≢ [])
unfolding expand
expand_lem b r r' none e h = (ground arith, λ strict. ground arith)
expand_lem b r r' (some []) e h = (ground arith, λ strict. ground arith)
expand_lem b r r' (some (a ∷ rest)) e h = (cc, λ strict p. cc)

-- What one rule becomes: only its addresses are set.
pub record Outcome (strict : Bool) (s' : Lookups) (r r' : HostRule) : Type 0 where
  pub kept : r' ≡ record r { resolved = r'.resolved }
  pub is : IsResolved s' r'
  pub found : strict ≡ true → r'.wildcard ≡ false → r'.resolved ≢ []

pub record After (s s' : Lookups) : Type 0 where
  pub coherent : IsCoherent s'
  pub extends : Extends s s'

module _ (resolver : Resolver) (allow_unresolved : Bool) where
  resolve_exact :
      (r r' : HostRule) (s : Lookups)
      → r.wildcard ≡ false
      → r.resolved ≡ []
      → expand allow_unresolved r (lookup resolver r.hostname s).0 ≡ ok r'
      → Outcome (not allow_unresolved) (lookup resolver r.hostname s).1 r r'
  resolve_exact r r' s w e h =
      let (same, strict) = expand_lem allow_unresolved r r' _ e h in
      subst (Outcome (not allow_unresolved) (lookup resolver r.hostname s).1 r) (sym same) (record {
        kept = refl;
        is = record {
          wild = λ w'. cc (w, w');
          exact =
              λ _. ((lookup resolver r.hostname s).0, lookup-cached resolver r.hostname s, refl);
        };
        found = λ t _ p. strict (ground arith) p;
      })

  pub resolve_rule_lem :
      (r r' : HostRule) (s s' : Lookups)
      → r.resolved ≡ []
      → IsCoherent s
      → resolve_rule resolver allow_unresolved r s ≡ ok (r', s')
      → After s s' × Outcome (not allow_unresolved) s' r r'
  unfolding resolve_rule
  resolve_rule_lem r r' s s' e c h = elim (Bool-cases r.wildcard) [
    | inl w ↦
        let same_rule : r ≡ r' = ground arith in
        let same : s ≡ s' = ground arith in
        (
          subst (After s) same (record { coherent = c; extends = λ k q hit. hit }),
          subst (Outcome (not allow_unresolved) s' r) same_rule (record {
            kept = refl;
            is = record { wild = λ _. e; exact = λ x. absurd (cc (w, x)) };
            found = λ _ x. absurd (cc (w, x));
          }),
        )
    | inr w ↦ elim (Result-cases (expand allow_unresolved r (lookup resolver r.hostname s).0)) [
      | inr (fault, bad) ↦ absurd (ground (arith, bad))
      | inl (found, good) ↦
          let same_rule : found ≡ r' = ground (arith, good) in
          let same : (lookup resolver r.hostname s).1 ≡ s' = ground (arith, good) in
          (
            subst (After s) same (record {
              coherent = lookup-IsCoherent resolver r.hostname s c;
              extends = lookup-Extends resolver r.hostname s;
            }),
            subst (λ t. Outcome (not allow_unresolved) t r r') same
                (subst (Outcome (not allow_unresolved) (lookup resolver r.hostname s).1 r) same_rule
                  (resolve_exact r found s w e good)),
          )
    ]
  ]

-- The rules that come out stand at the places of the rules that went in.
abbrev pub Outcomes : Bool → Lookups → List HostRule → List HostRule → Type 0
Outcomes strict s [] [] = Unit
Outcomes strict s (r ∷ rs) (r' ∷ rs') = Outcome strict s r r' × Outcomes strict s rs rs'
Outcomes strict s _ _ = ⊥
