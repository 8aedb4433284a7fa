-- ===== src/Outbound/Direct/Denied.antt =====
-- When Dial answers that the policy denied a hostname.
use airjail.Base.{
  ℕ, true, false, ◌||◌, Option, none, some, List, [], ◌∷◌, ◌++◌, ◌≡◌, ◌↔◌, refl, ◌∙◌, subst, Result,
  ok, err, ◌==◌, list_eq, nat_eq, contains, contains-append, ◌⊎◌, inl, inr, Bool-cases, arith,
  ==_iff, Some,
}
use airjail.Base.Bytes.{Bytes}
use airjail.Netip.{Addr, addr_eq, zone_of, unmap}
use airjail.Policy.Library.{Library}
use airjail.Policy.Decision.{Policy, allows}
use airjail.Policy.Resolve.Normalized.{Denotes}
use airjail.Outbound.Direct.{
  Net, Trace, Outcome, DialError, denied, no_trace, no_connection, dial_hostname,
}
use airjail.Outbound.Direct.Rules.{Loop, skips, skips_usable, dial_each_induction}

contains_last :
    (xs : List Addr) (u a : Addr) → contains (xs ++ u ∷ []) a ≡ (contains xs a || (u == a || false))
contains_last xs u a = contains-append xs (u ∷ []) a ∙ (unfold contains in refl)

skips_known :
    (seen : List Addr) (x a : Addr) → skips seen x ≡ true → Denotes a x → contains seen a ≡ true
skips_known seen x a h d =
    let known : contains seen (unmap x) ≡ true = ground (arith, ==_iff (zone_of x) []) in
    subst (λ b. contains seen b ≡ true) d.1 known

module _ (net : Net) (lib : Library) (policy : Policy) (port : ℕ) (hostname : Bytes)
    (answers : List Addr) where
  abbrev Refused : Addr → Type 0
  Refused a = allows lib policy hostname a port ≡ ok false

  -- While no dial has failed, nothing was dialed and every address seen was refused; and every usable
  -- answer was seen or is left.
  abbrev Denying : List Addr → List Addr → Option ℕ → Trace → Type 0
  Denying rest seen last t =
      (last ≡ none → (t.dials ≡ []) × ((a : Addr) → contains seen a ≡ true → Refused a))
      × ((a : Addr) → Some (Denotes a) answers → (contains seen a ≡ true) ⊎ Some (Denotes a) rest)

  abbrev DeniedAll : Outcome net → Type 0
  DeniedAll o =
      o.0 ≡ err denied → (o.1.dials ≡ []) × ((a : Addr) → Some (Denotes a) answers → Refused a)

  seen_or_left :
      (x : Addr) (xs seen : List Addr) (a : Addr)
      → (contains seen a ≡ true) ⊎ Some (Denotes a) (x ∷ xs)
      → (contains (seen ++ unmap x ∷ []) a ≡ true) ⊎ Some (Denotes a) xs
  seen_or_left x xs seen a (inl h) = inl (ground (arith, contains_last seen (unmap x) a))
  seen_or_left x xs seen a (inr (inl d)) =
      inl (ground (arith, contains_last seen (unmap x) a, ==_iff (unmap x) a, d.1))
  seen_or_left x xs seen a (inr (inr h)) = inr h

  denied_loop : Loop net lib policy port hostname Denying DeniedAll
  denied_loop = record {
    exhausted = λ seen last t i h.
        let e : last ≡ none = none_left last h in
        ((i.0 e).0, λ a s. elim (i.1 a s) [ inl k ↦ (i.0 e).1 a k | inr n ↦ absurd n ]);
    skipped = λ x xs seen last t i e. (
      i.0,
      λ a s. elim (i.1 a s) [
        | inl k ↦ inl k
        | inr (inl d) ↦ inl (skips_known seen x a e d)
        | inr (inr n) ↦ inr n
      ],
    );
    faulted = λ x xs seen last t fault i e h k. cc;
    refused = λ x xs seen last t i e h. (
      (λ n. ((i.0 n).0, λ a k. last_refused x seen a h ((i.0 n).1) k)),
      (λ a s. seen_or_left x xs seen a (i.1 a s)),
    );
    connected = λ x xs seen last t c i e granted h k. cc;
    failed = λ x xs seen last t code i e granted h.
        ((λ n. cc), (λ a s. seen_or_left x xs seen a (i.1 a s)));
  }
    where
      none_left :
          (last : Option ℕ)
          → ◌≡◌ {A = Result DialError net.Conn} (err (no_connection last)) (err denied)
          → last ≡ none
      none_left none h = refl
      none_left (some code) h = cc

      last_refused :
          (x : Addr) (seen : List Addr) (a : Addr)
          → Refused (unmap x)
          → ((b : Addr) → contains seen b ≡ true → Refused b)
          → contains (seen ++ unmap x ∷ []) a ≡ true
          → Refused a
      last_refused x seen a h before k = elim (Bool-cases (contains seen a)) [
        | inl old ↦ before a old
        | inr new ↦
            let same : unmap x ≡ a =
              ground (arith, contains_last seen (unmap x) a, ==_iff (unmap x) a) in
            subst Refused same h
      ]

  -- every usable answer that is left is refused
  abbrev Refusing : List Addr → List Addr → Option ℕ → Trace → Type 0
  Refusing rest seen last t = (last ≡ none) × ((a : Addr) → Some (Denotes a) rest → Refused a)

  usable : (seen : List Addr) (x : Addr) → skips seen x ≡ false → Denotes (unmap x) x
  usable seen x e = let (valid, zone_free, _) = skips_usable seen x e in ((valid, zone_free), refl)

  Refusing-loop : Loop net lib policy port hostname Refusing (λ o. o.0 ≡ err denied)
  Refusing-loop = record {
    exhausted = λ seen last t i. rw i.0;
    skipped = λ x xs seen last t i e. (i.0, λ a s. i.1 a (inr s));
    faulted = λ x xs seen last t fault i e h. cc (i.1 (unmap x) (inl (usable seen x e)), h);
    refused = λ x xs seen last t i e h. (i.0, λ a s. i.1 a (inr s));
    connected =
        λ x xs seen last t c i e granted h. cc (i.1 (unmap x) (inl (usable seen x e)), granted);
    failed = λ x xs seen last t code i e granted h.
        absurd (cc (i.1 (unmap x) (inl (usable seen x e)), granted));
  }

  -- A hostname that resolves is answered by ErrDenied exactly when the policy refuses every usable
  -- address that it resolves to; nothing is dialed then.
  pub dial_hostname-denied :
      net.resolve hostname ≡ some answers
      → (((dial_hostname net lib policy port hostname).0 ≡ err denied)
          ↔ ((a : Addr) → Some (Denotes a) answers → Refused a))
        × ((dial_hostname net lib policy port hostname).0 ≡ err denied
            → (dial_hostname net lib policy port hostname).1.dials ≡ [])
  unfolding dial_hostname contains
  dial_hostname-denied e =
      let all_denied =
        dial_each_induction net lib policy port hostname Denying DeniedAll denied_loop answers []
          none no_trace ((λ _. (refl, λ a h. cc)), λ a s. inr s) in
      rw (e, dial_hostname)
        (
          (
            (λ h. (all_denied h).1),
            (λ refused.
                dial_each_induction net lib policy port hostname Refusing (λ o. o.0 ≡ err denied)
                  Refusing-loop answers [] none no_trace (refl, refused)),
          ),
          (λ h. (all_denied h).0),
        )
