-- ===== src/Outbound/Direct/Outcomes.antt =====
-- What the outcome of Dial says of a hostname: who connected, and when the policy denied it all.
use airjail.Base.{
  ℕ, true, false, ◌||◌, Option, none, some, List, [], ◌∷◌, ◌++◌, ◌≡◌, refl, ap, ◌∙◌, ok, length,
  ◌==◌, list_eq, nat_eq, contains, contains-append, arith, Distinct, Distinct-append, map,
}
use mathlib.Core.List.{map-append}
use airjail.Base.Bytes.{Bytes}
use airjail.Netip.{Addr, addr_eq, unmap}
use airjail.Policy.Library.{Library}
use airjail.Policy.Decision.{Policy}
use airjail.Outbound.Direct.{Net, Trace, Dialed, Outcome, no_trace, dial_hostname}
use airjail.Outbound.Direct.Rules.{Loop, skips, skips_usable, dialed_trace, dial_each_induction}

abbrev pub addresses : Trace → List Addr
addresses t = map (λ (d : Dialed). d.address) t.dials

contains_last :
    (xs : List Addr) (u a : Addr) → contains (xs ++ u ∷ []) a ≡ (contains xs a || (u == a || false))
contains_last xs u a = contains-append xs (u ∷ []) a ∙ (unfold contains in refl)

-- Success is the success of the last dial.
abbrev pub LastConnected : (net : Net) → Outcome net → Type 0
LastConnected net o =
    (c : net.Conn)
    → o.0 ≡ ok c
    → (before : List Dialed) × (d : Dialed) × (o.1.dials ≡ before ++ d ∷ [])
      × (net.dial (length before) d.hostname d.address d.port ≡ ok c)

module _ (net : Net) (lib : Library) (policy : Policy) (port : ℕ) (hostname : Bytes) where
  -- nothing is dialed that is not in `seen`, and nothing twice
  abbrev Fresh : List Addr → List Addr → Option ℕ → Trace → Type 0
  Fresh rest seen last t =
      Distinct (addresses t)
      × ((a : Addr) → contains (addresses t) a ≡ true → contains seen a ≡ true)

  addresses_dialed :
      (x : Addr) (t : Trace)
      → addresses (dialed_trace hostname (unmap x) port t) ≡ addresses t ++ unmap x ∷ []
  addresses_dialed x t =
      let d : Dialed = record { hostname = hostname; address = unmap x; port = port } in
      map-append (λ (d : Dialed). d.address) t.dials (d ∷ [])

  Fresh-dialed :
      (x : Addr) (rest rest' seen : List Addr) (last last' : Option ℕ) (t : Trace)
      → Fresh rest seen last t
      → skips seen x ≡ false
      → Fresh rest' (seen ++ unmap x ∷ []) last' (dialed_trace hostname (unmap x) port t)
  Fresh-dialed x rest rest' seen last last' t (once, known) e =
      let (_, _, new) = skips_usable seen x e in
      (
        rw (addresses_dialed x t)
            (Distinct-append (addresses t) (unmap x) once (ground (arith, known (unmap x)))),
        (λ a. rw (addresses_dialed x t) (λ h. ground (
          arith,
          known a,
          contains_last (addresses t) (unmap x) a,
          contains_last seen (unmap x) a,
        ))),
      )

  once_loop : Loop net lib policy port hostname Fresh (λ o. Distinct (addresses o.1))
  once_loop = record {
    exhausted = λ seen last t i. i.0;
    skipped = λ x xs seen last t i e. i;
    faulted = λ x xs seen last t fault i e h. i.0;
    refused = λ x xs seen last t i e h.
        (i.0, λ a k. ground (arith, i.1 a k, contains_last seen (unmap x) a));
    connected =
        λ x xs seen last t c i e granted h. (Fresh-dialed x (x ∷ xs) xs seen last last t i e).0;
    failed = λ x xs seen last t code i e granted h.
        Fresh-dialed x (x ∷ xs) xs seen last (some code) t i e;
  }

  connected_loop : Loop net lib policy port hostname (λ _ _ _ _. Unit {0}) (LastConnected net)
  connected_loop = record {
    exhausted = λ seen last t i c h. cc;
    skipped = λ x xs seen last t i e. tt;
    faulted = λ x xs seen last t fault i e h c k. cc;
    refused = λ x xs seen last t i e h. tt;
    connected = λ x xs seen last t c i e granted h c' same.
        let one : c ≡ c' = cc in
        (
          t.dials,
          record { hostname = hostname; address = unmap x; port = port },
          refl,
          h ∙ ap ok one,
        );
    failed = λ x xs seen last t code i e granted h. tt;
  }

  -- Of a hostname that resolves, no address is dialed twice, and a connection comes from the last dial.
  pub dial_hostname-once :
      Distinct (addresses (dial_hostname net lib policy port hostname).1)
      × LastConnected net (dial_hostname net lib policy port hostname)
  dial_hostname-once = by (net.resolve hostname) refl
    where
      by :
          (o : Option (List Addr))
          → net.resolve hostname ≡ o
          → Distinct (addresses (dial_hostname net lib policy port hostname).1)
            × LastConnected net (dial_hostname net lib policy port hostname)
      by none e = unfold dial_hostname in rw (e, dial_hostname) (tt, λ c h. cc)
      by (some xs) e =
          unfold dial_hostname contains in
          rw (e, dial_hostname)
            (
              dial_each_induction net lib policy port hostname Fresh (λ o. Distinct (addresses o.1))
                  once_loop xs [] none no_trace (tt, λ a h. cc),
              dial_each_induction net lib policy port hostname (λ _ _ _ _. Unit {0})
                  (LastConnected net) connected_loop xs [] none no_trace tt,
            )
