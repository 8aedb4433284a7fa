-- ===== src/Outbound/Direct/Approved.antt =====
-- Safety of Dial: only addresses that the policy allows are dialed, and none twice.
use airjail.Base.{
  ℕ, true, false, Option, none, some, List, [], ◌∷◌, ◌≡◌, refl, sym, subst, ok, err, ◌==◌, list_eq,
  nat_eq, inl, inr, Bool-cases, arith, ==_iff, All, All-append,
}
use airjail.Base.Bytes.{Bytes}
use airjail.Netip.{Addr, invalid, v4, v6, addr_eq, zone_of, unmap, with_zone}
use airjail.Policy.Library.{Library}
use airjail.Policy.Decision.{Policy, allows}
use airjail.Policy.Destination.{Destination, is_hostname, routing_address}
use airjail.Outbound.Direct.{
  Net, Trace, Dialed, Outcome, no_trace, dial_then, dial_literal, dial_hostname, dial, denied,
  dial_failed,
}
use airjail.Outbound.Direct.Rules.{
  dial_then_rule, decide_then_rule, Loop, skips, skips_usable, dialed_trace, granted_trace,
  dial_each_induction,
}

-- What was dialed is for the hostname and the port that were asked for, and the policy allows that
-- hostname at the dialed address, with no zone, and that port.
abbrev pub Approved : Library → Policy → Bytes → ℕ → Dialed → Type 0
Approved lib policy hostname port d =
    (d.hostname ≡ hostname)
    × (d.port ≡ port)
    × (allows lib policy hostname (with_zone d.address []) port ≡ ok true)

with_zone-unmap : (a : Addr) → zone_of a ≡ [] → with_zone (unmap a) [] ≡ unmap a
unfolding with_zone unmap zone_of
with_zone-unmap invalid h = refl
with_zone-unmap (v4 n) h = refl
with_zone-unmap (v6 n z) h = ground arith

module _ (net : Net) (lib : Library) (policy : Policy) (port : ℕ) where
  abbrev AllApproved : Bytes → Outcome net → Type 0
  AllApproved hostname o = All (Approved lib policy hostname port) o.1.dials

  Approved-loop :
      (hostname : Bytes)
      → Loop net lib policy port hostname
          (λ _ _ _ t. All (Approved lib policy hostname port) t.dials)
          (AllApproved hostname)
  Approved-loop hostname = record {
    exhausted = λ seen last t h. h;
    skipped = λ x xs seen last t h e. h;
    faulted = λ x xs seen last t fault h e bad. h;
    refused = λ x xs seen last t h e no_. h;
    connected = λ x xs seen last t c h e granted ok_. one_more x seen t h e granted;
    failed = λ x xs seen last t code h e granted bad. one_more x seen t h e granted;
  }
    where
      one_more :
          (x : Addr) (seen : List Addr) (t : Trace)
          → All (Approved lib policy hostname port) t.dials
          → skips seen x ≡ false
          → allows lib policy hostname (unmap x) port ≡ ok true
          → All (Approved lib policy hostname port) (dialed_trace hostname (unmap x) port t).dials
      one_more x seen t h e granted =
          let (_, zone_free, _) = skips_usable seen x e in
          let d : Dialed = record { hostname = hostname; address = unmap x; port = port } in
          All-append (Approved lib policy hostname port) t.dials (d ∷ []) h
            ((refl, refl, rw (with_zone-unmap x zone_free) granted), tt)

  dial_literal-Approved : (a : Addr) → AllApproved [] (dial_literal net lib policy port a)
  unfolding dial_literal
  dial_literal-Approved a =
      decide_then_rule net lib policy port (AllApproved []) [] (with_zone a []) a no_trace
        (λ t. dial_then net lib policy port [] a t (λ code u. (err (dial_failed code), u)))
        (λ t. (err denied, t)) (λ _ _. tt)
        (λ granted.
          dial_then_rule net lib policy port (AllApproved []) [] a (granted_trace [] a no_trace)
            (λ code u. (err (dial_failed code), u)) (λ _ _. ((refl, refl, granted), tt))
            (λ _ _. ((refl, refl, granted), tt)))
        (λ _. tt)

  dial_hostname-Approved :
      (hostname : Bytes) → AllApproved hostname (dial_hostname net lib policy port hostname)
  unfolding dial_hostname
  dial_hostname-Approved hostname = by (net.resolve hostname) refl
    where
      by :
          (o : Option (List Addr))
          → net.resolve hostname ≡ o
          → AllApproved hostname (dial_hostname net lib policy port hostname)
      by none e = rw (e, dial_hostname) tt
      by (some xs) e =
          rw (e, dial_hostname)
            (dial_each_induction net lib policy port hostname _ (AllApproved hostname)
              (Approved-loop hostname) xs [] none no_trace tt)

-- Whatever the resolver answers and whichever dials fail, every connection that Dial tries is for the
-- destination's hostname, which is empty for an address, and for the port that was asked for; and the
-- policy allows that hostname, the dialed address with only the zone taken off, and that port.
pub dial-Approved :
    (net : Net) (lib : Library) (policy : Policy) (d : Destination) (port : ℕ)
    → All (Approved lib policy d.hostname port) (dial net lib (some policy) d port).1.dials
unfolding dial is_hostname
dial-Approved net lib policy d port = elim (Bool-cases (port == 0)) [
  | inl e ↦ rw (e, dial) tt
  | inr e ↦ elim (Bool-cases (is_hostname d)) [
    | inl h ↦ rw (e, h, dial) (dial_hostname-Approved net lib policy port d.hostname)
    | inr h ↦
        let address : d.hostname ≡ [] = ground (arith, ==_iff d.hostname []) in
        let fine =
          subst
            (λ n.
              All (Approved lib policy n port)
                (dial_literal net lib policy port (routing_address d)).1.dials)
            (sym address) (dial_literal-Approved net lib policy port (routing_address d)) in
        rw (e, h, dial) fine
  ]
]
