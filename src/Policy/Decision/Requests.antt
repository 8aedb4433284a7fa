-- ===== src/Policy/Decision/Requests.antt =====
-- Allows: which requests it answers, and that the answer is the decision on normalized values.
use airjail.Base.{
  ℕ, ◌^◌, ◌<◌, Bool, true, false, [], ◌≡◌, ◌≢◌, ◌⊎◌, inl, inr, ◌↔◌, refl, sym, ap, ◌∙◌, arith,
  ==_iff, nat_eq, list_eq, list_beq, ok, Result-cases,
}
use airjail.Base.Bytes.{Bytes}
use airjail.Netip.{Addr, invalid, v4, v6, is_valid, zone_of, unmap}
use airjail.Policy.Library.{Library}
use airjail.Policy.Hostname.{normalize_hostname}
use airjail.Policy.Rules.Prefixes.{mapped}
use airjail.Policy.Decision.{Policy, decide, allows, request_hostname, request_address}

-- A request that Allows answers, with the hostname that it decides on.
pub record Answers (lib : Library) (hostname : Bytes) (address : Addr) (port : ℕ) (name : Bytes)
    : Type 0 where
  pub port_set : port ≢ 0
  pub named : (hostname ≢ []) ⊎ (is_valid address ≡ true)
  pub zone_free : (is_valid address ≡ false) ⊎ (zone_of address ≡ [])
  pub normalized :
      ((hostname ≡ []) × (name ≡ []))
      ⊎ ((hostname ≢ []) × (normalize_hostname lib hostname ≡ ok name))

request_hostname_complete :
    (lib : Library) (hostname name : Bytes)
    → ((hostname ≡ []) × (name ≡ []))
      ⊎ ((hostname ≢ []) × (normalize_hostname lib hostname ≡ ok name))
    → request_hostname lib hostname ≡ ok name
unfolding request_hostname
request_hostname_complete lib hostname name h = ground (arith, h, ==_iff hostname [])

request_hostname_sound :
    (lib : Library) (hostname name : Bytes)
    → request_hostname lib hostname ≡ ok name
    → ((hostname ≡ []) × (name ≡ []))
      ⊎ ((hostname ≢ []) × (normalize_hostname lib hostname ≡ ok name))
unfolding request_hostname
request_hostname_sound lib hostname name h = elim (Result-cases (normalize_hostname lib hostname)) [
  | inl (b, e) ↦ ground (arith, e, ==_iff hostname [])
  | inr (b, e) ↦ ground (arith, e, ==_iff hostname [])
]

request_address_lem :
    (address : Addr)
    → ((is_valid address ≡ false) ⊎ (zone_of address ≡ []))
    → request_address address ≡ ok (unmap address)
unfolding request_address is_valid zone_of unmap list_beq
request_address_lem invalid h = refl
request_address_lem (v4 n) h = refl
request_address_lem (v6 n z) h = ground (arith, ==_iff z [])

request_address_zone :
    (address : Addr) (target : Addr)
    → request_address address ≡ ok target
    → ((is_valid address ≡ false) ⊎ (zone_of address ≡ [])) × (target ≡ unmap address)
unfolding request_address is_valid zone_of unmap list_beq
request_address_zone invalid target h = ground arith
request_address_zone (v4 n) target h = ground arith
request_address_zone (v6 n z) target h = ground (arith, ==_iff z [])

module _ (lib : Library) (policy : Policy) (hostname : Bytes) (address : Addr) (port : ℕ) where
  allows_complete :
      (name : Bytes)
      → Answers lib hostname address port name
      → allows lib policy hostname address port ≡ ok (decide policy name (unmap address) port)
  unfolding allows
  allows_complete name r = ground (
    arith,
    r.port_set,
    r.named,
    request_hostname_complete lib hostname name r.normalized,
    request_address_lem address r.zone_free,
    ==_iff hostname [],
  )

  allows_sound :
      (answer : Bool)
      → allows lib policy hostname address port ≡ ok answer
      → (name : Bytes) × Answers lib hostname address port name
        × (answer ≡ decide policy name (unmap address) port)
  unfolding allows
  allows_sound answer h = elim (Result-cases (request_hostname lib hostname)) [
    | inr (fault, e) ↦ absurd (ground (arith, e))
    | inl (name, e) ↦ elim (Result-cases (request_address address)) [
      | inr (fault, e') ↦ absurd (ground (arith, e, e'))
      | inl (target, e') ↦
          let (zone_free, same) = request_address_zone address target e' in
          (
            name,
            record {
              port_set = ground (arith, e, e');
              named = ground (arith, e, e', ==_iff hostname []);
              zone_free = zone_free;
              normalized = request_hostname_sound lib hostname name e;
            },
            ground (arith, e, e', same),
          )
    ]
  ]

  -- Allows answers exactly the requests with a port, with a hostname or an address, with no zone and
  -- with a hostname that is empty or accepted by NormalizeHostname; its answer is then the decision
  -- on the normalized hostname and the unmapped address. Any other request is an error.
  pub allows_iff :
      (answer : Bool)
      → (allows lib policy hostname address port ≡ ok answer) ↔ (
          (name : Bytes) × Answers lib hostname address port name
          × (answer ≡ decide policy name (unmap address) port))
  allows_iff answer =
      (allows_sound answer, λ (name, r, same). allows_complete name r ∙ ap ok (sym same))

unmap-mapped : (n : ℕ) → n < 2 ^ 32 → unmap (mapped n) ≡ v4 n
unfolding unmap
unmap-mapped n h = ground arith

-- An IPv4 address and its IPv4-mapped form get the same answer, errors included.
pub allows-mapped :
    (lib : Library) (policy : Policy) (hostname : Bytes) (n port : ℕ)
    → n < 2 ^ 32
    → allows lib policy hostname (mapped n) port ≡ allows lib policy hostname (v4 n) port
unfolding allows request_address is_valid zone_of list_beq
allows-mapped lib policy hostname n port h =
    let same : unmap (v4 n) ≡ v4 n = unfold unmap in refl in rw (unmap-mapped n h, same)
