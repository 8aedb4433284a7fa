-- ===== src/Socks/Requests.antt =====
-- Which SOCKS requests reach the connector and which names the resolver lets pass, and when the
-- deadline of a handshake is cleared.
use airjail.Base.{
  ℕ, ◌%◌, ◌^◌, ◌≤◌, ◌<◌, true, not, some, List, [], ◌∷◌, ◌≡◌, ◌≢◌, refl, ◌∙◌, ◌↔◌, arith, ok, ◌==◌,
  ==_iff, list_eq, nat_eq, Bool-cases, Option-cases, Result-cases, inl, inr, ◌⊎◌,
}
use airjail.Base.Bytes.{Bytes, codes}
use airjail.Policy.Library.{Library}
use airjail.Policy.Destination.{Destination, parse_destination, is_hostname}
use airjail.Socks.{
  ℤ, pos, negsuc, below_one, to_uint16, Backend, dial_port, dial, resolve, Handshake, write,
  is_success,
}

-- A request whose connector call is known.
pub record Request (lib : Library) (backend : Backend) (network address : Bytes) : Type 0 where
  pub tcp : network ≡ codes "tcp"
  pub host : Bytes
  pub raw_port : Bytes
  pub split : backend.split_host_port address ≡ some (host, raw_port)
  pub port : ℕ
  pub number : backend.atoi raw_port ≡ some (pos port)
  pub positive : 0 < port
  pub destination : Destination
  pub parsed : parse_destination lib host ≡ ok destination

dial_port-ok :
    (lib : Library) (backend : Backend) (host : Bytes) (port : ℤ) (c : backend.Conn)
    → dial_port lib backend host port ≡ ok c
    → (n : ℕ) × (d : Destination) × (port ≡ pos n)
      × (0 < n)
      × (parse_destination lib host ≡ ok d)
      × (backend.connect d (n % 2 ^ 16) ≡ ok c)
unfolding dial_port below_one to_uint16
dial_port-ok lib backend host (negsuc n) c h = absurd (ground arith)
dial_port-ok lib backend host (pos n) c h = elim (Result-cases (parse_destination lib host)) [
  | inr (e, failed) ↦ absurd (ground (arith, failed))
  | inl (d, parsed) ↦ elim (Result-cases (backend.connect d (n % 2 ^ 16))) [
    | inr (e, failed) ↦ absurd (ground (arith, parsed, failed))
    | inl (c', connected) ↦ (n, d, refl, ground arith, parsed, ground (arith, parsed, connected))
  ]
]

-- A connection that a SOCKS client gets is the policy-checked connector's for the destination that
-- the requested host parses to, at the requested port modulo 2^16; the network is TCP and the port is
-- positive.
pub dial-Request :
    (lib : Library) (backend : Backend) (network address : Bytes) (c : backend.Conn)
    → dial lib backend network address ≡ ok c
    → (r : Request lib backend network address) × (backend.connect r.destination (r.port % 2 ^ 16)
        ≡ ok c)
unfolding dial
dial-Request lib backend network address c h = elim (Bool-cases (network == codes "tcp")) [
  | inr e ↦ absurd (ground (arith, e))
  | inl tcp ↦ elim (Option-cases (backend.split_host_port address)) [
    | inl e ↦ absurd (ground (arith, tcp, e))
    | inr ((host, raw_port), split) ↦ elim (Option-cases (backend.atoi raw_port)) [
      | inl e ↦ absurd (ground (arith, tcp, split, e))
      | inr (port, number) ↦
          let (n, d, same, positive, parsed, connected) =
            dial_port-ok lib backend host port c (ground (arith, tcp, split, number)) in
          (
            record {
              tcp = (==_iff network (codes "tcp")).0 tcp;
              host = host;
              raw_port = raw_port;
              split = split;
              port = n;
              number = ground (arith, number, same);
              positive = positive;
              destination = d;
              parsed = parsed;
            },
            connected,
          )
    ]
  ]
]

-- The resolver lets exactly those hosts pass that parse to a hostname or to an address with a zone.
pub resolve_iff :
    (lib : Library) (hostname : Bytes)
    → (resolve lib hostname ≡ ok tt) ↔ (
        (d : Destination) × (parse_destination lib hostname ≡ ok d)
        × ((is_hostname d ≡ true) ⊎ (d.zone ≢ [])))
unfolding resolve
resolve_iff lib hostname = elim (Result-cases (parse_destination lib hostname)) [
  | inr (e, failed) ↦
      ((λ h. absurd (ground (arith, failed))), (λ (d, parsed, _). absurd (ground (arith, failed))))
  | inl (d, parsed) ↦ (
    (λ h. (d, parsed, ground (arith, parsed, ==_iff d.zone []))),
    (λ (d', parsed', passes). ground (arith, parsed, ==_iff d.zone [], ==_iff d'.zone [])),
  )
]

abbrev pub accepted : Handshake
accepted = record { writes = 0; deadline = true }

-- every write with a working SetDeadline, from the last one on
abbrev pub write_all : Handshake → List Bytes → Handshake
write_all h [] = h
write_all h (contents ∷ rest) = write_all (write h true contents).0 rest

late : (h : Handshake) (rest : List Bytes) → 2 ≤ h.writes → (write_all h rest).deadline ≡ h.deadline
unfolding write
late h [] past = refl
late h (contents ∷ rest) past = ground (arith, late (write h true contents).0 rest)

-- The deadline of a handshake is cleared by its second write, if that is a reply of success, and by no
-- other.
pub write_all-deadline :
    (method reply : Bytes) (rest : List Bytes)
    → (write_all accepted (method ∷ reply ∷ rest)).deadline ≡ not (is_success reply)
unfolding write
write_all-deadline method reply rest =
    let second = (write (record { writes = 1; deadline = true }) true reply).0 in
    elim (Bool-cases (is_success reply)) [
      | inl e ↦ late second rest (ground (arith, e)) ∙ ground (arith, e)
      | inr e ↦ late second rest (ground (arith, e)) ∙ ground (arith, e)
    ]
