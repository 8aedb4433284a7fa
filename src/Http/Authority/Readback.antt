-- ===== src/Http/Authority/Readback.antt =====
-- Which authorities are accepted, and that a canonical authority names what it was made from.
use airjail.Base.{
  ℕ, ◌<◌, true, false, some, [], ◌≡◌, ◌≢◌, ◌↔◌, ◌⊎◌, arith, inl, inr, ok, ◌==◌, ==_iff, list_eq,
  nat_eq, Bool-cases, Option-cases, Result-cases,
}
use airjail.Base.Bytes.{Bytes}
use airjail.Netip.{Addr}
use airjail.Policy.Library.{Library, Laws}
use airjail.Policy.Destination.{Destination, parse_destination, is_hostname, routing_address}
use airjail.Http.Authority.{Wire, port_of, parse_url_authority, host_text}

-- What a host and a port text name.
pub record Names (lib : Library) (wire : Wire) (host raw_port : Bytes) (default_port : ℕ)
    (d : Destination) (port : ℕ) : Type 0 where
  pub filled : host ≢ []
  pub parsed : parse_destination lib host ≡ ok d
  pub number :
      ((raw_port ≡ []) × (port ≡ default_port))
      ⊎ ((raw_port ≢ []) × (wire.parse_uint16 raw_port ≡ some port))
  pub positive : 0 < port

module _ (lib : Library) (wire : Wire) where
  port_of_sound :
      (raw_port : Bytes) (default_port port : ℕ)
      → port_of wire raw_port default_port ≡ ok port
      → ((raw_port ≡ []) × (port ≡ default_port))
        ⊎ ((raw_port ≢ []) × (wire.parse_uint16 raw_port ≡ some port))
  unfolding port_of
  port_of_sound raw_port default_port port h = elim (Bool-cases (raw_port == [])) [
    | inl e ↦ inl ((==_iff raw_port []).0 e, ground (arith, e))
    | inr e ↦ inr (
      (λ empty. ground (arith, e, ==_iff raw_port [])),
      elim (Option-cases (wire.parse_uint16 raw_port)) [
        | inl bad ↦ absurd (ground (arith, e, bad))
        | inr (n, read) ↦ ground (arith, e, read)
      ],
    )
  ]

  parse_url_authority_sound :
      (host raw_port : Bytes) (default_port : ℕ) (d : Destination) (port : ℕ)
      → parse_url_authority lib wire host raw_port default_port ≡ ok (d, port)
      → Names lib wire host raw_port default_port d port
  unfolding parse_url_authority
  parse_url_authority_sound host raw_port default_port d port h = elim (Bool-cases (host == [])) [
    | inl e ↦ absurd (ground (arith, e))
    | inr e ↦ elim (Result-cases (port_of wire raw_port default_port)) [
      | inr (fault, bad) ↦ absurd (ground (arith, e, bad))
      | inl (n, found) ↦ elim (Result-cases (parse_destination lib host)) [
        | inr (fault, bad) ↦ absurd (ground (arith, e, found, bad))
        | inl (d', read) ↦ record {
          filled = λ empty. ground (arith, e, ==_iff host []);
          parsed = ground (arith, e, found, read);
          number = port_of_sound raw_port default_port port (ground (arith, e, found, read));
          positive = ground (arith, e, found, read);
        }
      ]
    ]
  ]

  parse_url_authority_complete :
      (host raw_port : Bytes) (default_port : ℕ) (d : Destination) (port : ℕ)
      → Names lib wire host raw_port default_port d port
      → parse_url_authority lib wire host raw_port default_port ≡ ok (d, port)
  unfolding parse_url_authority port_of
  parse_url_authority_complete host raw_port default_port d port names = ground (
    arith,
    names.filled,
    names.parsed,
    names.number,
    names.positive,
    ==_iff host [],
    ==_iff raw_port [],
  )

  -- An authority of a URL is accepted exactly if it has a host that is a destination and a port: one
  -- in the text, or the default where there is no text; the port is never 0.
  pub parse_url_authority_iff :
      (host raw_port : Bytes) (default_port : ℕ) (d : Destination) (port : ℕ)
      → (parse_url_authority lib wire host raw_port default_port ≡ ok (d, port))
        ↔ Names lib wire host raw_port default_port d port
  parse_url_authority_iff host raw_port default_port d port = (
    parse_url_authority_sound host raw_port default_port d port,
    parse_url_authority_complete host raw_port default_port d port,
  )

-- What the libraries do with the texts of one destination and one port: the text of an address is
-- read back as that address, IDNA leaves alone what it has made, and a joined host and
-- port are split again.
pub record IsReadBack (lib : Library) (wire : Wire) (d : Destination) (port : ℕ) : Type 0 where
  pub address :
      is_hostname d ≡ false
      → (wire.addr_string (routing_address d) ≢ [])
        × (lib.parse_addr (wire.addr_string (routing_address d)) ≡ some (routing_address d))
  pub name : is_hostname d ≡ true → lib.to_ascii d.hostname ≡ some d.hostname
  pub split :
      wire.split_host_port (wire.join_host_port (host_text wire d) (wire.itoa port))
      ≡ some (host_text wire d, wire.itoa port)
  pub digits : wire.itoa port ≢ []
  pub number : wire.parse_uint16 (wire.itoa port) ≡ some port

-- The hostname of a destination is the text of an address.
abbrev pub IsAddressText : Library → Destination → Type 0
IsAddressText lib d = (d.hostname ≢ []) × ((a : Addr) × (lib.parse_addr d.hostname ≡ some a))
