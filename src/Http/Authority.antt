-- ===== src/Http/Authority.antt =====
-- internal/proxyhttp/server.go, parseAuthority, parseURLAuthority and canonicalAuthority: the
-- destination and the port that a request names, and the text that names them to the next server.
pub mod Readback
use airjail.Base.{
  ℕ, Bool, true, false, not, ◌&&◌, ◌||◌, Option, none, some, [], ◌∷◌, ◌++◌, if◌then◌else◌, Result,
  ok, err, ◌>>=◌, wrap, ◌==◌, list_eq, nat_eq,
}
use airjail.Base.Bytes.{Bytes, codes}
use airjail.Netip.{Addr, is6}
use airjail.Policy.Library.{Library}
use airjail.Policy.Errors.{DestinationError}
use airjail.Policy.Destination.{Destination, parse_destination, is_hostname, routing_address}

-- net.SplitHostPort and net.JoinHostPort, strconv.ParseUint in base 10 with 16 bits, strconv.Itoa and
-- Addr.String.
pub record Wire : Type 0 where
  pub split_host_port : Bytes → Option (Bytes × Bytes)
  pub join_host_port : Bytes → Bytes → Bytes
  pub parse_uint16 : Bytes → Option ℕ
  pub itoa : ℕ → Bytes
  pub addr_string : Addr → Bytes

pub data AuthorityError : Type 0 where
  not_split host_empty port_range port_required : AuthorityError
  destination_invalid : DestinationError → AuthorityError

-- the port of a text, which is the default if the text is empty
unfoldable pub port_of : Wire → Bytes → ℕ → Result AuthorityError ℕ
port_of wire raw_port default_port =
    if raw_port == [] then ok default_port else elim (wire.parse_uint16 raw_port) [
      | none ↦ err port_range
      | some port ↦ if port == 0 then err port_range else ok port
    ]

unfoldable pub parse_url_authority :
    Library → Wire → Bytes → Bytes → ℕ → Result AuthorityError (Destination × ℕ)
unfolding port_of
parse_url_authority lib wire host raw_port default_port =
    if host == []
    then err host_empty
    else port_of wire raw_port default_port >>= λ port.
        if port == 0
        then err port_required
        else wrap destination_invalid (parse_destination lib host) >>= λ destination.
            ok (destination, port)

unfoldable pub parse_authority : Library → Wire → Bytes → Result AuthorityError (Destination × ℕ)
unfolding parse_url_authority
parse_authority lib wire authority = elim (wire.split_host_port authority) [
  | none ↦ err not_split
  | some (host, raw_port) ↦ parse_url_authority lib wire host raw_port 0
]

unfoldable pub host_text : Wire → Destination → Bytes
host_text wire destination =
    if is_hostname destination
    then destination.hostname
    else wire.addr_string (routing_address destination)

unfoldable pub canonical_authority : Wire → Destination → ℕ → Bool → Bytes
unfolding host_text
canonical_authority wire destination port include_port =
    let host = host_text wire destination in
    if not (is_hostname destination) && is6 destination.address && not include_port
    then codes "[" ++ host ++ codes "]"
    else if include_port
    then wire.join_host_port host (wire.itoa port)
    else host
