-- ===== src/Socks.antt =====
-- internal/proxysocks/server.go: the SOCKS5 proxy's dial function, its resolver, the connections that
-- it keeps, and the deadline of a handshake. The SOCKS protocol itself is third-party code.
pub mod Requests
pub mod Connections
pub mod Serve
use airjail.Base.{
  ℕ, ◌+◌, ◌-◌, ◌%◌, ◌^◌, Bool, true, false, not, ◌&&◌, ◌||◌, Option, none, some, List, [], ◌∷◌,
  ◌++◌, if◌then◌else◌, Result, ok, err, ◌>>=◌, wrap, ltb, leb, length, ◌==◌, list_eq, nat_eq,
}
use airjail.Base.Bytes.{Bytes, codes}
use airjail.Policy.Library.{Library}
use airjail.Policy.Errors.{DestinationError}
use airjail.Policy.Destination.{Destination, parse_destination, is_hostname}

pub data ℤ : Type 0 where
  pos negsuc : ℕ → ℤ

unfoldable pub below_one : ℤ → Bool
below_one (pos n) = ltb n 1
below_one (negsuc n) = true

-- the conversion to uint16
unfoldable pub to_uint16 : ℤ → ℕ
to_uint16 (pos n) = n % 2 ^ 16
to_uint16 (negsuc n) = 2 ^ 16 - 1 - n % 2 ^ 16

-- net.SplitHostPort, strconv.Atoi, and the policy-checked connector
pub record Backend : Type 1 where
  pub Conn : Type 0
  pub Failure : Type 0
  pub split_host_port : Bytes → Option (Bytes × Bytes)
  pub atoi : Bytes → Option ℤ
  pub connect : Destination → ℕ → Result Failure Conn

pub data SocksError (Failure : Type 0) : Type 0 where
  network_unsupported address_malformed port_invalid : SocksError Failure
  destination_invalid : DestinationError → SocksError Failure
  connector_failed : Failure → SocksError Failure

module _ (lib : Library) (backend : Backend) where
  unfoldable pub dial_port : Bytes → ℤ → Result (SocksError backend.Failure) backend.Conn
  unfolding below_one to_uint16
  dial_port host port =
      if below_one port
      then err port_invalid
      else wrap destination_invalid (parse_destination lib host) >>= λ destination.
          wrap connector_failed (backend.connect destination (to_uint16 port))

  unfoldable pub dial : Bytes → Bytes → Result (SocksError backend.Failure) backend.Conn
  unfolding dial_port
  dial network address =
      if not (network == codes "tcp")
      then err network_unsupported
      else elim (backend.split_host_port address) [
        | none ↦ err address_malformed
        | some (host, raw_port) ↦ elim (backend.atoi raw_port) [
          | none ↦ err port_invalid
          | some port ↦ dial_port host port
        ]
      ]

-- validatingResolver.Resolve, which returns no address: the error, or that there is none
pub data ResolveError : Type 0 where
  hostname_invalid : DestinationError → ResolveError
  is_ip_address : ResolveError

unfoldable pub resolve : Library → Bytes → Result ResolveError Unit
resolve lib hostname = wrap hostname_invalid (parse_destination lib hostname) >>= λ destination.
    if not (is_hostname destination) && destination.zone == [] then err is_ip_address else ok tt

-- handshakeConnection: the number of writes, and whether the handshake's deadline still stands
pub record Handshake : Type 0 where
  pub writes : ℕ
  pub deadline : Bool

unfoldable pub is_success : Bytes → Bool
is_success [] = false
is_success (version ∷ []) = false
is_success (version ∷ reply ∷ rest) = reply == 0

-- One Write, given whether SetDeadline works: the connection, and whether the contents went out.
unfoldable pub write : Handshake → Bool → Bytes → Handshake × Bool
unfolding is_success
write h clears contents =
    let counted = record h { writes = h.writes + 1 } in
    if counted.writes == 2 && is_success contents
    then (if clears then (record counted { deadline = false }, true) else (counted, false))
    else (counted, true)
