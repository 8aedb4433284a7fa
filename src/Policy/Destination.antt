-- ===== src/Policy/Destination.antt =====
-- internal/policy/destination.go: a host as a strictly classified hostname or address.
pub mod Laws
use airjail.Base.{
  ℕ, Bool, true, false, ◌&&◌, ◌||◌, not, Option, none, some, [], ◌∷◌, ltb, leb, if◌then◌else◌,
  length, all, Result, ok, err, ◌>>=◌, ◌>>◌, wrap, ◌==◌, nat_eq, list_eq,
}
use airjail.Base.Bytes.{Bytes, codes}
use airjail.Netip.{Addr, invalid, zone_of, unmap, is4in6, with_zone}
use airjail.Policy.Errors.{
  ZoneError, zone_too_long, zone_dots, zone_character, DestinationError, mapped_with_zone, bad_zone,
  bad_hostname,
}
use airjail.Policy.Library.{Library}
use airjail.Policy.Hostname.{normalize_hostname}

pub record Destination : Type 0 where
  pub hostname : Bytes
  pub address : Addr
  pub zone : Bytes

unfoldable pub zone_byte : ℕ → Bool
zone_byte c =
    leb b'a' c && leb c b'z'
    || leb b'A' c && leb c b'Z'
    || leb b'0' c && leb c b'9'
    || c == b'_'
    || c == b'-'
    || c == b'.'

unfoldable pub validate_zone : Bytes → Result ZoneError (Unit {0})
unfolding zone_byte
validate_zone zone =
    if ltb 15 (length zone)
    then err zone_too_long
    else if zone == codes "." || zone == codes ".."
    then err zone_dots
    else if all zone_byte zone
    then ok tt
    else err zone_character

unfoldable pub parse_address_destination : Addr → Result DestinationError Destination
unfolding validate_zone
parse_address_destination address =
    let zone = zone_of address in
    if zone == []
    then ok (record { hostname = []; address = unmap address; zone = [] })
    else if is4in6 address
    then err mapped_with_zone
    else (wrap bad_zone (validate_zone zone)
        >> ok (record { hostname = []; address = with_zone address []; zone = zone }))

-- the part behind netip.ParseAddr
unfoldable pub classify : Library → Bytes → Option Addr → Result DestinationError Destination
unfolding parse_address_destination
classify lib raw (some address) = parse_address_destination address
classify lib raw none = wrap bad_hostname (normalize_hostname lib raw) >>= λ host.
    ok (record { hostname = host; address = invalid; zone = [] })

unfoldable pub parse_destination : Library → Bytes → Result DestinationError Destination
unfolding classify
parse_destination lib raw = classify lib raw (lib.parse_addr raw)

unfoldable pub is_hostname : Destination → Bool
is_hostname d = not (d.hostname == [])

unfoldable pub routing_address : Destination → Addr
routing_address d = if d.zone == [] then d.address else with_zone d.address d.zone
