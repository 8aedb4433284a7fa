-- ===== src/Tests/Outer.antt =====
-- Witnesses and tests of internal/outbound/environment.go and of childEnvironment.
use airjail.Base.{
  ℕ, Bool, true, false, Option, none, some, List, [], ◌∷◌, ◌++◌, ◌≡◌, ◌≢◌, ◌↔◌, ◌⊎◌, ◌≤◌, refl, All,
  ok, err, map, if◌then◌else◌, length, ◌==◌, list_eq, nat_eq, arith,
}
use airjail.Base.Bytes.{Bytes, codes}
use airjail.Netip.{v4, zone_of}
use airjail.Outbound.Environment.{
  Url, Outside, Router, Route, direct, through_http, value_of, environment_map, first_environment,
  proxy_names, with_scheme, new_environment_router, route, target, destination_host, bypass_failed,
}
use airjail.Outbound.Environment.Choice.{
  IsProxy, Parses, target_of, new_environment_router-IsProxy, route-target,
}
use airjail.Outbound.Environment.Values.{IsFirst}
use airjail.Outbound.Tunnel.{
  Read, byte, nothing, failed, Peer, read_connect_header, dial_http_proxy, proxy_authority,
  header_end, max_connect_header_size,
}
use airjail.Outbound.Tunnel.Header.{bytes_of, EndsOnce, read_connect_header_sound}
use airjail.Outbound.Tunnel.Closing.{closes, owed, dial_http_proxy-closes}
use airjail.Outbound.Tunnel.Accepting.{Accepted, dial_http_proxy-Accepted}
use airjail.Application.ChildEnvironment.{child_environment}
use airjail.Application.ChildEnvironment.Settings.{
  LeadsToProxies, HasNoProxies, value_of-child_environment-own,
}

abbrev proxy : Url
proxy = record {
  scheme = codes "http";
  host = codes "proxy:8080";
  path = [];
  raw_query = [];
  fragment = [];
  user = none;
}

-- one URL that parses, and a bypass list that is evaluated unless it reads "bad"
abbrev outside : Outside
outside = record {
  parse_url = λ s. if s == codes "http://proxy:8080" then some proxy else none;
  url_hostname = λ url. codes "proxy";
  url_port = λ url. codes "8080";
  addr_string = λ a. codes "10.0.0.1";
  itoa = λ n. codes "443";
  join_host_port = λ host port. host ++ codes ":" ++ port;
  proxy_func =
      λ list host. if list == codes "bad" then none else some (if list == [] then true else false);
}

abbrev environment : List Bytes
environment = codes "A=1" ∷ codes "HTTP_PROXY=proxy:8080" ∷ codes "A=2" ∷ codes "B" ∷ []

abbrev router : Router
router = record { proxy_url = some proxy; no_proxy = [] }

made : new_environment_router outside environment ≡ ok router
unfolding new_environment_router environment_map first_environment value_of
    airjail.Outbound.Environment.fill airjail.Outbound.Environment.parse_proxy_url with_scheme
    airjail.Outbound.Environment.is_http airjail.Base.Bytes.cut airjail.Base.list_beq
    airjail.Base.Bytes.occurs airjail.Base.Bytes.has_prefix airjail.Base.Bytes.to_lower
    airjail.Base.Bytes.lower_byte
made = refl

new_environment_router-IsProxy_example :
    (raw : Bytes) × IsFirst environment
      (codes "HTTPS_PROXY"
        ∷ codes "https_proxy"
        ∷ codes "HTTP_PROXY"
        ∷ codes "http_proxy"
        ∷ codes "ALL_PROXY"
        ∷ codes "all_proxy"
        ∷ [])
      raw
    × Parses outside raw proxy
    × IsProxy proxy
new_environment_router-IsProxy_example =
    new_environment_router-IsProxy outside environment router proxy made refl

routed :
    route outside router (codes "example.com") (v4 0x0a000001) 443
    ≡ ok (through_http proxy (codes "10.0.0.1:443"))
unfolding route zone_of target destination_host airjail.Outbound.Environment.through_proxy
    airjail.Outbound.Environment.by_scheme airjail.Outbound.Environment.is_http
    airjail.Base.list_beq airjail.Base.Bytes.to_lower airjail.Base.Bytes.lower_byte
routed = refl

route-target_example :
    target_of (through_http proxy (codes "10.0.0.1:443")) ≡ target outside (v4 0x0a000001) 443
route-target_example =
    route-target outside router (codes "example.com") (v4 0x0a000001) 443
      (through_http proxy (codes "10.0.0.1:443")) routed

abbrev bad_environment : List Bytes
bad_environment = codes "NO_PROXY=bad" ∷ []

abbrev bad_router : Router
bad_router = record { proxy_url = none; no_proxy = codes "bad" }

bad_made : new_environment_router outside bad_environment ≡ ok bad_router
unfolding new_environment_router environment_map first_environment value_of
    airjail.Outbound.Environment.fill airjail.Outbound.Environment.parse_proxy_url
    airjail.Base.Bytes.cut airjail.Base.list_beq
bad_made = refl

unevaluated :
    route outside bad_router (codes "a") (v4 0x0a000001) 443 ≡ err (bypass_failed (codes "a:443"))
unfolding route zone_of target destination_host airjail.Base.list_beq
unevaluated = refl

evaluated :
    outside.proxy_func router.no_proxy
      (destination_host outside (codes "example.com") (v4 0x0a000001) 443)
    ≢ none
unfolding airjail.Base.list_beq
evaluated e = cc

-- a header of six bytes, a read of nothing, and a byte behind the header
abbrev reads : List Read
reads = byte b'O' ∷ nothing ∷ byte b'K' ∷ (map byte header_end ++ byte b'x' ∷ [])

abbrev header : Bytes
header = codes "OK" ++ header_end

header_read : read_connect_header reads ≡ ok (header, byte b'x' ∷ [])
unfolding read_connect_header airjail.Outbound.Tunnel.read_from airjail.Base.Bytes.has_suffix
    airjail.Base.list_beq
header_read = refl

read_connect_header_sound_example :
    (bytes_of reads ≡ header ++ bytes_of (byte b'x' ∷ []))
    × EndsOnce [] header
    × (length header ≤ max_connect_header_size)
read_connect_header_sound_example =
    read_connect_header_sound reads header (byte b'x' ∷ []) header_read

header_ends : EndsOnce [] header
unfolding airjail.Base.Bytes.has_suffix airjail.Base.list_beq
header_ends = (refl, (refl, (refl, (refl, (refl, refl)))))

abbrev peer : Peer
peer = record {
  dials = λ a. true;
  has_deadline = true;
  sets_deadline = true;
  negotiates = λ name. true;
  writes = λ authority sent. true;
  reads = reads;
  read_response = λ h. some 200;
  closes_body = true;
  clears_deadline = true;
  is_ip = λ host. false;
}

dial_http_proxy-closes_example :
    closes (dial_http_proxy outside peer proxy (codes "10.0.0.1:443")).0 ≡ (
      if peer.dials (proxy_authority outside proxy)
      then owed (dial_http_proxy outside peer proxy (codes "10.0.0.1:443")).1
      else 0)
dial_http_proxy-closes_example = dial_http_proxy-closes outside peer proxy (codes "10.0.0.1:443")

handed_out : (dial_http_proxy outside peer proxy (codes "10.0.0.1:443")).1 ≡ ok (byte b'x' ∷ [])
unfolding dial_http_proxy airjail.Outbound.Tunnel.close_unless_kept
    airjail.Outbound.Tunnel.connected airjail.Outbound.Tunnel.negotiate
    airjail.Outbound.Tunnel.request airjail.Outbound.Tunnel.answer airjail.Outbound.Tunnel.judge
    airjail.Outbound.Tunnel.is_https read_connect_header airjail.Outbound.Tunnel.read_from
    airjail.Base.Bytes.has_suffix airjail.Base.Bytes.to_lower airjail.Base.Bytes.lower_byte
    airjail.Base.list_beq
handed_out = refl

dial_http_proxy-Accepted_example :
    Accepted outside peer proxy (codes "10.0.0.1:443") (byte b'x' ∷ [])
dial_http_proxy-Accepted_example =
    dial_http_proxy-Accepted outside peer proxy (codes "10.0.0.1:443") (byte b'x' ∷ []) handed_out

value_of-child_environment-own_example :
    LeadsToProxies (child_environment environment true)
    × HasNoProxies (child_environment environment false)
    × ((mode : Bool)
        → value_of (environment_map (child_environment environment mode)) (codes "A")
          ≡ value_of (environment_map environment) (codes "A"))
unfolding airjail.Base.contains airjail.Base.list_beq
value_of-child_environment-own_example = value_of-child_environment-own environment (codes "A") refl
