-- ===== src/Tests/Http.antt =====
-- Witnesses of the HTTP proxy.
use airjail.Base.{
  ℕ, ◌<◌, Bool, true, false, Option, none, some, List, [], ◌∷◌, ◌++◌, ◌≡◌, ◌↔◌, refl, Result, ok,
  err, inl, if◌then◌else◌, ◌==◌, list_eq, nat_eq,
}
use airjail.Base.Bytes.{codes}
use airjail.Netip.{invalid, v4}
use airjail.Policy.Destination.{Destination, parse_destination}
use airjail.Http.Authority.{Wire}
use airjail.Http.Sets.{
  Call, adds, removes, closes, new_connection_set, new_activity_set, is_idle, run,
}
use airjail.Http.Sets.Spec.{no_tunnels, run_spec, AllDue}
use airjail.Http.Sets.Refines.{Implements, run-Implements}
use airjail.Http.Handlers.{
  Request, World, denied, answered, dialed, hijacked, tunnel_added, handle, serve_plain_http,
  serve_http,
}
use airjail.Http.Handlers.Balance.{settled, account, nothing_open, serve_http-Balanced}
use airjail.Http.Handlers.Denied.{serve_http-denied}
use airjail.Http.Handlers.Targets.{Happens, Named, handle-dialed}
use airjail.Tests.Policies.{library}

abbrev calls : List Call
calls = adds (1 ∷ 2 ∷ []) ∷ adds (3 ∷ 4 ∷ []) ∷ removes (1 ∷ 2 ∷ []) ∷ closes ∷ adds (5 ∷ []) ∷ []

calls_due : AllDue no_tunnels calls
unfolding airjail.Http.Sets.Spec.perform_spec airjail.Base.contains airjail.Base.list_beq
    airjail.Base.Sets.delete
calls_due = (
  ((refl, (refl, tt)), (refl, (refl, tt))),
  (((refl, (refl, tt)), (refl, (refl, tt))), (refl, (tt, (((refl, tt), (refl, tt)), tt)))),
)

run-Implements_example :
    Implements (run_spec no_tunnels calls).0 (run new_connection_set calls).0
    × ((run new_connection_set calls).1 ≡ (run_spec no_tunnels calls).1)
    × ((is_idle (run new_connection_set calls).0 ≡ true)
        ↔ ((run_spec no_tunnels calls).0.live ≡ []))
run-Implements_example = run-Implements calls calls_due

abbrev wire : Wire
wire = record {
  split_host_port = λ s.
      if s == codes "10.0.0.1:80"
      then some (codes "10.0.0.1", codes "80")
      else if s == codes "example.com:80"
      then some (codes "example.com", codes "80")
      else none;
  join_host_port = λ host port. host ++ codes ":" ++ port;
  parse_uint16 = λ s. if s == codes "80" then some 80 else none;
  itoa = λ n. if n == 80 then codes "80" else codes "0";
  addr_string = λ a. codes "10.0.0.1";
}

abbrev ten : Destination
ten = record { hostname = []; address = v4 0x0a000001; zone = [] }

ten_parsed : parse_destination library (codes "10.0.0.1") ≡ ok ten
unfolding airjail.Base.list_beq airjail.Policy.Destination.parse_destination
    airjail.Policy.Destination.classify airjail.Policy.Destination.parse_address_destination
    airjail.Netip.unmap airjail.Netip.is4in6 airjail.Netip.zone_of
ten_parsed = refl

abbrev named : Destination
named = record { hostname = codes "example.com"; address = invalid; zone = [] }

abbrev world : World
world = record {
  dial = λ d port. none;
  is_hijacker = true;
  hijacks = true;
  adds_tunnel = true;
  writes = true;
  flushes = true;
  relay_closes = 1;
  response = some 200;
}

abbrev request : Request
request = record {
  is_connect = false;
  host = [];
  is_abs = true;
  scheme = codes "http";
  url_host = codes "10.0.0.1:80";
  user = false;
  hostname = codes "10.0.0.1";
  port = codes "80";
}

abbrev refusing : World
refusing = record world { dial = λ d port. some denied }

request_dials : Happens (dialed ten 80) (serve_plain_http library wire world request)
unfolding airjail.Http.Handlers.serve_plain_http airjail.Base.list_beq
    airjail.Http.Authority.parse_url_authority airjail.Http.Authority.port_of
    airjail.Policy.Destination.parse_destination airjail.Policy.Destination.classify
    airjail.Policy.Destination.parse_address_destination airjail.Netip.unmap airjail.Netip.is4in6
    airjail.Netip.zone_of airjail.Http.Handlers.forward airjail.Http.Handlers.dial_then
request_dials = inl refl

request_handled : Happens (dialed ten 80) (handle library wire world request)
unfolding airjail.Http.Handlers.handle
request_handled = request_dials

serve_http-Balanced_example :
    (settled (account (serve_http library wire world new_activity_set request).1 nothing_open)
      ≡ true)
    × ((serve_http library wire world new_activity_set request).0 ≡ new_activity_set)
    × (new_activity_set.closing ≡ true
        → (serve_http library wire world new_activity_set request).1 ≡ answered 503 ∷ [])
serve_http-Balanced_example = serve_http-Balanced library wire world new_activity_set request

handle-dialed_example : Named library wire request ten 80 × (world.dial ten 80 ≡ none)
handle-dialed_example = handle-dialed library wire world request ten 80 request_handled

serve_http-denied_example :
    Happens (answered 403) (serve_http library wire refusing new_activity_set request).1 ↔ (
      (new_activity_set.closing ≡ false)
      × ((d : Destination) × (port : ℕ) × Named library wire request d port
          × (refusing.dial d port ≡ some denied)))
serve_http-denied_example = serve_http-denied library wire refusing request new_activity_set
