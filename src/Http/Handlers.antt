-- ===== src/Http/Handlers.antt =====
-- internal/proxyhttp/server.go, ServeHTTP with serveConnect and servePlainHTTP: what a request does to
-- the client, to the upstream connection and to the sets, in order, the deferred calls included.
pub mod Balance
pub mod Targets
pub mod Denied
use airjail.Base.{
  ℕ, zero, suc, ◌+◌, Bool, true, false, not, ◌&&◌, ◌||◌, Option, none, some, List, [], ◌∷◌, ◌++◌,
  if◌then◌else◌, Result, ok, err, ◌==◌, list_eq, nat_eq,
}
use airjail.Base.Bytes.{Bytes, codes}
use airjail.Policy.Library.{Library}
use airjail.Policy.Destination.{Destination}
use airjail.Http.Authority.{Wire, parse_authority, parse_url_authority, canonical_authority}
use airjail.Http.Sets.{ActivitySet, add_activity, activity_done}

-- http.Request as far as it is read; `user` is whether the URL has one
pub record Request : Type 0 where
  pub is_connect : Bool
  pub host : Bytes
  pub is_abs : Bool
  pub scheme : Bytes
  pub url_host : Bytes
  pub user : Bool
  pub hostname : Bytes
  pub port : Bytes

-- The connector's error, by whether errors.Is finds ErrDenied in it.
pub data Failure : Type 0 where
  denied unreachable : Failure

-- What happens outside: the connector, whether the response can be hijacked and is, what the set of the
-- tunnels answers, and whether the client takes the confirmation.
pub record World : Type 0 where
  pub dial : Destination → ℕ → Option Failure
  pub is_hijacker : Bool
  pub hijacks : Bool
  pub adds_tunnel : Bool
  pub writes : Bool
  pub flushes : Bool
  -- how often relay.Bidirectional closes both connections: on a relay error and on a cancellation
  pub relay_closes : ℕ
  -- the status of the upstream's answer, or none if httputil.ReverseProxy calls its ErrorHandler
  pub response : Option ℕ

-- `answered` is an answer of the proxy's own, by http.Error; `passed_on` is the upstream's.
pub data Step : Type 0 where
  answered passed_on : ℕ → Step
  dialed : Destination → ℕ → Step
  hijacked tunnel_added established relayed : Step
  upstream_closed client_closed tunnel_removed : Step
  proxied : Bytes → Step

abbrev pub bad_request : ℕ
bad_request = 400

unfoldable pub write_dial_error : Failure → List Step
write_dial_error denied = answered 403 ∷ []
write_dial_error unreachable = answered 502 ∷ []

-- the calls of Close by the relay
unfoldable pub relay_closing : ℕ → List Step
relay_closing zero = []
relay_closing (suc n) = client_closed ∷ upstream_closed ∷ relay_closing n

-- between tunnels.add and the deferred calls
unfoldable pub establish : World → List Step
unfolding relay_closing
establish world =
    if not world.writes
    then []
    else if not world.flushes
    then []
    else established ∷ relayed ∷ relay_closing world.relay_closes

-- behind a dial that connected
unfoldable pub tunnel : World → List Step
unfolding establish
tunnel world =
    if not world.is_hijacker
    then upstream_closed ∷ answered 500 ∷ []
    else if not world.hijacks
    then upstream_closed ∷ []
    else if not world.adds_tunnel
    then hijacked ∷ client_closed ∷ upstream_closed ∷ []
    else hijacked
      ∷ tunnel_added
      ∷ (establish world ++ upstream_closed ∷ client_closed ∷ tunnel_removed ∷ [])

-- reverseProxy.ServeHTTP, and the upstream's deferred Close
unfoldable pub exchange : World → Bytes → List Step
exchange world authority = elim world.response [
  | some status ↦ proxied authority ∷ passed_on status ∷ upstream_closed ∷ []
  | none ↦ proxied authority ∷ answered 502 ∷ upstream_closed ∷ []
]

-- a dial, and what follows it if it connects
unfoldable pub dial_then : World → Destination → ℕ → List Step → List Step
unfolding write_dial_error
dial_then world destination port next = elim (world.dial destination port) [
  | some failure ↦ write_dial_error failure
  | none ↦ dialed destination port ∷ next
]

module _ (lib : Library) (wire : Wire) (world : World) where
  unfoldable pub serve_connect : Request → List Step
  unfolding dial_then tunnel
  serve_connect request = elim (parse_authority lib wire request.host) [
    | err e ↦ answered bad_request ∷ []
    | ok (destination, port) ↦ dial_then world destination port (tunnel world)
  ]

  unfoldable pub forward : Request → Destination → ℕ → List Step
  unfolding dial_then exchange
  forward request destination port =
      let authority = canonical_authority wire destination port (not (request.port == [])) in
      dial_then world destination port (exchange world authority)

  unfoldable pub serve_plain_http : Request → List Step
  unfolding forward
  serve_plain_http request =
      if not request.is_abs
        || not (request.scheme == codes "http")
        || request.url_host == []
        || request.user
      then answered bad_request ∷ []
      else elim (parse_url_authority lib wire request.hostname request.port 80) [
        | err e ↦ answered bad_request ∷ []
        | ok (destination, port) ↦ forward request destination port
      ]

  unfoldable pub handle : Request → List Step
  unfolding serve_connect serve_plain_http
  handle request = if request.is_connect then serve_connect request else serve_plain_http request

  -- ServeHTTP with the set of the handlers
  unfoldable pub serve_http : ActivitySet → Request → ActivitySet × List Step
  unfolding handle add_activity activity_done
  serve_http handlers request =
      let (entered, added) = add_activity handlers in
      if added then (activity_done entered, handle request) else (entered, answered 503 ∷ [])

-- oneConnectionDialer: whether the connection is handed out, and `used` afterwards
unfoldable pub one_connection_dialer : Bool → Bool × Bool
one_connection_dialer used = if used then (false, used) else (true, true)
