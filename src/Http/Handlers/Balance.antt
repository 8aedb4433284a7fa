-- ===== src/Http/Handlers/Balance.antt =====
-- What a handler opens it closes, whatever the request and whatever fails.
use airjail.Base.{
  ℕ, zero, suc, ◌+◌, ◌-◌, ◌++◌, ◌&&◌, Bool, false, true, not, Option, none, some, List, [], ◌∷◌,
  ◌≡◌, refl, arith, if◌then◌else◌, Bool-cases, Result-cases, inl, inr, ◌==◌, list_eq, nat_eq,
}
use airjail.Base.Bytes.{Bytes}
use airjail.Policy.Library.{Library}
use airjail.Policy.Destination.{Destination}
use airjail.Http.Authority.{Wire, parse_authority, parse_url_authority, canonical_authority}
use airjail.Http.Sets.{ActivitySet, add_activity, activity_done}
use airjail.Http.Handlers.{
  Request, World, Step, answered, dialed, hijacked, tunnel_added, established, relayed,
  upstream_closed, client_closed, tunnel_removed, proxied, write_dial_error, establish, tunnel,
  dial_then, exchange, relay_closing, passed_on, serve_connect, forward, serve_plain_http, handle,
  serve_http,
}

-- A connection of a handler: not opened yet, open, or closed, once or more often.
pub data Phase : Type 0 where
  unopened live shut : Phase

abbrev pub is_live : Phase → Bool
is_live unopened = false
is_live live = true
is_live shut = false

abbrev pub is_unopened : Phase → Bool
is_unopened unopened = true
is_unopened live = false
is_unopened shut = false

-- The handler's two connections, and the number of its tunnels in the set.
pub record Open : Type 0 where
  pub upstream : Phase
  pub client : Phase
  pub tunnels : ℕ

abbrev pub both_live : Open → Bool
both_live o = is_live o.upstream && is_live o.client

-- The account of the steps, which is void where a connection is opened a second time, closed before it
-- was opened, or used while it is not open, and where a tunnel is removed that is not in the set. A
-- closed connection may be closed again.
abbrev pub account : List Step → Open → Option Open
account [] o = some o
account (dialed d port ∷ steps) o =
    if is_unopened o.upstream then account steps (record o { upstream = live }) else none
account (hijacked ∷ steps) o =
    if is_unopened o.client then account steps (record o { client = live }) else none
account (tunnel_added ∷ steps) o =
    if both_live o then account steps (record o { tunnels = o.tunnels + 1 }) else none
account (upstream_closed ∷ steps) o =
    if is_unopened o.upstream then none else account steps (record o { upstream = shut })
account (client_closed ∷ steps) o =
    if is_unopened o.client then none else account steps (record o { client = shut })
account (tunnel_removed ∷ steps) o =
    if o.tunnels == 0 then none else account steps (record o { tunnels = o.tunnels - 1 })
account (answered status ∷ steps) o = if is_unopened o.client then account steps o else none
account (passed_on status ∷ steps) o = if is_live o.upstream then account steps o else none
account (established ∷ steps) o = if both_live o then account steps o else none
account (relayed ∷ steps) o = if both_live o then account steps o else none
account (proxied authority ∷ steps) o = if is_live o.upstream then account steps o else none

abbrev pub nothing_open : Open
nothing_open = record { upstream = unopened; client = unopened; tunnels = 0 }

-- the account is not void, and at its end no connection is open and no tunnel is in the set
abbrev pub settled : Option Open → Bool
settled none = false
settled (some o) = not (is_live o.upstream) && (not (is_live o.client) && o.tunnels == 0)

abbrev pub Balanced : List Step → Type 0
Balanced steps = settled (account steps nothing_open) ≡ true

-- the deferred calls, behind any closes of the relay
relay_closing-settled :
    (n : ℕ) (upstream client : Phase)
    → is_unopened upstream ≡ false
    → is_unopened client ≡ false
    → settled (
        account
          (relay_closing n ++ upstream_closed ∷ client_closed ∷ tunnel_removed ∷ [])
          (record { upstream = upstream; client = client; tunnels = 1 }))
      ≡ true
unfolding relay_closing
relay_closing-settled zero upstream client u c = rw (u, c) refl
relay_closing-settled (suc n) upstream client u c =
    rw (c, u) (relay_closing-settled n shut shut refl refl)

module _ (lib : Library) (wire : Wire) (world : World) where
  dial_then-Balanced :
      (d : Destination) (port : ℕ) (next : List Step)
      → Balanced (dialed d port ∷ next)
      → Balanced (dial_then world d port next)
  unfolding dial_then write_dial_error
  dial_then-Balanced d port next h = ground arith

  tunnel-Balanced : (d : Destination) (port : ℕ) → Balanced (dialed d port ∷ tunnel world)
  unfolding tunnel establish
  tunnel-Balanced d port =
      ground (arith, relay_closing-settled world.relay_closes live live refl refl)

  serve_connect-Balanced : (request : Request) → Balanced (serve_connect lib wire world request)
  unfolding serve_connect
  serve_connect-Balanced request = elim (Result-cases (parse_authority lib wire request.host)) [
    | inr (e, bad) ↦ rw (bad, serve_connect) refl
    | inl ((d, port), read) ↦
        rw (read, serve_connect) (dial_then-Balanced d port (tunnel world) (tunnel-Balanced d port))
  ]

  exchange-Balanced :
      (d : Destination) (port : ℕ) (authority : Bytes)
      → Balanced (dialed d port ∷ exchange world authority)
  unfolding exchange
  exchange-Balanced d port authority = ground arith

  forward-Balanced :
      (request : Request) (d : Destination) (port : ℕ)
      → Balanced (forward lib wire world request d port)
  unfolding forward
  forward-Balanced request d port =
      let authority = canonical_authority wire d port (not (request.port == [])) in
      dial_then-Balanced d port (exchange world authority) (exchange-Balanced d port authority)

  serve_plain_http-Balanced :
      (request : Request) → Balanced (serve_plain_http lib wire world request)
  unfolding serve_plain_http
  serve_plain_http-Balanced request =
      elim (Result-cases (parse_url_authority lib wire request.hostname request.port 80)) [
        | inr (e, bad) ↦ ground (arith, bad)
        | inl ((d, port), read) ↦ ground (arith, read, forward-Balanced request d port)
      ]

  handle-Balanced : (request : Request) → Balanced (handle lib wire world request)
  unfolding handle
  handle-Balanced request =
      ground (arith, serve_connect-Balanced request, serve_plain_http-Balanced request)

  -- Whatever the request, whatever fails and however often the relay closes both connections, a handler
  -- opens at most one upstream connection and takes over the client's at most once; it closes each that
  -- it has, once or more often and never before; it uses a connection only while it is open, sends no
  -- answer of its own on one that it took over, and takes its tunnel out of the set again. It leaves
  -- the count of the handlers as it was, and once the proxy is shutting down it opens nothing.
  pub serve_http-Balanced :
      (handlers : ActivitySet) (request : Request)
      → (settled (account (serve_http lib wire world handlers request).1 nothing_open) ≡ true)
        × ((serve_http lib wire world handlers request).0 ≡ handlers)
        × (handlers.closing ≡ true
            → (serve_http lib wire world handlers request).1 ≡ answered 503 ∷ [])
  unfolding serve_http add_activity activity_done
  serve_http-Balanced handlers request = elim (Bool-cases handlers.closing) [
    | inl e ↦ (ground (arith, e), ground (arith, e), λ _. ground (arith, e))
    | inr e ↦ (
      ground (arith, e, handle-Balanced request),
      ground (arith, e),
      λ shut. absurd (ground (arith, e)),
    )
  ]
