-- ===== src/Http/Handlers/Targets.antt =====
-- Where a request goes: to the destination that it names, if the connector lets it.
use airjail.Base.{
  ℕ, zero, suc, ◌++◌, true, false, not, none, List, [], ◌∷◌, ◌≡◌, ◌≢◌, ◌⊎◌, arith, ok, Bool-cases,
  Result-cases, inl, inr, ◌==◌, ==_iff, list_eq, nat_eq, Some,
}
use airjail.Base.Bytes.{Bytes, codes}
use airjail.Policy.Library.{Library}
use airjail.Policy.Destination.{Destination}
use airjail.Http.Authority.{Wire, parse_authority, parse_url_authority, canonical_authority}
use airjail.Http.Handlers.{
  Request, World, Step, dialed, upstream_closed, write_dial_error, establish, tunnel, exchange,
  relay_closing, client_closed, tunnel_removed, dial_then, serve_connect, forward, serve_plain_http,
  handle,
}

abbrev pub deferred_calls : List Step
deferred_calls = upstream_closed ∷ client_closed ∷ tunnel_removed ∷ []

abbrev pub Happens : Step → List Step → Type 0
Happens step = Some (λ s. s ≡ step)

-- The destination and the port that a request names: a CONNECT request by its authority, any other by
-- an absolute http URL with no user and with port 80 if it gives none.
abbrev pub Named : Library → Wire → Request → Destination → ℕ → Type 0
Named lib wire request d port =
    ((request.is_connect ≡ true) × (parse_authority lib wire request.host ≡ ok (d, port)))
    ⊎ ((request.is_connect ≡ false)
        × (request.is_abs ≡ true)
        × (request.scheme ≡ codes "http")
        × (request.url_host ≢ [])
        × (request.user ≡ false)
        × (parse_url_authority lib wire request.hostname request.port 80 ≡ ok (d, port)))

module _ (lib : Library) (wire : Wire) (world : World) (request : Request) where
  dial_then-dialed :
      (d d' : Destination) (port port' : ℕ) (next : List Step)
      → Happens (dialed d' port') (dial_then world d port next)
      → (Happens (dialed d' port') next → ⊥)
      → (d ≡ d') × (port ≡ port') × (world.dial d port ≡ none)
  unfolding dial_then write_dial_error
  dial_then-dialed d d' port port' next h later = ground arith

  exchange-no_dial :
      (d : Destination) (port : ℕ) (authority : Bytes)
      → Happens (dialed d port) (exchange world authority)
      → ⊥
  unfolding exchange
  exchange-no_dial d port authority h = ground arith

  relay_closing-no_dial :
      (n : ℕ) (d : Destination) (port : ℕ) (rest : List Step)
      → Happens (dialed d port) (relay_closing n ++ rest)
      → Happens (dialed d port) rest
  unfolding relay_closing
  relay_closing-no_dial zero d port rest h = h
  relay_closing-no_dial (suc n) d port rest h =
      relay_closing-no_dial n d port rest (ground (arith, h))

  tunnel-no_dial : (d : Destination) (port : ℕ) → Happens (dialed d port) (tunnel world) → ⊥
  unfolding tunnel establish
  tunnel-no_dial d port h =
      ground (arith, relay_closing-no_dial world.relay_closes d port deferred_calls)

  serve_connect-dialed :
      (d : Destination) (port : ℕ)
      → Happens (dialed d port) (serve_connect lib wire world request)
      → (parse_authority lib wire request.host ≡ ok (d, port)) × (world.dial d port ≡ none)
  unfolding serve_connect
  serve_connect-dialed d port h = elim (Result-cases (parse_authority lib wire request.host)) [
    | inr (e, bad) ↦ absurd (ground (arith, bad))
    | inl ((d', port'), read) ↦
        let (same, ports, connected) =
          dial_then-dialed d' d port' port (tunnel world) (ground (arith, read))
            (tunnel-no_dial d port) in
        ground (arith, read, same, ports, connected)
  ]

  serve_plain_http-dialed :
      (d : Destination) (port : ℕ)
      → Happens (dialed d port) (serve_plain_http lib wire world request)
      → (request.is_abs ≡ true)
        × (request.scheme ≡ codes "http")
        × (request.url_host ≢ [])
        × (request.user ≡ false)
        × (parse_url_authority lib wire request.hostname request.port 80 ≡ ok (d, port))
        × (world.dial d port ≡ none)
  unfolding serve_plain_http forward
  serve_plain_http-dialed d port h =
      elim (Result-cases (parse_url_authority lib wire request.hostname request.port 80)) [
        | inr (e, bad) ↦ absurd (ground (arith, bad))
        | inl ((d', port'), read) ↦
            let authority = canonical_authority wire d' port' (not (request.port == [])) in
            let made : Happens (dialed d port) (forward lib wire world request d' port') =
              ground (arith, read) in
            let (same, ports, connected) =
              dial_then-dialed d' d port' port (exchange world authority) made
                (exchange-no_dial d port authority) in
            ground (
              arith,
              read,
              same,
              ports,
              connected,
              ==_iff request.scheme (codes "http"),
              ==_iff request.url_host [],
            )
      ]

  -- A request that opens an upstream connection opens it to the destination and the port that it names
  -- itself, and the policy-checked connector has let them pass.
  pub handle-dialed :
      (d : Destination) (port : ℕ)
      → Happens (dialed d port) (handle lib wire world request)
      → Named lib wire request d port × (world.dial d port ≡ none)
  unfolding handle
  handle-dialed d port h = elim (Bool-cases request.is_connect) [
    | inl e ↦
        let (read, connected) = serve_connect-dialed d port (ground (arith, e)) in
        (inl (e, read), connected)
    | inr e ↦
        let (abs, scheme, host, user, read, connected) =
          serve_plain_http-dialed d port (ground (arith, e)) in
        (inr (e, abs, scheme, host, user, read), connected)
  ]
