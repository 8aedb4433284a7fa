-- ===== src/Http/Handlers/Denied.antt =====
-- Which requests the proxy answers with 403.
use airjail.Base.{
  ℕ, zero, suc, ◌++◌, true, false, not, some, List, [], ◌∷◌, ◌≡◌, ◌≢◌, ◌↔◌, refl, arith, Bool-cases,
  Result-cases, inl, inr, ◌==◌, ==_iff, list_eq, nat_eq,
}
use airjail.Base.Bytes.{Bytes, codes}
use airjail.Policy.Library.{Library}
use airjail.Policy.Destination.{Destination}
use airjail.Http.Authority.{Wire, parse_authority, parse_url_authority, canonical_authority}
use airjail.Http.Sets.{ActivitySet, add_activity}
use airjail.Http.Handlers.{
  Request, denied, World, Step, answered, write_dial_error, establish, tunnel, exchange,
  relay_closing, serve_http, dial_then, serve_connect, forward, serve_plain_http, handle,
}
use airjail.Http.Handlers.Targets.{deferred_calls, Happens, Named}

module _ (lib : Library) (wire : Wire) (world : World) (request : Request) where
  exchange-no_refusal : (authority : Bytes) → Happens (answered 403) (exchange world authority) → ⊥
  unfolding exchange
  exchange-no_refusal authority h = ground arith

  relay_closing-no_refusal :
      (n : ℕ) (rest : List Step)
      → Happens (answered 403) (relay_closing n ++ rest)
      → Happens (answered 403) rest
  unfolding relay_closing
  relay_closing-no_refusal zero rest h = h
  relay_closing-no_refusal (suc n) rest h = relay_closing-no_refusal n rest (ground (arith, h))

  dial_then-denied :
      (d : Destination) (port : ℕ) (next : List Step)
      → (Happens (answered 403) next → ⊥)
      → Happens (answered 403) (dial_then world d port next)
      → world.dial d port ≡ some denied
  unfolding dial_then write_dial_error
  dial_then-denied d port next later h = ground arith

  tunnel-no_refusal : Happens (answered 403) (tunnel world) → ⊥
  unfolding tunnel establish
  tunnel-no_refusal h = ground (arith, relay_closing-no_refusal world.relay_closes deferred_calls)

  handle-denied_sound :
      Happens (answered 403) (handle lib wire world request)
      → (d : Destination) × (port : ℕ) × Named lib wire request d port
        × (world.dial d port ≡ some denied)
  unfolding handle serve_connect serve_plain_http forward
  handle-denied_sound h = elim (Bool-cases request.is_connect) [
    | inl e ↦ elim (Result-cases (parse_authority lib wire request.host)) [
      | inr (fault, bad) ↦ absurd (ground (arith, e, bad))
      | inl ((d, port), read) ↦ (
        d,
        port,
        inl (e, read),
        dial_then-denied d port (tunnel world) tunnel-no_refusal (ground (arith, e, read)),
      )
    ]
    | inr e ↦ elim (Result-cases (parse_url_authority lib wire request.hostname request.port 80)) [
      | inr (fault, bad) ↦ absurd (ground (arith, e, bad))
      | inl ((d, port), read) ↦
          let authority = canonical_authority wire d port (not (request.port == [])) in
          let passed : (request.is_abs ≡ true)
              × (request.scheme ≡ codes "http")
              × (request.url_host ≢ [])
              × (request.user ≡ false) =
            ground (arith, e, ==_iff request.scheme (codes "http"), ==_iff request.url_host []) in
          (
            d,
            port,
            inr (e, passed.0, passed.1, passed.2, passed.3, read),
            dial_then-denied d port (exchange world authority) (exchange-no_refusal authority)
                (ground (arith, e, read)),
          )
    ]
  ]

  handle-denied_complete :
      (d : Destination) (port : ℕ)
      → Named lib wire request d port
      → world.dial d port ≡ some denied
      → handle lib wire world request ≡ answered 403 ∷ []
  unfolding handle serve_connect serve_plain_http forward dial_then write_dial_error
  handle-denied_complete d port named refused =
      ground (arith, ==_iff request.scheme (codes "http"), ==_iff request.url_host [])

  handle-denied : Happens (answered 403) (handle lib wire world request) ↔ (
      (d : Destination) × (port : ℕ) × Named lib wire request d port
      × (world.dial d port ≡ some denied))
  handle-denied = (
    handle-denied_sound,
    (λ (d, port, named, refused). rw (handle-denied_complete d port named refused) (inl refl)),
  )

  -- The proxy itself answers 403 exactly if it is not shutting down and the request names a destination
  -- and a port that the connector denies. An upstream's 403, which is passed on, is no such answer.
  pub serve_http-denied :
      (handlers : ActivitySet)
      → Happens (answered 403) (serve_http lib wire world handlers request).1 ↔ (
          (handlers.closing ≡ false)
          × ((d : Destination) × (port : ℕ) × Named lib wire request d port
              × (world.dial d port ≡ some denied)))
  unfolding serve_http add_activity
  serve_http-denied handlers = elim (Bool-cases handlers.closing) [
    | inl e ↦ ((λ h. absurd (ground (arith, e, h))), (λ h. let open_ = h.0 in absurd (cc)))
    | inr e ↦ (
      (λ h. (e, handle-denied.0 (ground (arith, e, h)))),
      (λ h. let there = handle-denied.1 h.1 in ground (arith, e, there)),
    )
  ]
