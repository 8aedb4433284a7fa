-- ===== src/Outbound/Environment/Choice.antt =====
-- Which routers are made, and how an approved address is then reached.
use airjail.Base.{
  ℕ, true, false, Bool, ◌||◌, Option, none, some, [], ◌∷◌, List, ◌++◌, ◌≡◌, ◌≢◌, sym, subst, inl,
  inr, ◌⊎◌, ◌↔◌, arith, ◌==◌, ==_iff, list_eq, nat_eq, ok, err, Bool-cases, Option-cases,
  Result-cases,
}
use airjail.Base.Bytes.{Bytes, codes, occurs, to_lower}
use airjail.Netip.{Addr, zone_of}
use airjail.Outbound.Environment.Values.{IsFirst, first_environment-IsFirst}
use airjail.Outbound.Environment.{
  Url, Outside, Router, RouterError, bypass_failed, is_http, is_socks, parse_proxy_url,
  new_environment_router, Route, direct, through_http, through_socks, target, destination_host,
  by_scheme, through_proxy, route, with_scheme, environment_map, first_environment, proxy_names,
}

-- A URL that names a proxy and no more, by a scheme that Dial knows.
pub record IsProxy (url : Url) : Type 0 where
  pub host : url.host ≢ []
  pub path : (url.path ≡ []) ⊎ (url.path ≡ codes "/")
  pub raw_query : url.raw_query ≡ []
  pub fragment : url.fragment ≡ []
  pub known :
      (to_lower url.scheme ≡ codes "http")
      ⊎ ((to_lower url.scheme ≡ codes "https")
          ⊎ ((to_lower url.scheme ≡ codes "socks5") ⊎ (to_lower url.scheme ≡ codes "socks5h")))

known_iff :
    (url : Url)
    → ((is_http url || is_socks url) ≡ true) ↔ (
        (to_lower url.scheme ≡ codes "http")
        ⊎ ((to_lower url.scheme ≡ codes "https")
            ⊎ ((to_lower url.scheme ≡ codes "socks5") ⊎ (to_lower url.scheme ≡ codes "socks5h"))))
unfolding is_http is_socks
known_iff url = ground (
  arith,
  ==_iff (to_lower url.scheme) (codes "http"),
  ==_iff (to_lower url.scheme) (codes "https"),
  ==_iff (to_lower url.scheme) (codes "socks5"),
  ==_iff (to_lower url.scheme) (codes "socks5h"),
)

-- A value that names no scheme is taken as that of an HTTP proxy.
abbrev pub Parses : Outside → Bytes → Url → Type 0
Parses out raw url =
    ((occurs (codes "://") raw ≡ true) × (out.parse_url raw ≡ some url))
    ⊎ ((occurs (codes "://") raw ≡ false) × (out.parse_url (codes "http://" ++ raw) ≡ some url))

with_scheme-Parses :
    (out : Outside) (raw : Bytes) (url : Url)
    → out.parse_url (with_scheme raw) ≡ some url
    → Parses out raw url
unfolding with_scheme
with_scheme-Parses out raw url h = elim (Bool-cases (occurs (codes "://") raw)) [
  | inl e ↦ inl (e, ground (arith, e))
  | inr e ↦ inr (e, ground (arith, e))
]

parse_proxy_url-IsProxy :
    (out : Outside) (raw : Bytes) (url : Url)
    → parse_proxy_url out raw ≡ ok (some url)
    → (raw ≢ []) × Parses out raw url × IsProxy url
unfolding parse_proxy_url
parse_proxy_url-IsProxy out [] url h = absurd (cc)
parse_proxy_url-IsProxy out (c ∷ raw) url h =
    elim (Option-cases (out.parse_url (with_scheme (c ∷ raw)))) [
      | inl e ↦ absurd (ground (arith, e))
      | inr (u, e) ↦ (
        (λ empty. absurd (cc)),
        with_scheme-Parses out (c ∷ raw) url (ground (arith, e)),
        record {
          host = ground (arith, e, ==_iff u.host []);
          path = ground (arith, e, ==_iff u.path [], ==_iff u.path (codes "/"));
          raw_query = ground (arith, e, ==_iff u.raw_query []);
          fragment = ground (arith, e, ==_iff u.fragment []);
          known = (known_iff url).0 (ground (arith, e));
        },
      )
    ]

-- The proxy of an accepted environment is read from the first of HTTPS_PROXY, https_proxy, HTTP_PROXY,
-- http_proxy, ALL_PROXY and all_proxy whose value, that of the last entry that sets it, is not empty;
-- with http:// before the value, if that has no ://. It has a host, the scheme http, https, socks5 or
-- socks5h in any case, and no path but /, no query and no fragment.
pub new_environment_router-IsProxy :
    (out : Outside) (environment : List Bytes) (router : Router) (url : Url)
    → new_environment_router out environment ≡ ok router
    → router.proxy_url ≡ some url
    → (raw : Bytes) × IsFirst environment
        (codes "HTTPS_PROXY"
          ∷ codes "https_proxy"
          ∷ codes "HTTP_PROXY"
          ∷ codes "http_proxy"
          ∷ codes "ALL_PROXY"
          ∷ codes "all_proxy"
          ∷ [])
        raw
      × Parses out raw url
      × IsProxy url
unfolding new_environment_router
new_environment_router-IsProxy out environment router url made found =
    let raw = first_environment (environment_map environment) proxy_names in
    elim (Result-cases (parse_proxy_url out raw)) [
      | inl (u, e) ↦
          let (filled, parses, proxy) = parse_proxy_url-IsProxy out raw url (ground (arith, e)) in
          (raw, first_environment-IsFirst environment proxy_names filled, parses, proxy)
      | inr (e, failed) ↦ absurd (ground (arith, failed))
    ]

-- Where a connection goes in the end.
abbrev pub target_of : Route → Bytes
target_of (direct text) = text
target_of (through_http url text) = text
target_of (through_socks url text) = text

through_proxy-target :
    (proxy : Option Url) (selected : Bool) (text : Bytes) (r : Route)
    → through_proxy proxy selected text ≡ ok r
    → target_of r ≡ text
unfolding through_proxy by_scheme
through_proxy-target none selected text r h = ground arith
through_proxy-target (some url) false text r h = ground arith
through_proxy-target (some url) true text r h = ground arith

abbrev Known : Option Url → Type 0
Known none = Unit
Known (some url) = (is_http url || is_socks url) ≡ true

through_proxy-ok :
    (proxy : Option Url) (selected : Bool) (text : Bytes) (e : RouterError)
    → Known proxy
    → through_proxy proxy selected text ≢ err e
unfolding through_proxy by_scheme
through_proxy-ok none selected text e known h = absurd (cc)
through_proxy-ok (some url) false text e known h = absurd (cc)
through_proxy-ok (some url) true text e known h = ground arith

through_proxy-direct :
    (proxy : Option Url) (selected : Bool) (text : Bytes)
    → Known proxy
    → (through_proxy proxy selected text ≡ ok (direct text)) ↔ ((proxy ≡ none) ⊎ (selected ≡ false))
unfolding through_proxy by_scheme
through_proxy-direct none selected text known = ground arith
through_proxy-direct (some url) false text known = ground arith
through_proxy-direct (some url) true text known = ground arith

new_environment_router-Known :
    (out : Outside) (environment : List Bytes) (router : Router)
    → new_environment_router out environment ≡ ok router
    → Known router.proxy_url
new_environment_router-Known out environment router made = elim (Option-cases router.proxy_url) [
  | inl e ↦ subst Known (sym e) tt
  | inr (url, e) ↦
      let (_, _, _, proxy) = new_environment_router-IsProxy out environment router url made e in
      subst Known (sym e) ((known_iff url).1 proxy.known)
]

-- Whichever way is taken, the connection is for the approved address and the port: no name is given
-- to a proxy to resolve.
pub route-target :
    (out : Outside) (router : Router) (hostname : Bytes) (address : Addr) (port : ℕ) (r : Route)
    → route out router hostname address port ≡ ok r
    → target_of r ≡ target out address port
unfolding route through_proxy by_scheme
route-target out router hostname address port r h =
    let text = target out address port in
    elim (Bool-cases (zone_of address == [])) [
      | inr zone ↦ ground (arith, zone)
      | inl plain ↦
          elim (Option-cases
            (out.proxy_func router.no_proxy (destination_host out hostname address port))) [
              | inl e ↦ absurd (ground (arith, plain, e))
              | inr (selected, e) ↦
                  through_proxy-target router.proxy_url selected text r (ground (arith, plain, e))
            ]
    ]

-- With a router that was made from an environment, Dial fails to choose only where NO_PROXY cannot
-- be evaluated, and never for an address with a zone.
pub route-err :
    (out : Outside) (environment : List Bytes) (router : Router) (hostname : Bytes) (address : Addr)
    (port : ℕ) (e : RouterError)
    → new_environment_router out environment ≡ ok router
    → route out router hostname address port ≡ err e
    → (zone_of address ≡ [])
      × (out.proxy_func router.no_proxy (destination_host out hostname address port) ≡ none)
      × (e ≡ bypass_failed (destination_host out hostname address port))
unfolding route through_proxy by_scheme
route-err out environment router hostname address port e made h =
    let text = target out address port in
    elim (Bool-cases (zone_of address == [])) [
      | inr zone ↦ absurd (ground (arith, zone))
      | inl plain ↦
          elim (Option-cases
            (out.proxy_func router.no_proxy (destination_host out hostname address port))) [
              | inl failed ↦
                  ((==_iff (zone_of address) []).0 plain, failed, ground (arith, plain, failed))
              | inr (selected, found) ↦ absurd (
                  through_proxy-ok router.proxy_url selected text e
                    (new_environment_router-Known out environment router made)
                    (ground (arith, plain, found)))
            ]
    ]

-- With a router that was made from an environment, the address is dialed directly exactly when it has a zone, when there is no proxy or when NO_PROXY names the destination.
pub route-direct :
    (out : Outside) (environment : List Bytes) (router : Router) (hostname : Bytes) (address : Addr)
    (port : ℕ)
    → new_environment_router out environment ≡ ok router
    → (out.proxy_func router.no_proxy (destination_host out hostname address port) ≢ none)
    → (route out router hostname address port ≡ ok (direct (target out address port))) ↔ (
        (zone_of address ≢ [])
        ⊎ (router.proxy_url ≡ none)
        ⊎ (out.proxy_func router.no_proxy (destination_host out hostname address port)
            ≡ some false))
unfolding route through_proxy by_scheme
route-direct out environment router hostname address port made evaluated =
    let text = target out address port in
    elim (Option-cases
      (out.proxy_func router.no_proxy (destination_host out hostname address port))) [
        | inl e ↦ absurd (evaluated e)
        | inr (selected, e) ↦ ground (
          arith,
          e,
          ==_iff (zone_of address) [],
          through_proxy-direct router.proxy_url selected text
              (new_environment_router-Known out environment router made),
        )
      ]
