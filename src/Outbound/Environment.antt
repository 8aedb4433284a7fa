-- ===== src/Outbound/Environment.antt =====
-- internal/outbound/environment.go, NewEnvironmentRouter and the choice that Dial makes: the proxy
-- and the bypass list are taken from the environment, and each approved address is dialed directly
-- or through that proxy. The map of the environment is an association list, the latest entry first.
pub mod Values
pub mod Choice
use airjail.Base.{
  ℕ, Bool, true, false, not, ◌&&◌, ◌||◌, Option, none, some, List, [], ◌∷◌, ◌++◌, if◌then◌else◌,
  Result, ok, err, ◌>>=◌, ◌==◌, list_eq, nat_eq,
}
use airjail.Base.Bytes.{Bytes, codes, cut, occurs, to_lower}
use airjail.Netip.{Addr, zone_of}

-- url.URL as far as it is read; `user` is the user name and the password
pub record Url : Type 0 where
  pub scheme : Bytes
  pub host : Bytes
  pub path : Bytes
  pub raw_query : Bytes
  pub fragment : Bytes
  pub user : Option (Bytes × Bytes)

-- What is not of this repository: url.Parse, the URL's Hostname and Port, Addr.String, strconv.Itoa,
-- net.JoinHostPort, and httpproxy's ProxyFunc: given the bypass list and the host of a URL, an error
-- or whether a proxy is selected.
pub record Outside : Type 0 where
  pub parse_url : Bytes → Option Url
  pub url_hostname : Url → Bytes
  pub url_port : Url → Bytes
  pub addr_string : Addr → Bytes
  pub itoa : ℕ → Bytes
  pub join_host_port : Bytes → Bytes → Bytes
  pub proxy_func : Bytes → Bytes → Option Bool

pub data RouterError : Type 0 where
  url_malformed not_only_authority : RouterError
  scheme_unsupported : Bytes → RouterError
  bypass_failed : Bytes → RouterError

-- values[name], with "" for a missing key
unfoldable pub value_of : List (Bytes × Bytes) → Bytes → Bytes
value_of [] name = []
value_of (entry ∷ rest) name = if entry.0 == name then entry.1 else value_of rest name

-- the loop of environmentMap over a map that is being filled
unfoldable pub fill : List Bytes → List (Bytes × Bytes) → List (Bytes × Bytes)
fill [] values = values
fill (entry ∷ rest) values = elim (cut entry b'=') [
  | none ↦ fill rest values
  | some setting ↦ fill rest (setting ∷ values)
]

unfoldable pub environment_map : List Bytes → List (Bytes × Bytes)
unfolding fill
environment_map environment = fill environment []

unfoldable pub first_environment : List (Bytes × Bytes) → List Bytes → Bytes
unfolding value_of
first_environment values [] = []
first_environment values (name ∷ names) =
    if not (value_of values name == [])
    then value_of values name
    else first_environment values names

-- the two switches on the scheme in lower case
unfoldable pub is_http : Url → Bool
is_http url = to_lower url.scheme == codes "http" || to_lower url.scheme == codes "https"

unfoldable pub is_socks : Url → Bool
is_socks url = to_lower url.scheme == codes "socks5" || to_lower url.scheme == codes "socks5h"

unfoldable pub with_scheme : Bytes → Bytes
unfolding occurs
with_scheme raw = if occurs (codes "://") raw then raw else codes "http://" ++ raw

unfoldable pub parse_proxy_url : Outside → Bytes → Result RouterError (Option Url)
unfolding is_http is_socks with_scheme
parse_proxy_url out [] = ok none
parse_proxy_url out (c ∷ raw) = elim (out.parse_url (with_scheme (c ∷ raw))) [
  | none ↦ err url_malformed
  | some url ↦
      if url.host == []
        || not (url.path == []) && not (url.path == codes "/")
        || not (url.raw_query == [])
        || not (url.fragment == [])
      then err not_only_authority
      else if is_http url || is_socks url
      then ok (some url)
      else err (scheme_unsupported url.scheme)
]

-- EnvironmentRouter; the bypass function is kept as its list
pub record Router : Type 0 where
  pub proxy_url : Option Url
  pub no_proxy : Bytes

abbrev pub proxy_names : List Bytes
proxy_names =
    codes "HTTPS_PROXY"
    ∷ codes "https_proxy"
    ∷ codes "HTTP_PROXY"
    ∷ codes "http_proxy"
    ∷ codes "ALL_PROXY"
    ∷ codes "all_proxy"
    ∷ []

abbrev pub bypass_names : List Bytes
bypass_names = codes "NO_PROXY" ∷ codes "no_proxy" ∷ []

unfoldable pub new_environment_router : Outside → List Bytes → Result RouterError Router
unfolding environment_map first_environment parse_proxy_url
new_environment_router out environment =
    let values = environment_map environment in
    parse_proxy_url out (first_environment values proxy_names) >>= λ url.
    ok (record { proxy_url = url; no_proxy = first_environment values bypass_names })

-- The connection that Dial makes: to the text directly, or to the text through the proxy.
pub data Route : Type 0 where
  direct : Bytes → Route
  through_http through_socks : Url → Bytes → Route

unfoldable pub target : Outside → Addr → ℕ → Bytes
target out address port = out.join_host_port (out.addr_string address) (out.itoa port)

-- the host of the URL that NO_PROXY is evaluated for
unfoldable pub destination_host : Outside → Bytes → Addr → ℕ → Bytes
destination_host out hostname address port =
    let host = if hostname == [] then out.addr_string address else hostname in
    out.join_host_port host (out.itoa port)

unfoldable pub by_scheme : Url → Bytes → Result RouterError Route
unfolding is_http is_socks
by_scheme url text =
    if is_http url
    then ok (through_http url text)
    else if is_socks url
    then ok (through_socks url text)
    else err (scheme_unsupported url.scheme)

unfoldable pub through_proxy : Option Url → Bool → Bytes → Result RouterError Route
unfolding by_scheme
through_proxy none selected text = ok (direct text)
through_proxy (some url) false text = ok (direct text)
through_proxy (some url) true text = by_scheme url text

unfoldable pub route : Outside → Router → Bytes → Addr → ℕ → Result RouterError Route
unfolding target destination_host through_proxy
route out router hostname address port =
    if not (zone_of address == [])
    then ok (direct (target out address port))
    else elim (out.proxy_func router.no_proxy (destination_host out hostname address port)) [
      | none ↦ err (bypass_failed (destination_host out hostname address port))
      | some selected ↦ through_proxy router.proxy_url selected (target out address port)
    ]
