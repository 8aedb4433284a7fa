-- ===== src/Outbound/Tunnel.antt =====
-- internal/outbound/environment.go, dialHTTPProxy and readConnectHeader: the CONNECT handshake with
-- an outer HTTP or HTTPS proxy. What is done to the connection is recorded, the deferred close
-- included.
pub mod Header
pub mod Closing
pub mod Accepting
use airjail.Base.{
  ℕ, ◌+◌, ◌*◌, Bool, true, false, not, ◌&&◌, ◌||◌, Option, none, some, List, [], ◌∷◌, ◌++◌,
  if◌then◌else◌, Result, ok, err, ltb, leb, length, ◌==◌, list_eq, nat_eq,
}
use airjail.Base.Bytes.{Bytes, codes, has_suffix, to_lower}
use airjail.Outbound.Environment.{Url, Outside}

-- What one Read into a buffer of one byte does.
pub data Read : Type 0 where
  byte : ℕ → Read
  nothing : Read
  failed : Read

pub data TunnelError : Type 0 where
  dial_failed deadline_failed tls_failed write_failed read_failed header_large : TunnelError
  response_malformed body_close_failed clear_failed : TunnelError
  status_refused : ℕ → TunnelError

abbrev pub max_connect_header_size : ℕ
max_connect_header_size = 16 * 1024

abbrev pub header_end : Bytes
header_end = 13 ∷ 10 ∷ 13 ∷ 10 ∷ []

-- The loop of readConnectHeader, with the reads that are left. A reader with no more answers has
-- reached its end or the deadline, which is an error.
unfoldable pub read_from : List Read → Bytes → Result TunnelError (Bytes × List Read)
read_from [] header =
    if ltb (length header) max_connect_header_size then err read_failed else err header_large
read_from (failed ∷ rest) header =
    if ltb (length header) max_connect_header_size then err read_failed else err header_large
read_from (nothing ∷ rest) header =
    let again = read_from rest header in
    if ltb (length header) max_connect_header_size then again else err header_large
read_from (byte c ∷ rest) header =
    let longer = header ++ c ∷ [] in
    let again = read_from rest longer in
    if ltb (length header) max_connect_header_size
    then (if leb 4 (length longer) && has_suffix longer header_end
        then ok (longer, rest)
        else again)
    else err header_large

unfoldable pub read_connect_header : List Read → Result TunnelError (Bytes × List Read)
unfolding read_from
read_connect_header reads = read_from reads []

-- What the network and the libraries do in one handshake: whether each call returns without an
-- error, the reads, the status of a header as http.ReadResponse parses it, and whether net.ParseIP
-- accepts a host.
pub record Peer : Type 0 where
  pub dials : Bytes → Bool
  pub has_deadline : Bool
  pub sets_deadline : Bool
  pub negotiates : Option Bytes → Bool
  pub writes : Bytes → Option Bytes → Bool
  pub reads : List Read
  pub read_response : Bytes → Option ℕ
  pub closes_body : Bool
  pub clears_deadline : Bool
  pub is_ip : Bytes → Bool

-- What is done to the connection. `negotiated` carries the server name, `requested` the authority
-- and the credentials.
pub data Step : Type 0 where
  dialed : Bytes → Step
  deadline_set deadline_cleared closed : Step
  negotiated : Option Bytes → Step
  requested : Bytes → Option Bytes → Step

abbrev pub Handshake : Type 0
Handshake = List Step × Result TunnelError (List Read)

-- a step that may fail, and what follows it
abbrev pub attempt : Step → Bool → TunnelError → Handshake → Handshake
attempt step false failure next = (step ∷ [], err failure)
attempt step true failure next = (step ∷ next.0, next.1)

-- strings.EqualFold with "https"; the scheme of a parsed URL is ASCII
unfoldable pub is_https : Url → Bool
is_https url = to_lower url.scheme == codes "https"

unfoldable pub proxy_authority : Outside → Url → Bytes
unfolding is_https
proxy_authority out url =
    let given = out.url_port url in
    let port = if given == [] then (if is_https url then codes "443" else codes "80") else given in
    out.join_host_port (out.url_hostname url) port

-- the user name and the password, joined by a colon, before they are encoded
unfoldable pub credentials : Url → Option Bytes
credentials url = elim url.user [
  | none ↦ none
  | some account ↦ some (account.0 ++ codes ":" ++ account.1)
]

-- from the parsed status on
unfoldable pub judge : Peer → ℕ → List Read → Handshake
judge peer status rest =
    if ltb status 200 || leb 300 status
    then ([], err (status_refused status))
    else if not peer.closes_body
    then ([], err body_close_failed)
    else attempt deadline_cleared peer.clears_deadline clear_failed ([], ok rest)

unfoldable pub answer : Peer → Handshake
unfolding read_connect_header judge
answer peer = elim (read_connect_header peer.reads) [
  | err failure ↦ ([], err failure)
  | ok (header, rest) ↦ elim (peer.read_response header) [
    | none ↦ ([], err response_malformed)
    | some status ↦ judge peer status rest
  ]
]

unfoldable pub request : Peer → Url → Bytes → Handshake
unfolding credentials answer
request peer url authority =
    attempt (requested authority (credentials url)) (peer.writes authority (credentials url))
      write_failed (answer peer)

-- ServerName, which is set for a host that is no address
abbrev pub server_name : Outside → Peer → Url → Option Bytes
server_name out peer url =
    if peer.is_ip (out.url_hostname url) then none else some (out.url_hostname url)

unfoldable pub negotiate : Outside → Peer → Url → Bytes → Handshake
unfolding is_https request
negotiate out peer url authority =
    let name = server_name out peer url in
    let next = request peer url authority in
    if is_https url then attempt (negotiated name) (peer.negotiates name) tls_failed next else next

-- everything behind a dial that connected
unfoldable pub connected : Outside → Peer → Url → Bytes → Handshake
unfolding negotiate
connected out peer url authority =
    let next = negotiate out peer url authority in
    if peer.has_deadline then attempt deadline_set peer.sets_deadline deadline_failed next else next

-- the deferred close
unfoldable pub close_unless_kept : Handshake → Handshake
close_unless_kept (steps, ok rest) = (steps, ok rest)
close_unless_kept (steps, err failure) = (steps ++ closed ∷ [], err failure)

unfoldable pub dial_http_proxy : Outside → Peer → Url → Bytes → Handshake
unfolding proxy_authority connected close_unless_kept
dial_http_proxy out peer url authority =
    let proxy = proxy_authority out url in
    attempt (dialed proxy) (peer.dials proxy) dial_failed
      (close_unless_kept (connected out peer url authority))
