-- ===== src/Outbound/Tunnel/Accepting.antt =====
-- When the connection to the outer proxy is handed out.
use airjail.Base.{
  ℕ, ◌≤◌, ◌<◌, Bool, true, false, some, List, [], ◌≡◌, refl, inl, inr, arith, ok, err, Option-cases,
  Result-cases, ==_iff, list_eq, nat_eq,
}
use airjail.Base.Bytes.{Bytes, codes, to_lower}
use airjail.Outbound.Environment.{Url, Outside}
use airjail.Outbound.Tunnel.{
  Read, TunnelError, Peer, Step, dialed, deadline_cleared, deadline_set, negotiated, requested,
  Handshake, attempt, is_https, judge, answer, request, negotiate, server_name, connected,
  close_unless_kept, dial_http_proxy, proxy_authority, read_connect_header, credentials,
}

module _ (out : Outside) (peer : Peer) (url : Url) (authority : Bytes) where
  -- What an accepted handshake has done: every call on the way worked, the header that was read has
  -- a status from 200 to 299, and the deadline is cleared.
  pub record Accepted (rest : List Read) : Type 0 where
    pub dials : peer.dials (proxy_authority out url) ≡ true
    pub secured :
        to_lower url.scheme ≡ codes "https" → peer.negotiates (server_name out peer url) ≡ true
    pub asked : peer.writes authority (credentials url) ≡ true
    pub header : Bytes
    pub read : read_connect_header peer.reads ≡ ok (header, rest)
    pub status : ℕ
    pub parsed : peer.read_response header ≡ some status
    pub from : 200 ≤ status
    pub below : status < 300
    pub cleared : peer.clears_deadline ≡ true

  attempt-ok :
      (step : Step) (works : Bool) (failure : TunnelError) (next : Handshake) (rest : List Read)
      → (attempt step works failure next).1 ≡ ok rest
      → (works ≡ true) × (next.1 ≡ ok rest)
  attempt-ok step true failure next rest h = (refl, h)
  attempt-ok step false failure next rest h = absurd (cc)

  close_unless_kept-ok :
      (h : Handshake) (rest : List Read) → (close_unless_kept h).1 ≡ ok rest → h.1 ≡ ok rest
  unfolding close_unless_kept
  close_unless_kept-ok (steps, ok r) rest e = e
  close_unless_kept-ok (steps, err f) rest e = absurd (cc)

  judge-ok :
      (status : ℕ) (left rest : List Read)
      → (judge peer status left).1 ≡ ok rest
      → (left ≡ rest) × (200 ≤ status) × (status < 300) × (peer.clears_deadline ≡ true)
  unfolding judge
  judge-ok status left rest h = ground (
    arith,
    attempt-ok deadline_cleared peer.clears_deadline TunnelError.clear_failed ([], ok left) rest,
  )

  negotiate-ok :
      (rest : List Read)
      → (negotiate out peer url authority).1 ≡ ok rest
      → (to_lower url.scheme ≡ codes "https" → peer.negotiates (server_name out peer url) ≡ true)
        × ((request peer url authority).1 ≡ ok rest)
  unfolding negotiate is_https
  negotiate-ok rest h =
      let name = server_name out peer url in
      let next = request peer url authority in
      ground (
        arith,
        ==_iff (to_lower url.scheme) (codes "https"),
        attempt-ok (negotiated name) (peer.negotiates name) TunnelError.tls_failed next rest,
      )

  connected-ok :
      (rest : List Read)
      → (connected out peer url authority).1 ≡ ok rest
      → (negotiate out peer url authority).1 ≡ ok rest
  unfolding connected
  connected-ok rest h =
      let next = negotiate out peer url authority in
      ground
        (arith, attempt-ok deadline_set peer.sets_deadline TunnelError.deadline_failed next rest)

  answer-ok :
      (rest : List Read)
      → (answer peer).1 ≡ ok rest
      → (header : Bytes) × (status : ℕ) × (read_connect_header peer.reads ≡ ok (header, rest))
        × (peer.read_response header ≡ some status)
        × (200 ≤ status)
        × (status < 300)
        × (peer.clears_deadline ≡ true)
  unfolding answer
  answer-ok rest h = elim (Result-cases (read_connect_header peer.reads)) [
    | inr (e, failed) ↦ absurd (ground (arith, failed))
    | inl ((header, left), read) ↦ elim (Option-cases (peer.read_response header)) [
      | inl e ↦ absurd (ground (arith, read, e))
      | inr (status, e) ↦
          let (same, from, below, cleared) = judge-ok status left rest (ground (arith, read, e)) in
          (header, status, ground (arith, read, same), e, from, below, cleared)
    ]
  ]

  -- The connection is handed out only after an accepted handshake, with all that stands behind the
  -- header still to be read.
  pub dial_http_proxy-Accepted :
      (rest : List Read) → (dial_http_proxy out peer url authority).1 ≡ ok rest → Accepted rest
  unfolding dial_http_proxy
  dial_http_proxy-Accepted rest h =
      let sent = credentials url in
      let (dials, kept) =
        attempt-ok (dialed (proxy_authority out url)) (peer.dials (proxy_authority out url))
          TunnelError.dial_failed (close_unless_kept (connected out peer url authority)) rest h in
      let behind =
        connected-ok rest (close_unless_kept-ok (connected out peer url authority) rest kept) in
      let (secured, requests) = negotiate-ok rest behind in
      let (asked, answers) =
        attempt-ok (requested authority sent) (peer.writes authority sent) TunnelError.write_failed
          (answer peer) rest (unfold request in requests) in
      let (header, status, read, parsed, from, below, cleared) = answer-ok rest answers in
      record {
        dials = dials;
        secured = secured;
        asked = asked;
        header = header;
        read = read;
        status = status;
        parsed = parsed;
        from = from;
        below = below;
        cleared = cleared;
      }
