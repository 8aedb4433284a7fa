-- ===== src/Outbound/Tunnel/Closing.antt =====
-- What becomes of the connection to the outer proxy.
use airjail.Base.{
  ℕ, ◌+◌, Bool, true, false, List, [], ◌∷◌, ◌++◌, ◌≡◌, refl, ◌∙◌, inl, inr, arith, Result, ok, err,
  Bool-cases, Option-cases, Result-cases, if◌then◌else◌,
}
use airjail.Base.Bytes.{Bytes}
use airjail.Outbound.Environment.{Url, Outside}
use airjail.Outbound.Tunnel.{
  Read, TunnelError, Peer, Step, dialed, closed, deadline_cleared, deadline_set, negotiated,
  requested, Handshake, attempt, is_https, judge, answer, request, negotiate, server_name,
  connected, close_unless_kept, dial_http_proxy, proxy_authority, read_connect_header, credentials,
}

-- how often the connection is closed
abbrev pub closes : List Step → ℕ
closes [] = 0
closes (closed ∷ steps) = 1 + closes steps
closes (dialed _ ∷ steps) = closes steps
closes (deadline_set ∷ steps) = closes steps
closes (deadline_cleared ∷ steps) = closes steps
closes (negotiated _ ∷ steps) = closes steps
closes (requested _ _ ∷ steps) = closes steps

closes-append : (xs ys : List Step) → closes (xs ++ ys) ≡ closes xs + closes ys
closes-append [] ys = omega arith
closes-append (closed ∷ xs) ys = omega (arith, closes-append xs ys)
closes-append (dialed _ ∷ xs) ys = closes-append xs ys
closes-append (deadline_set ∷ xs) ys = closes-append xs ys
closes-append (deadline_cleared ∷ xs) ys = closes-append xs ys
closes-append (negotiated _ ∷ xs) ys = closes-append xs ys
closes-append (requested _ _ ∷ xs) ys = closes-append xs ys

-- one close for a failed handshake, none for a connection that is kept
abbrev pub owed : {A : Type 0} → Result TunnelError A → ℕ
owed (ok _) = 0
owed (err _) = 1

closes-attempt :
    (step : Step) (works : Bool) (failure : TunnelError) (next : Handshake)
    → closes (step ∷ []) ≡ 0
    → closes next.0 ≡ 0
    → closes (attempt step works failure next).0 ≡ 0
closes-attempt step true failure next h k = closes-append (step ∷ []) next.0 ∙ omega arith
closes-attempt step false failure next h k = h

module _ (out : Outside) (peer : Peer) (url : Url) (authority : Bytes) where
  closes-judge : (status : ℕ) (rest : List Read) → closes (judge peer status rest).0 ≡ 0
  unfolding judge
  closes-judge status rest =
      let clear =
        closes-attempt deadline_cleared peer.clears_deadline TunnelError.clear_failed ([], ok rest)
          refl refl in
      ground arith

  closes-answer : closes (answer peer).0 ≡ 0
  unfolding answer
  closes-answer = elim (Result-cases (read_connect_header peer.reads)) [
    | inr (e, failed) ↦ rw (failed, answer) refl
    | inl ((header, rest), read) ↦ elim (Option-cases (peer.read_response header)) [
      | inl e ↦ rw (read, answer) (rw e refl)
      | inr (status, e) ↦ rw (read, answer) (rw e (closes-judge status rest))
    ]
  ]

  closes-request : closes (request peer url authority).0 ≡ 0
  unfolding request
  closes-request =
      let sent = credentials url in
      closes-attempt (requested authority sent) (peer.writes authority sent)
        TunnelError.write_failed (answer peer) refl closes-answer

  closes-negotiate : closes (negotiate out peer url authority).0 ≡ 0
  unfolding negotiate
  closes-negotiate =
      let name = server_name out peer url in
      let secured =
        closes-attempt (negotiated name) (peer.negotiates name) TunnelError.tls_failed
          (request peer url authority) refl closes-request in
      elim (Bool-cases (is_https url)) [
        | inl e ↦ rw (e, negotiate) secured
        | inr e ↦ rw (e, negotiate) closes-request
      ]

  closes-connected : closes (connected out peer url authority).0 ≡ 0
  unfolding connected
  closes-connected =
      let timed =
        closes-attempt deadline_set peer.sets_deadline TunnelError.deadline_failed
          (negotiate out peer url authority) refl closes-negotiate in
      elim (Bool-cases peer.has_deadline) [
        | inl e ↦ rw (e, connected) timed
        | inr e ↦ rw (e, connected) closes-negotiate
      ]

  closes-close_unless_kept :
      (h : Handshake)
      → closes h.0 ≡ 0
      → closes (close_unless_kept h).0 ≡ owed (close_unless_kept h).1
  unfolding close_unless_kept
  closes-close_unless_kept (steps, ok rest) unclosed = unclosed
  closes-close_unless_kept (steps, err failure) unclosed =
      closes-append steps (closed ∷ []) ∙ omega arith

  -- A connection to the outer proxy is closed exactly once if any later step of the handshake fails,
  -- and never if the handshake is accepted or there is no connection.
  pub dial_http_proxy-closes : closes (dial_http_proxy out peer url authority).0 ≡ (
      if peer.dials (proxy_authority out url)
      then owed (dial_http_proxy out peer url authority).1
      else 0)
  unfolding dial_http_proxy
  dial_http_proxy-closes = elim (Bool-cases (peer.dials (proxy_authority out url))) [
    | inl e ↦
        rw (e, dial_http_proxy)
          (closes-close_unless_kept (connected out peer url authority) closes-connected)
    | inr e ↦ rw (e, dial_http_proxy) refl
  ]
