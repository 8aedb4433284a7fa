-- ===== src/Outbound/Direct.antt =====
-- internal/outbound/direct.go: a destination is resolved, each address is put to the policy, and the
-- approved ones are dialed until one connects. What happens outside is recorded: the addresses
-- dialed, in order, and the decisions logged.
pub mod Rules
pub mod Denied
pub mod Outcomes
pub mod Approved
use airjail.Base.{
  ℕ, ◌+◌, Bool, true, false, ◌&&◌, ◌||◌, not, Option, none, some, List, [], ◌∷◌, ◌++◌,
  if◌then◌else◌, length, Result, ok, err, ◌>>=◌, ◌==◌, nat_eq, list_eq, contains,
}
use airjail.Base.Bytes.{Bytes}
use airjail.Netip.{Addr, addr_eq, is_valid, zone_of, unmap, with_zone}
use airjail.Policy.Errors.{AllowsError}
use airjail.Policy.Library.{Library}
use airjail.Policy.Decision.{Policy, allows}
use airjail.Policy.Destination.{Destination, is_hostname, routing_address}

-- `denied` is ErrDenied; the others wrap no ErrDenied.
pub data DialError : Type 0 where
  nil_policy port_zero denied : DialError
  resolve_failed : Bytes → DialError
  policy_failed : AllowsError → DialError
  dial_failed : ℕ → DialError

-- What the environment does: the answer to one lookup, and the connection or the error code of a
-- dial, given the number of the dials before, the hostname, the address and the port.
pub record Net : Type 1 where
  pub Conn : Type 0
  pub resolve : Bytes → Option (List Addr)
  pub dial : ℕ → Bytes → Addr → ℕ → Result ℕ Conn

pub record Dialed : Type 0 where
  pub hostname : Bytes
  pub address : Addr
  pub port : ℕ

pub record Decision : Type 0 where
  pub allowed : Bool
  pub hostname : Bytes
  pub address : Addr

-- What a dial leaves behind.
pub record Trace : Type 0 where
  pub dials : List Dialed
  pub decisions : List Decision

abbrev pub no_trace : Trace
no_trace = record { dials = []; decisions = [] }

abbrev pub record_dial : Trace → Dialed → Trace
record_dial t d = record t { dials = t.dials ++ d ∷ [] }

abbrev pub record_decision : Trace → Decision → Trace
record_decision t d = record t { decisions = t.decisions ++ d ∷ [] }

abbrev pub Outcome : Net → Type 0
Outcome net = Result DialError net.Conn × Trace

-- the error after the last address: the last dial error, or ErrDenied if nothing was dialed
abbrev pub no_connection : Option ℕ → DialError
no_connection none = denied
no_connection (some code) = dial_failed code

module _ (net : Net) (lib : Library) (policy : Policy) (port : ℕ) where
  -- dialAddress, recorded, with what to do on an error
  unfoldable pub dial_then : Bytes → Addr → Trace → (ℕ → Trace → Outcome net) → Outcome net
  dial_then hostname address t failed =
      let t' = record_dial t (record { hostname = hostname; address = address; port = port }) in
      elim (net.dial (length t.dials) hostname address port) [
        | ok connection ↦ (ok connection, t')
        | err code ↦ failed code t'
      ]

  -- the decision about one address, logged
  unfoldable pub decide_then :
      Bytes → Addr → Addr → Trace → (Trace → Outcome net) → (Trace → Outcome net) → Outcome net
  decide_then hostname address logged t granted refused =
      elim (allows lib policy hostname address port) [
        | err e ↦ (err (policy_failed e), t)
        | ok answer ↦
            let t' =
              record_decision t
                (record { allowed = answer; hostname = hostname; address = logged }) in
            if answer then granted t' else refused t'
      ]

  -- the loop over the addresses of a hostname; `seen` and `last` are its variables
  unfoldable pub dial_each : Bytes → List Addr → List Addr → Option ℕ → Trace → Outcome net
  dial_each hostname [] seen last t = (err (no_connection last), t)
  dial_each hostname (answer ∷ rest) seen last t =
      let skip = dial_each hostname rest seen last t in
      let address = unmap answer in
      if not (is_valid answer) || not (zone_of answer == []) || contains seen address
      then skip
      else decide_then hostname address address t
          (λ t'.
            dial_then hostname address t'
              (λ code t''. dial_each hostname rest (seen ++ address ∷ []) (some code) t''))
          (λ t'. dial_each hostname rest (seen ++ address ∷ []) last t')

  unfoldable pub dial_literal : Addr → Outcome net
  dial_literal address =
      decide_then [] (with_zone address []) address no_trace
        (λ t. dial_then [] address t (λ code t'. (err (dial_failed code), t')))
        (λ t. (err denied, t))

  unfoldable pub dial_hostname : Bytes → Outcome net
  dial_hostname hostname = elim (net.resolve hostname) [
    | none ↦ (err (resolve_failed hostname), no_trace)
    | some addresses ↦ dial_each hostname addresses [] none no_trace
  ]

-- `none` is a nil policy.
unfoldable pub dial : (net : Net) → Library → Option Policy → Destination → ℕ → Outcome net
dial net lib none destination port = (err nil_policy, no_trace)
dial net lib (some policy) destination port =
    if port == 0
    then (err port_zero, no_trace)
    else if is_hostname destination
    then dial_hostname net lib policy port destination.hostname
    else dial_literal net lib policy port (routing_address destination)
