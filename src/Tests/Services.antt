-- ===== src/Tests/Services.antt =====
-- Witnesses and tests of the relay, the SOCKS proxy, the logger and the capabilities.
use airjail.Base.{
  ℕ, ◌+◌, ◌-◌, ◌%◌, ◌^◌, ◌≤◌, Bool, true, false, not, Option, none, some, List, [], ◌∷◌, ◌++◌, ◌≡◌,
  ◌≢◌, ◌↔◌, refl, All, Some, ok, err, contains, Distinct, ltb, if◌then◌else◌, ◌==◌, list_eq, nat_eq,
  arith,
}
use airjail.Base.Bytes.{Bytes, codes}
use airjail.Relay.{broken, net_closed, result, bidirectional}
use airjail.Relay.Outcome.{dones, error_of, closes_of, bidirectional_lem}
use airjail.Socks.{ℤ, pos, Backend, dial, Handshake, is_success}
use airjail.Socks.Requests.{Request, dial-Request}
use airjail.Socks.Connections.{
  Call, adds, removes, closes_all, new_server, run, IsCounted, run-IsCounted, AllDue,
}
use airjail.Logging.{Logger}
use airjail.Capabilities.{
  values, dangerous_capabilities, Unix, DangerousCapability, parse_unsafe_capabilities, Permitted,
  permission_preserving, resolve_unsafe_capabilities,
}
use airjail.Capabilities.Parsed.{Keeps, resolve_unsafe_capabilities_iff}
use airjail.Capabilities.Drop.{
  CapUserData, Words, Kernel, Effect, sets_written, drop_dangerous_capabilities, clear_each,
  dropped, unkept, bounding_dropped, ambient_lowered,
}
use airjail.Capabilities.Clearing.{ClearsAll, drop_dangerous_capabilities-ClearsAll}
use airjail.Tests.Policies.{library}

bidirectional_lem_example :
    bidirectional
      (dones 1 ++ result (some net_closed) ∷ (dones 2 ++ result (some (broken 104)) ∷ []))
    ≡ some (
      error_of (some net_closed) (some (broken 104)) (ltb 0 (1 + 2)),
      closes_of (some net_closed) (some (broken 104)) (ltb 0 (1 + 2)),
    )
bidirectional_lem_example = bidirectional_lem 1 2 (some net_closed) (some (broken 104)) []

abbrev calls : List Call
calls = adds 1 ∷ adds 2 ∷ removes 1 ∷ closes_all ∷ adds 3 ∷ []

calls_due : AllDue new_server calls
unfolding airjail.Socks.Connections.perform airjail.Socks.Connections.add
    airjail.Socks.Connections.remove airjail.Base.Sets.delete airjail.Socks.Connections.close_all
    airjail.Base.contains
calls_due = (refl, (refl, (refl, (tt, (refl, tt)))))

run-IsCounted_example : IsCounted (run new_server calls)
run-IsCounted_example = run-IsCounted calls calls_due

abbrev backend : Backend
backend = record {
  Conn = ℕ;
  Failure = ℕ;
  split_host_port = λ s. some (codes "10.0.0.1", codes "443");
  atoi = λ s. some (pos 443);
  connect = λ d port. ok port;
}

connected : dial library backend (codes "tcp") (codes "10.0.0.1:443") ≡ ok 443
unfolding dial airjail.Socks.dial_port airjail.Socks.below_one airjail.Socks.to_uint16
    airjail.Policy.Destination.parse_destination airjail.Policy.Destination.classify
    airjail.Policy.Destination.parse_address_destination airjail.Netip.zone_of airjail.Base.list_beq
connected = refl

dial-Request_example :
    (r : Request library backend (codes "tcp") (codes "10.0.0.1:443")) × (backend.connect
        r.destination
        (r.port % 2 ^ 16)
      ≡ ok 443)
dial-Request_example =
    dial-Request library backend (codes "tcp") (codes "10.0.0.1:443") 443 connected

abbrev logger : Logger
logger = record { colored = true; level = 3; prefix = codes "socks"; has_writer = true }

-- numbers for the names, and names that are in upper case and trimmed
abbrev unix : Unix
unix = record {
  to_upper = λ s. s;
  trim_space = λ s. s;
  number = λ name. if name == codes "CAP_NET_ADMIN" then 12 else 21;
}

abbrev net_admin : DangerousCapability
net_admin = record { name = codes "CAP_NET_ADMIN"; value = 12 }

abbrev requested : List Bytes
requested = codes "NET_ADMIN" ∷ codes "CAP_NET_ADMIN" ∷ []

names_parsed : parse_unsafe_capabilities unix requested ≡ ok (net_admin ∷ [])
unfolding parse_unsafe_capabilities airjail.Capabilities.parse_each airjail.Capabilities.by_name
    airjail.Capabilities.full_name airjail.Capabilities.dangerous_capabilities
    airjail.Base.Bytes.has_prefix airjail.Base.list_beq airjail.Base.contains
names_parsed = refl

abbrev words : Permitted
words = record { low = 4096; high = 0 }

names_kept :
    resolve_unsafe_capabilities unix requested permission_preserving (some words)
    ≡ ok (codes "CAP_NET_ADMIN" ∷ [])
unfolding resolve_unsafe_capabilities parse_unsafe_capabilities airjail.Capabilities.parse_each
    airjail.Capabilities.by_name airjail.Capabilities.full_name
    airjail.Capabilities.dangerous_capabilities airjail.Base.Bytes.has_prefix airjail.Base.list_beq
    airjail.Base.contains airjail.Capabilities.select_unsafe_capabilities
    airjail.Capabilities.capability_permitted
names_kept = refl

resolve_unsafe_capabilities_iff_example :
    (contains (codes "CAP_NET_ADMIN" ∷ []) (codes "CAP_NET_ADMIN") ≡ true)
    ↔ Some (Keeps permission_preserving words (codes "CAP_NET_ADMIN")) (net_admin ∷ [])
resolve_unsafe_capabilities_iff_example =
    resolve_unsafe_capabilities_iff unix requested permission_preserving words (net_admin ∷ [])
      (codes "CAP_NET_ADMIN" ∷ []) (codes "CAP_NET_ADMIN") names_parsed names_kept

abbrev full_word : CapUserData
full_word = record { effective = 2 ^ 32 - 1; permitted = 2 ^ 32 - 1; inheritable = 0 }

abbrev kernel : Kernel
kernel = record {
  drop_bounding = λ v. none;
  ambient = λ v. (none, 0);
  lower = λ v. none;
  capget = some (full_word, full_word);
  capset = λ w. true;
}

abbrev effects : List Effect
effects =
    bounding_dropped 21
    ∷ bounding_dropped 21
    ∷ bounding_dropped 21
    ∷ bounding_dropped 21
    ∷ bounding_dropped 21
    ∷ bounding_dropped 21
    ∷ bounding_dropped 21
    ∷ sets_written
        (clear_each (values (net_admin ∷ [])) (dangerous_capabilities unix) (full_word, full_word))
    ∷ []

all_dropped : drop_dangerous_capabilities unix kernel requested ≡ ok effects
unfolding drop_dangerous_capabilities airjail.Capabilities.Drop.drop_each
    airjail.Capabilities.Drop.drop_one airjail.Capabilities.Drop.is_failure
    airjail.Capabilities.Drop.write_sets parse_unsafe_capabilities airjail.Capabilities.parse_each
    airjail.Capabilities.by_name airjail.Capabilities.full_name
    airjail.Capabilities.dangerous_capabilities airjail.Base.Bytes.has_prefix airjail.Base.list_beq
    airjail.Base.contains
all_dropped = refl

drop_dangerous_capabilities-ClearsAll_example :
    (w : Words) × (cleared : Words) × (before : List Effect) × (kernel.capget ≡ some w)
    × (effects ≡ before ++ sets_written cleared ∷ [])
    × ClearsAll (unkept (values (net_admin ∷ [])) (dangerous_capabilities unix)) w cleared
    × (dropped before ≡ unkept (values (net_admin ∷ [])) (dangerous_capabilities unix))
drop_dangerous_capabilities-ClearsAll_example =
    drop_dangerous_capabilities-ClearsAll unix kernel requested (net_admin ∷ []) effects
      names_parsed all_dropped
