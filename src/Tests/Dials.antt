-- ===== src/Tests/Dials.antt =====
-- Witnesses and tests of internal/outbound/direct.go.
use airjail.Base.{
  ℕ, false, some, List, [], ◌∷◌, ◌≡◌, ◌↔◌, refl, All, ok, err, Some, nat_beq, if◌then◌else◌,
}
use airjail.Base.Bytes.{codes}
use airjail.Netip.{Addr, invalid, v4, addr_eq}
use airjail.Policy.Decision.{allows}
use airjail.Policy.Destination.{Destination}
use airjail.Policy.Resolve.Normalized.{Denotes}
use airjail.Outbound.Direct.{Net, denied, dial, dial_hostname}
use airjail.Outbound.Direct.Approved.{Approved, dial-Approved}
use airjail.Outbound.Direct.Denied.{dial_hostname-denied}
use airjail.Tests.Policies.{library}
use airjail.Tests.Decisions.{mixed}

-- two addresses, of which the first does not answer
abbrev net : Net
net = record {
  Conn = ℕ;
  resolve = λ host. some (v4 0x0a000001 ∷ v4 0x0a000002 ∷ v4 0x0a000001 ∷ []);
  dial = λ n host a port. if nat_beq n 0 then err 111 else ok n;
}

abbrev target : Destination
target = record { hostname = codes "example.com"; address = invalid; zone = [] }

dial-Approved_example :
    All
      (Approved library mixed (codes "example.com") 443)
      (dial net library (some mixed) target 443).1.dials
dial-Approved_example = dial-Approved net library mixed target 443

abbrev answers : List Addr
answers = v4 0x0a000001 ∷ v4 0x0a000002 ∷ v4 0x0a000001 ∷ []

dial_hostname-denied_example :
    (((dial_hostname net library mixed 443 (codes "bad.example.com")).0 ≡ err denied) ↔ (
      (a : Addr)
      → Some (Denotes a) answers
      → allows library mixed (codes "bad.example.com") a 443 ≡ ok false))
    × ((dial_hostname net library mixed 443 (codes "bad.example.com")).0 ≡ err denied
        → (dial_hostname net library mixed 443 (codes "bad.example.com")).1.dials ≡ [])
dial_hostname-denied_example =
    dial_hostname-denied net library mixed 443 (codes "bad.example.com") answers refl
