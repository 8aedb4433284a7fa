-- ===== src/Policy/Destination/Laws.antt =====
-- What ParseDestination guarantees: a hostname or an address, never both.
use airjail.Base.{
  ℕ, ◌≤◌, true, false, Option, none, some, [], ◌∷◌, ◌≡◌, ◌≢◌, refl, arith, length, All, ok, ==_iff,
  ◌⊎◌, inl, inr, all, nat_eq, list_eq, Result-cases, subst, sym, list_beq,
}
use airjail.Base.Bytes.{Bytes, codes}
use airjail.Netip.{Addr, invalid, v4, v6, zone_of, unmap, is4in6, with_zone, is_valid}
use airjail.Policy.Library.{Library, Laws}
use airjail.Policy.Hostname.{normalize_hostname}
use airjail.Policy.Hostname.Laws.{IsCanonical, normalize_hostname-IsCanonical}
use airjail.Policy.Hostname.Stable.{canonical_ne_nil}
use airjail.Policy.Destination.{
  Destination, zone_byte, validate_zone, parse_address_destination, classify, parse_destination,
  is_hostname, routing_address,
}

-- a byte of an interface name
abbrev pub IsZoneByte : ℕ → Type 0
IsZoneByte c =
    ((b'a' ≤ c) × (c ≤ b'z'))
    ⊎ (((b'A' ≤ c) × (c ≤ b'Z'))
        ⊎ (((b'0' ≤ c) × (c ≤ b'9')) ⊎ ((c ≡ b'_') ⊎ ((c ≡ b'-') ⊎ (c ≡ b'.')))))

pub record IsZone (z : Bytes) : Type 0 where
  pub short : length z ≤ 15
  pub not_dot : z ≢ codes "."
  pub not_dots : z ≢ codes ".."
  pub bytes : All IsZoneByte z

zone_byte_sound : (c : ℕ) → zone_byte c ≡ true → IsZoneByte c
unfolding zone_byte
zone_byte_sound c h = ground arith

all_zone : (z : Bytes) → all zone_byte z ≡ true → All IsZoneByte z
all_zone [] h = tt
all_zone (c ∷ z) h = ground (arith, zone_byte_sound c, all_zone z)

validate_zone-IsZone : (z : Bytes) → validate_zone z ≡ ok tt → IsZone z
unfolding validate_zone
validate_zone-IsZone z h = record {
  short = ground arith;
  not_dot = λ e. ground (arith, ==_iff z (codes "."), ==_iff z (codes ".."));
  not_dots = λ e. ground (arith, ==_iff z (codes "."), ==_iff z (codes ".."));
  bytes = ground (arith, all_zone z);
}

-- A destination is one of three: a canonical hostname, an address that is not IPv4-mapped, or an
-- IPv6 address with an interface name.
pub data Shape (d : Destination) : Type 0 where
  host : IsCanonical d.hostname → d.hostname ≢ [] → d.address ≡ invalid → d.zone ≡ [] → Shape d
  plain :
      d.hostname ≡ []
      → is_valid d.address ≡ true
      → zone_of d.address ≡ []
      → is4in6 d.address ≡ false
      → d.zone ≡ []
      → Shape d
  scoped :
      (n : ℕ)
      → d.hostname ≡ []
      → d.address ≡ v6 n []
      → is4in6 d.address ≡ false
      → d.zone ≢ []
      → IsZone d.zone
      → Shape d

hostname-Shape :
    (lib : Library) (raw : Bytes) (d : Destination) → classify lib raw none ≡ ok d → Shape d
unfolding classify
hostname-Shape lib raw d h = elim (Result-cases (normalize_hostname lib raw)) [
  | inl (name, e) ↦
      let canonical = normalize_hostname-IsCanonical lib raw name e in
      let same : d ≡ record { hostname = name; address = invalid; zone = [] } = ground arith in
      subst Shape (sym same) (host canonical (canonical_ne_nil name canonical) refl refl)
  | inr (fault, e) ↦ absurd (ground arith)
]

unmap-plain :
    (a : Addr)
    → is_valid a ≡ true
    → zone_of a ≡ []
    → (is_valid (unmap a) ≡ true) × (zone_of (unmap a) ≡ []) × (is4in6 (unmap a) ≡ false)
unfolding unmap is_valid zone_of is4in6
unmap-plain a v z = ground arith

plain-Shape :
    (a : Addr)
    → is_valid a ≡ true
    → zone_of a ≡ []
    → Shape (record { hostname = []; address = unmap a; zone = [] })
plain-Shape a v z =
    let (valid, no_zone, unmapped) = unmap-plain a v z in plain refl valid no_zone unmapped refl

scoped_inversion :
    (n : ℕ) (z : Bytes) (d : Destination)
    → z ≢ []
    → parse_address_destination (v6 n z) ≡ ok d
    → (d ≡ record { hostname = []; address = v6 n []; zone = z })
      × (validate_zone z ≡ ok tt)
      × (is4in6 (v6 n z) ≡ false)
unfolding parse_address_destination zone_of with_zone
scoped_inversion n z d ne h = ground (arith, ==_iff z [])

zone_free-inversion :
    (a : Addr) (d : Destination)
    → zone_of a ≡ []
    → parse_address_destination a ≡ ok d
    → d ≡ record { hostname = []; address = unmap a; zone = [] }
unfolding parse_address_destination
zone_free-inversion a d z h = ground (arith, ==_iff (zone_of a) [])

address-Shape :
    (a : Addr) (d : Destination) → is_valid a ≡ true → parse_address_destination a ≡ ok d → Shape d
unfolding zone_of is_valid
address-Shape invalid d v h = cc
address-Shape (v4 n) d v h =
    subst Shape (sym (zone_free-inversion (v4 n) d refl h)) (plain-Shape (v4 n) refl refl)
address-Shape (v6 n []) d v h =
    subst Shape (sym (zone_free-inversion (v6 n []) d refl h)) (plain-Shape (v6 n []) refl refl)
address-Shape (v6 n (c ∷ z)) d v h =
    let (same, ok_zone, unmapped) = scoped_inversion n (c ∷ z) d (λ e. cc) h in
    subst Shape (sym same) (
      scoped n refl refl (unfold is4in6 in unmapped) (λ e. cc)
        (validate_zone-IsZone (c ∷ z) ok_zone))

classify-Shape :
    (lib : Library)
    → Laws lib
    → (raw : Bytes) (d : Destination) (o : Option Addr) → lib.parse_addr raw ≡ o
    → classify lib raw o ≡ ok d
    → Shape d
classify-Shape lib laws raw d none e h = hostname-Shape lib raw d h
classify-Shape lib laws raw d (some a) e h =
    address-Shape a d (laws.addr_valid raw a e) (unfold classify in h)

-- Every accepted destination has one of the three shapes: a nonempty canonical hostname with no
-- address, an address that is valid, unmapped and has no zone, or an IPv6 address that is not
-- IPv4-mapped with an interface name kept beside it.
pub parse_destination-Shape :
    (lib : Library) (raw : Bytes) (d : Destination)
    → Laws lib
    → parse_destination lib raw ≡ ok d
    → Shape d
unfolding parse_destination
parse_destination-Shape lib raw d laws h = classify-Shape lib laws raw d (lib.parse_addr raw) refl h

abbrev Routed : Addr → Destination → Type 0
Routed a d = (routing_address d ≡ unmap a) × (is_hostname d ≡ false) × (zone_of d.address ≡ [])

zone_free-Routed :
    (a : Addr)
    → is_valid a ≡ true
    → zone_of a ≡ []
    → Routed a (record { hostname = []; address = unmap a; zone = [] })
unfolding routing_address is_hostname list_beq
zone_free-Routed a v z = let (_, unzoned, _) = unmap-plain a v z in (refl, refl, unzoned)

scoped-Routed :
    (n : ℕ) (z : Bytes)
    → z ≢ []
    → is4in6 (v6 n z) ≡ false
    → Routed (v6 n z) (record { hostname = []; address = v6 n []; zone = z })
unfolding routing_address is_hostname list_beq zone_of with_zone is4in6 unmap
scoped-Routed n z ne h = ground (arith, ==_iff z [])

parse_address_destination-Routed :
    (a : Addr) (d : Destination)
    → is_valid a ≡ true
    → parse_address_destination a ≡ ok d
    → Routed a d
unfolding zone_of is_valid
parse_address_destination-Routed invalid d v h = cc
parse_address_destination-Routed (v4 n) d v h =
    subst (Routed (v4 n)) (sym (zone_free-inversion (v4 n) d refl h))
      (zone_free-Routed (v4 n) refl refl)
parse_address_destination-Routed (v6 n []) d v h =
    subst (Routed (v6 n [])) (sym (zone_free-inversion (v6 n []) d refl h))
      (zone_free-Routed (v6 n []) refl refl)
parse_address_destination-Routed (v6 n (c ∷ z)) d v h =
    let (same, _, unmapped) = scoped_inversion n (c ∷ z) d (λ e. cc) h in
    subst (Routed (v6 n (c ∷ z))) (sym same) (scoped-Routed n (c ∷ z) (λ e. cc) unmapped)

-- What is routed to is the parsed address itself, with only an IPv4-mapped one unmapped: the zone
-- that the policy does not see is put back. The destination is no hostname, and the address that
-- it shows to the policy has no zone.
pub routing_address-parse_destination :
    (lib : Library) (raw : Bytes) (a : Addr) (d : Destination)
    → Laws lib
    → lib.parse_addr raw ≡ some a
    → parse_destination lib raw ≡ ok d
    → (routing_address d ≡ unmap a) × (is_hostname d ≡ false) × (zone_of d.address ≡ [])
unfolding parse_destination classify
routing_address-parse_destination lib raw a d laws parsed h =
    parse_address_destination-Routed a d (laws.addr_valid raw a parsed) (rw parsed at h)
