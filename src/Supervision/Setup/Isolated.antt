-- ===== src/Supervision/Setup/Isolated.antt =====
-- What has been given up before the goroutines of RunSupervisor start.
use airjail.Base.{
  ℕ, true, false, List, [], ◌∷◌, ◌++◌, ◌≡◌, ◌⊎◌, ◌∙◌, refl, subst, append-nil, append_assoc, arith,
  ok, err, Bool-cases, Result-cases, inl, inr, nat_eq,
}
use airjail.Base.Bytes.{Bytes}
use airjail.Capabilities.{
  DangerousCapability, values, parse_unsafe_capabilities, unsafe_capability_values,
}
use airjail.Capabilities.Drop.{Effect, drop_dangerous_capabilities}
use airjail.CommandLine.Supervise.{SupervisorOptions}
use airjail.Supervision.Setup.Bounding.{then-ok, lost, DroppedUntil, drop_setup_capabilities-ok}
use airjail.Supervision.Setup.{
  Bridge, http_bridge, socks_bridge, Act, subreaper_set, sets_cleared, no_new_privileges,
  dangerous_dropped, drop_dangerous, Host, Done, validate_each, bring_loopback_up, or_close,
  ambient, Ready, isolate, listen_on, setup, set_subreaper, drop_capabilities,
}

or_close-ok :
    {A : Type 0} (servers : List Bridge) (done : Done A) (a : A)
    → (or_close servers done).1 ≡ ok a
    → (done.1 ≡ ok a) × ((or_close servers done).0 ≡ done.0)
unfolding or_close
or_close-ok servers (acts, err e) a h = absurd (cc)
or_close-ok servers (acts, ok b) a h = (h, refl)

set_subreaper-ok :
    (host : Host) → (set_subreaper host).1 ≡ ok tt → (set_subreaper host).0 ≡ subreaper_set ∷ []
unfolding set_subreaper
set_subreaper-ok host h = ground arith

-- the child's ambient capabilities, for the options
abbrev AmbientFor : Host → SupervisorOptions → List ℕ → Type 0
AmbientFor host options numbers =
    (options.preserve_permissions ≡ true
      → unsafe_capability_values host.unix options.keep_unsafe_capabilities ≡ ok numbers)
    × (options.preserve_permissions ≡ false → numbers ≡ [])

ambient-ok :
    (host : Host) (options : SupervisorOptions) (numbers : List ℕ)
    → (ambient host options).1 ≡ ok numbers
    → ((ambient host options).0 ≡ []) × AmbientFor host options numbers
unfolding ambient
ambient-ok host options numbers h =
    (ground arith, ((λ p. ground (arith, p)), (λ p. ground (arith, p))))

isolate-ok :
    (host : Host) (options : SupervisorOptions) (servers : List Bridge) (ready : Ready)
    → (isolate host options servers).1 ≡ ok ready
    → ((drop_capabilities host options).1 ≡ ok tt)
      × ((isolate host options servers).0 ≡ subreaper_set ∷ (drop_capabilities host options).0)
      × AmbientFor host options ready.ambient_capabilities
unfolding isolate
isolate-ok host options servers ready h =
    let (_, r, h1, e1) = then-ok (or_close servers (set_subreaper host)) _ ready h in
    let (_, d, h2, e2) = then-ok (or_close servers (drop_capabilities host options)) _ ready h1 in
    let (numbers, a, h3, e3) = then-ok (or_close servers (ambient host options)) _ ready h2 in
    let (r1, r2) = or_close-ok servers (set_subreaper host) tt r in
    let (d1, d2) = or_close-ok servers (drop_capabilities host options) tt d in
    let (a1, a2) = or_close-ok servers (ambient host options) numbers a in
    let (a3, a4) = ambient-ok host options numbers a1 in
    let same : numbers ≡ ready.ambient_capabilities = cc in
    (
      d1,
      e1
          ∙ rw (
            r2,
            set_subreaper-ok host r1,
            e2,
            d2,
            e3,
            a2,
            a3,
            append-nil (drop_capabilities host options).0,
          ),
      subst (AmbientFor host options) same a4,
    )

setup-dropped :
    (host : Host) (options : SupervisorOptions) (ready : Ready)
    → (setup host options).1 ≡ ok ready
    → ((drop_capabilities host options).1 ≡ ok tt)
      × ((earlier : List Act) × ((setup host options).0
            ≡ earlier ++ (subreaper_set ∷ (drop_capabilities host options).0)))
      × AmbientFor host options ready.ambient_capabilities
unfolding setup
setup-dropped host options ready h =
    let (_, v, h1, e1) =
      then-ok ([], validate_each host (options.http_socket ∷ options.socks_socket ∷ [])) _ ready
        h in
    let (_, l, h2, e2) = then-ok (bring_loopback_up host) _ ready h1 in
    let (servers, p, h3, e3) =
      then-ok (listen_on host [] http_bridge options.http_socket) _ ready h2 in
    let (both, q, h4, e4) =
      then-ok (listen_on host servers socks_bridge options.socks_socket) _ ready h3 in
    let (d, i, am) = isolate-ok host options both ready h4 in
    let loop = (bring_loopback_up host).0 in
    let first = (listen_on host [] http_bridge options.http_socket).0 in
    let second = (listen_on host servers socks_bridge options.socks_socket).0 in
    let last = subreaper_set ∷ (drop_capabilities host options).0 in
    (
      d,
      (
        loop ++ (first ++ second),
        e1
            ∙ e2
            ∙ rw (
              e3,
              e4,
              i,
              append_assoc loop (first ++ second) last,
              append_assoc first second last,
            ),
      ),
      am,
    )

-- The isolation of a rootless run, behind what was done earlier: the bounding set has lost the
-- capabilities from 0 on, the sets are cleared, no_new_privs is set, and the child has no ambient
-- capability.
pub record Cleared (host : Host) (acts : List Act) (ambient_capabilities : List ℕ) : Type 0 where
  pub earlier : List Act
  pub count : ℕ
  pub until : DroppedUntil host 0 64 count
  pub done :
      acts ≡ earlier ++ (subreaper_set ∷ (lost 0 count ++ (sets_cleared ∷ no_new_privileges ∷ [])))
  pub no_ambient : ambient_capabilities ≡ []

-- The isolation of a run that preserves permissions: the dangerous capabilities that are not kept were
-- dropped, with these effects, and the child's ambient capabilities are the numbers of those kept.
pub record Reduced (host : Host) (kept_names : List Bytes) (acts : List Act)
    (ambient_capabilities : List ℕ) : Type 0 where
  pub earlier : List Act
  pub effects : List Effect
  pub kept : List DangerousCapability
  pub drops : drop_dangerous_capabilities host.unix host.kernel kept_names ≡ ok effects
  pub done : acts ≡ earlier ++ (subreaper_set ∷ dangerous_dropped effects ∷ [])
  pub parsed : parse_unsafe_capabilities host.unix kept_names ≡ ok kept
  pub ambient : ambient_capabilities ≡ values kept

unsafe_capability_values-ok :
    (host : Host) (names : List Bytes) (numbers : List ℕ)
    → unsafe_capability_values host.unix names ≡ ok numbers
    → (kept : List DangerousCapability) × (parse_unsafe_capabilities host.unix names ≡ ok kept)
      × (numbers ≡ values kept)
unfolding unsafe_capability_values
unsafe_capability_values-ok host names numbers h =
    elim (Result-cases (parse_unsafe_capabilities host.unix names)) [
      | inr (e, failed) ↦ absurd (ground (arith, failed))
      | inl (kept, accepted) ↦ (kept, accepted, ground (arith, accepted))
    ]

drop_dangerous-ok :
    (host : Host) (kept : List Bytes)
    → (drop_dangerous host kept).1 ≡ ok tt
    → (effects : List Effect) × (drop_dangerous_capabilities host.unix host.kernel kept
        ≡ ok effects)
      × ((drop_dangerous host kept).0 ≡ dangerous_dropped effects ∷ [])
unfolding drop_dangerous
drop_dangerous-ok host kept h =
    elim (Result-cases (drop_dangerous_capabilities host.unix host.kernel kept)) [
      | inr (e, failed) ↦ absurd (ground (arith, failed))
      | inl (effects, worked) ↦ (effects, worked, ground (arith, worked))
    ]

-- If RunSupervisor starts its goroutines, it is isolated, and this was the last that it did: it became
-- the subreaper; then, without preserved permissions, the bounding set lost every capability from 0 on
-- up to the first that the kernel does not know or the 64th, the sets were cleared and no_new_privs was
-- set, and the child has no ambient capability; with preserved permissions the dangerous capabilities
-- were dropped without an error, and the child's ambient ones are exactly those kept.
pub setup-isolated :
    (host : Host) (options : SupervisorOptions) (ready : Ready)
    → (setup host options).1 ≡ ok ready
    → ((options.preserve_permissions ≡ false)
        × Cleared host (setup host options).0 ready.ambient_capabilities)
      ⊎ ((options.preserve_permissions ≡ true)
          × Reduced host options.keep_unsafe_capabilities
              (setup host options).0
              ready.ambient_capabilities)
unfolding drop_capabilities
setup-isolated host options ready h =
    let (worked, (earlier, acts), (given, none_given)) = setup-dropped host options ready h in
    elim (Bool-cases options.preserve_permissions) [
      | inr e ↦
          let (count, lost_all, until) =
            drop_setup_capabilities-ok host (ground (arith, e, worked)) in
          inl (
            e,
            record {
              earlier = earlier;
              count = count;
              until = until;
              done = acts ∙ rw (e, lost_all) refl;
              no_ambient = none_given e;
            },
          )
      | inl e ↦
          let (effects, drops, done) =
            drop_dangerous-ok host options.keep_unsafe_capabilities (ground (arith, e, worked)) in
          let (kept, parsed, same) =
            unsafe_capability_values-ok host options.keep_unsafe_capabilities
              ready.ambient_capabilities (given e) in
          inr (
            e,
            record {
              earlier = earlier;
              effects = effects;
              kept = kept;
              drops = drops;
              done = acts ∙ rw (e, done) refl;
              parsed = parsed;
              ambient = same;
            },
          )
    ]
