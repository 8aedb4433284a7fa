-- ===== src/Application/Launch/Chosen.antt =====
-- A child without rules gets no network, and one with rules gets the proxies of the policy of its rules.
use airjail.Base.{
  ℕ, true, false, Option, none, some, List, [], ◌≡◌, inl, inr, refl, subst, arith, Result, ok, err,
  wrap, ◌>>=◌, Bool-cases,
}
use airjail.Base.Bytes.{Bytes}
use airjail.Logging.{Logger, new}
use airjail.Netip.{Addr}
use airjail.Capabilities.{Mode}
use airjail.Policy.Errors.{PolicyError}
use airjail.Policy.Decision.{Policy, is_empty, decide}
use airjail.Policy.Resolve.{Lookups, new_policy}
use airjail.Policy.Decision.Laws.{HasNoRules, is_empty_iff}
use airjail.Application.ChildEnvironment.Settings.{
  LeadsToProxies, HasNoProxies, child_environment-LeadsToProxies, child_environment-HasNoProxies,
}
use airjail.CommandLine.Supervise.{detect_mode}
use airjail.CommandLine.Invocation.{Config, child, parse}
use airjail.Application.Launch.{
  System, RunError, Launch, show_help, show_version, without_proxies, with_proxies, parent_options,
  or_else, protect, choose, launch_child, launch, bad_policy, no_working_directory, no_executable,
  no_logger, no_capabilities,
}

-- What a launch is for, given the policy of the configuration.
abbrev pub Suits : Policy → Launch → Type 0
Suits policy show_help = ⊥
Suits policy show_version = ⊥
Suits policy (without_proxies options environment directory) =
    HasNoRules policy.allow
    × HasNoRules policy.block
    × ((hostname : Bytes) (address : Addr) (port : ℕ) → decide policy hostname address port ≡ false)
    × (options.http_socket ≡ [])
    × (options.socks_socket ≡ [])
    × HasNoProxies environment
Suits policy (with_proxies given options environment directory) =
    (¬ (HasNoRules policy.allow × HasNoRules policy.block))
    × (given ≡ policy)
    × LeadsToProxies environment

or_else-ok :
    {A : Type 0} (error : RunError) (o : Option A) (a : A) → or_else error o ≡ ok a → o ≡ some a
or_else-ok error none a h = absurd (cc)
or_else-ok error (some b) a h = let same : b ≡ a = cc in rw same

>>=-ok :
    {A B : Type 0} (r : Result RunError A) (next : A → Result RunError B) (b : B)
    → (r >>= next) ≡ ok b
    → (a : A) × (r ≡ ok a) × (next a ≡ ok b)
>>=-ok (err e) next b h = absurd (cc)
>>=-ok (ok a) next b h = (a, refl, h)

wrap-ok : {A : Type 0} (r : Result PolicyError A) (a : A) → wrap bad_policy r ≡ ok a → r ≡ ok a
wrap-ok (err e) a h = absurd (cc)
wrap-ok (ok b) a h = let same : b ≡ a = cc in rw same

decide-empty :
    (policy : Policy) (hostname : Bytes) (address : Addr) (port : ℕ)
    → is_empty policy ≡ true
    → decide policy hostname address port ≡ false
unfolding decide
decide-empty policy hostname address port h = rw h

choose-Suits :
    (system : System) (policy : Policy) (config : Config) (command : List Bytes)
    (executable : Bytes) (mode : Mode) (logger : Logger) (directory : Bytes)
    → Suits policy
        (choose system policy (parent_options config command executable mode logger) directory)
unfolding choose parent_options
choose-Suits system policy config command executable mode logger directory =
    elim (Bool-cases (is_empty policy)) [
      | inl e ↦ rw e (
          (
            ((is_empty_iff policy).0 e).0,
            ((is_empty_iff policy).0 e).1,
            (λ hostname address port. decide-empty policy hostname address port e),
            refl,
            refl,
            child_environment-HasNoProxies system.environ,
          ))
      | inr e ↦ rw e (
        (λ h. let full = (is_empty_iff policy).1 h in absurd (cc)),
        refl,
        child_environment-LeadsToProxies system.environ,
      )
    ]

launch_child-Suits :
    (system : System) (config : Config) (command : List Bytes) (l : Launch)
    → launch_child system config command ≡ ok l
    → (policy : Policy) × (lookups : Lookups) × (new_policy system.library system.resolver
          config.allow_unresolved_rules config.allow config.block
        ≡ ok (policy, lookups))
      × Suits policy l
unfolding launch_child
launch_child-Suits system config command l h =
    let (directory, _, h1) = >>=-ok (or_else no_working_directory system.working_directory) _ l h in
    let (executable, _, h2) = >>=-ok (or_else no_executable system.executable) _ l h1 in
    let (logger, _, h3) =
      >>=-ok (or_else no_logger (new system.trim_space true system.terminal config.log [])) _ l
        h2 in
    let (mode, _, h4) =
      >>=-ok
        (or_else no_capabilities (detect_mode system.sys_admin system.net_admin system.effective)) _
        l h3 in
    let (_, _, h5) = >>=-ok (protect system mode) _ l h4 in
    let made =
      new_policy system.library system.resolver config.allow_unresolved_rules config.allow
        config.block in
    let (built, b, h6) = >>=-ok (wrap bad_policy made) _ l h5 in
    let same : choose system built.0 (parent_options config command executable mode logger)
          directory
        ≡ l =
      cc in
    (
      built.0,
      built.1,
      wrap-ok made built b,
      subst (Suits built.0) same
          (choose-Suits system built.0 config command executable mode logger directory),
    )

-- What Run starts for a child command suits the policy of its rules. Without any rule the child has no
-- proxies and no socket of airjail, none of the twelve proxy variables has a value in its environment,
-- and the policy allows nothing. With some rule the proxies work by that policy, and each proxy
-- variable of the child has the address of airjail's proxy as its value.
pub launch-Suits :
    (system : System) (args : List Bytes) (config : Config) (command : List Bytes) (l : Launch)
    → parse system.parser system.files args ≡ ok (child config command)
    → launch system args ≡ ok l
    → (policy : Policy) × (lookups : Lookups) × (new_policy system.library system.resolver
          config.allow_unresolved_rules config.allow config.block
        ≡ ok (policy, lookups))
      × Suits policy l
unfolding launch
launch-Suits system args config command l parsed h =
    launch_child-Suits system config command l (ground (arith, parsed))
