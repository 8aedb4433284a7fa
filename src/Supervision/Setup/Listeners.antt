-- ===== src/Supervision/Setup/Listeners.antt =====
-- The listeners of the bridges: open for the goroutines, or closed behind an error.
use airjail.Base.{
  ℕ, zero, suc, Bool, true, false, List, [], ◌∷◌, ◌++◌, ◌≡◌, refl, sym, append-nil, append_assoc,
  arith, if◌then◌else◌, ok, err, ◌==◌, list_eq, nat_eq,
}
use airjail.Base.Bytes.{Bytes}
use airjail.CommandLine.Supervise.{SupervisorOptions}
use airjail.Supervision.Setup.{
  Bridge, http_bridge, socks_bridge, Act, opened, closed, Host, Done, before, then_, validate_each,
  bring_loopback_up, drop_bounding_from, drop_setup_capabilities, drop_dangerous,
  close_bridge_listeners, or_close, ambient, Ready, isolate, listen_on, setup, set_subreaper,
  drop_capabilities, not_listening,
}

abbrev opens : Act → List Bridge
opens (opened bridge) = bridge ∷ []
opens act = []

abbrev closes : Act → List Bridge
closes (closed bridge) = bridge ∷ []
closes act = []

abbrev pub openings : List Act → List Bridge
openings [] = []
openings (act ∷ acts) = opens act ++ openings acts

abbrev pub closings : List Act → List Bridge
closings [] = []
closings (act ∷ acts) = closes act ++ closings acts

openings-append : (xs ys : List Act) → openings (xs ++ ys) ≡ openings xs ++ openings ys
openings-append [] ys = refl
openings-append (x ∷ xs) ys =
    rw (openings-append xs ys, append_assoc (opens x) (openings xs) (openings ys))

closings-append : (xs ys : List Act) → closings (xs ++ ys) ≡ closings xs ++ closings ys
closings-append [] ys = refl
closings-append (x ∷ xs) ys =
    rw (closings-append xs ys, append_assoc (closes x) (closings xs) (closings ys))

openings-close : (servers : List Bridge) → openings (close_bridge_listeners servers) ≡ []
openings-close [] = refl
openings-close (s ∷ servers) = openings-close servers

closings-close : (servers : List Bridge) → closings (close_bridge_listeners servers) ≡ servers
closings-close [] = refl
closings-close (s ∷ servers) = rw (closings-close servers)

-- No listener is opened or closed.
abbrev Quiet : List Act → Type 0
Quiet acts = (openings acts ≡ []) × (closings acts ≡ [])

Quiet-append : (xs ys : List Act) → Quiet xs → Quiet ys → Quiet (xs ++ ys)
Quiet-append xs ys (ox, cx) (oy, cy) =
    (rw (openings-append xs ys, ox, oy), rw (closings-append xs ys, cx, cy))

-- Behind an error all that were open are closed, once; behind a value none is, and the open ones are
-- those that the value has.
abbrev pub Kept : {A : Type 0} → (A → List Bridge) → List Bridge → Done A → Type 0
Kept have servers (acts, err e) = closings acts ≡ servers ++ openings acts
Kept have servers (acts, ok a) = (closings acts ≡ []) × (have a ≡ servers ++ openings acts)

before-Kept :
    {B : Type 0} (has : B → List Bridge) (servers now : List Bridge) (acts : List Act)
    (done : Done B)
    → closings acts ≡ []
    → now ≡ servers ++ openings acts
    → Kept has now done
    → Kept has servers (before acts done)
before-Kept has servers now acts (more, err e) c o h = rw (
  closings-append acts more,
  openings-append acts more,
  c,
  h,
  o,
  append_assoc servers (openings acts) (openings more),
)
before-Kept has servers now acts (more, ok b) c o (hc, ho) = (
  rw (closings-append acts more, c, hc),
  rw (openings-append acts more, ho, o, append_assoc servers (openings acts) (openings more)),
)

then-Kept :
    {A B : Type 0} (have : A → List Bridge) (has : B → List Bridge) (servers : List Bridge)
    (first : Done A) (rest : A → Done B)
    → Kept have servers first
    → ((a : A) → Kept has (have a) (rest a))
    → Kept has servers (then_ first rest)
then-Kept have has servers (acts, err e) rest h k = h
then-Kept have has servers (acts, ok a) rest h k =
    before-Kept has servers (have a) acts (rest a) h.0 h.1 (k a)

or_close-Kept :
    {A : Type 0} (servers : List Bridge) (done : Done A)
    → Quiet done.0
    → Kept (λ _. servers) servers (or_close servers done)
unfolding or_close
or_close-Kept servers (acts, ok a) (o, c) = (c, rw (o, append-nil servers))
or_close-Kept servers (acts, err e) (o, c) = rw (
  closings-append acts (close_bridge_listeners servers),
  openings-append acts (close_bridge_listeners servers),
  openings-close servers,
  closings-close servers,
  o,
  c,
  append-nil servers,
)

Quiet-Kept : (done : Done Unit) → Quiet done.0 → Kept (λ _. []) [] done
Quiet-Kept (acts, ok a) (o, c) = (c, sym o)
Quiet-Kept (acts, err e) (o, c) = rw (o, c)

then-Quiet :
    {A B : Type 0} (first : Done A) (rest : A → Done B)
    → Quiet first.0
    → ((a : A) → Quiet (rest a).0)
    → Quiet (then_ first rest).0
then-Quiet (acts, err e) rest q k = q
then-Quiet (acts, ok a) rest q k = Quiet-append acts (rest a).0 q (k a)

if-Kept :
    {A : Type 0} (have : A → List Bridge) (servers : List Bridge) (b : Bool) (x y : Done A)
    → Kept have servers x
    → Kept have servers y
    → Kept have servers (if b then x else y)
if-Kept have servers true x y hx hy = hx
if-Kept have servers false x y hx hy = hy

bring_loopback_up-Quiet : (host : Host) → Quiet (bring_loopback_up host).0
unfolding bring_loopback_up
bring_loopback_up-Quiet host = (ground arith, ground arith)

drop_bounding_from-Quiet :
    (host : Host) (capability left : ℕ) → Quiet (drop_bounding_from host capability left).0
unfolding drop_bounding_from
drop_bounding_from-Quiet host capability zero = (refl, refl)
drop_bounding_from-Quiet host capability (suc left) =
    let (o, c) = drop_bounding_from-Quiet host (suc capability) left in
    (ground (arith, o), ground (arith, c))

drop_setup_capabilities-Quiet : (host : Host) → Quiet (drop_setup_capabilities host).0
unfolding drop_setup_capabilities
drop_setup_capabilities-Quiet host =
    then-Quiet (drop_bounding_from host 0 64) _ (drop_bounding_from-Quiet host 0 64)
      (λ _. (ground arith, ground arith))

drop_dangerous-Quiet : (host : Host) (kept : List Bytes) → Quiet (drop_dangerous host kept).0
unfolding drop_dangerous
drop_dangerous-Quiet host kept = (ground arith, ground arith)

ambient-Quiet : (host : Host) (options : SupervisorOptions) → Quiet (ambient host options).0
unfolding ambient
ambient-Quiet host options = (ground arith, ground arith)

listening-Kept :
    (servers : List Bridge) (bridge : Bridge) (listens : Bool)
    → Kept
        (λ s. s)
        servers
        (or_close servers (
          if listens
          then (opened bridge ∷ [], ok (servers ++ (bridge ∷ [])))
          else ([], err (not_listening bridge))))
unfolding or_close
listening-Kept servers bridge true = (refl, refl)
listening-Kept servers bridge false =
    rw (closings-close servers, openings-close servers, append-nil servers)

listen_on-Kept :
    (host : Host) (servers : List Bridge) (bridge : Bridge) (socket : Bytes)
    → Kept (λ s. s) servers (listen_on host servers bridge socket)
unfolding listen_on
listen_on-Kept host servers bridge socket =
    if-Kept (λ s. s) servers (socket == []) _ _ (refl, sym (append-nil servers))
      (listening-Kept servers bridge (host.listens bridge))

set_subreaper-Quiet : (host : Host) → Quiet (set_subreaper host).0
unfolding set_subreaper
set_subreaper-Quiet host = (ground arith, ground arith)

drop_capabilities-Quiet :
    (host : Host) (options : SupervisorOptions) → Quiet (drop_capabilities host options).0
unfolding drop_capabilities
drop_capabilities-Quiet host options =
    let own = drop_setup_capabilities-Quiet host in
    let dangerous = drop_dangerous-Quiet host options.keep_unsafe_capabilities in
    (ground (arith, own, dangerous), ground (arith, own, dangerous))

isolate-Kept :
    (host : Host) (options : SupervisorOptions) (servers : List Bridge)
    → Kept (λ (ready : Ready). ready.servers) servers (isolate host options servers)
unfolding isolate
isolate-Kept host options servers =
    let reaper = or_close-Kept servers (set_subreaper host) (set_subreaper-Quiet host) in
    let drop =
      or_close-Kept servers (drop_capabilities host options)
        (drop_capabilities-Quiet host options) in
    let numbers = or_close-Kept servers (ambient host options) (ambient-Quiet host options) in
    then-Kept (λ _. servers) (λ (ready : Ready). ready.servers) servers
      (or_close servers (set_subreaper host)) _ reaper
      (λ _.
        then-Kept (λ _. servers) (λ (ready : Ready). ready.servers) servers
          (or_close servers (drop_capabilities host options)) _ drop
          (λ _.
            then-Kept (λ _. servers) (λ (ready : Ready). ready.servers) servers
              (or_close servers (ambient host options)) _ numbers
              (λ _. (refl, sym (append-nil servers)))))

-- If RunSupervisor fails before it starts its goroutines, each listener that it opened has been closed
-- once, and if it does not fail, none has been closed and the bridges are for those that were opened.
pub setup-Kept :
    (host : Host) (options : SupervisorOptions)
    → Kept (λ (ready : Ready). ready.servers) [] (setup host options)
unfolding setup
setup-Kept host options =
    then-Kept (λ _. []) _ [] _ _
      (Quiet-Kept ([], validate_each host (options.http_socket ∷ options.socks_socket ∷ []))
        (refl, refl))
      (λ _.
        then-Kept (λ _. []) _ [] _ _
          (Quiet-Kept (bring_loopback_up host) (bring_loopback_up-Quiet host))
          (λ _.
            then-Kept (λ s. s) _ [] _ _ (listen_on-Kept host [] http_bridge options.http_socket)
              (λ servers.
                then-Kept (λ s. s) _ servers _ _
                  (listen_on-Kept host servers socks_bridge options.socks_socket)
                  (λ both. isolate-Kept host options both))))
