-- ===== src/Socks/Serve.antt =====
-- internal/proxysocks/server.go, Serve: the accept loop, the goroutine for the cancellation and those
-- for the connections, as one list of what happens, in order.
use airjail.Base.{
  ℕ, Bool, true, false, not, ◌||◌, Option, none, some, List, [], ◌∷◌, ◌≡◌, refl, arith,
  if◌then◌else◌, ◌==◌, nat_eq, Bool-cases, inl, inr,
}
use airjail.Socks.Connections.{Server, add, remove, close_all}

-- A connection is accepted, and its deadline is set or not; the goroutine of one ends; the context is
-- canceled; or Accept fails, with net.ErrClosed or another error.
pub data Event : Type 0 where
  accepted : ℕ → Bool → Event
  finished : ℕ → Event
  canceled : Event
  accept_failed : Bool → Event

pub data Act : Type 0 where
  refused served : ℕ → Act
  listener_closed : Act

-- what Serve returns, by whether it is nil
pub record Returned : Type 0 where
  pub server : Server
  pub succeeds : Bool
  pub acts : List Act

abbrev pub did : Act → Option Returned → Option Returned
did act none = none
did act (some returned) = some (record returned { acts = act ∷ returned.acts })

-- wait, behind a failed Accept; the goroutine for the cancellation may still run
unfoldable pub wait : Server → Bool → List Event → Option Returned
unfolding remove close_all
wait s succeeds [] =
    if s.active == 0 then some (record { server = s; succeeds = succeeds; acts = [] }) else none
wait s succeeds (finished c ∷ rest) =
    let later = wait (remove s c) succeeds rest in
    if s.active == 0 then some (record { server = s; succeeds = succeeds; acts = [] }) else later
wait s succeeds (canceled ∷ rest) =
    let later = did listener_closed (wait (close_all s) succeeds rest) in
    if s.active == 0 then some (record { server = s; succeeds = succeeds; acts = [] }) else later
wait s succeeds (event ∷ rest) = wait s succeeds rest

-- Serve; the flag is whether the context is canceled, and `none` is a server that still runs.
unfoldable pub serve : Server → Bool → List Event → Option Returned
unfolding add remove close_all wait
serve s is_canceled [] = none
serve s is_canceled (accepted c deadline ∷ rest) =
    let same = serve s is_canceled rest in
    let more = serve (add s c).0 is_canceled rest in
    if not deadline
    then did (refused c) same
    else if not (add s c).1
    then did (refused c) same
    else did (served c) more
serve s is_canceled (finished c ∷ rest) = serve (remove s c) is_canceled rest
serve s is_canceled (canceled ∷ rest) = did listener_closed (serve (close_all s) true rest)
serve s is_canceled (accept_failed closed ∷ rest) = wait (close_all s) (is_canceled || closed) rest

-- A server that has returned has no connection and takes none.
pub record IsDone (s : Server) : Type 0 where
  pub idle : s.active ≡ 0
  pub closing : s.closing ≡ true

abbrev pub IfReturned : (Returned → Type 0) → Option Returned → Type 0
IfReturned P none = Unit
IfReturned P (some returned) = P returned

did-IfReturned :
    (P : Server → Type 0) (act : Act) (r : Option Returned)
    → IfReturned (λ x. P x.server) r
    → IfReturned (λ x. P x.server) (did act r)
did-IfReturned P act none h = h
did-IfReturned P act (some returned) h = h

stops-IsDone :
    (s : Server) (succeeds : Bool) (later : Option Returned)
    → s.closing ≡ true
    → IfReturned (λ x. IsDone x.server) later
    → IfReturned
        (λ x. IsDone x.server)
        (if s.active == 0
          then some (record { server = s; succeeds = succeeds; acts = [] })
          else later)
stops-IsDone s succeeds later closing h = elim (Bool-cases (s.active == 0)) [
  | inl e ↦ rw e (record { idle = ground (arith, e); closing = closing })
  | inr e ↦ rw e h
]

wait-IsDone :
    (s : Server) (succeeds : Bool) (events : List Event)
    → s.closing ≡ true
    → IfReturned (λ x. IsDone x.server) (wait s succeeds events)
unfolding wait remove close_all
wait-IsDone s succeeds [] e = stops-IsDone s succeeds none e tt
wait-IsDone s succeeds (finished c ∷ rest) e =
    stops-IsDone s succeeds _ e (wait-IsDone (remove s c) succeeds rest e)
wait-IsDone s succeeds (canceled ∷ rest) e = stops-IsDone s succeeds _ e (
    did-IfReturned IsDone listener_closed (wait (close_all s) succeeds rest)
      (wait-IsDone (close_all s) succeeds rest refl))
wait-IsDone s succeeds (accepted c deadline ∷ rest) e = wait-IsDone s succeeds rest e
wait-IsDone s succeeds (accept_failed closed ∷ rest) e = wait-IsDone s succeeds rest e

if-IfReturned :
    (b : Bool) (x y : Option Returned)
    → IfReturned (λ r. IsDone r.server) x
    → IfReturned (λ r. IsDone r.server) y
    → IfReturned (λ r. IsDone r.server) (if b then x else y)
if-IfReturned true x y hx hy = hx
if-IfReturned false x y hx hy = hy

-- However connections arrive and end and whenever it is canceled, when Serve returns no goroutine of a
-- connection is left, and the server takes no more.
pub serve-IsDone :
    (s : Server) (is_canceled : Bool) (events : List Event)
    → IfReturned (λ x. IsDone x.server) (serve s is_canceled events)
unfolding serve close_all
serve-IsDone s is_canceled [] = tt
serve-IsDone s is_canceled (accepted c deadline ∷ rest) =
    let same = serve s is_canceled rest in
    let more = serve (add s c).0 is_canceled rest in
    let turned_away = did-IfReturned IsDone (refused c) same (serve-IsDone s is_canceled rest) in
    let taken = did-IfReturned IsDone (served c) more (serve-IsDone (add s c).0 is_canceled rest) in
    if-IfReturned (not deadline) (did (refused c) same) _ turned_away (
      if-IfReturned (not (add s c).1) (did (refused c) same) (did (served c) more) turned_away
        taken)
serve-IsDone s is_canceled (finished c ∷ rest) = serve-IsDone (remove s c) is_canceled rest
serve-IsDone s is_canceled (canceled ∷ rest) =
    did-IfReturned IsDone listener_closed (serve (close_all s) true rest)
      (serve-IsDone (close_all s) true rest)
serve-IsDone s is_canceled (accept_failed closed ∷ rest) =
    wait-IsDone (close_all s) (is_canceled || closed) rest refl
