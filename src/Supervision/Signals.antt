-- ===== src/Supervision/Signals.antt =====
-- internal/namespace/run_linux.go, forwardSignals: the cases that its selects take, in the order in
-- which they take them, and the signals that it sends.
use airjail.Base.{
  ℕ, Option, none, some, List, [], ◌∷◌, ◌++◌, ◌≡◌, refl, if◌then◌else◌, ◌==◌, nat_eq, All,
}

-- `foreign` is a value on the channel that is no syscall.Signal.
pub data Event : Type 0 where
  received : ℕ → Event
  foreign canceled timer_fired done : Event

abbrev pub sighup : ℕ
sighup = 1

abbrev pub sigint : ℕ
sigint = 2

abbrev pub sigquit : ℕ
sigquit = 3

abbrev pub sigkill : ℕ
sigkill = 9

abbrev pub sigusr1 : ℕ
sigusr1 = 10

abbrev pub sigusr2 : ℕ
sigusr2 = 12

abbrev pub sigterm : ℕ
sigterm = 15

abbrev pub sigtstp : ℕ
sigtstp = 20

abbrev pub sigwinch : ℕ
sigwinch = 28

abbrev pub forwarded_signals : List ℕ
forwarded_signals =
    sighup ∷ sigint ∷ sigquit ∷ sigterm ∷ sigusr1 ∷ sigusr2 ∷ sigtstp ∷ sigwinch ∷ []

-- the select behind a cancellation, which reads no signal
unfoldable pub await_end : List Event → List ℕ
await_end [] = []
await_end (timer_fired ∷ rest) = sigkill ∷ []
await_end (done ∷ rest) = []
await_end (event ∷ rest) = await_end rest

-- The loop of forwardSignals: what it sends to the target. It has no timer until the cancellation.
unfoldable pub forward_signals : List Event → List ℕ
unfolding await_end
forward_signals [] = []
forward_signals (canceled ∷ rest) = sigterm ∷ await_end rest
forward_signals (received signal ∷ rest) = signal ∷ forward_signals rest
forward_signals (done ∷ rest) = []
forward_signals (event ∷ rest) = forward_signals rest

-- cloneSysProcAttr: the field Pdeathsig, of attributes that may be nil
unfoldable pub death_signal : Option ℕ → ℕ
death_signal none = sigkill
death_signal (some signal) = if signal == 0 then sigkill else signal

-- the signals among events
abbrev pub signals_of : List Event → List ℕ
signals_of [] = []
signals_of (received signal ∷ rest) = signal ∷ signals_of rest
signals_of (event ∷ rest) = signals_of rest

-- An event with which the loop goes on.
abbrev pub Goes : Event → Type 0
Goes (received signal) = Unit
Goes foreign = Unit
Goes timer_fired = Unit
Goes canceled = ⊥
Goes done = ⊥

-- An event that the wait behind the cancellation does not read.
abbrev pub Unread : Event → Type 0
Unread (received signal) = Unit
Unread foreign = Unit
Unread canceled = Unit
Unread timer_fired = ⊥
Unread done = ⊥

await_end-Unread :
    (between rest : List Event) → All Unread between → await_end (between ++ rest) ≡ await_end rest
unfolding await_end
await_end-Unread [] rest h = refl
await_end-Unread (received signal ∷ between) rest h = await_end-Unread between rest h.1
await_end-Unread (foreign ∷ between) rest h = await_end-Unread between rest h.1
await_end-Unread (canceled ∷ between) rest h = await_end-Unread between rest h.1
await_end-Unread (timer_fired ∷ between) rest h = absurd h.0
await_end-Unread (done ∷ between) rest h = absurd h.0

forward_signals-before :
    (before rest : List Event)
    → All Goes before
    → forward_signals (before ++ rest) ≡ signals_of before ++ forward_signals rest
unfolding forward_signals
forward_signals-before [] rest h = refl
forward_signals-before (received signal ∷ before) rest h =
    rw (forward_signals-before before rest h.1)
forward_signals-before (foreign ∷ before) rest h = forward_signals-before before rest h.1
forward_signals-before (timer_fired ∷ before) rest h = forward_signals-before before rest h.1
forward_signals-before (canceled ∷ before) rest h = absurd h.0
forward_signals-before (done ∷ before) rest h = absurd h.0

forward_signals-canceled :
    (rest : List Event) → forward_signals (canceled ∷ rest) ≡ sigterm ∷ await_end rest
unfolding forward_signals
forward_signals-canceled rest = refl

await_end-timer : (rest : List Event) → await_end (timer_fired ∷ rest) ≡ sigkill ∷ []
unfolding await_end
await_end-timer rest = refl

await_end-done : (rest : List Event) → await_end (done ∷ rest) ≡ []
unfolding await_end
await_end-done rest = refl

-- Every signal before the cancellation is forwarded, in order; the cancellation sends SIGTERM; and
-- then SIGKILL is sent if the timer fires before the target is done, and nothing if it is done
-- first, whatever is received in between and after.
pub forward_signals-cancellation :
    (before between rest : List Event)
    → All Goes before
    → All Unread between
    → (forward_signals (before ++ (canceled ∷ (between ++ (timer_fired ∷ rest))))
        ≡ signals_of before ++ (sigterm ∷ sigkill ∷ []))
      × (forward_signals (before ++ (canceled ∷ (between ++ (done ∷ rest))))
          ≡ signals_of before ++ (sigterm ∷ []))
forward_signals-cancellation before between rest goes unread = (
  rw (
    forward_signals-before before (canceled ∷ (between ++ (timer_fired ∷ rest))) goes,
    forward_signals-canceled (between ++ (timer_fired ∷ rest)),
    await_end-Unread between (timer_fired ∷ rest) unread,
    await_end-timer rest,
  ),
  rw (
    forward_signals-before before (canceled ∷ (between ++ (done ∷ rest))) goes,
    forward_signals-canceled (between ++ (done ∷ rest)),
    await_end-Unread between (done ∷ rest) unread,
    await_end-done rest,
  ),
)
