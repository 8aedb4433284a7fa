-- ===== src/Relay.antt =====
-- internal/relay/relay.go: two copies that run beside each other, and the loop of Bidirectional that
-- waits for them. An interleaving is the list of the events that the loop's select receives.
pub mod Outcome
use airjail.Base.{
  ℕ, suc, ◌+◌, Bool, true, false, not, ◌&&◌, Option, none, some, List, [], ◌∷◌, if◌then◌else◌, ltb,
}

-- An error of a copy, by what errors.Is finds in it: net.ErrClosed, context.Canceled, or neither.
pub data Failure : Type 0 where
  net_closed context_canceled : Failure
  broken : ℕ → Failure

unfoldable pub is_relay_error : Option Failure → Bool
is_relay_error none = false
is_relay_error (some net_closed) = false
is_relay_error (some context_canceled) = false
is_relay_error (some (broken code)) = true

-- What copyStream sends, from the error of io.Copy and that of CloseWrite; the outer option is
-- whether the destination has a CloseWrite.
unfoldable pub copy_stream : Option Failure → Option (Option Failure) → Option Failure
copy_stream copied none = copied
copy_stream none (some close_err) = close_err
copy_stream (some failure) (some close_err) = some failure

pub data Event : Type 0 where
  result : Option Failure → Event
  done : Event

-- The variables of the loop. `waiting` is whether contextDone is not nil, `closes` how often both
-- connections have been closed.
pub record State : Type 0 where
  pub completed : ℕ
  pub relay_err : Option Failure
  pub canceled : Bool
  pub waiting : Bool
  pub closes : ℕ

abbrev pub start : State
start = record { completed = 0; relay_err = none; canceled = false; waiting = true; closes = 0 }

abbrev pub is_none : {A : Type 0} → Option A → Bool
is_none none = true
is_none (some a) = false

-- One turn of the select. A nil channel is never received from, so a second `done` changes nothing.
unfoldable pub receive : State → Event → State
unfolding is_relay_error
receive s (result e) =
    let counted = record s { completed = suc s.completed } in
    if is_none s.relay_err && is_relay_error e
    then record counted { relay_err = e; closes = s.closes + 1 }
    else counted
receive s done =
    if s.waiting then record s { canceled = true; waiting = false; closes = s.closes + 1 } else s

-- `none` is a loop that still waits.
unfoldable pub loop : List Event → State → Option State
unfolding receive
loop [] s = if ltb s.completed 2 then none else some s
loop (event ∷ rest) s =
    let turn = loop rest (receive s event) in if ltb s.completed 2 then turn else some s

pub data RelayError : Type 0 where
  copy_error : Failure → RelayError
  context_err : RelayError

unfoldable pub conclude : State → Option RelayError
conclude s = elim s.relay_err [
  | some failure ↦ some (copy_error failure)
  | none ↦ if s.canceled then some context_err else none
]

-- The error and how often both connections were closed.
unfoldable pub bidirectional : List Event → Option (Option RelayError × ℕ)
unfolding loop conclude
bidirectional events = elim (loop events start) [
  | none ↦ none
  | some s ↦ some (conclude s, s.closes)
]
