-- ===== src/Supervision/Forwarder.antt =====
-- internal/namespace/forwarder.go: the accept loop, as one list of what happens, and what one
-- connection does to the set, with the deferred calls.
use airjail.Base.{
  ℕ, ◌+◌, ◌-◌, Bool, true, not, ◌||◌, Option, none, some, List, [], ◌∷◌, ◌++◌, ◌≡◌, refl, arith,
  if◌then◌else◌, ◌==◌, nat_eq, Result, ok, err,
}
use airjail.Base.Bytes.{Bytes}
use airjail.Base.Sets.{insert_all, delete_all}

-- Connections are numbers; `closed` are those that closeAll has closed, and `waiting` counts the
-- goroutines of the wait group.
pub record Forwarder : Type 0 where
  pub connections : List ℕ
  pub waiting : ℕ
  pub closed : List ℕ

abbrev pub new_forwarder : Forwarder
new_forwarder = record { connections = []; waiting = 0; closed = [] }

unfoldable pub add_both : Forwarder → List ℕ → Forwarder
add_both f connections = record f { connections = insert_all f.connections connections }

unfoldable pub remove_both : Forwarder → List ℕ → Forwarder
remove_both f connections = record f { connections = delete_all f.connections connections }

unfoldable pub close_everything : Forwarder → Forwarder
close_everything f = record f { closed = f.closed ++ f.connections }

-- What the goroutine of a client does: it adds the client and the dialed connection, and when it ends
-- it takes them out, closes them and leaves the wait group; where the dial failed it only closes.
pub data Event : Type 0 where
  accepted : Event
  dial_failed : (client : ℕ) → Event
  connected relayed : (client outer : ℕ) → Event
  canceled : Event
  -- by whether it is net.ErrClosed
  accept_failed : Bool → Event

unfoldable pub forward : Forwarder → Event → Forwarder
unfolding add_both remove_both close_everything
forward f accepted = record f { waiting = f.waiting + 1 }
forward f (dial_failed client) = record f { waiting = f.waiting - 1 }
forward f (connected client outer) = add_both f (client ∷ outer ∷ [])
forward f (relayed client outer) =
    let removed = remove_both f (client ∷ outer ∷ []) in record removed { waiting = f.waiting - 1 }
forward f canceled = close_everything f
forward f (accept_failed is_closed) = close_everything f

-- the wait group, behind a failed Accept
unfoldable pub wait : Forwarder → Bool → List Event → Option (Forwarder × Bool)
unfolding forward
wait f succeeds [] = if f.waiting == 0 then some (f, succeeds) else none
wait f succeeds (event ∷ rest) =
    let later = wait (forward f event) succeeds rest in
    if f.waiting == 0 then some (f, succeeds) else later

-- Serve, by whether it returns nil; the flag is whether the context is canceled.
unfoldable pub serve : Forwarder → Bool → List Event → Option (Forwarder × Bool)
unfolding forward wait
serve f is_canceled [] = none
serve f is_canceled (accept_failed is_closed ∷ rest) =
    wait (forward f (accept_failed is_closed)) (is_canceled || is_closed) rest
serve f is_canceled (canceled ∷ rest) = serve (forward f canceled) true rest
serve f is_canceled (event ∷ rest) = serve (forward f event) is_canceled rest

-- the goroutine of RunSupervisor for one bridge: its error, by whether the group is canceled
pub data BridgeError : Type 0 where
  accept_error stopped_unexpectedly : BridgeError

unfoldable pub bridge_error : (succeeds group_canceled : Bool) → Option BridgeError
bridge_error succeeds group_canceled =
    if not succeeds
    then some accept_error
    else if not group_canceled
    then some stopped_unexpectedly
    else none

wait-returned :
    (f : Forwarder) (succeeds : Bool) (events : List Event) (last : Forwarder) (returned : Bool)
    → wait f succeeds events ≡ some (last, returned)
    → (last.waiting ≡ 0) × (returned ≡ succeeds)
unfolding wait
wait-returned f succeeds [] last returned h = ground arith
wait-returned f succeeds (event ∷ rest) last returned h =
    ground (arith, wait-returned (forward f event) succeeds rest last returned)

-- When the loop of a forwarder returns, no goroutine of a client is left; and it returns an error only
-- if the context was not canceled before.
pub serve-returned :
    (f : Forwarder) (is_canceled : Bool) (events : List Event) (last : Forwarder) (succeeds : Bool)
    → serve f is_canceled events ≡ some (last, succeeds)
    → (last.waiting ≡ 0) × (is_canceled ≡ true → succeeds ≡ true)
unfolding serve
serve-returned f is_canceled [] last succeeds h = absurd (cc)
serve-returned f is_canceled (accept_failed is_closed ∷ rest) last succeeds h =
    let (idle, same) =
      wait-returned (forward f (accept_failed is_closed)) (is_canceled || is_closed) rest last
        succeeds h in
    (idle, (λ e. ground (arith, same, e)))
serve-returned f is_canceled (canceled ∷ rest) last succeeds h =
    let (idle, ends) = serve-returned (forward f canceled) true rest last succeeds h in
    (idle, (λ e. ends refl))
serve-returned f is_canceled (accepted ∷ rest) last succeeds h =
    serve-returned (forward f accepted) is_canceled rest last succeeds h
serve-returned f is_canceled (dial_failed client ∷ rest) last succeeds h =
    serve-returned (forward f (dial_failed client)) is_canceled rest last succeeds h
serve-returned f is_canceled (connected client outer ∷ rest) last succeeds h =
    serve-returned (forward f (connected client outer)) is_canceled rest last succeeds h
serve-returned f is_canceled (relayed client outer ∷ rest) last succeeds h =
    serve-returned (forward f (relayed client outer)) is_canceled rest last succeeds h

-- what RunSupervisor returns for the child's result and the group's first error
pub data SupervisedError : Type 0 where
  child_failed : Bytes → SupervisedError
  bridge_failed : BridgeError → SupervisedError

unfoldable pub supervised_result : Result Bytes ℕ → Option BridgeError → Result SupervisedError ℕ
supervised_result (err e) infrastructure = err (child_failed e)
supervised_result (ok code) none = ok code
supervised_result (ok code) (some e) = err (bridge_failed e)
