-- ===== src/Supervision/Wait.antt =====
-- internal/namespace/run_linux.go, runSandboxedProcess from the start of the child on, with
-- terminateAndReapProcessGroup: the answers of wait4 are a list, and what is done is recorded.
pub mod Ends
pub mod Killed
pub mod Codes
pub mod Foreground
use airjail.Base.{
  ℕ, ◌+◌, Bool, true, false, not, ◌&&◌, Option, none, some, List, [], ◌∷◌, ◌++◌, if◌then◌else◌,
  Result, ok, err, ◌==◌, nat_eq,
}

-- A process or a process group, as the first argument of kill.
pub data Target : Type 0 where
  process group : ℕ → Target

unfoldable pub signal_target : Bool → ℕ → Target
signal_target join_parent_process_group pid =
    if join_parent_process_group then process pid else group pid

unfoldable pub should_manage_foreground : Bool → Bool → ℕ → ℕ → Bool
should_manage_foreground terminal join_parent_process_group foreground current =
    terminal && (not join_parent_process_group && foreground == current)

unfoldable pub owns_terminal_foreground : Bool → ℕ → ℕ → Bool
owns_terminal_foreground terminal foreground current = terminal && foreground == current

-- unix.WaitStatus: the exit status, or the signal, that it carries
pub data Status : Type 0 where
  exited signaled : ℕ → Status
  stopped continued : Status

-- One wait4 on the child.
pub data Answer : Type 0 where
  interrupted failed : Answer
  changed : Status → Answer

-- One wait4 on the child's group, behind the kill.
pub data Reaped : Type 0 where
  reap_interrupted one_reaped no_child reap_failed : Reaped

pub data RunError : Type 0 where
  wait_failed stop_failed group_kill_failed group_reap_failed : RunError

pub data Act : Type 0 where
  -- transferTerminalForegroundIfOwned, from a group to a group: it moves the terminal's foreground if
  -- the first one has it and both ioctls work; what goes wrong is only logged
  transfer_asked : ℕ → ℕ → Act
  supervisor_stopped child_continued child_killed group_killed group_reaped released : Act

-- The options and what the system answers: whether airjail can be stopped, and the error of the
-- group's kill other than ESRCH.
pub record Run : Type 0 where
  pub pid : ℕ
  pub original : ℕ
  pub manage_foreground : Bool
  pub reap_process_group : Bool
  pub stops : Bool
  pub kills_group : Bool
  pub group_waits : List Reaped

-- The loop of terminateAndReapProcessGroup; `none` is a loop that still waits.
unfoldable pub reap : List Reaped → Option (Result RunError (Unit {0}))
reap [] = none
reap (reap_interrupted ∷ rest) = reap rest
reap (one_reaped ∷ rest) = reap rest
reap (no_child ∷ rest) = some (ok tt)
reap (reap_failed ∷ rest) = some (err group_reap_failed)

-- The result and what was done until the return.
abbrev pub Outcome : Type 0
Outcome = Result RunError ℕ × List Act

abbrev pub after : List Act → Option Outcome → Option Outcome
after acts none = none
after acts (some outcome) = some (outcome.0, acts ++ outcome.1)

-- the deferred calls before and behind a return, with childFinished
unfoldable pub cleanup : Run → Bool → List Act
cleanup run finished =
    let kill = if finished then [] else child_killed ∷ [] in
    let restore = if run.manage_foreground then transfer_asked run.pid run.original ∷ [] else [] in
    kill ++ (restore ++ released ∷ [])

unfoldable pub returned : Run → Bool → Result RunError ℕ → Option Outcome
unfolding cleanup
returned run finished result = some (result, cleanup run finished)

-- terminateAndReapProcessGroup, and the return behind it
unfoldable pub reaped : Run → ℕ → Option Outcome
unfolding reap returned
reaped run code = elim (reap run.group_waits) [
  | none ↦ none
  | some (err e) ↦ returned run true (err e)
  | some (ok _) ↦ after (group_reaped ∷ []) (returned run true (ok code))
]

-- the child has ended, with the exit code for it
unfoldable pub ended : Run → ℕ → Option Outcome
unfolding reaped
ended run code =
    if not run.reap_process_group
    then returned run true (ok code)
    else if not run.kills_group
    then returned run true (err group_kill_failed)
    else after (group_killed ∷ []) (reaped run code)

-- what is done for a stopped child before airjail stops, and when it runs again
unfoldable pub hand_back : Run → List Act
hand_back run = if run.manage_foreground then transfer_asked run.pid run.original ∷ [] else []

unfoldable pub resume : Run → List Act
resume run =
    (if run.manage_foreground then transfer_asked run.original run.pid ∷ [] else [])
    ++ child_continued ∷ []

-- The loop over wait4; `none` is a loop that still waits.
unfoldable pub wait_loop : Run → List Answer → Option Outcome
unfolding ended returned hand_back resume
wait_loop run [] = none
wait_loop run (interrupted ∷ rest) = wait_loop run rest
wait_loop run (failed ∷ rest) = returned run false (err wait_failed)
wait_loop run (changed (exited status) ∷ rest) = ended run status
wait_loop run (changed (signaled signal) ∷ rest) = ended run (128 + signal)
wait_loop run (changed continued ∷ rest) = wait_loop run rest
wait_loop run (changed stopped ∷ rest) =
    let on = after (hand_back run ++ (supervisor_stopped ∷ resume run)) (wait_loop run rest) in
    if run.stops then on else after (hand_back run) (returned run false (err stop_failed))
