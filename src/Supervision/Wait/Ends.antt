-- ===== src/Supervision/Wait/Ends.antt =====
-- How a run ends: with the code of the child's own end, and with the child killed exactly if it was
-- not waited for.
use airjail.Base.{
  ℕ, ◌+◌, true, Option, none, some, List, [], ◌∷◌, ◌++◌, ◌≡◌, ◌∙◌, refl, append_assoc, arith,
  if◌then◌else◌, ok, Bool-cases, inl, inr, All,
}
use airjail.Supervision.Wait.{
  Status, exited, signaled, stopped, continued, Answer, interrupted, failed, changed, Reaped,
  reap_interrupted, one_reaped, no_child, reap_failed, Act, transfer_asked, child_continued,
  released, supervisor_stopped, group_killed, group_reaped, Run, reap, reaped, cleanup, returned,
  ended, hand_back, resume, wait_loop,
}

-- the exit code that a status stands for, if the child has ended
abbrev pub code_of : Status → Option ℕ
code_of (exited status) = some status
code_of (signaled signal) = some (128 + signal)
code_of stopped = none
code_of continued = none

-- Answers after which the loop goes on.
abbrev pub Passes : Answer → Type 0
Passes interrupted = Unit
Passes failed = ⊥
Passes (changed status) = code_of status ≡ none

-- the waits of the group end with no child left
abbrev pub AllReaped : List Reaped → Type 0
AllReaped [] = ⊥
AllReaped (reap_interrupted ∷ rest) = AllReaped rest
AllReaped (one_reaped ∷ rest) = AllReaped rest
AllReaped (no_child ∷ rest) = Unit
AllReaped (reap_failed ∷ rest) = ⊥

-- What is done for each stopped child: airjail stops, the terminal is handed to its group before and
-- back behind that, where it is managed, and the child is continued.
abbrev pub stops_acts : Run → List Answer → List Act
stops_acts run [] = []
stops_acts run (changed stopped ∷ rest) =
    (if run.manage_foreground
      then transfer_asked run.pid run.original
        ∷ supervisor_stopped
        ∷ transfer_asked run.original run.pid
        ∷ child_continued
        ∷ []
      else supervisor_stopped ∷ child_continued ∷ [])
    ++ stops_acts run rest
stops_acts run (answer ∷ rest) = stops_acts run rest

reap-AllReaped : (waits : List Reaped) → AllReaped waits → reap waits ≡ some (ok tt)
unfolding reap
reap-AllReaped (reap_interrupted ∷ rest) h = reap-AllReaped rest h
reap-AllReaped (one_reaped ∷ rest) h = reap-AllReaped rest h
reap-AllReaped (no_child ∷ rest) h = refl
reap-AllReaped (reap_failed ∷ rest) h = absurd h
reap-AllReaped [] h = absurd h

-- The group can be killed and reaped, where that is asked for.
abbrev pub Reapable : Run → Type 0
Reapable run = run.reap_process_group ≡ true → (run.kills_group ≡ true) × AllReaped run.group_waits

abbrev pub reap_acts : Run → List Act
reap_acts run = if run.reap_process_group then group_killed ∷ group_reaped ∷ [] else []

-- What is done last: the terminal is handed back, where it is managed, and the files are closed.
abbrev pub end_acts : Run → List Act
end_acts run =
    if run.manage_foreground
    then transfer_asked run.pid run.original ∷ released ∷ []
    else released ∷ []

cleanup-end_acts : (run : Run) → cleanup run true ≡ end_acts run
unfolding cleanup
cleanup-end_acts run = ground arith

stop_acts_lem :
    (run : Run)
    → (if run.manage_foreground
        then transfer_asked run.pid run.original
          ∷ supervisor_stopped
          ∷ transfer_asked run.original run.pid
          ∷ child_continued
          ∷ []
        else supervisor_stopped ∷ child_continued ∷ [])
      ≡ hand_back run ++ (supervisor_stopped ∷ resume run)
unfolding hand_back resume
stop_acts_lem run = ground arith

ended-Reapable :
    (run : Run) (code : ℕ)
    → Reapable run
    → ended run code ≡ some (ok code, reap_acts run ++ end_acts run)
unfolding ended returned reaped
ended-Reapable run code able = elim (Bool-cases run.reap_process_group) [
  | inr e ↦ ground (arith, e, cleanup-end_acts run)
  | inl e ↦
      let (kills, all) = able e in
      ground (arith, e, kills, reap-AllReaped run.group_waits all, cleanup-end_acts run)
]

wait_loop-end :
    (run : Run) (status : Status) (rest : List Answer) (code : ℕ)
    → code_of status ≡ some code
    → wait_loop run (changed status ∷ rest) ≡ ended run code
unfolding wait_loop
wait_loop-end run (exited n) rest code h = ground arith
wait_loop-end run (signaled n) rest code h = ground arith
wait_loop-end run stopped rest code h = absurd (cc)
wait_loop-end run continued rest code h = absurd (cc)

-- When the child has ended, and before that the waits were interrupted or reported stops and resumes
-- only, where airjail can be stopped, and the group killed and reaped if that is asked for, the loop
-- returns, with the exit code of the child's end. Before that, for each stop in order, it has stopped
-- airjail and then continued the child, with the terminal's transfer to the original group asked for
-- before and back behind that, where airjail manages it; then it has killed and reaped the group, if
-- that is asked for; and last it has asked for the terminal's return, where it manages it, and released
-- what it held, without killing the child.
pub wait_loop-ended :
    (run : Run) (before rest : List Answer) (status : Status) (code : ℕ)
    → run.stops ≡ true
    → All Passes before
    → code_of status ≡ some code
    → Reapable run
    → wait_loop run (before ++ changed status ∷ rest)
      ≡ some (ok code, stops_acts run before ++ (reap_acts run ++ end_acts run))
unfolding wait_loop
wait_loop-ended run [] rest status code stops passes e able =
    wait_loop-end run status rest code e ∙ ended-Reapable run code able
wait_loop-ended run (interrupted ∷ before) rest status code stops passes e able =
    wait_loop-ended run before rest status code stops passes.1 e able
wait_loop-ended run (failed ∷ before) rest status code stops passes e able = absurd passes.0
wait_loop-ended run (changed (exited n) ∷ before) rest status code stops passes e able =
    absurd (cc (passes.0))
wait_loop-ended run (changed (signaled n) ∷ before) rest status code stops passes e able =
    absurd (cc (passes.0))
wait_loop-ended run (changed continued ∷ before) rest status code stops passes e able =
    wait_loop-ended run before rest status code stops passes.1 e able
wait_loop-ended run (changed stopped ∷ before) rest status code stops passes e able =
    let once = hand_back run ++ (supervisor_stopped ∷ resume run) in
    let later = wait_loop-ended run before rest status code stops passes.1 e able in
    ground (
      arith,
      later,
      stop_acts_lem run,
      append_assoc once (stops_acts run before) (reap_acts run ++ end_acts run),
    )
