-- ===== src/Tests/Supervision.antt =====
-- Witnesses of the supervision of a command, and of what is set up for it.
use airjail.Base.{ltb, inl, ◌≤◌, true, some, List, [], ◌∷◌, ◌++◌, ◌≡◌, refl, arith, ok, any}
use airjail.Supervision.Wait.{
  Run, Answer, interrupted, changed, exited, signaled, stopped, continued, one_reaped, no_child,
  Act, wait_loop, cleanup, RunError,
}
use airjail.Supervision.Wait.Ends.{stops_acts, end_acts, reap_acts, wait_loop-ended}
use airjail.Supervision.Wait.Killed.{is_kill, unfinished, wait_loop-killed}
use airjail.Supervision.Wait.Codes.{Reported, wait_loop-code_bounds}
use airjail.Supervision.Wait.Foreground.{terminal, wait_loop-terminal}

abbrev run : Run
run = record {
  pid = 7;
  original = 3;
  manage_foreground = true;
  reap_process_group = true;
  stops = true;
  kills_group = true;
  group_waits = one_reaped ∷ no_child ∷ [];
}

abbrev before : List Answer
before = interrupted ∷ changed stopped ∷ changed continued ∷ []

abbrev acts : List Act
acts = stops_acts run before ++ (reap_acts run ++ end_acts run)

wait_loop-ended_example : wait_loop run (before ++ changed (signaled 9) ∷ []) ≡ some (ok 137, acts)
wait_loop-ended_example =
    wait_loop-ended run before [] (signaled 9) 137 refl (tt, (refl, (refl, tt))) refl
      (λ _. (refl, tt))

run_ends : wait_loop run (before ++ changed (signaled 9) ∷ []) ≡ some (ok 137, acts)
unfolding wait_loop airjail.Supervision.Wait.ended airjail.Supervision.Wait.returned
    airjail.Supervision.Wait.reaped airjail.Supervision.Wait.reap airjail.Supervision.Wait.hand_back
    airjail.Supervision.Wait.resume cleanup
run_ends = refl

wait_loop-killed_example : any is_kill acts ≡ unfinished (ok 137)
wait_loop-killed_example =
    wait_loop-killed run (before ++ changed (signaled 9) ∷ []) (ok 137) acts run_ends

wait_loop-code_bounds_example : Reported 137 (before ++ changed (signaled 9) ∷ []) × (137 ≤ 255)
wait_loop-code_bounds_example =
    wait_loop-code_bounds run (before ++ changed (signaled 9) ∷ []) 137 acts
      (tt, (tt, (tt, (omega arith, tt)))) run_ends

wait_loop-terminal_example : terminal (λ behind. ltb behind 4) acts 7 ≡ 3
wait_loop-terminal_example =
    wait_loop-terminal run refl (before ++ changed (signaled 9) ∷ []) (ok 137) acts
      (λ behind. ltb behind 4) 7 (inl refl) refl run_ends
