-- ===== src/Supervision/Wait/Killed.antt =====
-- What a return of the loop tells: which code it can carry, and whether the child was killed.
use airjail.Base.{
  ℕ, ◌+◌, Bool, true, false, not, ◌||◌, Option, none, some, List, [], ◌∷◌, ◌++◌, ◌≡◌, refl, ap,
  arith, Result, ok, err, Bool-cases, Option-cases, inl, inr, any,
}
use airjail.Supervision.Wait.{
  exited, signaled, stopped, continued, Answer, interrupted, failed, changed, RunError, wait_failed,
  stop_failed, group_kill_failed, group_reap_failed, Reaped, reap_interrupted, one_reaped, no_child,
  reap_failed, Act, transfer_asked, supervisor_stopped, child_continued, child_killed, group_killed,
  group_reaped, released, Run, reap, reaped, Outcome, after, cleanup, returned, ended, hand_back,
  resume, wait_loop,
}

abbrev pub is_kill : Act → Bool
is_kill child_killed = true
is_kill (transfer_asked a b) = false
is_kill supervisor_stopped = false
is_kill child_continued = false
is_kill group_killed = false
is_kill group_reaped = false
is_kill released = false

any_append : (p : Act → Bool) (xs ys : List Act) → any p (xs ++ ys) ≡ (any p xs || any p ys)
any_append p [] ys = refl
any_append p (x ∷ xs) ys = ground (arith, any_append p xs ys)

-- the child had not ended
abbrev pub unfinished : Result RunError ℕ → Bool
unfinished (ok code) = false
unfinished (err wait_failed) = true
unfinished (err stop_failed) = true
unfinished (err group_kill_failed) = false
unfinished (err group_reap_failed) = false

-- what is said of a return, if there is one
abbrev pub Returns : (Outcome → Type 0) → Option Outcome → Type 0
Returns P none = Unit
Returns P (some o) = P o

abbrev Fits : Outcome → Type 0
Fits o = any is_kill o.1 ≡ unfinished o.0

after-Fits :
    (acts : List Act) (o : Option Outcome)
    → any is_kill acts ≡ false
    → Returns Fits o
    → Returns Fits (after acts o)
after-Fits acts none h fits = tt
after-Fits acts (some o) h fits = ground (arith, any_append is_kill acts o.1)

returned-Fits :
    (run : Run) (finished : Bool) (result : Result RunError ℕ)
    → unfinished result ≡ not finished
    → Returns Fits (returned run finished result)
unfolding returned cleanup
returned-Fits run true result h = ground arith
returned-Fits run false result h = ground arith

reap-error :
    (waits : List Reaped) (e : RunError) → reap waits ≡ some (err e) → e ≡ group_reap_failed
unfolding reap
reap-error [] e h = absurd (cc)
reap-error (reap_interrupted ∷ rest) e h = reap-error rest e h
reap-error (one_reaped ∷ rest) e h = reap-error rest e h
reap-error (no_child ∷ rest) e h = absurd (cc)
reap-error (reap_failed ∷ rest) e h = cc

reaped-Fits : (run : Run) (code : ℕ) → Returns Fits (reaped run code)
unfolding reaped
reaped-Fits run code = elim (Option-cases (reap run.group_waits)) [
  | inl e ↦ rw (e, reaped) tt
  | inr (ok t, e) ↦
      rw (e, reaped)
        (after-Fits (group_reaped ∷ []) (returned run true (ok code)) refl
          (returned-Fits run true (ok code) refl))
  | inr (err fault, e) ↦
      rw (e, reaped)
        (returned-Fits run true (err fault)
          (ap (λ x. unfinished (err x)) (reap-error run.group_waits fault e)))
]

ended-Fits : (run : Run) (code : ℕ) → Returns Fits (ended run code)
unfolding ended
ended-Fits run code = elim (Bool-cases run.reap_process_group) [
  | inr e ↦ rw (e, ended) (returned-Fits run true (ok code) refl)
  | inl e ↦ elim (Bool-cases run.kills_group) [
    | inr k ↦ rw (e, ended) (rw k (returned-Fits run true (err group_kill_failed) refl))
    | inl k ↦
        rw (e, ended)
          (rw k (after-Fits (group_killed ∷ []) (reaped run code) refl (reaped-Fits run code)))
  ]
]

wait_loop-Fits : (run : Run) (answers : List Answer) → Returns Fits (wait_loop run answers)
unfolding wait_loop hand_back resume
wait_loop-Fits run [] = tt
wait_loop-Fits run (interrupted ∷ rest) = wait_loop-Fits run rest
wait_loop-Fits run (failed ∷ rest) = returned-Fits run false (err wait_failed) refl
wait_loop-Fits run (changed (exited n) ∷ rest) = ended-Fits run n
wait_loop-Fits run (changed (signaled n) ∷ rest) = ended-Fits run (128 + n)
wait_loop-Fits run (changed continued ∷ rest) = wait_loop-Fits run rest
wait_loop-Fits run (changed stopped ∷ rest) =
    let quiet : any is_kill (hand_back run ++ (supervisor_stopped ∷ resume run)) ≡ false =
      ground arith in
    let quiet_back : any is_kill (hand_back run) ≡ false = ground arith in
    let on =
      after-Fits (hand_back run ++ (supervisor_stopped ∷ resume run)) (wait_loop run rest) quiet
        (wait_loop-Fits run rest) in
    let off =
      after-Fits (hand_back run) (returned run false (err stop_failed)) quiet_back
        (returned-Fits run false (err stop_failed) refl) in
    elim (Bool-cases run.stops) [ inl e ↦ rw (e, wait_loop) on | inr e ↦ rw (e, wait_loop) off ]

-- The child is killed in the clean-up exactly if the loop returned before it had waited for the
-- child's end: where a wait failed, or where airjail could not stop itself for a stopped child.
pub wait_loop-killed :
    (run : Run) (answers : List Answer) (result : Result RunError ℕ) (acts : List Act)
    → wait_loop run answers ≡ some (result, acts)
    → any is_kill acts ≡ unfinished result
wait_loop-killed run answers result acts h = rw h at (wait_loop-Fits run answers)
