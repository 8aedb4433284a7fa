-- ===== src/Supervision/Wait/Codes.antt =====
-- Which exit codes the loop can return.
use airjail.Base.{
  ℕ, ◌+◌, ◌≤◌, Bool, true, false, Option, none, some, List, [], ◌∷◌, ◌++◌, ◌≡◌, refl, subst, arith,
  Result, ok, err, Bool-cases, Option-cases, inl, inr, Some, All,
}
use airjail.Supervision.Wait.{
  Status, exited, signaled, stopped, continued, Answer, interrupted, failed, changed, RunError,
  wait_failed, stop_failed, group_kill_failed, Act, supervisor_stopped, group_killed, group_reaped,
  Run, reap, reaped, Outcome, after, returned, ended, hand_back, resume, wait_loop,
}
use airjail.Supervision.Wait.Ends.{code_of}
use airjail.Supervision.Wait.Killed.{Returns}

-- An end of the child with this exit code was reported.
abbrev pub Reported : ℕ → List Answer → Type 0
Reported code = Some (λ a. (status : Status) × (a ≡ changed status) × (code_of status ≡ some code))

abbrev Codes : List Answer → Outcome → Type 0
Codes answers o = (code : ℕ) → o.0 ≡ ok code → Reported code answers

after-Codes :
    (answers : List Answer) (acts : List Act) (o : Option Outcome)
    → Returns (Codes answers) o
    → Returns (Codes answers) (after acts o)
after-Codes answers acts none h = tt
after-Codes answers acts (some o) h = h

returned-Codes :
    (answers : List Answer) (run : Run) (finished : Bool) (result : Result RunError ℕ)
    → ((code : ℕ) → result ≡ ok code → Reported code answers)
    → Returns (Codes answers) (returned run finished result)
unfolding returned
returned-Codes answers run finished result h = h

ended-Codes :
    (answers : List Answer) (run : Run) (code : ℕ)
    → Reported code answers
    → Returns (Codes answers) (ended run code)
unfolding ended reaped
ended-Codes answers run code h =
    let good : Returns (Codes answers) (returned run true (ok code)) =
      returned-Codes answers run true (ok code) (λ c e. subst (λ n. Reported n answers) (cc) h) in
    let bad : (fault : RunError) → Returns (Codes answers) (returned run true (err fault)) =
      λ fault. returned-Codes answers run true (err fault) (λ c e. absurd (cc)) in
    elim (Bool-cases run.reap_process_group) [
      | inr e ↦ rw (e, ended) good
      | inl e ↦ elim (Bool-cases run.kills_group) [
        | inr k ↦ rw (e, ended) (rw k (bad group_kill_failed))
        | inl k ↦
            rw (e, ended)
              (rw k (
                after-Codes answers (group_killed ∷ []) (reaped run code)
                  (elim (Option-cases (reap run.group_waits)) [
                    | inl r ↦ rw (r, reaped) tt
                    | inr (ok t, r) ↦
                        rw (r, reaped)
                          (after-Codes answers (group_reaped ∷ []) (returned run true (ok code))
                            good)
                    | inr (err fault, r) ↦ rw (r, reaped) (bad fault)
                  ])))
      ]
    ]

later-Codes :
    (a : Answer) (answers : List Answer) (o : Option Outcome)
    → Returns (Codes answers) o
    → Returns (Codes (a ∷ answers)) o
later-Codes a answers none h = tt
later-Codes a answers (some o) h = λ code e. inr (h code e)

wait_loop-Codes :
    (run : Run) (answers : List Answer) → Returns (Codes answers) (wait_loop run answers)
unfolding wait_loop
wait_loop-Codes run [] = tt
wait_loop-Codes run (interrupted ∷ rest) =
    later-Codes interrupted rest (wait_loop run rest) (wait_loop-Codes run rest)
wait_loop-Codes run (failed ∷ rest) =
    returned-Codes (failed ∷ rest) run false (err wait_failed) (λ c e. absurd (cc))
wait_loop-Codes run (changed (exited n) ∷ rest) =
    ended-Codes (changed (exited n) ∷ rest) run n (inl (exited n, refl, refl))
wait_loop-Codes run (changed (signaled n) ∷ rest) =
    ended-Codes (changed (signaled n) ∷ rest) run (128 + n) (inl (signaled n, refl, refl))
wait_loop-Codes run (changed continued ∷ rest) =
    later-Codes (changed continued) rest (wait_loop run rest) (wait_loop-Codes run rest)
wait_loop-Codes run (changed stopped ∷ rest) =
    let on =
      after-Codes (changed stopped ∷ rest) (hand_back run ++ (supervisor_stopped ∷ resume run))
        (wait_loop run rest)
        (later-Codes (changed stopped) rest (wait_loop run rest) (wait_loop-Codes run rest)) in
    let off =
      after-Codes (changed stopped ∷ rest) (hand_back run) (returned run false (err stop_failed)) (
        returned-Codes (changed stopped ∷ rest) run false (err stop_failed) (λ c e. absurd (cc))) in
    elim (Bool-cases run.stops) [ inl e ↦ rw (e, wait_loop) on | inr e ↦ rw (e, wait_loop) off ]

-- the ranges that the kernel gives an exit status and a signal
abbrev pub InRange : Answer → Type 0
InRange interrupted = Unit
InRange failed = Unit
InRange (changed (exited status)) = status ≤ 255
InRange (changed (signaled signal)) = signal ≤ 127
InRange (changed stopped) = Unit
InRange (changed continued) = Unit

code-le :
    (status : Status) (code : ℕ)
    → InRange (changed status)
    → code_of status ≡ some code
    → code ≤ 255
code-le (exited n) code range e = ground arith
code-le (signaled n) code range e = ground arith
code-le stopped code range e = absurd (cc)
code-le continued code range e = absurd (cc)

Reported-le :
    (code : ℕ) (answers : List Answer) → All InRange answers → Reported code answers → code ≤ 255
Reported-le code [] ranges h = absurd h
Reported-le code (a ∷ rest) ranges (inl (status, same, e)) =
    code-le status code (subst InRange same ranges.0) e
Reported-le code (a ∷ rest) ranges (inr later) = Reported-le code rest ranges.1 later

-- An exit code that is returned is that of an end of the child that was reported, and it fits a byte:
-- 128 is added to a signal only.
pub wait_loop-code_bounds :
    (run : Run) (answers : List Answer) (code : ℕ) (acts : List Act)
    → All InRange answers
    → wait_loop run answers ≡ some (ok code, acts)
    → Reported code answers × (code ≤ 255)
wait_loop-code_bounds run answers code acts ranges h =
    let reported = (rw h at (wait_loop-Codes run answers)) code refl in
    (reported, Reported-le code answers ranges reported)
