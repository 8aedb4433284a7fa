-- ===== src/Supervision/Wait/Foreground.antt =====
-- The terminal's foreground process group through a run.
use airjail.Base.{
  ℕ, ◌+◌, Bool, true, false, ◌&&◌, Option, none, some, List, [], ◌∷◌, ◌++◌, ◌≡◌, ◌⊎◌, refl, arith,
  if◌then◌else◌, Result, ok, err, Bool-cases, Option-cases, inl, inr, ◌==◌, ==_iff, nat_eq, length,
}
use airjail.Supervision.Wait.{
  Answer, interrupted, failed, changed, exited, signaled, stopped, continued, RunError, Act,
  transfer_asked, supervisor_stopped, child_continued, child_killed, group_killed, group_reaped,
  released, Run, reap, reaped, Outcome, after, cleanup, returned, ended, hand_back, resume,
  wait_loop, wait_failed, stop_failed, group_kill_failed,
}
use airjail.Supervision.Wait.Killed.{Returns}

-- The foreground group behind the acts, if nothing else moves it: `works n` says whether the ioctls of
-- the transfer work that n acts follow.
abbrev pub terminal : (ℕ → Bool) → List Act → ℕ → ℕ
terminal works [] g = g
terminal works (transfer_asked from to ∷ acts) g =
    terminal works acts (if works (length acts) && g == from then to else g)
terminal works (supervisor_stopped ∷ acts) g = terminal works acts g
terminal works (child_continued ∷ acts) g = terminal works acts g
terminal works (child_killed ∷ acts) g = terminal works acts g
terminal works (group_killed ∷ acts) g = terminal works acts g
terminal works (group_reaped ∷ acts) g = terminal works acts g
terminal works (released ∷ acts) g = terminal works acts g

-- a transfer between the child's group and the original one
abbrev Between : Run → ℕ → ℕ → Type 0
Between run from to =
    ((from ≡ run.pid) × (to ≡ run.original)) ⊎ ((from ≡ run.original) × (to ≡ run.pid))

-- Every transfer is between the two groups, and the last is back, with only the release behind it.
abbrev Restores : Run → List Act → Type 0
Restores run [] = ⊥
Restores run (transfer_asked from to ∷ acts) =
    (Between run from to × Restores run acts)
    ⊎ ((from ≡ run.pid) × (to ≡ run.original) × (acts ≡ released ∷ []))
Restores run (supervisor_stopped ∷ acts) = Restores run acts
Restores run (child_continued ∷ acts) = Restores run acts
Restores run (child_killed ∷ acts) = Restores run acts
Restores run (group_killed ∷ acts) = Restores run acts
Restores run (group_reaped ∷ acts) = Restores run acts
Restores run (released ∷ acts) = Restores run acts

-- one of the two groups
abbrev Either : Run → ℕ → Type 0
Either run g = (g ≡ run.pid) ⊎ (g ≡ run.original)

transfer-Either :
    (run : Run) (worked : Bool) (from to g : ℕ)
    → Between run from to
    → Either run g
    → Either run (if worked && g == from then to else g)
transfer-Either run worked from to g b e = ground (arith, ==_iff g from)

terminal-released :
    (run : Run) (works : ℕ → Bool) (g : ℕ)
    → Either run g
    → works 1 ≡ true
    → terminal works (transfer_asked run.pid run.original ∷ released ∷ []) g ≡ run.original
terminal-released run works g e w = ground (arith, ==_iff g run.pid)

terminal-Restores :
    (run : Run) (works : ℕ → Bool) (acts : List Act) (g : ℕ)
    → Restores run acts
    → Either run g
    → works 1 ≡ true
    → terminal works acts g ≡ run.original
terminal-Restores run works [] g h e w = absurd h
terminal-Restores run works (transfer_asked from to ∷ acts) g (inl (b, h)) e w =
    terminal-Restores run works acts (if works (length acts) && g == from then to else g) h
      (transfer-Either run (works (length acts)) from to g b e) w
terminal-Restores run works (transfer_asked from to ∷ acts) g (inr (p, o, r)) e w =
    rw (p, o, r) (terminal-released run works g e w)
terminal-Restores run works (supervisor_stopped ∷ acts) g h e w =
    terminal-Restores run works acts g h e w
terminal-Restores run works (child_continued ∷ acts) g h e w =
    terminal-Restores run works acts g h e w
terminal-Restores run works (child_killed ∷ acts) g h e w = terminal-Restores run works acts g h e w
terminal-Restores run works (group_killed ∷ acts) g h e w = terminal-Restores run works acts g h e w
terminal-Restores run works (group_reaped ∷ acts) g h e w = terminal-Restores run works acts g h e w
terminal-Restores run works (released ∷ acts) g h e w = terminal-Restores run works acts g h e w

-- the acts of a return give the terminal back
abbrev Back : Run → Option Outcome → Type 0
Back run = Returns (λ o. Restores run o.1)

module _ (run : Run) (managed : run.manage_foreground ≡ true) where
  returned-Back :
      (finished : Bool) (result : Result RunError ℕ) → Back run (returned run finished result)
  unfolding returned cleanup
  returned-Back true result = rw managed (inr (refl, refl, refl))
  returned-Back false result = rw managed (inr (refl, refl, refl))

  after_kill-Back : (o : Option Outcome) → Back run o → Back run (after (group_killed ∷ []) o)
  after_kill-Back none h = tt
  after_kill-Back (some o) h = h

  after_reap-Back : (o : Option Outcome) → Back run o → Back run (after (group_reaped ∷ []) o)
  after_reap-Back none h = tt
  after_reap-Back (some o) h = h

  hand_back-Back : (o : Option Outcome) → Back run o → Back run (after (hand_back run) o)
  unfolding hand_back
  hand_back-Back none h = tt
  hand_back-Back (some o) h = rw managed (inl (inl (refl, refl), h))

  stop-Back :
      (o : Option Outcome)
      → Back run o
      → Back run (after (hand_back run ++ (supervisor_stopped ∷ resume run)) o)
  unfolding hand_back resume
  stop-Back none h = tt
  stop-Back (some o) h = rw managed (inl (inl (refl, refl), inl (inr (refl, refl), h)))

  reaped-Back : (code : ℕ) → Back run (reaped run code)
  unfolding reaped
  reaped-Back code = elim (Option-cases (reap run.group_waits)) [
    | inl e ↦ rw (e, reaped) tt
    | inr (ok t, e) ↦
        rw (e, reaped)
          (after_reap-Back (returned run true (ok code)) (returned-Back true (ok code)))
    | inr (err fault, e) ↦ rw (e, reaped) (returned-Back true (err fault))
  ]

  ended-Back : (code : ℕ) → Back run (ended run code)
  unfolding ended
  ended-Back code = elim (Bool-cases run.reap_process_group) [
    | inr e ↦ rw (e, ended) (returned-Back true (ok code))
    | inl e ↦ elim (Bool-cases run.kills_group) [
      | inr k ↦ rw (e, ended) (rw k (returned-Back true (err group_kill_failed)))
      | inl k ↦ rw (e, ended) (rw k (after_kill-Back (reaped run code) (reaped-Back code)))
    ]
  ]

  wait_loop-Back : (answers : List Answer) → Back run (wait_loop run answers)
  unfolding wait_loop
  wait_loop-Back [] = tt
  wait_loop-Back (interrupted ∷ rest) = wait_loop-Back rest
  wait_loop-Back (failed ∷ rest) = returned-Back false (err wait_failed)
  wait_loop-Back (changed (exited n) ∷ rest) = ended-Back n
  wait_loop-Back (changed (signaled n) ∷ rest) = ended-Back (128 + n)
  wait_loop-Back (changed continued ∷ rest) = wait_loop-Back rest
  wait_loop-Back (changed stopped ∷ rest) =
      let on = stop-Back (wait_loop run rest) (wait_loop-Back rest) in
      let off =
        hand_back-Back (returned run false (err stop_failed))
          (returned-Back false (err stop_failed)) in
      elim (Bool-cases run.stops) [ inl e ↦ rw (e, wait_loop) on | inr e ↦ rw (e, wait_loop) off ]

  -- When a run that manages the foreground returns, on whatever path, the terminal is with the group
  -- that had it first, if it was with that or the child's group before, nothing else moves it, and the
  -- last transfer works, the one that only the release follows; the earlier ones may each have failed.
  pub wait_loop-terminal :
      (answers : List Answer) (result : Result RunError ℕ) (acts : List Act) (works : ℕ → Bool)
      (first : ℕ)
      → (first ≡ run.pid) ⊎ (first ≡ run.original)
      → works 1 ≡ true
      → wait_loop run answers ≡ some (result, acts)
      → terminal works acts first ≡ run.original
  wait_loop-terminal answers result acts works first either last h =
      terminal-Restores run works acts first (rw h at (wait_loop-Back answers)) either last
