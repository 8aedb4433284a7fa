-- ===== src/Restricted/Executed.antt =====
-- The restricted child is the command that was asked for, behind its filters.
use airjail.Base.{
  ℕ, Bool, true, false, not, Option, none, some, List, [], ◌∷◌, ◌++◌, ◌≡◌, ◌≢◌, ◌⊎◌, ◌↔◌, inl, inr,
  refl, sym, subst, arith, if◌then◌else◌, Result, ok, err, Bool-cases, Option-cases, drop, ◌==◌,
  list_eq, nat_eq,
}
use airjail.Base.Bytes.{Bytes, codes}
use airjail.CommandLine.Pflag.{Parser}
use airjail.CommandLine.Supervise.{restricted_exec_command, Variables, Process, Entry, run}
use airjail.CommandLine.Supervise
use airjail.Restricted.{
  no_new_privs_set, guard_loaded, filter_loaded, executed, Host, restrict_and_exec, exec_command,
  exec_restricted, child_command,
}

run-restricted :
    (parse : Parser Variables) (process : Process) (args : List Bytes)
    → run parse process (restricted_exec_command ∷ args) ≡ ok (Supervise.exec_restricted args)
unfolding run airjail.Base.list_beq
run-restricted parse process args = refl

exec_restricted-dashes :
    (host : Host) (command : List Bytes)
    → exec_restricted host (codes "--" ∷ command) ≡ exec_command host command
unfolding exec_restricted airjail.Base.list_beq
exec_restricted-dashes host command = refl

exec_command-executed :
    (host : Host) (path name : Bytes) (arguments : List Bytes)
    → host.look_path name ≡ some path
    → (exec_command host (name ∷ arguments)).1 ≡ none
    → (exec_command host (name ∷ arguments)).0
      ≡ no_new_privs_set ∷ guard_loaded ∷ filter_loaded ∷ executed path (name ∷ arguments) ∷ []
unfolding exec_command restrict_and_exec
exec_command-executed host path name arguments found h = ground (arith, found)

-- A child whose local sockets are restricted is started as airjail itself, which is then run for the
-- child's own arguments; whatever these are, also where they start with dashes, if that does not fail,
-- it has set no_new_privs, loaded the guard and loaded the filter before it became the command.
pub child_command-executed :
    (parse : Parser Variables) (process : Process) (host : Host) (airjail name path : Bytes)
    (arguments started : List Bytes)
    → child_command true (some airjail) (name ∷ arguments) ≡ some started
    → host.look_path name ≡ some path
    → (given : List Bytes) × (run parse process (drop 1 started)
        ≡ ok (Supervise.exec_restricted given))
      × ((exec_restricted host given).1 ≡ none
          → (exec_restricted host given).0
            ≡ no_new_privs_set
              ∷ guard_loaded
              ∷ filter_loaded
              ∷ executed path (name ∷ arguments)
              ∷ [])
unfolding child_command
child_command-executed parse process host airjail name path arguments started h found =
    let command = name ∷ arguments in
    let given = codes "--" ∷ command in
    let same : airjail ∷ restricted_exec_command ∷ given ≡ started = cc in
    (
      given,
      subst (λ s. run parse process (drop 1 s) ≡ ok (Supervise.exec_restricted given)) same
          (run-restricted parse process given),
      (λ works. rw (exec_restricted-dashes host command) (
          exec_command-executed host path name arguments found
            (rw⁻¹ (exec_restricted-dashes host command) works))),
    )
