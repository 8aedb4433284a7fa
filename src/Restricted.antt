-- ===== src/Restricted.antt =====
-- internal/namespace/seccomp_linux.go: the command that installs the filter of local sockets and
-- becomes the child. exec.LookPath, the system calls and the meaning of a filter are parameters.
pub mod Executed
pub mod Filter
use airjail.Base.{
  ℕ, Bool, true, false, not, ◌&&◌, ◌||◌, Option, none, some, List, [], ◌∷◌, ◌++◌, if◌then◌else◌,
  Result, ok, err, ◌==◌, list_eq, nat_eq,
}
use airjail.Base.Bytes.{Bytes, codes}
use airjail.CommandLine.Supervise.{restricted_exec_command}

pub data Act : Type 0 where
  no_new_privs_set guard_loaded filter_loaded : Act
  executed : (path : Bytes) → (command : List Bytes) → Act

pub record Host : Type 0 where
  pub look_path : Bytes → Option Bytes
  pub sets_no_new_privs : Bool
  pub loads_guard : Bool
  pub loads_filter : Bool
  pub executes : Bytes → Bool

pub data ExecError : Type 0 where
  no_command no_new_privs_failed guard_failed filter_failed : ExecError
  not_found not_executed : Bytes → ExecError

unfoldable pub without_dashes : List Bytes → List Bytes
without_dashes [] = []
without_dashes (name ∷ rest) = if name == codes "--" then rest else name ∷ rest

-- ExecRestricted, from the system calls on; `none` is a call that does not return
unfoldable pub restrict_and_exec : Host → Bytes → List Bytes → List Act × Option ExecError
restrict_and_exec host path command =
    if not host.sets_no_new_privs
    then ([], some no_new_privs_failed)
    else if not host.loads_guard
    then (no_new_privs_set ∷ [], some guard_failed)
    else if not host.loads_filter
    then (no_new_privs_set ∷ guard_loaded ∷ [], some filter_failed)
    else if not (host.executes path)
    then (no_new_privs_set ∷ guard_loaded ∷ filter_loaded ∷ [], some (not_executed path))
    else (no_new_privs_set ∷ guard_loaded ∷ filter_loaded ∷ executed path command ∷ [], none)

unfoldable pub exec_command : Host → List Bytes → List Act × Option ExecError
unfolding restrict_and_exec
exec_command host [] = ([], some no_command)
exec_command host (name ∷ arguments) = elim (host.look_path name) [
  | none ↦ ([], some (not_found name))
  | some path ↦ restrict_and_exec host path (name ∷ arguments)
]

-- ExecRestricted
unfoldable pub exec_restricted : Host → List Bytes → List Act × Option ExecError
unfolding without_dashes exec_command
exec_restricted host command = exec_command host (without_dashes command)

-- the child's command in RunSupervisor; `none` is an executable that cannot be located
unfoldable pub child_command : Bool → Option Bytes → List Bytes → Option (List Bytes)
child_command restrict_unix_sockets executable command =
    if not restrict_unix_sockets then some command else elim executable [
      | none ↦ none
      | some path ↦ some (path ∷ restricted_exec_command ∷ codes "--" ∷ command)
    ]
