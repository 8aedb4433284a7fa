-- ===== src/Supervision/Start.antt =====
-- internal/namespace/run_linux.go, runSandboxedProcess as a whole: the command is found and started,
-- and then waited for; and namespaceProcessAttributes of internal/namespace/namespace_linux.go.
use airjail.Base.{
  ℕ, Bool, true, not, ◌&&◌, Option, none, some, List, [], ◌∷◌, ◌≡◌, ◌≢◌, if◌then◌else◌, Result, ok,
  err, arith, ==_iff, nat_eq, Option-cases, inl, inr,
}
use airjail.Base.Bytes.{Bytes}
use airjail.Capabilities.{Mode, preserves}
use airjail.Supervision.Wait.{Run, Reaped, Answer, Outcome, should_manage_foreground, wait_loop}
use airjail.Supervision.Signals.{sigkill, death_signal}

-- `sys` is the death signal of attributes that may be nil
pub record RunOptions : Type 0 where
  pub sys : Option ℕ
  pub join_parent_process_group : Bool
  pub manage_foreground : Bool
  pub reap_process_group : Bool

-- What the system answers: the terminal with its foreground group, the current group, the pid of a
-- command that starts, and what wait4 and kill do afterwards.
pub record System : Type 0 where
  pub look_path : Bytes → Option Bytes
  pub terminal : Bool
  pub foreground : ℕ
  pub current : ℕ
  pub start : Bytes → Option ℕ
  pub stops : Bool
  pub kills_group : Bool
  pub group_waits : List Reaped
  pub answers : List Answer

pub data StartError : Type 0 where
  command_empty : StartError
  not_found not_started : Bytes → StartError

-- the attributes that the child is started with
pub record Attributes : Type 0 where
  pub parent_death_signal : ℕ
  pub set_process_group : Bool
  pub takes_foreground : Bool

unfoldable pub manages : RunOptions → System → Bool
unfolding should_manage_foreground
manages options system =
    options.manage_foreground
    && should_manage_foreground system.terminal options.join_parent_process_group system.foreground
        system.current

unfoldable pub attributes : RunOptions → System → Attributes
unfolding manages death_signal
attributes options system = record {
  parent_death_signal = death_signal options.sys;
  set_process_group = not options.join_parent_process_group;
  takes_foreground = manages options system;
}

-- the values that the loop over wait4 reads
unfoldable pub run_for : RunOptions → System → ℕ → Run
unfolding manages
run_for options system pid = record {
  pid = pid;
  original = system.foreground;
  manage_foreground = manages options system;
  reap_process_group = options.reap_process_group;
  stops = system.stops;
  kills_group = system.kills_group;
  group_waits = system.group_waits;
}

-- runSandboxedProcess
unfoldable pub run_sandboxed_process :
    RunOptions → System → List Bytes → Result StartError (Option Outcome)
unfolding run_for wait_loop
run_sandboxed_process options system [] = err command_empty
run_sandboxed_process options system (name ∷ arguments) = elim (system.look_path name) [
  | none ↦ err (not_found name)
  | some path ↦ elim (system.start path) [
    | none ↦ err (not_started name)
    | some pid ↦ ok (wait_loop (run_for options system pid) system.answers)
  ]
]

-- one entry of a user or group mapping
pub record Mapping : Type 0 where
  pub container : ℕ
  pub host : ℕ
  pub size : ℕ

-- What the supervisor is started with: which namespaces are new, the mappings and the ambient
-- capabilities.
pub record NamespaceAttributes : Type 0 where
  pub new_user : Bool
  pub new_network : Bool
  pub users : List Mapping
  pub groups : List Mapping
  pub ambient : List ℕ
  pub parent_death_signal : ℕ

-- namespaceProcessAttributes, for the ids of the caller and the numbers of CAP_NET_ADMIN and CAP_SETPCAP
unfoldable pub namespace_process_attributes :
    (uid gid net_admin setpcap : ℕ) → Mode → NamespaceAttributes
namespace_process_attributes uid gid net_admin setpcap mode =
    let user = not (preserves mode) in
    record {
      new_user = user;
      new_network = true;
      users = if user then record { container = uid; host = uid; size = 1 } ∷ [] else [];
      groups = if user then record { container = gid; host = gid; size = 1 } ∷ [] else [];
      ambient = if user then net_admin ∷ setpcap ∷ [] else [];
      parent_death_signal = sigkill;
    }

-- Whatever attributes are asked for, the child is killed or signaled when airjail ends, and it takes the
-- terminal's foreground only in a process group of its own.
pub attributes_lem :
    (options : RunOptions) (system : System)
    → ((attributes options system).parent_death_signal ≢ 0)
      × ((attributes options system).takes_foreground ≡ true
          → (attributes options system).set_process_group ≡ true)
unfolding attributes death_signal manages should_manage_foreground
attributes_lem options system = (
  (λ h. elim (Option-cases options.sys) [
    | inl e ↦ ground (arith, e)
    | inr (signal, e) ↦ ground (arith, e, ==_iff signal 0)
  ]),
  (λ h. ground arith),
)
