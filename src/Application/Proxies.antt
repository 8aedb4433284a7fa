-- ===== src/Application/Proxies.antt =====
-- internal/application/application.go, runWithProxies: what it opens, the results that it receives, in
-- their order, and what it closes.
pub mod Released
pub mod Selected
use airjail.Base.{
  ℕ, zero, suc, ◌-◌, Bool, true, false, not, Option, none, some, List, [], ◌∷◌, ◌++◌, if◌then◌else◌,
  Result, ok, err,
}
use airjail.Base.Bytes.{Bytes}
use airjail.Application.Runtime.{RuntimeDir, RuntimeError}
use airjail.Application.Runtime

pub data Resource : Type 0 where
  session : Bytes → Resource
  http_listener socks_listener : Resource

pub data Act : Type 0 where
  acquired released : Resource → Act
  started canceled : Act

pub data ServerError : Type 0 where
  serve_failed : Bytes → ServerError
  stopped_unexpectedly : ServerError

pub data RunError : Type 0 where
  no_runtime_dir : RuntimeError → RunError
  no_http_listener no_socks_listener no_router no_socks_server : RunError
  command_failed : Bytes → RunError
  server_failed : ServerError → RunError

-- What arrives on the channels: the result of namespace.Run, or a server's.
pub data Event : Type 0 where
  command_ended : Result Bytes ℕ → Event
  server_ended : Option ServerError → Event

-- whether the calls of Listen, NewEnvironmentRouter and proxysocks.New work
pub record Calls : Type 0 where
  pub http_listens : Bool
  pub socks_listens : Bool
  pub routes : Bool
  pub socks_server : Bool

abbrev pub Outcome : Type 0
Outcome = List Act × Result RunError ℕ

-- the deferred calls behind an outcome
abbrev pub then_release : Resource → Option Outcome → Option Outcome
then_release resource none = none
then_release resource (some outcome) = some (outcome.0 ++ released resource ∷ [], outcome.1)

abbrev pub first : Act → Option Outcome → Option Outcome
first act none = none
first act (some outcome) = some (act ∷ outcome.0, outcome.1)

-- `defer` behind what was acquired
abbrev pub holding : Resource → Option Outcome → Option Outcome
holding resource rest = first (acquired resource) (then_release resource rest)

unfoldable pub command_outcome : Result Bytes ℕ → Result RunError ℕ
command_outcome (ok code) = ok code
command_outcome (err e) = err (command_failed e)

-- waitGroup.Wait, for the servers that have not ended yet
unfoldable pub await_servers :
    (left : ℕ) → Result RunError ℕ → List Event → Option (Result RunError ℕ)
await_servers zero result events = some result
await_servers (suc left) result [] = none
await_servers (suc left) result (server_ended e ∷ rest) = await_servers left result rest
await_servers (suc left) result (command_ended r ∷ rest) = await_servers (suc left) result rest

-- The receive of the command's result behind a server's, and the wait; the other server's result
-- stays unread.
unfoldable pub await_command : ServerError → (left : ℕ) → List Event → Option (Result RunError ℕ)
unfolding await_servers
await_command error left [] = none
await_command error left (server_ended e ∷ rest) = await_command error (left - 1) rest
await_command error left (command_ended (err e) ∷ rest) =
    await_servers left (err (command_failed e)) rest
await_command error left (command_ended (ok code) ∷ rest) =
    await_servers left (err (server_failed error)) rest

unfoldable pub server_error : Option ServerError → ServerError
server_error none = stopped_unexpectedly
server_error (some e) = e

-- The select and what follows, with two servers: `none` still waits.
unfoldable pub select_result : List Event → Option (Result RunError ℕ)
unfolding command_outcome await_command await_servers server_error
select_result [] = none
select_result (command_ended result ∷ rest) = await_servers 2 (command_outcome result) rest
select_result (server_ended e ∷ rest) = await_command (server_error e) 1 rest

abbrev pub returned : Option (Result RunError ℕ) → Option Outcome
returned none = none
returned (some result) = some ([], result)

-- behind the two listeners
unfoldable pub serve_and_run : Calls → List Event → Option Outcome
unfolding select_result
serve_and_run calls events =
    if not calls.routes
    then some ([], err no_router)
    else if not calls.socks_server
    then some ([], err no_socks_server)
    else first started (first canceled (returned (select_result events)))

-- runWithProxies, for the result of createRuntimeDir
unfoldable pub run_with_proxies :
    Result RuntimeError RuntimeDir → Calls → List Event → Option Outcome
unfolding serve_and_run
run_with_proxies (err e) calls events = some ([], err (no_runtime_dir e))
run_with_proxies (ok dir) calls events = holding (session dir.directory) (
    if not calls.http_listens
    then some ([], err no_http_listener)
    else holding http_listener (
        if not calls.socks_listens
        then some ([], err no_socks_listener)
        else holding socks_listener (serve_and_run calls events)))
