-- ===== src/Application/Proxies/Selected.antt =====
-- Which result runWithProxies returns, and that it returns one.
use airjail.Base.{
  ℕ, zero, suc, ◌-◌, ◌≤◌, true, Option, none, some, List, [], ◌∷◌, ◌≡◌, ◌≢◌, ◌∙◌, ◌↔◌, inl, inr,
  refl, arith, Result, ok, err, Some, ap,
}
use airjail.Application.Runtime.{RuntimeDir}
use airjail.Application.Proxies.{
  Resource, session, http_listener, socks_listener, started, canceled, RunError, Event,
  command_ended, server_ended, Calls, ServerError, command_failed, server_failed, Outcome, first,
  holding, await_servers, await_command, server_error, select_result, returned, serve_and_run,
  run_with_proxies, command_outcome,
}

abbrev pub result_of : Option Outcome → Option (Result RunError ℕ)
result_of none = none
result_of (some outcome) = some outcome.1

abbrev pub IsCommand : Event → Type 0
IsCommand (command_ended result) = Unit
IsCommand (server_ended e) = ⊥

-- Every call works.
abbrev pub Works : Calls → Type 0
Works calls =
    (calls.http_listens ≡ true)
    × (calls.socks_listens ≡ true)
    × (calls.routes ≡ true)
    × (calls.socks_server ≡ true)

result_of-holding :
    (resource : Resource) (rest : Option Outcome)
    → result_of (holding resource rest) ≡ result_of rest
result_of-holding resource none = refl
result_of-holding resource (some outcome) = refl

result_of-first :
    (result : Option (Result RunError ℕ))
    → result_of (first started (first canceled (returned result))) ≡ result
result_of-first none = refl
result_of-first (some result) = refl

-- the result where all calls work
result_of-run_with_proxies :
    (dir : RuntimeDir) (calls : Calls) (events : List Event)
    → Works calls
    → result_of (run_with_proxies (ok dir) calls events) ≡ select_result events
unfolding run_with_proxies serve_and_run
result_of-run_with_proxies dir calls events (h, s, r, o) =
    let run = first started (first canceled (returned (select_result events))) in
    rw (h, s, r, o)
      (rw (
        result_of-holding (session dir.directory)
            (holding http_listener (holding socks_listener run)),
        result_of-holding http_listener (holding socks_listener run),
        result_of-holding socks_listener run,
        result_of-first (select_result events),
      ))

-- how many times a server ends
abbrev pub servers_ended : List Event → ℕ
servers_ended [] = 0
servers_ended (server_ended e ∷ rest) = suc (servers_ended rest)
servers_ended (command_ended r ∷ rest) = servers_ended rest

await_servers-some :
    (left : ℕ) (result : Result RunError ℕ) (events : List Event)
    → left ≤ servers_ended events
    → await_servers left result events ≡ some result
unfolding await_servers
await_servers-some zero result events h = refl
await_servers-some (suc left) result [] h = absurd (omega arith)
await_servers-some (suc left) result (server_ended e ∷ rest) h =
    await_servers-some left result rest (omega arith)
await_servers-some (suc left) result (command_ended r ∷ rest) h =
    await_servers-some (suc left) result rest h

await_servers-waited :
    (left : ℕ) (result r : Result RunError ℕ) (events : List Event)
    → await_servers left result events ≡ some r
    → (result ≡ r) × (left ≤ servers_ended events)
unfolding await_servers
await_servers-waited zero result r events h = (cc, omega arith)
await_servers-waited (suc left) result r [] h = absurd (cc)
await_servers-waited (suc left) result r (server_ended e ∷ rest) h =
    let (same, enough) = await_servers-waited left result r rest h in (same, omega (arith, enough))
await_servers-waited (suc left) result r (command_ended x ∷ rest) h =
    await_servers-waited (suc left) result r rest h

await_command-err :
    (error : ServerError) (left : ℕ) (events : List Event) (code : ℕ)
    → await_command error left events ≢ some (ok code)
unfolding await_command
await_command-err error left [] code h = absurd (cc)
await_command-err error left (server_ended e ∷ rest) code h =
    await_command-err error (left - 1) rest code h
await_command-err error left (command_ended (ok c) ∷ rest) code h =
    let (same, _) = await_servers-waited left (err (server_failed error)) (ok code) rest h in
    absurd (cc)
await_command-err error left (command_ended (err e) ∷ rest) code h =
    let (same, _) = await_servers-waited left (err (command_failed e)) (ok code) rest h in
    absurd (cc)

await_command-ends :
    (error : ServerError) (left : ℕ) (events : List Event)
    → Some IsCommand events
    → left ≤ servers_ended events
    → (result : Result RunError ℕ) × (await_command error left events ≡ some result)
unfolding await_command
await_command-ends error left (server_ended e ∷ rest) (inr later) h =
    await_command-ends error (left - 1) rest later (omega arith)
await_command-ends error left (command_ended (ok c) ∷ rest) _ h =
    (_, await_servers-some left (err (server_failed error)) rest h)
await_command-ends error left (command_ended (err e) ∷ rest) _ h =
    (_, await_servers-some left (err (command_failed e)) rest h)
await_command-ends error left (server_ended e ∷ rest) (inl none_here) h = absurd none_here
await_command-ends error left [] none_here h = absurd none_here

select_result-ends :
    (events : List Event)
    → Some IsCommand events
    → 2 ≤ servers_ended events
    → (r : Result RunError ℕ) × (select_result events ≡ some r)
unfolding select_result
select_result-ends (command_ended result ∷ rest) _ h =
    (_, await_servers-some 2 (command_outcome result) rest h)
select_result-ends (server_ended e ∷ rest) (inr later) h =
    await_command-ends (server_error e) 1 rest later (omega arith)
select_result-ends (server_ended e ∷ rest) (inl none_here) h = absurd none_here
select_result-ends [] none_here h = absurd none_here

-- The command ends first, with the code and no error, and then both servers do.
abbrev pub EndsFirst : List Event → ℕ → Type 0
EndsFirst events code =
    (rest : List Event) × (events ≡ command_ended (ok code) ∷ rest) × (2 ≤ servers_ended rest)

select_result-code :
    (result : Result _ ℕ) (rest : List Event) (code : ℕ)
    → select_result (command_ended result ∷ rest) ≡ some (ok code)
    → EndsFirst (command_ended result ∷ rest) code
unfolding select_result command_outcome
select_result-code (ok c) rest code h =
    let (same, enough) = await_servers-waited 2 (ok c) (ok code) rest h in
    let codes : c ≡ code = cc in (rest, rw codes, enough)
select_result-code (err e) rest code h =
    let (same, _) = await_servers-waited 2 (err (command_failed e)) (ok code) rest h in absurd (cc)

select_result_sound :
    (events : List Event) (code : ℕ) → select_result events ≡ some (ok code) → EndsFirst events code
unfolding select_result
select_result_sound [] code h = absurd (cc)
select_result_sound (command_ended result ∷ rest) code h = select_result-code result rest code h
select_result_sound (server_ended e ∷ rest) code h =
    absurd (await_command-err (server_error e) 1 rest code h)

select_result_complete :
    (rest : List Event) (code : ℕ)
    → 2 ≤ servers_ended rest
    → select_result (command_ended (ok code) ∷ rest) ≡ some (ok code)
unfolding select_result command_outcome
select_result_complete rest code h = await_servers-some 2 (ok code) rest h

-- Where the directory is made and all calls work, the exit code is returned exactly if the command
-- ends with it, without an error, before any server ends, and both servers end then; and some result
-- is returned once the command and both servers have ended, in any order.
pub run_with_proxies-code_iff :
    (dir : RuntimeDir) (calls : Calls) (events : List Event)
    → Works calls
    → ((code : ℕ)
        → (result_of (run_with_proxies (ok dir) calls events) ≡ some (ok code))
          ↔ EndsFirst events code)
      × (Some IsCommand events
          → 2 ≤ servers_ended events
          → (r : Result RunError ℕ) × (result_of (run_with_proxies (ok dir) calls events) ≡ some r))
run_with_proxies-code_iff dir calls events works = (
  (λ code. rw (result_of-run_with_proxies dir calls events works) (
    (select_result_sound events code),
    (λ (rest, first_end, enough).
        ap select_result first_end ∙ select_result_complete rest code enough),
  )),
  (λ ended enough.
      rw (result_of-run_with_proxies dir calls events works)
        (select_result-ends events ended enough)),
)
