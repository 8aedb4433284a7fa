-- ===== src/Http/Sets.antt =====
-- internal/proxyhttp/server.go, connectionSet and activitySet: what Serve waits for. A connection is a
-- number; the mutex makes each method one step.
pub mod Spec
pub mod Refines
use airjail.Base.{
  ℕ, ◌+◌, ◌-◌, Bool, true, false, not, List, [], ◌∷◌, ◌++◌, if◌then◌else◌, ◌==◌, nat_eq,
}
use airjail.Base.Sets.{insert_all, delete_all}

-- `closed` are the connections that closeAll has closed.
pub record ConnectionSet : Type 0 where
  pub connections : List ℕ
  pub active : ℕ
  pub closing : Bool
  pub closed : List ℕ

abbrev pub new_connection_set : ConnectionSet
new_connection_set = record { connections = []; active = 0; closing = false; closed = [] }

unfoldable pub add_connections : ConnectionSet → List ℕ → ConnectionSet × Bool
add_connections s connections = if s.closing then (s, false) else (
  record s { active = s.active + 1; connections = insert_all s.connections connections },
  true,
)

unfoldable pub remove_connections : ConnectionSet → List ℕ → ConnectionSet
remove_connections s connections = record s {
  connections = delete_all s.connections connections;
  active = s.active - 1;
}

unfoldable pub close_connections : ConnectionSet → ConnectionSet
close_connections s = record s { closing = true; closed = s.closed ++ s.connections }

-- whether wait returns
abbrev pub is_idle : ConnectionSet → Bool
is_idle s = s.active == 0

pub record ActivitySet : Type 0 where
  pub active : ℕ
  pub closing : Bool

abbrev pub new_activity_set : ActivitySet
new_activity_set = record { active = 0; closing = false }

unfoldable pub add_activity : ActivitySet → ActivitySet × Bool
add_activity s = if s.closing then (s, false) else (record s { active = s.active + 1 }, true)

unfoldable pub activity_done : ActivitySet → ActivitySet
activity_done s = record s { active = s.active - 1 }

unfoldable pub close_activity : ActivitySet → ActivitySet
close_activity s = record s { closing = true }

-- The calls that the handlers and Serve make, in the order in which they get the mutex.
pub data Call : Type 0 where
  adds removes : List ℕ → Call
  closes : Call

-- one call, with what add answers
unfoldable pub perform : ConnectionSet → Call → ConnectionSet × List Bool
unfolding add_connections remove_connections close_connections
perform s (adds connections) = let (s', added) = add_connections s connections in (s', added ∷ [])
perform s (removes connections) = (remove_connections s connections, [])
perform s closes = (close_connections s, [])

unfoldable pub run : ConnectionSet → List Call → ConnectionSet × List Bool
unfolding perform
run s [] = (s, [])
run s (call ∷ calls) =
    let (s', answers) = perform s call in
    let (last, later) = run s' calls in (last, answers ++ later)
