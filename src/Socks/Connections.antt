-- ===== src/Socks/Connections.antt =====
-- The connections that the server keeps: add, remove and closeAll under the mutex, and what holds
-- after any sequence of them.
use airjail.Base.{
  ℕ, ◌+◌, ◌-◌, ◌≤◌, Bool, true, false, List, [], ◌∷◌, ◌++◌, ◌≡◌, refl, sym, subst, arith,
  if◌then◌else◌, length, nat_eq, contains, contains-append, Distinct, Distinct-append,
  length-append, Bool-cases, inl, inr,
}
use airjail.Base.Sets.{delete, length-delete, contains-delete, Distinct-delete}

-- Connections are numbered. `closed` are those that closeAll has closed.
pub record Server : Type 0 where
  pub connections : List ℕ
  pub active : ℕ
  pub closing : Bool
  pub closed : List ℕ

abbrev pub new_server : Server
new_server = record { connections = []; active = 0; closing = false; closed = [] }

unfoldable pub add : Server → ℕ → Server × Bool
add s connection =
    if s.closing
    then (s, false)
    else (record s { connections = s.connections ++ connection ∷ []; active = s.active + 1 }, true)

unfoldable pub remove : Server → ℕ → Server
remove s connection = record s {
  connections = delete s.connections connection;
  active = s.active - 1;
}

unfoldable pub close_all : Server → Server
close_all s = record s { closing = true; closed = s.closed ++ s.connections }

pub data Call : Type 0 where
  adds removes : ℕ → Call
  closes_all : Call

unfoldable pub perform : Server → Call → Server
unfolding add remove close_all
perform s (adds c) = (add s c).0
perform s (removes c) = remove s c
perform s closes_all = close_all s

unfoldable pub run : Server → List Call → Server
unfolding perform
run s [] = s
run s (call ∷ calls) = run (perform s call) calls

-- When Serve makes the call: a connection is new when it is added, and it is removed by the goroutine
-- that was started for it.
abbrev pub Due : Server → Call → Type 0
Due s (adds c) = contains s.connections c ≡ false
Due s (removes c) = contains s.connections c ≡ true
Due s closes_all = Unit

abbrev pub AllDue : Server → List Call → Type 0
AllDue s [] = Unit
AllDue s (call ∷ calls) = Due s call × AllDue (perform s call) calls

-- The count is that of the connections, which are different, and all closed once the server closes.
pub record IsCounted (s : Server) : Type 0 where
  pub distinct : Distinct s.connections
  pub counted : s.active ≡ length s.connections
  pub closed :
      s.closing ≡ true → (c : ℕ) → contains s.connections c ≡ true → contains s.closed c ≡ true

add-closing : (s : Server) (c : ℕ) → s.closing ≡ true → (add s c).0 ≡ s
unfolding add
add-closing s c e = ground (arith, e)

-- the server that has taken a connection
abbrev grown : Server → ℕ → Server
grown s c = record s { connections = s.connections ++ c ∷ []; active = s.active + 1 }

add-open : (s : Server) (c : ℕ) → s.closing ≡ false → (add s c).0 ≡ grown s c
unfolding add
add-open s c e = ground (arith, e)

grown-IsCounted :
    (s : Server) (c : ℕ)
    → s.closing ≡ false
    → contains s.connections c ≡ false
    → IsCounted s
    → IsCounted (grown s c)
grown-IsCounted s c working new inv = record {
  distinct = Distinct-append s.connections c inv.distinct new;
  counted = ground (arith, inv.counted, length-append s.connections (c ∷ []));
  closed = λ e d h. absurd (ground (arith, working));
}

pub perform-IsCounted :
    (s : Server) (call : Call) → Due s call → IsCounted s → IsCounted (perform s call)
unfolding perform remove close_all contains
perform-IsCounted s (adds c) due inv = elim (Bool-cases s.closing) [
  | inl e ↦ subst IsCounted (sym (add-closing s c e)) inv
  | inr e ↦ subst IsCounted (sym (add-open s c e)) (grown-IsCounted s c e due inv)
]
perform-IsCounted s (removes c) due inv = record {
  distinct = Distinct-delete s.connections c inv.distinct;
  counted = ground (arith, inv.counted, length-delete s.connections c due);
  closed = λ e d h. inv.closed e d (contains-delete s.connections c d h);
}
perform-IsCounted s closes_all due inv = record {
  distinct = inv.distinct;
  counted = inv.counted;
  closed = λ e d h. ground (arith, contains-append s.closed s.connections d);
}

run-IsCounted_from :
    (s : Server) (calls : List Call) → AllDue s calls → IsCounted s → IsCounted (run s calls)
unfolding run
run-IsCounted_from s [] due inv = inv
run-IsCounted_from s (call ∷ calls) due inv =
    run-IsCounted_from (perform s call) calls due.1 (perform-IsCounted s call due.0 inv)

-- After any calls that are due, `active` is the number of the connections, which are different, and
-- if the server is closing, closeAll has closed each of those that are left.
pub run-IsCounted : (calls : List Call) → AllDue new_server calls → IsCounted (run new_server calls)
run-IsCounted calls due =
    run-IsCounted_from new_server calls due
      (record { distinct = tt; counted = refl; closed = λ e c h. absurd (cc) })

perform-refuses :
    (s : Server) (call : Call)
    → s.closing ≡ true
    → ((perform s call).closing ≡ true) × ((perform s call).active ≤ s.active)
unfolding perform add remove close_all
perform-refuses s (adds c) e = ground (arith, e)
perform-refuses s (removes c) e = (e, omega arith)
perform-refuses s closes_all e = (refl, omega arith)

run-refuses :
    (s : Server) (calls : List Call)
    → s.closing ≡ true
    → ((run s calls).closing ≡ true) × ((run s calls).active ≤ s.active)
unfolding run
run-refuses s [] e = (e, omega arith)
run-refuses s (call ∷ calls) e =
    let (closing, fewer) = perform-refuses s call e in
    ground (arith, run-refuses (perform s call) calls closing, fewer)

-- Once closeAll has run, the server stays closing and the number that wait waits for never grows.
pub run-close_all :
    (s : Server) (calls : List Call)
    → ((run (close_all s) calls).closing ≡ true) × ((run (close_all s) calls).active ≤ s.active)
unfolding run close_all
run-close_all s calls = run-refuses (close_all s) calls refl
