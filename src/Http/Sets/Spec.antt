-- ===== src/Http/Sets/Spec.antt =====
-- What a connection set promises: it keeps the tunnels that are open, each with its connections,
-- until it is shut.
use airjail.Base.{
  ℕ, Bool, true, false, List, [], ◌∷◌, ◌++◌, if◌then◌else◌, nat_eq, list_eq, contains, Distinct,
  ◌≡◌,
}
use airjail.Base.Sets.{delete, Apart}
use airjail.Http.Sets.{Call, adds, removes, closes}

pub record Tunnels : Type 0 where
  pub live : List (List ℕ)
  pub shut : Bool

abbrev pub no_tunnels : Tunnels
no_tunnels = record { live = []; shut = false }

unfoldable pub perform_spec : Tunnels → Call → Tunnels × List Bool
perform_spec t (adds tunnel) =
    if t.shut then (t, false ∷ []) else (record t { live = t.live ++ tunnel ∷ [] }, true ∷ [])
perform_spec t (removes tunnel) = (record t { live = delete t.live tunnel }, [])
perform_spec t closes = (record t { shut = true }, [])

unfoldable pub run_spec : Tunnels → List Call → Tunnels × List Bool
unfolding perform_spec
run_spec t [] = (t, [])
run_spec t (call ∷ calls) =
    let (t', answers) = perform_spec t call in
    let (last, later) = run_spec t' calls in (last, answers ++ later)

-- the connections of all tunnels
abbrev pub concat : List (List ℕ) → List ℕ
concat [] = []
concat (tunnel ∷ tunnels) = tunnel ++ concat tunnels

-- When the handlers make a call: the connections of a new tunnel are new and different, and a tunnel is
-- removed once, by the handler that added it.
abbrev pub Due : Tunnels → Call → Type 0
Due t (adds tunnel) = Apart (concat t.live) tunnel × Distinct tunnel
Due t (removes tunnel) = contains t.live tunnel ≡ true
Due t closes = Unit

abbrev pub AllDue : Tunnels → List Call → Type 0
AllDue t [] = Unit
AllDue t (call ∷ calls) = Due t call × AllDue (perform_spec t call).0 calls
