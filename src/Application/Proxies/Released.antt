-- ===== src/Application/Proxies/Released.antt =====
-- What runWithProxies opens, it closes.
use airjail.Base.{Option, none, some, List, [], ◌∷◌, ◌++◌}
use airjail.Application.Proxies.{Resource, Act, acquired, released, started, canceled, Outcome}

-- Each resource is released behind all that is done between, with the other resources nested.
pub data Nested : List Act → Type 0 where
  quiet : Nested []
  start : {acts : List Act} → Nested acts → Nested (started ∷ acts)
  cancel : {acts : List Act} → Nested acts → Nested (canceled ∷ acts)
  hold :
      {acts : List Act} (resource : Resource)
      → Nested acts
      → Nested (acquired resource ∷ (acts ++ (released resource ∷ [])))

-- the acts of an outcome, if there is one
abbrev pub InOrder : Option Outcome → Type 0
InOrder none = Unit
InOrder (some outcome) = Nested outcome.0
