-- ===== src/Http/Shutdown.antt =====
-- internal/proxyhttp/server.go, Serve: the end of the proxy, by which of its two channels is first.
use airjail.Base.{
  Bool, true, false, not, ◌&&◌, Option, none, some, List, [], ◌∷◌, ◌++◌, ◌≡◌, ◌⊎◌, refl,
  if◌then◌else◌, inl, inr,
}

-- The error of http.Server's Serve or Close, by what errors.Is finds in it.
pub data Failure : Type 0 where
  server_closed net_closed other_failure : Failure

-- what the calls of the shutdown do
pub data Act : Type 0 where
  handlers_closed tunnels_closed server_shut handlers_waited tunnels_waited : Act

pub data ServeError : Type 0 where
  serve_failed close_failed shutdown_failed : ServeError

-- The server ends by itself, with an error or none; or the context is canceled, Close gives an error
-- or none, and then the server ends.
pub data Ending : Type 0 where
  by_itself : Option Failure → Ending
  on_cancel : Option Failure → Option Failure → Ending

abbrev pub is_server_closed : Option Failure → Bool
is_server_closed (some server_closed) = true
is_server_closed failure = false

abbrev pub is_net_closed : Option Failure → Bool
is_net_closed (some net_closed) = true
is_net_closed failure = false

abbrev pub is_failure : Option Failure → Bool
is_failure none = false
is_failure (some failure) = true

-- Serve: what it does, and its error
unfoldable pub serve : Ending → List Act × Option ServeError
serve (by_itself result) = (
  handlers_closed ∷ tunnels_closed ∷ handlers_waited ∷ tunnels_waited ∷ [],
  (if is_server_closed result then none else some serve_failed),
)
serve (on_cancel closing result) =
    if is_failure closing && not (is_net_closed closing)
    then (handlers_closed ∷ tunnels_closed ∷ server_shut ∷ [], some close_failed)
    else (
      handlers_closed ∷ tunnels_closed ∷ server_shut ∷ handlers_waited ∷ tunnels_waited ∷ [],
      (if is_failure result && (not (is_server_closed result) && not (is_net_closed result))
          then some shutdown_failed
          else none),
    )

-- Serve first shuts the sets, so that they take nothing more, and it has waited for both whenever it
-- returns, but where the server cannot be closed.
pub serve_lem :
    (ending : Ending)
    → (later : List Act) × ((serve ending).0 ≡ handlers_closed ∷ tunnels_closed ∷ later)
      × (((serve ending).1 ≡ some close_failed)
          ⊎ ((before : List Act) × (later ≡ before ++ (handlers_waited ∷ tunnels_waited ∷ []))))
unfolding serve
serve_lem (by_itself result) = (_, refl, inr ([], refl))
serve_lem (on_cancel none result) = (_, refl, inr (server_shut ∷ [], refl))
serve_lem (on_cancel (some server_closed) result) = (_, refl, inl refl)
serve_lem (on_cancel (some net_closed) result) = (_, refl, inr (server_shut ∷ [], refl))
serve_lem (on_cancel (some other_failure) result) = (_, refl, inl refl)
