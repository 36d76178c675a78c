-- ===== src/App/System.antt =====
-- The running program of umay/src/app/server.rs and umay/src/app/signal.rs: the signal task, one
-- service for each proxy and `run` itself, interleaved in any order. Each has its own receiver of the
-- shutdown channel.
pub mod Safety
pub mod Shutdown
mod Examples
use umay.Base.{
  ℕ, ◌<◌, ◌≡◌, List, [], ◌∷◌, ◌++◌, Bool, true, false, Option, none, some, Outcome, ok, ◌==◌,
  if◌then◌else◌,
}
use umay.Tls.Server.{Poll, pending, ready}
use umay.App.Service.{Sockets, connection, shutdown_changed, run_service}
use umay.App.Service
use umay.App.Signal.{Watcher, installing, watch, changed}
use umay.App.Signal

abbrev pub update {ℓ} : {A : Type ℓ} → (ℕ → A) → ℕ → A → ℕ → A
update f i a j = if j == i then a else f j

-- A service: how its binding ended, once it has, and the events that its loop has seen since.
pub record Task (Socket : Type 0) : Type 0 where
  pub bound : Option (Outcome (Unit {0}))
  pub events : List (Service.Event Socket)

-- `ended` says whether the receiver of `run` has seen a change.
pub record System (Socket : Type 0) : Type 0 where
  pub watcher : Watcher
  pub tasks : ℕ → Task Socket
  pub ended : Bool

module _ (sockets : Sockets) where
  open sockets use {TcpStream}

  abbrev pub result : Task TcpStream → Poll (Outcome (Unit {0}))
  result t = elim t.bound [ none ↦ pending | some r ↦ (run_service sockets r t.events).result ]

  abbrev pub seen : Task TcpStream → Service.Event TcpStream → Task TcpStream
  seen t e = record t { events = t.events ++ e ∷ [] }

  abbrev pub set_task : System TcpStream → ℕ → Task TcpStream → System TcpStream
  set_task s i t = record s { tasks = update s.tasks i t }

  -- `n` services.
  pub data Step (n : ℕ) (s : System TcpStream) : System TcpStream → Type 0 where
    watches : (e : Signal.Event) → Step n s (record s { watcher = watch e s.watcher })
    binds :
        (i : ℕ) (r : Outcome (Unit {0}))
        → i < n
        → (s.tasks i).bound ≡ none
        → Step n s (set_task s i (record (s.tasks i) { bound = some r }))
    accepts :
        (i : ℕ) (answer : Option (Outcome TcpStream))
        → i < n
        → (s.tasks i).bound ≡ some (ok tt)
        → result (s.tasks i) ≡ pending
        → Step n s (set_task s i (seen (s.tasks i) (connection answer)))
    stops :
        (i : ℕ)
        → i < n
        → (s.tasks i).bound ≡ some (ok tt)
        → result (s.tasks i) ≡ pending
        → changed s.watcher ≡ true
        → Step n s (set_task s i (seen (s.tasks i) shutdown_changed))
    ends : changed s.watcher ≡ true → Step n s (record s { ended = true })

  abbrev pub init : System TcpStream
  init = record {
    watcher = installing;
    tasks = λ i. record { bound = none; events = [] };
    ended = false;
  }

  pub data Reach (n : ℕ) (s : System TcpStream) : System TcpStream → Type 0 where
    here : Reach n s s
    later : {t u : System TcpStream} → Reach n s t → Step n t u → Reach n s u
