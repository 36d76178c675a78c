-- ===== src/App/Program.antt =====
-- A running server of umay/src/app/server.rs with all its tasks, until the runtime is dropped: the signal
-- task, `run` with the sleeps of `shutdown`, the loop of `run_service` for each proxy, the refresh
-- tasks, and the connections, each a task of its own that outlives the loop that accepted it.
pub mod After
pub mod Trace
pub mod Stages
pub mod Drain
pub mod Stopped
pub mod Shutdown
pub mod Termination
pub mod Deployed
use umay.Base.{
  ℕ, zero, suc, ◌-◌, List, [], ◌∷◌, map, Bool, true, false, Option, none, some, Outcome, ok, err,
  panic, if◌then◌else◌,
}
use umay.App.Config.Listen.{Protocol}
use umay.App.Config.Umay.{UmayConfig}
use umay.App.Crates.{Crates}
use umay.App.Run.{shutdown}
use umay.App.Server.{Resolver, Proxy, UmayServer}
use umay.App.Server.Tasks.{started}
use umay.App.Signal.{Watcher, installing, watch, changed}
use umay.App.Signal
use umay.Balance.Discovery.Service.{Lookup}
use umay.Proxy.Stream.Connection.{Display, Network}
use umay.Proxy.Stream.Interleaved.{Running, refreshes, arrives, advances}
use umay.Proxy.Stream.Interleaved
use umay.Tls.{Session}

-- Where a service stands: its port is not bound yet, its loop runs, or it has returned.
pub data Loop : Type 0 where
  unbound : Loop
  listening : Loop
  over : Outcome (Unit {0}) → Loop

-- A service with the connections that it has accepted.
pub record Service (session : Session) (R : Type 0) : Type 1 where
  pub protocol : Protocol
  pub loop : Loop
  pub running : Running session R

-- Where `run` stands: in its `select`, in `shutdown` with what is left of each sleep, in milliseconds,
-- or at its end, where the runtime drops all tasks.
pub data Stage : Type 0 where
  serving : Stage
  sleeping : List ℕ → Stage
  returned : Stage

pub record Program (session : Session) (R : Type 0) : Type 1 where
  pub watcher : Watcher
  pub stage : Stage
  pub services : List (Service session R)

-- What the stream of `bind_listener` yields: an accepted socket is a network to talk over.
abbrev pub Answer : Session → Type 1
Answer session = Option (Outcome ((net : Network session) × net.Io))

-- Service `i` binds its port, gets the next item of its stream, or sees the shutdown; a refresh or a
-- connection of its proxy makes a step. `run` is polled, or a millisecond passes.
pub data Event (session : Session) (R : Type 0) : Type 1 where
  watches : Signal.Event → Event session R
  binds : ℕ → Outcome (Unit {0}) → Event session R
  yields : ℕ → Answer session → Event session R
  stops : ℕ → Event session R
  ticks : ℕ → Lookup R → Event session R
  moves : (i j : ℕ) → Event session R
  polls : Event session R
  passes : Event session R

-- A poll of the sleeps goes on to the first that is not over.
unfoldable pub wakes : List ℕ → Stage
wakes [] = returned
wakes (zero ∷ sleeps) = wakes sleeps
wakes (suc n ∷ sleeps) = sleeping (suc n ∷ sleeps)

-- A poll of `run`, by whether the shutdown channel has changed.
unfoldable pub poll : UmayConfig → Stage → Bool → Stage
unfolding wakes shutdown
poll config serving false = serving
poll config serving true = wakes (shutdown config)
poll config (sleeping sleeps) change = wakes sleeps
poll config returned change = returned

-- A millisecond of the sleep that is under way.
abbrev pub slept : List ℕ → List ℕ
slept [] = []
slept (n ∷ sleeps) = (n - 1) ∷ sleeps

unfoldable pub pass : Stage → Stage
pass serving = serving
pass (sleeping sleeps) = sleeping (slept sleeps)
pass returned = returned

-- The runtime is there until `run` has returned.
abbrev pub alive : Stage → Bool
alive serving = true
alive (sleeping sleeps) = true
alive returned = false

abbrev pub bound : Outcome (Unit {0}) → Loop
bound (ok u) = listening
bound (err e) = over (err e)
bound panic = over panic

-- The binding ends once.
abbrev pub bind_loop : Outcome (Unit {0}) → Loop → Loop
bind_loop r unbound = bound r
bind_loop r listening = listening
bind_loop r (over x) = over x

module _ {session : Session} {R : Type 0} where
  unfoldable pub bind : Outcome (Unit {0}) → Service session R → Service session R
  bind r v = record v { loop = bind_loop r v.loop }

  abbrev pub called : Display → Answer session → Service session R → Service session R
  called display none v = v
  called display (some (ok (net, io))) v = record v {
    running = Interleaved.step display v.protocol (arrives net io) v.running;
  }
  called display (some (err e)) v = v
  called display (some panic) v = record v { loop = over panic }

  abbrev pub in_loop : Service session R → Loop → Service session R → Service session R
  in_loop v unbound w = v
  in_loop v listening w = w
  in_loop v (over r) w = v

  -- A turn of the loop of `run_service` on an answer of the listener, and on the shutdown.
  unfoldable pub accept : Display → Answer session → Service session R → Service session R
  unfolding Interleaved.step
  accept display answer v = in_loop v v.loop (called display answer v)

  unfoldable pub stop : Service session R → Service session R
  stop v = in_loop v v.loop (record v { loop = over (ok tt) })

  unfoldable pub proceed :
      Display → Interleaved.Event session R → Service session R → Service session R
  unfolding Interleaved.step
  proceed display e v = record v { running = Interleaved.step display v.protocol e v.running }

  abbrev pub alter :
      ℕ
      → (Service session R → Service session R)
      → List (Service session R)
      → List (Service session R)
  alter i f [] = []
  alter zero f (v ∷ vs) = f v ∷ vs
  alter (suc i) f (v ∷ vs) = v ∷ alter i f vs

  abbrev pub on :
      ℕ → (Service session R → Service session R) → Program session R → Program session R
  on i f s = record s { services = alter i f s.services }

  abbrev pub occurs : Display → UmayConfig → Event session R → Program session R → Program session R
  occurs display config (watches e) s = record s { watcher = watch e s.watcher }
  occurs display config (binds i r) s = on i (bind r) s
  occurs display config (yields i answer) s = on i (accept display answer) s
  occurs display config (stops i) s = if changed s.watcher then on i stop s else s
  occurs display config (ticks i w) s = on i (proceed display (refreshes w)) s
  occurs display config (moves i j) s = on i (proceed display (advances j)) s
  occurs display config polls s = record s { stage = poll config s.stage (changed s.watcher) }
  occurs display config passes s = record s { stage = pass s.stage }

  -- Nothing happens any more once `run` has returned.
  unfoldable pub step :
      Display → UmayConfig → Event session R → Program session R → Program session R
  unfolding watch changed bind accept stop proceed poll pass
  step display config e s = if alive s.stage then occurs display config e s else s

  unfoldable pub run :
      Display → UmayConfig → List (Event session R) → Program session R → Program session R
  unfolding step
  run display config [] s = s
  run display config (e ∷ es) s = run display config es (step display config e s)

module _ (crates : Crates) (session : Session) where
  abbrev pub service_of : Proxy crates → Service session (Resolver crates)
  service_of p = record {
    protocol = p.stream_config.listen.protocol;
    loop = unbound;
    running = started crates session p;
  }

  -- The server when `run` has spawned its tasks.
  unfoldable pub spawned : UmayServer crates → Program session (Resolver crates)
  spawned server = record {
    watcher = installing;
    stage = serving;
    services = map service_of server.stream_proxies;
  }
