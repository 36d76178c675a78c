-- ===== src/App/Run/Laws.antt =====
-- What `run_server` of umay/src/main.rs does with a configuration.
use umay.Base.{
  ℕ, ◌≡◌, ◌≢◌, refl, ap, ◌∙◌, List, [], ◌∷◌, map, Option, none, some, Outcome, ok, err, panic,
  Error,
}
use mathlib.Core.Path.{ap₂}
use umay.App.Crates.{Crates}
use umay.App.Config.Stream.{StreamServer, StreamConfig}
use umay.App.Config.Umay.{UmayConfig}
use umay.App.Server.{Proxy, UmayServer, try_from}
use umay.App.Server.TryFrom.{AllBuilt, Builds, try_from-Builds}
use umay.Proxy.Stream.{port}
use umay.Tls.Server.{ready}
use umay.App.Run.{Task, refreshes, serves, spawn, run, run_built, run_server}

abbrev pub stream_ports : Option StreamConfig → List ℕ
stream_ports none = []
stream_ports (some stream) = map (λ (s : StreamServer). s.listen.port) stream.servers

module _ (crates : Crates) where
  -- The ports that are listened to.
  abbrev pub ports : List (Task crates) → List ℕ
  ports [] = []
  ports (refreshes lb period ∷ tasks) = ports tasks
  ports (serves p n ∷ tasks) = n ∷ ports tasks

  spawn-AllBuilt :
      (config : StreamConfig) (servers : List StreamServer) (proxies : List (Proxy crates))
      → AllBuilt crates config servers proxies
      → ports (spawn crates proxies) ≡ map (λ (s : StreamServer). s.listen.port) servers
  unfolding spawn port
  spawn-AllBuilt config [] [] h = refl
  spawn-AllBuilt config [] (p ∷ proxies) h = absurd h
  spawn-AllBuilt config (s ∷ servers) [] h = absurd h
  spawn-AllBuilt config (s ∷ servers) (p ∷ proxies) h =
      ap₂ ◌∷◌ (ap (λ (x : StreamServer). x.listen.port) h.0.configured)
        (spawn-AllBuilt config servers proxies h.1)

  spawn-Builds :
      (stream : Option StreamConfig) (proxies : List (Proxy crates))
      → Builds crates stream proxies
      → ports (spawn crates proxies) ≡ stream_ports stream
  unfolding spawn
  spawn-Builds none proxies h = ap (λ ps. ports (spawn crates ps)) h
  spawn-Builds (some config) proxies h = spawn-AllBuilt config config.servers proxies h

  run-tasks :
      (server : UmayServer crates) (changes : List (Unit {0}))
      → (run crates server changes).tasks ≡ spawn crates server.stream_proxies
  unfolding run
  run-tasks server [] = refl
  run-tasks server (c ∷ changes) = refl

  -- Where the server is built from its configuration, services are spawned for the ports of all
  -- the configured stream servers, in order, and for no other.
  pub run_server-ports :
      (config : UmayConfig) (server : UmayServer crates) (changes : List (Unit {0}))
      → try_from crates config ≡ ok server
      → ports (run_server crates config changes).tasks ≡ stream_ports config.stream
  unfolding run_server
  run_server-ports config server changes h =
      ap (λ r. ports (run_built crates r changes).tasks) h
      ∙ ap ports (run-tasks server changes)
      ∙ spawn-Builds config.stream server.stream_proxies (try_from-Builds crates config server h).0

  built-ne-err :
      (r : Outcome (UmayServer crates)) (changes : List (Unit {0})) (e : Error)
      → (run_built crates r changes).result ≢ ready (err e)
  unfolding run
  built-ne-err (ok server) [] e = λ h. cc
  built-ne-err (ok server) (c ∷ changes) e = λ h. cc
  built-ne-err (err x) changes e = λ h. cc
  built-ne-err panic changes e = λ h. cc

  -- `run_server` never ends in an error, also where the server cannot be built.
  pub run_server-ne-err :
      (config : UmayConfig) (changes : List (Unit {0})) (e : Error)
      → (run_server crates config changes).result ≢ ready (err e)
  unfolding run_server
  run_server-ne-err config changes e = built-ne-err (try_from crates config) changes e
