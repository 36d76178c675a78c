-- ===== src/App/Run.antt =====
-- `UmayServer::run` and `shutdown` of umay/src/app/server.rs, and `run_server` of umay/src/main.rs: the
-- tasks that are spawned, the sleeps of the shutdown and the result. The tasks themselves are
-- App.Service and Balance.LoadBalancer.Schedule.
pub mod Laws
use umay.Base.{ℕ, List, [], ◌∷◌, Outcome, ok, err, panic}
use umay.App.Crates.{Crates}
use umay.App.Config.Umay.{UmayConfig, shutdown_grace_period_of, exit_timeout_of}
use umay.App.Server.{Proxy, Balancer, UmayServer, try_from}
use umay.Proxy.Stream.{port}
use umay.Tls.Server.{Poll, pending, ready}

-- How long `shutdown` sleeps, in milliseconds.
unfoldable pub shutdown : UmayConfig → List ℕ
unfolding shutdown_grace_period_of exit_timeout_of
shutdown config = shutdown_grace_period_of config ∷ exit_timeout_of config ∷ []

module _ (crates : Crates) where
  -- A refresh task with its period in seconds, and a service with its port.
  pub data Task : Type 0 where
    refreshes : Balancer crates → ℕ → Task
    serves : Proxy crates → ℕ → Task

  pub record Run : Type 0 where
    pub tasks : List Task
    pub slept : List ℕ
    pub result : Poll (Outcome (Unit {0}))

  -- The loop of `run`.
  unfoldable pub spawn : List (Proxy crates) → List Task
  unfolding port
  spawn [] = []
  spawn (p ∷ proxies) = refreshes p.load_balancer 30 ∷ serves p (port p) ∷ spawn proxies

  -- `changes` is what the shutdown channel has sent so far.
  unfoldable pub run : UmayServer crates → List (Unit {0}) → Run
  unfolding spawn shutdown
  run server [] = record { tasks = spawn server.stream_proxies; slept = []; result = pending }
  run server (c ∷ changes) = record {
    tasks = spawn server.stream_proxies;
    slept = shutdown server.config;
    result = ready (ok tt);
  }

  -- An error is logged.
  abbrev pub logged : Poll (Outcome (Unit {0})) → Poll (Outcome (Unit {0}))
  logged pending = pending
  logged (ready (ok u)) = ready (ok tt)
  logged (ready (err e)) = ready (ok tt)
  logged (ready panic) = ready panic

  abbrev pub idle : Outcome (Unit {0}) → Run
  idle r = record { tasks = []; slept = []; result = ready r }

  abbrev pub run_built : Outcome (UmayServer crates) → List (Unit {0}) → Run
  run_built (ok server) changes =
      let r = run server changes in record r { result = logged r.result }
  run_built (err e) changes = idle (ok tt)
  run_built panic changes = idle panic

  unfoldable pub run_server : UmayConfig → List (Unit {0}) → Run
  unfolding try_from run
  run_server config changes = run_built (try_from crates config) changes
