-- ===== src/App/Examples/Program.antt =====
-- A running server from its start to its end, at a concrete configuration.
use umay.Base.{
  ℕ, zero, suc, ◌+◌, ◌≤◌, ◌≡◌, refl, ap, arith, List, [], ◌∷◌, ◌++◌, false, Outcome, String, some,
  ok, length, get_elem?,
}
use umay.Net.{IpAddr, SocketAddr}
use umay.App.Config.Listen.{Protocol}
use umay.App.Config.Stream.{Upstream, upstream}
use umay.App.Config.Umay.{shutdown_grace_period_of, exit_timeout_of}
use umay.App.Examples.Data.{crates, good}
use umay.App.Examples.Targets.{dns_stream, dns_server, dns_proxy, dns_makes, dns_config}
use umay.App.Program.{
  listening, Service, Program, returned, Event, watches, binds, yields, stops, ticks, moves, polls,
  passes, run, service_of, spawned,
}
use umay.App.Program.Deployed.{try_from-drains}
use umay.App.Program.Shutdown.{returned-slept}
use umay.App.Program.Stages.{elapsed_in}
use umay.App.Program.Termination.{rounds, polls-returns}
use umay.App.Program.Trace.{Runs, trace, run-trace}
use umay.App.Server.Tasks.{started}
use umay.App.Server.Deployment.{Lists}
use umay.App.Signal.{installs, delivers, received, sigterm, finished, Cause, changed}
use umay.Balance.Discovery.Service.{Lookup}
use umay.Proxy.Samples.{session, display, network}
use umay.Proxy.Stream.Connection.{Action}
use umay.Proxy.Stream.Interleaved
use umay.Proxy.Stream.Interleaved.{after_session, advance}
use umay.Proxy.Stream.Interleaved.Ends.{Comes}
use umay.Proxy.Stream.Interleaved.Progress.{task}
use umay.Proxy.Stream.Lifetime.Targets.{AllAt}
use umay.Tls.Server.{Poll}

abbrev R : Type 0
R = List SocketAddr × List String

abbrev lookup : Lookup R
lookup r host = ok (IpAddr.v4 0x0a000007 ∷ [])

abbrev start : Program session R
start = spawned crates session dns_server

-- The service is bound, its set is refreshed, and a connection comes.
abbrev before : List (Event session R)
before =
    watches (installs (ok tt))
    ∷ binds 0 (ok tt)
    ∷ ticks 0 lookup
    ∷ yields 0 (some (ok (network, "early.example")))
    ∷ moves 0 0
    ∷ []

-- A moment, in which the connection goes on, and then the program is told to end.
abbrev calm : List (Event session R)
calm = moves 0 1 ∷ passes ∷ watches (delivers sigterm) ∷ []

abbrev late : List (Event session R)
late = polls ∷ stops 0 ∷ passes ∷ moves 0 1 ∷ ticks 0 lookup ∷ moves 0 1 ∷ passes ∷ moves 0 1 ∷ []

abbrev proxied : Service session R
proxied = record {
  protocol = Protocol.tcp;
  loop = listening;
  running =
      Interleaved.run display Protocol.tcp (trace display dns_config 0 before start)
        (started crates session dns_proxy);
}

try_from-drains_example :
    let now = run display dns_config before start in
    (w : Service session R) × (u : Upstream) × (r : Poll (Outcome (Unit {0}))) × (asked : List
      Action)
    × (get_elem?
          (run display dns_config
            (yields 0 (some (ok (network, "last.example"))) ∷ (calm ++ late))
            now).services
          0
        ≡ some w)
    × (upstream dns_stream "fair" ≡ some u)
    × (get_elem? w.running.tasks (length proxied.running.tasks)
        ≡ some (task network "last.example" (after_session r) asked))
    × Comes display Protocol.tcp
        (AllAt (Lists crates u.service_discovery u.servers))
        network
        "last.example"
        r
        asked
unfolding run spawned trace Interleaved.run shutdown_grace_period_of exit_timeout_of advance
try_from-drains_example =
    try_from-drains crates display dns_config dns_stream dns_server 0 good dns_proxy before proxied
      network "last.example" calm late refl dns_makes refl refl refl refl refl (omega arith)
      (omega arith)

run-trace_example :
    (w : Service session R) × (get_elem? (run display dns_config (before ++ late) start).services 0
      ≡ some w)
    × Runs display
        (trace display dns_config 0 (before ++ late) start)
        (service_of crates session dns_proxy)
        w
unfolding spawned
run-trace_example =
    run-trace display dns_config (before ++ late) start 0 (service_of crates session dns_proxy) refl

-- The shutdown with a signal received, and a poll in each millisecond.
abbrev told : Program session R
told = record start { watcher = finished (received sigterm) }

beats : ℕ → List (Event session R)
beats zero = []
beats (suc n) = passes ∷ polls ∷ beats n

rounds-beats : (n : ℕ) → rounds false (beats n) ≡ n
unfolding beats
rounds-beats zero = refl
rounds-beats (suc n) = ap suc (rounds-beats n)

polls-returns_example : (run display dns_config (polls ∷ beats 2000) told).stage ≡ returned
unfolding spawned changed shutdown_grace_period_of exit_timeout_of
polls-returns_example =
    polls-returns display dns_config (beats 2000) told refl refl (omega (arith, rounds-beats 2000))

told_returns : (run display dns_config (polls ∷ beats 2000) told).stage ≡ returned
unfolding spawned changed shutdown_grace_period_of exit_timeout_of
told_returns =
    polls-returns display dns_config (beats 2000) told refl refl (omega (arith, rounds-beats 2000))

returned-slept_example :
    (shutdown_grace_period_of dns_config + exit_timeout_of dns_config
      ≤ elapsed_in (polls ∷ beats 2000))
    × ((c : Cause) × ((run display dns_config (polls ∷ beats 2000) told).watcher ≡ finished c))
unfolding spawned
returned-slept_example =
    returned-slept display dns_config (polls ∷ beats 2000) told refl told_returns

-- The signal has come, and one connection was accepted.
abbrev signalled : Program session R
signalled = run display dns_config (before ++ watches (delivers sigterm) ∷ []) start
