-- ===== src/App/Program/Deployed.antt =====
-- A server of umay/src/app/server.rs from its configuration to its end.
use mathlib.Core.Path.{subst}
use mathlib.Core.Option.{some-injective}
use umay.Base.{
  refl, get_elem?-map, ℕ, ◌+◌, ◌≤◌, ◌<◌, ◌≡◌, ap, sym, ◌∙◌, List, [], ◌∷◌, ◌++◌, true, some,
  Outcome, ok, length, get_elem?, ◌==◌, if◌then◌else◌, arith,
}
use umay.App.Config.Stream.{Upstream, StreamServer, StreamConfig, upstream}
use umay.App.Config.Umay.{UmayConfig, shutdown_grace_period_of, exit_timeout_of}
use umay.App.Crates.{Crates}
use umay.App.Program.{
  listening, Service, serving, Program, Event, yields, alive, service_of, spawned, step, run,
}
use umay.App.Program.Drain.{run_alive, sees-own, turns, turns-trace}
use umay.App.Program.Stages.{elapsed_in, rest, run-alive}
use umay.App.Program.After.{after, step-after}
use umay.App.Program.Trace.{Runs, heard, trace, run-trace}
use umay.App.Run.{shutdown}
use umay.App.Server.{Resolver, Proxy, UmayServer, try_from}
use umay.App.Server.Deployment.{Lists}
use umay.App.Server.Tasks.{try_from-Comes}
use umay.Proxy.Stream.Connection.{Display, Network, Action}
use umay.Proxy.Stream.Interleaved.{Running, arrives, after_session, turns_of}
use umay.Proxy.Stream.Interleaved
use umay.Proxy.Stream.Interleaved.Ends.{Comes}
use umay.Proxy.Stream.Interleaved.Progress.{task}
use umay.Proxy.Stream.Lifetime.Targets.{AllAt}
use umay.Tls.{Session}
use umay.Tls.Server.{Poll}

same_eq : (i : ℕ) → (i == i) ≡ true
same_eq i = ground arith

module _ {session : Session} (display : Display) (config : UmayConfig) {R : Type 0} where
  -- A service that listens takes the connection that its stream yields.
  trace-yields :
      (es : List (Event session R)) (s : Program session R) (i : ℕ) (v : Service session R)
      (net : Network session) (io : net.Io)
      → get_elem? s.services i ≡ some v
      → v.loop ≡ listening
      → alive s.stage ≡ true
      → let e = yields i (some (ok (net, io))) in
        trace display config i (e ∷ es) s
        ≡ arrives net io ∷ trace display config i es (step display config e s)
  unfolding trace
  trace-yields es s i v net io place listens up =
      let e = yields i (some (ok (net, io))) in
      let after_all = λ (xs : List (Interleaved.Event session R)).
        xs ++ trace display config i es (step display config e s) in
      ap after_all (sees-own display config e s i v place up)
      ∙ ap (λ b. after_all (if b then heard v.loop (some (ok (net, io))) else [])) (same_eq i)
      ∙ ap (λ l. after_all (heard l (some (ok (net, io))))) listens

  -- What the proxy of service `i` sees from then on.
  record Taken (s : Program session R) (i : ℕ) (v : Service session R) (net : Network session)
      (io : net.Io) (es : List (Event session R)) : Type 1 where
    events : List (Interleaved.Event session R)
    service : Service session R
    place :
        get_elem? (run display config (yields i (some (ok (net, io))) ∷ es) s).services i
        ≡ some service
    running :
        service.running ≡ Interleaved.run display v.protocol (arrives net io ∷ events) v.running
    enough : (n : ℕ) → turns_of n events ≡ turns i n es

  run-append :
      (xs ys : List (Event session R)) (s : Program session R)
      → run display config (xs ++ ys) s ≡ run display config ys (run display config xs s)
  unfolding run
  run-append [] ys s = refl
  run-append (x ∷ xs) ys s = run-append xs ys (step display config x s)

  -- The runtime is there for less time after a moment at which `run` was in its `select`.
  alive_after :
      (xs ys : List (Event session R)) (s : Program session R)
      → (run display config xs s).stage ≡ serving
      → elapsed_in ys < shutdown_grace_period_of config + exit_timeout_of config
      → alive (run display config (xs ++ ys) s).stage ≡ true
  unfolding shutdown
  alive_after xs ys s stage quick =
      let mid = run display config xs s in
      let left = subst (λ st. elapsed_in ys < rest config st) (sym stage) (omega (arith, quick)) in
      ap (λ (u : Program session R). alive u.stage) (run-append xs ys s)
      ∙ run-alive display config ys mid left

  yields-Taken :
      (es : List (Event session R)) (s : Program session R) (i : ℕ) (v : Service session R)
      (net : Network session) (io : net.Io)
      → get_elem? s.services i ≡ some v
      → v.loop ≡ listening
      → alive (run display config (yields i (some (ok (net, io))) ∷ es) s).stage ≡ true
      → Taken s i v net io es
  unfolding run
  yields-Taken es s i v net io place listens there =
      let e = yields i (some (ok (net, io))) in
      let up = run_alive display config (e ∷ es) s there in
      let next = step display config e s in
      let u = after display s.watcher i e v in
      let (w, place_w, runs) = run-trace display config (e ∷ es) s i v place in
      let placed =
        step-after display config e s i v place ∙ ap (λ b. some (if b then u else v)) up in
      record {
        events = trace display config i es next;
        service = w;
        place = place_w;
        running =
            runs.1
            ∙ ap (λ xs. Interleaved.run display v.protocol xs v.running)
                (trace-yields es s i v net io place listens up);
        enough = λ n. turns-trace display config es next i n u placed there;
      }

module _ (crates : Crates) {session : Session} (display : Display) (config : UmayConfig)
    (stream : StreamConfig) (server : UmayServer crates) (i : ℕ) (s : StreamServer)
    (p : Proxy crates) where
  -- Service `i` of a server that was spawned, some time later.
  spawned-Runs :
      (before : List (Event session (Resolver crates))) (v : Service session (Resolver crates))
      → let start = spawned crates session server in
        get_elem? server.stream_proxies i ≡ some p
        → get_elem? (run display config before start).services i ≡ some v
        → Runs display (trace display config i before start) (service_of crates session p) v
  unfolding spawned
  spawned-Runs before v at_p place =
      let start = spawned crates session server in
      let (w, place_w, runs) =
        run-trace display config before start i (service_of crates session p)
          (get_elem?-map (service_of crates session) server.stream_proxies i p at_p) in
      subst (Runs display (trace display config i before start) (service_of crates session p))
        (some-injective w v (sym place_w ∙ place)) runs

  -- The shutdown leaves a connection alone that the `i`-th service of a server made from its
  -- configuration has accepted. Whatever then happens, a signal, the end of the service's loop, panics of
  -- other tasks or refreshes that fail: where it makes four steps, each when what it waits for has come,
  -- while fewer milliseconds than the grace period and the exit timeout have together have passed since
  -- some moment after its arrival at which `run` was in its `select`, it has ended in the error or the
  -- panic of its handshake or in the error that no backend is available, or it is where the session with
  -- a backend has come to, over with its result or still open. That backend is a member of a set all of
  -- whose addresses the upstream of the `i`-th stream server lists: its servers read as them, or, where
  -- it is found by DNS, they have the port of its first.
  pub try_from-drains :
      (before : List (Event session (Resolver crates))) (v : Service session (Resolver crates))
      (net : Network session) (io : net.Io) (calm late : List (Event session (Resolver crates)))
      → config.stream ≡ some stream
      → try_from crates config ≡ ok server
      → get_elem? stream.servers i ≡ some s
      → get_elem? server.stream_proxies i ≡ some p
      → let now = run display config before (spawned crates session server) in
        get_elem? now.services i ≡ some v
        → v.loop ≡ listening
        → (run display config (yields i (some (ok (net, io))) ∷ calm) now).stage ≡ serving
        → elapsed_in late < shutdown_grace_period_of config + exit_timeout_of config
        → 4 ≤ turns i (length v.running.tasks) (calm ++ late)
        → (w : Service session (Resolver crates)) × (u : Upstream) × (r : Poll (Outcome (Unit {0})))
          × (asked : List Action) × (get_elem?
                (run display config (yields i (some (ok (net, io))) ∷ (calm ++ late)) now).services
                i
              ≡ some w)
          × (upstream stream s.proxy_pass ≡ some u)
          × (get_elem? w.running.tasks (length v.running.tasks)
              ≡ some (task net io (after_session r) asked))
          × Comes display p.stream_config.listen.protocol
              (AllAt (Lists crates u.service_discovery u.servers))
              net
              io
              r
              asked
  try_from-drains before v net io calm late has made at_s at_p place listens stage quick enough =
      let protocol = p.stream_config.listen.protocol in
      let start = spawned crates session server in
      let now = run display config before start in
      let seen = trace display config i before start in
      let (same, running) = spawned-Runs before v at_p place in
      let accepted = yields i (some (ok (net, io))) in
      let there = alive_after display config (accepted ∷ calm) late now stage quick in
      let t = yields-Taken display config (calm ++ late) now i v net io place listens there in
      let n = length v.running.tasks in
      let (u, found, r, asked, ends, comes) =
        try_from-Comes crates display config stream server i s p seen t.events net io has made at_s
          at_p
          (subst (λ (x : Running session (Resolver crates)). 4 ≤ turns_of (length x.tasks) t.events)
            running (omega (arith, enough, t.enough n))) in
      let whole =
        t.running
        ∙ ap (λ q. Interleaved.run display q (arrives net io ∷ t.events) v.running) same in
      let ended_there =
        subst
          (λ (x : Running session (Resolver crates)).
            get_elem? (Interleaved.run display protocol (arrives net io ∷ t.events) x).tasks
              (length x.tasks)
            ≡ some (task net io (after_session r) asked))
          (sym running) ends in
      (
        t.service,
        u,
        r,
        asked,
        t.place,
        found,
        subst
            (λ (x : Running session (Resolver crates)).
              get_elem? x.tasks n ≡ some (task net io (after_session r) asked))
            (sym whole) ended_there,
        comes,
      )
