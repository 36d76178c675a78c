-- ===== src/App/Server/Tasks.antt =====
-- The connections of a server of umay/src/app/server.rs as tasks of the runtime, interleaved.
use mathlib.Core.List.{mem-map_of_mem}
use mathlib.Core.Path.{subst}
use umay.Base.{
  ℕ, ◌^◌, ◌≤◌, ◌<◌, ◌≡◌, ◌≢◌, refl, sym, List, [], ◌∷◌, map, some, true, Mem, Outcome, ok, panic,
  get_elem?, length, ok-injective, arith,
}
use umay.Net.{SocketAddr}
use umay.Balance.Backend.{Backend}
use umay.Balance.Backends
use umay.Balance.LoadBalancer
use umay.Balance.LoadBalancer.{LoadBalancer}
use umay.Balance.Discovery.Local
use umay.Balance.Discovery.Local.{with_backends}
use umay.Balance.Discovery.Service.{Discovery, Lookup}
use umay.Balance.Discovery.Service
use umay.Tls.{Session, ServerTls}
use umay.Tls.Server.{Poll}
use umay.App.Crates.{Crates}
use umay.App.Config.Listen.{Protocol, ServiceDiscovery}
use umay.App.Config.Stream.{Upstream, StreamServer, StreamConfig, upstream, to_socket_addrs}
use umay.App.Config.Umay.{UmayConfig}
use umay.App.Server.{Resolver, Proxy, UmayServer, build_proxy, try_from}
use umay.App.Server.Traverse.{Yields, Yields-get_elem?, Yields-map, Yields-length}
use umay.App.Server.TryFrom.{try_from-Yields}
use umay.App.Server.Listed.{kind-Lists}
use umay.App.Server.Laws.{build_proxy-IsBuilt, create_discovery-Yields}
use umay.App.Server.Targets.{built_discovery}
use umay.App.Server.Deployment.{Lists}
use umay.App.Server.Serving.{built_local, with_backends-IsServing, with_backends-mem}
use umay.Proxy.Stream.Connection.{Display, Network, Action}
use umay.Proxy.Stream.Connection.Paths.{IsServing, session_end}
use umay.Proxy.Stream.Lifetime.Targets.{AllAt}
use umay.Proxy.Stream.Interleaved.{
  Running, Event, refreshes, arrives, after_session, step, run, turns_of,
}
use umay.Proxy.Stream.Interleaved.Ends.{Comes}
use umay.Proxy.Stream.Interleaved.Progress.{task}
use umay.Proxy.Stream.Interleaved.Held.{IsHeld, run-IsHeld, refreshed-IsHeld, run_alive}
use umay.Proxy.Stream.Interleaved.Runs.{run-Comes, run-serves}

module _ (crates : Crates) where
  -- The proxy as `run` of the server starts it.
  abbrev pub started : (session : Session) → Proxy crates → Running session (Resolver crates)
  started session p = record { balancer = p.load_balancer; alive = true; tasks = [] }

  -- In a server that was made from its configuration, however the tasks and the refreshes of the `i`-th
  -- proxy interleave and whatever the clients, the network and the resolver do, a connection that has
  -- made four steps is past its choice. It has ended in the error or the panic of its handshake, or in
  -- the error that no backend is available, with nothing asked of the network; or it is where the session
  -- with a backend has come to, over with its result or still open, with nothing else asked. That
  -- backend is a member of a set all of whose addresses the upstream of the `i`-th stream server lists:
  -- its servers read as them, or, where it is found by DNS, they have the port of its first. A task
  -- makes a step when what it waits for has come.
  pub try_from-Comes :
      {session : Session} (display : Display) (config : UmayConfig) (stream : StreamConfig)
      (server : UmayServer crates) (i : ℕ) (s : StreamServer) (p : Proxy crates)
      (early es : List (Event session (Resolver crates))) (net : Network session) (io : net.Io)
      → config.stream ≡ some stream
      → try_from crates config ≡ ok server
      → get_elem? stream.servers i ≡ some s
      → get_elem? server.stream_proxies i ≡ some p
      → let protocol = p.stream_config.listen.protocol in
        let before = run display protocol early (started session p) in
        4 ≤ turns_of (length before.tasks) es
        → (u : Upstream) × (upstream stream s.proxy_pass ≡ some u)
          × (r : Poll (Outcome (Unit {0}))) × (asked : List Action) × (get_elem?
                (run display protocol (arrives net io ∷ es) before).tasks
                (length before.tasks)
              ≡ some (task net io (after_session r) asked))
          × Comes display protocol
              (AllAt (Lists crates u.service_discovery u.servers))
              net
              io
              r
              asked
  unfolding LoadBalancer.new Backends.new
  try_from-Comes {session} display config stream server i s p early es net io has made at_s at_p
        enough =
      let protocol = p.stream_config.listen.protocol in
      let built =
        Yields-get_elem? (build_proxy crates stream) stream.servers server.stream_proxies i s p
          (try_from-Yields crates config stream server has made) at_s at_p in
      let b = build_proxy-IsBuilt crates stream s p built in
      let P = Lists crates b.found.service_discovery b.found.servers in
      let d = b.initial.discovery in
      let finds = kind-Lists crates b.found d b.found.service_discovery refl b.initial.discovers in
      let fresh =
        subst
          (λ lb.
            IsHeld display protocol (AllAt P) d finds
              (record (started session p) { balancer = lb }))
          (sym b.initial.fresh) (record { discovery = refl; set = tt }) in
      let before = run display protocol early (started session p) in
      let (r, asked, place, comes) =
        run-Comes display protocol (AllAt P) d finds before net io es
          (run-IsHeld display protocol (AllAt P) d finds early (started session p) fresh) enough in
      (b.found, b.finds, r, asked, place, comes)

  module _ (stream : StreamConfig) (s : StreamServer) (p : Proxy crates)
      (built : build_proxy crates stream s ≡ ok p) (u : Upstream)
      (found : upstream stream s.proxy_pass ≡ some u) (addrs : List SocketAddr)
      (kind : u.service_discovery ≡ ServiceDiscovery.local)
      (reads : Yields (to_socket_addrs crates.parse_ip) u.servers addrs) {session : Session}
      (display : Display) (protocol : Protocol) (early : List (Event session (Resolver crates)))
      (w : Lookup (Resolver crates)) (later : List (Event session (Resolver crates))) where
    abbrev d : Discovery (Resolver crates)
    d = Discovery.local (with_backends addrs)

    -- The one set that the discovery finds.
    abbrev IsFound : List Backend → Type 0
    IsFound bs = bs ≡ (with_backends addrs).backends

    finds-IsFound :
        (v : Lookup (Resolver crates)) (bs : List Backend)
        → Service.discover v d ≡ ok bs
        → IsFound bs
    unfolding Service.discover Local.discover
    finds-IsFound v bs h = sym (ok-injective (with_backends addrs).backends bs h)

    never_panics : (v : Lookup (Resolver crates)) → Service.discover v d ≢ panic
    unfolding Service.discover Local.discover
    never_panics v = λ h. cc

    abbrev first_run : Running session (Resolver crates)
    first_run = run display protocol early (started session p)

    starts : p.load_balancer.backends.discovery ≡ d
    starts = built_local crates stream s p built u found addrs kind reads

    -- After a refresh the balancer holds that set, whatever came before and since.
    refreshed :
        IsHeld display protocol IsFound d finds-IsFound
          (run display protocol later (step display protocol (refreshes w) first_run))
    unfolding Service.discover Local.discover
    refreshed = run-IsHeld display protocol IsFound d finds-IsFound later _ (
        refreshed-IsHeld display protocol IsFound d finds-IsFound w (with_backends addrs).backends
          first_run refl refl
          (run-IsHeld display protocol (λ bs. Unit {0}) d (λ v bs e. tt) early (started session p)
            (record { discovery = starts; set = tt })).discovery
          (run_alive display protocol d never_panics early (started session p) starts refl))

  -- In a server that was made, take the proxy of a stream server whose upstream is found locally and has
  -- at least one and fewer than 2^64 servers. However its tasks and refreshes interleave, a connection
  -- that arrives after a refresh, whose handshake succeeds and that has made four steps, each when what
  -- it waits for has come, is served: it is where the session with a backend has come to, over with its
  -- result or still open, and has asked the network for that session only. The backend's address is among
  -- those that the upstream's servers read as.
  pub try_from-serves_tasks :
      {session : Session} (display : Display) (config : UmayConfig) (stream : StreamConfig)
      (server : UmayServer crates) (i : ℕ) (s : StreamServer) (p : Proxy crates) (u : Upstream)
      (early : List (Event session (Resolver crates))) (w : Lookup (Resolver crates))
      (later es : List (Event session (Resolver crates))) (net : Network session) (io : net.Io)
      (t : ServerTls session.ServerName × session.TlsStream)
      → config.stream ≡ some stream
      → try_from crates config ≡ ok server
      → get_elem? stream.servers i ≡ some s
      → get_elem? server.stream_proxies i ≡ some p
      → upstream stream s.proxy_pass ≡ some u
      → u.service_discovery ≡ ServiceDiscovery.local
      → 0 < length u.servers
      → length u.servers < 2 ^ 64
      → net.terminate io ≡ ok t
      → let protocol = p.stream_config.listen.protocol in
        let before =
          run display protocol later (
            step display protocol (refreshes w) (run display protocol early (started session p))) in
        4 ≤ turns_of (length before.tasks) es
        → (b : Backend) × Mem (ok b.addr) (map (to_socket_addrs crates.parse_ip) u.servers)
          × (let (r, asked) = session_end display net protocol t.1 b in
              get_elem?
                (run display protocol (arrives net io ∷ es) before).tasks
                (length before.tasks)
              ≡ some (task net io (after_session r) asked))
  try_from-serves_tasks {session} display config stream server i s p u early w later es net io t has
        made at_s at_p finds kind some_server small handshake enough =
      let protocol = p.stream_config.listen.protocol in
      let built =
        Yields-get_elem? (build_proxy crates stream) stream.servers server.stream_proxies i s p
          (try_from-Yields crates config stream server has made) at_s at_p in
      let (d, discovers) = built_discovery crates stream s p built u finds in
      let (addrs, reads) = create_discovery-Yields crates u d kind discovers in
      let same = Yields-length (to_socket_addrs crates.parse_ip) u.servers addrs reads in
      let found = with_backends addrs in
      let serving = with_backends-IsServing addrs (omega (arith, same)) (omega (arith, same)) in
      let (bs, e, b, m, place) =
        run-serves display protocol (λ bs. bs ≡ found.backends)
          (λ bs e. subst IsServing (sym e) serving) net io t handshake (Discovery.local found) _ _
          es (refreshed stream s p built u finds addrs kind reads display protocol early w later)
          enough in
      (
        b,
        subst (Mem (ok b.addr)) (sym (Yields-map _ u.servers addrs reads))
            (mem-map_of_mem ok (with_backends-mem addrs b (subst (Mem b) e m))),
        place,
      )
