-- ===== src/App/Server/Serving.antt =====
-- The connections of a server of umay/src/app/server.rs, after a refresh.
use mathlib.Core.Path.{subst}
use mathlib.Core.List.{Mem-prop, mem-map_of_mem}
use umay.Base.{
  ℕ, ◌^◌, ◌<◌, ◌≡◌, refl, ap, sym, List, [], ◌∷◌, ◌++◌, map, length, none, some, Mem, ok, get_elem?,
  arith,
}
use umay.Base.OrdSet.{collect, All-collect}
use umay.Base.OrdSet.Size.{length-collect, length-collect_pos}
use umay.Net.{SocketAddr}
use umay.Tls.{Session, ServerTls}
use umay.App.Crates.{Crates}
use umay.App.Config.Listen.{ServiceDiscovery}
use umay.App.Config.Stream.{Upstream, StreamServer, StreamConfig, upstream, to_socket_addrs}
use umay.App.Config.Umay.{UmayConfig}
use umay.App.Server.{Resolver, Proxy, UmayServer, build_proxy, try_from}
use umay.App.Server.Traverse.{Yields, Yields-get_elem?, Yields-length, Yields-map}
use umay.App.Server.TryFrom.{try_from-Yields}
use umay.App.Server.Laws.{build_proxy-IsBuilt, create_discovery-Yields, create_discovery-local}
use umay.App.Server.Targets.{All-unit_backends, All-Mem, built_fresh, built_discovery}
use umay.Balance.Backend.{Backend, backend_ord}
use umay.Balance.Backends
use umay.Balance.LoadBalancer.{LoadBalancer, select}
use umay.Balance.LoadBalancer
use umay.Balance.Discovery.Local.{with_backends, unit_backends}
use umay.Balance.Discovery.Local.Laws.{with_backends-IsValid}
use umay.Balance.Discovery.Service.{Discovery, Lookup}
use umay.Balance.Selection.Selector.{Selector, selector_algorithm}
use umay.Proxy.Stream.Connection.{Display, Network}
use umay.Proxy.Stream.Connection.Paths.{IsServing, ending, session_end}
use umay.Proxy.Stream.Lifetime.{Event, refreshes, call, sharing, started, run}
use umay.Proxy.Stream.Lifetime.Targets.{All-mem}
use umay.Proxy.Stream.Lifetime.Serves.{run-serves}

length-unit_backends : (addrs : List SocketAddr) → length (unit_backends addrs) ≡ length addrs
length-unit_backends [] = refl
length-unit_backends (a ∷ addrs) = omega (arith, length-unit_backends addrs)

pub with_backends-IsServing :
    (addrs : List SocketAddr)
    → 0 < length addrs
    → length addrs < 2 ^ 64
    → IsServing (with_backends addrs).backends
unfolding with_backends
with_backends-IsServing [] some_addr small = absurd (omega arith)
with_backends-IsServing (a ∷ addrs) some_addr small = record {
  unit = (with_backends-IsValid (a ∷ addrs)).unit;
  some_backend = length-collect_pos _ _;
  small =
      omega (arith, length-collect (unit_backends (a ∷ addrs)), length-unit_backends (a ∷ addrs));
}

pub with_backends-mem :
    (addrs : List SocketAddr) (b : Backend)
    → Mem b (with_backends addrs).backends
    → Mem b.addr addrs
unfolding with_backends
with_backends-mem addrs b m =
    All-mem (λ (c : Backend). Mem c.addr addrs) (λ c. Mem-prop) (collect (unit_backends addrs))
      (All-collect (λ (c : Backend). Mem c.addr addrs) (unit_backends addrs)
        (All-unit_backends (λ a. Mem a addrs) addrs (All-Mem addrs)))
      m

module _ (crates : Crates) where
  module _ (stream : StreamConfig) (s : StreamServer) (p : Proxy crates)
      (built : build_proxy crates stream s ≡ ok p) (u : Upstream)
      (finds : upstream stream s.proxy_pass ≡ some u) (addrs : List SocketAddr)
      (kind : u.service_discovery ≡ ServiceDiscovery.local)
      (reads : Yields (to_socket_addrs crates.parse_ip) u.servers addrs) where
    pub built_local : p.load_balancer.backends.discovery ≡ Discovery.local (with_backends addrs)
    unfolding LoadBalancer.new Backends.new
    built_local =
        let (selector, fresh) =
          built_fresh crates stream s p built u finds (Discovery.local (with_backends addrs))
            (create_discovery-local crates u addrs kind reads) in
        ap (λ (x : LoadBalancer Selector (Discovery (Resolver crates))). x.backends.discovery) fresh

    built-serves :
        {session : Session} (display : Display) (early : List (Event session (Resolver crates)))
        (w : Lookup (Resolver crates)) (es : List (Event session (Resolver crates)))
        (net : Network session) (io : net.Io) (tls : ServerTls session.ServerName)
        (tcp : session.TlsStream)
        → 0 < length addrs
        → length addrs < 2 ^ 64
        → net.terminate io ≡ ok (tls, tcp)
        → let in_use = run display p (early ++ refreshes w ∷ es) (started p) in
          (b : Backend) × Mem b.addr addrs
          × (call display net (sharing p in_use) io
              ≡ ending
                  (select net.rng none in_use.balancer).0
                  (session_end display net s.listen.protocol tcp b))
    built-serves display early w es net io tls tcp some_addr small handshake =
        let in_use = run display p (early ++ refreshes w ∷ es) (started p) in
        let (b, m, e) =
          run-serves (with_backends addrs) display p early w es net io tls tcp built_local
            (with_backends-IsServing addrs some_addr small) handshake in
        (
          b,
          with_backends-mem addrs b m,
          subst
              (λ (c : StreamServer).
                call display net (sharing p in_use) io
                ≡ ending (select net.rng none in_use.balancer).0
                    (session_end display net c.listen.protocol tcp b))
              (build_proxy-IsBuilt crates stream s p built).configured e,
        )

  -- In a server that was made, take the proxy of a stream server whose upstream is found locally and
  -- has at least one and fewer than 2^64 servers. Once it was refreshed, and whatever else happened
  -- before and since, every connection whose handshake succeeds is served: it asks for a
  -- backend whose address is among those that the servers read as, and ends as the session with it
  -- ends, by the stream server's protocol.
  pub try_from-serves :
      {session : Session} (display : Display) (config : UmayConfig) (stream : StreamConfig)
      (server : UmayServer crates) (i : ℕ) (s : StreamServer) (p : Proxy crates) (u : Upstream)
      (early : List (Event session (Resolver crates))) (w : Lookup (Resolver crates))
      (es : List (Event session (Resolver crates))) (net : Network session) (io : net.Io)
      (tls : ServerTls session.ServerName) (tcp : session.TlsStream)
      → config.stream ≡ some stream
      → try_from crates config ≡ ok server
      → get_elem? stream.servers i ≡ some s
      → get_elem? server.stream_proxies i ≡ some p
      → upstream stream s.proxy_pass ≡ some u
      → u.service_discovery ≡ ServiceDiscovery.local
      → 0 < length u.servers
      → length u.servers < 2 ^ 64
      → net.terminate io ≡ ok (tls, tcp)
      → let in_use = run display p (early ++ refreshes w ∷ es) (started p) in
        (b : Backend) × Mem (ok b.addr) (map (to_socket_addrs crates.parse_ip) u.servers)
        × (call display net (sharing p in_use) io
            ≡ ending
                (select net.rng none in_use.balancer).0
                (session_end display net s.listen.protocol tcp b))
  try_from-serves display config stream server i s p u early w es net io tls tcp has made at_s at_p
        finds kind some_server small handshake =
      let built =
        Yields-get_elem? (build_proxy crates stream) stream.servers server.stream_proxies i s p
          (try_from-Yields crates config stream server has made) at_s at_p in
      let (d, discovers) = built_discovery crates stream s p built u finds in
      let (addrs, reads) = create_discovery-Yields crates u d kind discovers in
      let same = Yields-length (to_socket_addrs crates.parse_ip) u.servers addrs reads in
      let (b, m, e) =
        built-serves stream s p built u finds addrs kind reads display early w es net io tls tcp
          (omega (arith, same)) (omega (arith, same)) handshake in
      (
        b,
        subst (Mem (ok b.addr)) (sym (Yields-map _ u.servers addrs reads)) (mem-map_of_mem ok m),
        e,
      )
