-- ===== src/App/Server/Deployment.antt =====
-- Where the connections of a whole server of umay/src/app/server.rs can go.
use mathlib.Core.List.{mem-map_of_mem}
use mathlib.Core.Path.{subst}
use umay.Base.{ℕ, ◌≡◌, refl, ap, sym, List, [], ◌∷◌, map, some, Mem, All, ok, get_elem?}
use umay.Net.{SocketAddr, port}
use umay.Balance.Discovery.Service.{Discovery}
use umay.Tls.{Session}
use umay.App.Crates.{Crates}
use umay.App.Config.Listen.{ServiceDiscovery}
use umay.App.Config.Stream.{
  UpstreamServer, Upstream, StreamServer, StreamConfig, upstream, to_socket_addrs,
}
use umay.App.Config.Umay.{UmayConfig}
use umay.App.Server.{
  Resolver, Proxy, UmayServer, build_proxy, create_discovery, first, try_from, discovery_of,
}
use umay.App.Server.Traverse.{Yields-get_elem?, Yields-map}
use umay.App.Server.TryFrom.{try_from-Yields}
use umay.App.Server.Laws.{build_proxy-IsBuilt, create_discovery-Yields}
use umay.App.Server.Targets.{All-weaken, local-targets, dns-targets}
use umay.Proxy.Stream.Connection.{Display, Action, connects, accepts_ws, connects_ws}
use umay.Proxy.Stream.Lifetime.{Event, started, run}
use umay.Proxy.Stream.Lifetime.Targets.{Reaches}

Reaches-weaken :
    (display : Display) (P Q : SocketAddr → Type 0)
    → ((a : SocketAddr) → P a → Q a)
    → (x : Action) → Reaches display P x
    → Reaches display Q x
Reaches-weaken display P Q f (connects addr) h = f addr h
Reaches-weaken display P Q f accepts_ws h = tt
Reaches-weaken display P Q f (connects_ws url) (addr, h, e) = (addr, f addr h, e)

module _ (crates : Crates) where
  -- The addresses that an upstream lists: those that its servers read as, or, where they are found by
  -- DNS, all with the port of the first.
  abbrev pub Lists : ServiceDiscovery → List UpstreamServer → SocketAddr → Type 0
  Lists ServiceDiscovery.local servers a =
      Mem (ok a) (map (to_socket_addrs crates.parse_ip) servers)
  Lists ServiceDiscovery.dns [] a = ⊥
  Lists ServiceDiscovery.dns (us ∷ servers) a = port a ≡ us.port

  module _ (stream : StreamConfig) (s : StreamServer) (p : Proxy crates)
      (built : build_proxy crates stream s ≡ ok p) (u : Upstream)
      (found : upstream stream s.proxy_pass ≡ some u) {session : Session} (display : Display)
      (es : List (Event session (Resolver crates))) where
    abbrev Targets : ServiceDiscovery → Type 0
    Targets k = All (Reaches display (Lists k u.servers)) (run display p es (started p)).asked

    kind-targets :
        (d : Discovery (Resolver crates))
        → create_discovery crates u ≡ ok d
        → (k : ServiceDiscovery) → u.service_discovery ≡ k
        → Targets k
    unfolding create_discovery discovery_of
    kind-targets d made ServiceDiscovery.local e =
        let (addrs, h) = create_discovery-Yields crates u d e made in
        All-weaken _ _
          (Reaches-weaken display (λ a. Mem a addrs) (Lists ServiceDiscovery.local u.servers)
            (λ a m.
              subst (Mem (ok a)) (sym (Yields-map _ u.servers addrs h)) (mem-map_of_mem ok m)))
          _ (local-targets crates stream s p built u found display addrs es e h)
    kind-targets d made ServiceDiscovery.dns e = by_servers u.servers refl
      where
        by_servers :
            (servers : List UpstreamServer)
            → u.servers ≡ servers
            → All
                (Reaches display (Lists ServiceDiscovery.dns servers))
                (run display p es (started p)).asked
        by_servers [] g = cc (
          made,
          ap (discovery_of crates ServiceDiscovery.dns) g,
          ap (λ k. discovery_of crates k u.servers) e,
        )
        by_servers (us ∷ servers) g =
            dns-targets crates stream s p built u found display us es e (ap first g)

  -- A server that was made from its configuration confines all connections: whatever the clients, the
  -- network, the resolver and the refresh task of the `i`-th proxy do, every connection that it ever
  -- makes goes to an address that the upstream of the `i`-th stream server lists: one that its servers
  -- read as, or, where they are found by DNS, one with the port of the first server.
  pub try_from-Lists :
      {session : Session} (display : Display) (config : UmayConfig) (stream : StreamConfig)
      (server : UmayServer crates) (i : ℕ) (s : StreamServer) (p : Proxy crates)
      (es : List (Event session (Resolver crates)))
      → config.stream ≡ some stream
      → try_from crates config ≡ ok server
      → get_elem? stream.servers i ≡ some s
      → get_elem? server.stream_proxies i ≡ some p
      → (u : Upstream) × (upstream stream s.proxy_pass ≡ some u)
        × All
            (Reaches display (Lists u.service_discovery u.servers))
            (run display p es (started p)).asked
  try_from-Lists display config stream server i s p es has made at_s at_p =
      let built =
        Yields-get_elem? (build_proxy crates stream) stream.servers server.stream_proxies i s p
          (try_from-Yields crates config stream server has made) at_s at_p in
      let b = build_proxy-IsBuilt crates stream s p built in
      (
        b.found,
        b.finds,
        kind-targets stream s p built b.found b.finds display es b.initial.discovery
            b.initial.discovers b.found.service_discovery refl,
      )
