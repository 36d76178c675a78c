-- ===== src/App/Server/Targets.antt =====
-- Where the connections of a server that umay/src/app/server.rs built can go.
use native.Mathlib.Nat.{ℕ_set}
use mathlib.Core.List.{Mem-prop, mem-cons_self, mem-cons_of_mem}
use mathlib.Core.Path.{subst}
use mathlib.Core.Option.{some-injective}
use umay.Base.{
  ℕ, ◌≡◌, refl, ap, sym, ◌∙◌, List, [], ◌∷◌, none, some, Mem, All, ok, >>=-eq-ok, ok_or, no_servers,
  arith, ok-injective,
}
use umay.Base.OrdSet.{collect, All-collect}
use umay.Net.{IpAddr, SocketAddr, socket_addr, port}
use umay.Balance.Backend
use umay.Balance.Backend.{Backend, backend_ord}
use umay.Balance.Discovery.Local
use umay.Balance.Discovery.Local.{unit_backends, with_backends}
use umay.Balance.Discovery.Dns
use umay.Balance.Discovery.Dns.{DnsDiscovery, ip_backends, new_discovery, make_resolver}
use umay.Balance.Discovery.Service.{Discovery, Lookup}
use umay.Balance.Discovery.Service
use umay.Balance.LoadBalancer
use umay.Balance.Backends
use umay.Balance.Selection.Selector.{Selector}
use umay.Tls.{Session}
use umay.App.Crates.{Crates}
use umay.App.Config.Listen.{ServiceDiscovery}
use umay.App.Config.Stream.{
  UpstreamServer, Upstream, StreamServer, StreamConfig, upstream, to_socket_addrs,
}
use umay.App.Server.{Resolver, Proxy, build_proxy, create_discovery, discovery_of, first}
use umay.App.Server.Traverse.{Yields}
use umay.App.Server.Laws.{build_proxy-IsBuilt, create_discovery-local}
use umay.Proxy.Stream.Connection.{Display}
use umay.Proxy.Stream.Lifetime.{Event, started, run}
use umay.Proxy.Stream.Lifetime.Targets.{Reaches, AllAt, Finds, run-Reaches}

pub All-unit_backends :
    (P : SocketAddr → Type 0) (addrs : List SocketAddr)
    → All P addrs
    → AllAt P (unit_backends addrs)
unfolding Backend.new
All-unit_backends P [] h = tt
All-unit_backends P (a ∷ addrs) h = (h.0, All-unit_backends P addrs h.1)

module _ {A : Type 0} where
  pub All-weaken : (P Q : A → Type 0) → ((a : A) → P a → Q a) → (xs : List A) → All P xs → All Q xs
  All-weaken P Q f [] h = tt
  All-weaken P Q f (x ∷ xs) h = (f x h.0, All-weaken P Q f xs h.1)

  pub All-Mem : (xs : List A) → All (λ a. Mem a xs) xs
  All-Mem [] = tt
  All-Mem (x ∷ xs) = (
    mem-cons_self,
    All-weaken (λ a. Mem a xs) (λ a. Mem a (x ∷ xs)) (λ a. mem-cons_of_mem x) xs (All-Mem xs),
  )

ip_backends-port : (n : ℕ) (ips : List IpAddr) → AllAt (λ a. port a ≡ n) (ip_backends n ips)
unfolding Backend.new socket_addr
ip_backends-port n [] = tt
ip_backends-port n (IpAddr.v4 a ∷ ips) = (refl, ip_backends-port n ips)
ip_backends-port n (IpAddr.v6 a ∷ ips) = (refl, ip_backends-port n ips)

module _ {R : Type 0} where
  pub local-Finds :
      (addrs : List SocketAddr)
      → Finds {R = R} (λ a. Mem a addrs) (Discovery.local (with_backends addrs))
  unfolding Service.discover Local.discover with_backends
  local-Finds addrs w bs h =
      subst (AllAt (λ a. Mem a addrs)) {x = collect (unit_backends addrs)} (cc) (
        All-collect (λ (b : Backend). Mem b.addr addrs) (unit_backends addrs)
          (All-unit_backends (λ a. Mem a addrs) addrs (All-Mem addrs)))

  pub dns-Finds : (d : DnsDiscovery R) → Finds (λ a. port a ≡ d.port) (Discovery.dns d)
  unfolding Service.discover Dns.discover
  dns-Finds d w bs h =
      let (ips, _, k) = >>=-eq-ok (w d.resolver d.hostname) _ h in
      subst (AllAt (λ a. port a ≡ d.port)) {x = collect (ip_backends d.port ips)}
        (ground (arith, k))
        (All-collect (λ (b : Backend). port b.addr ≡ d.port) (ip_backends d.port ips)
          (ip_backends-port d.port ips))

-- The discovery that is made for DNS.
pub discovery_of-dns :
    (crates : Crates) (servers : List UpstreamServer) (us : UpstreamServer)
    (d : Discovery (Resolver crates))
    → first servers ≡ some us
    → discovery_of crates ServiceDiscovery.dns servers ≡ ok d
    → (x : DnsDiscovery (Resolver crates)) × (d ≡ Discovery.dns x) × (x.port ≡ us.port)
unfolding discovery_of new_discovery
discovery_of-dns crates servers us d e h =
    let (us', f, h1) = >>=-eq-ok (ok_or (first servers) no_servers) _ h in
    let (x, g, h2) =
      >>=-eq-ok (new_discovery crates.resolvers crates.parse_addr us'.address us'.port none) _ h1 in
    let (r, _, k) = >>=-eq-ok (make_resolver crates.resolvers crates.parse_addr none) _ g in
    (
      x,
      sym (ok-injective _ d h2),
      ap (λ (z : DnsDiscovery (Resolver crates)). z.port) (sym (ok-injective _ x k))
          ∙ ap (λ (z : UpstreamServer). z.port) (sym (ok-injective us us' (rw e at f))),
    )

module _ (crates : Crates) (config : StreamConfig) (s : StreamServer) (p : Proxy crates)
    (built : build_proxy crates config s ≡ ok p) (u : Upstream)
    (found : upstream config s.proxy_pass ≡ some u) where
  -- A built proxy starts with the empty set over the discovery of its upstream.
  pub built_fresh :
      (d : Discovery (Resolver crates))
      → create_discovery crates u ≡ ok d
      → (selector : Selector) × (p.load_balancer ≡ LoadBalancer.new (Backends.new d) selector)
  built_fresh d e =
      let b = build_proxy-IsBuilt crates config s p built in
      let i = b.initial in
      let same = some-injective b.found u (sym b.finds ∙ found) in
      (
        i.selector,
        subst (λ x. p.load_balancer ≡ LoadBalancer.new (Backends.new x) i.selector)
            {x = i.discovery} {y = d} (cc (same, e, i.discovers)) i.fresh,
      )

  pub built_discovery : (d : Discovery (Resolver crates)) × (create_discovery crates u ≡ ok d)
  built_discovery =
      let b = build_proxy-IsBuilt crates config s p built in
      let same = some-injective b.found u (sym b.finds ∙ found) in
      (
        b.initial.discovery,
        subst (λ x. create_discovery crates x ≡ ok b.initial.discovery) same b.initial.discovers,
      )

  -- For a proxy that was built for an upstream whose discovery is local and whose servers all read as
  -- addresses: every connection that it ever makes, whatever its clients, the network and the refresh
  -- task do, goes to one of these addresses.
  pub local-targets :
      {session : Session} (display : Display) (addrs : List SocketAddr)
      (es : List (Event session (Resolver crates)))
      → u.service_discovery ≡ ServiceDiscovery.local
      → Yields (to_socket_addrs crates.parse_ip) u.servers addrs
      → All (Reaches display (λ a. Mem a addrs)) (run display p es (started p)).asked
  local-targets display addrs es e h =
      let d = Discovery.local (with_backends addrs) in
      let (selector, fresh) = built_fresh d (create_discovery-local crates u addrs e h) in
      run-Reaches display (λ a. Mem a addrs) d (λ a. Mem-prop) (local-Finds addrs) p es selector
        fresh

  -- For a proxy that was built for an upstream whose discovery is by DNS: every connection that it ever
  -- makes, whatever its clients, the network, the resolver and the refresh task do, goes to the port
  -- of the upstream's first server.
  pub dns-targets :
      {session : Session} (display : Display) (us : UpstreamServer)
      (es : List (Event session (Resolver crates)))
      → u.service_discovery ≡ ServiceDiscovery.dns
      → first u.servers ≡ some us
      → All (Reaches display (λ a. port a ≡ us.port)) (run display p es (started p)).asked
  unfolding create_discovery
  dns-targets display us es e h =
      let (d, made) = built_discovery in
      let (x, is_dns, same) =
        discovery_of-dns crates u.servers us d h
          (subst (λ k. discovery_of crates k u.servers ≡ ok d) e made) in
      let (selector, fresh) = built_fresh (Discovery.dns x) (made ∙ ap ok is_dns) in
      subst (λ n. All (Reaches display (λ a. port a ≡ n)) (run display p es (started p)).asked) same
        (run-Reaches display (λ a. port a ≡ x.port) (Discovery.dns x) (λ a. ℕ_set (port a) x.port)
          (dns-Finds x) p es selector fresh)
