-- ===== src/App/Server/Laws.antt =====
-- What umay/src/app/server.rs builds for one stream server.
use mathlib.Core.List.{append-nil, append_assoc}
use mathlib.Core.Path.{subst}
use umay.Base.{
  ◌≡◌, ◌⊎◌, inl, inr, refl, ap, sym, ◌∙◌, List, [], ◌∷◌, ◌++◌, Option, none, some, Outcome, ok, err,
  panic, Error, ◌>>=◌, >>=-eq-ok, ok_or, no_tls_config, no_upstream, no_servers,
}
use umay.Net.{SocketAddr}
use umay.Balance.Discovery.Local.{with_backends}
use umay.App.Crates.{Crates}
use umay.App.Config.Tls.{TlsConfig}
use umay.App.Config.Listen.{Protocol, ServiceDiscovery}
use umay.App.Config.Stream.{
  UpstreamServer, Upstream, StreamServer, StreamConfig, upstream, to_socket_addrs,
}
use umay.Balance.LoadBalancer
use umay.Balance.Backends
use umay.Balance.Discovery.Dns.{new_discovery}
use umay.App.Server.{
  discovery_of, first, Resolver, create_selector, Proxy, Balancer, socket_addrs, create_discovery,
  initialize_load_balancer, proxy_for, build_proxy, build_proxies,
}
use umay.App.Server.Traverse.{traverse, Yields, traverse-ok, Yields-traverse}
use umay.Balance.Discovery.Service.{Discovery, IsFit}
use umay.Balance.Discovery.Local.Laws.{with_backends-IsValid}
use umay.Balance.Selection.Selector.{Selector}
use umay.Tls.Credentials
use umay.Tls.Credentials.{Store}
use umay.Proxy.Stream
use umay.Proxy.Stream.{StreamProxy}

-- What a loop that has pushed `pre` makes of the rest's result.
append_ok : {A : Type 0} → List A → Outcome (List A) → Outcome (List A)
append_ok pre r = r >>= λ xs. ok (pre ++ xs)

append_ok-cons :
    {A : Type 0} (pre : List A) (x : A) (r : Outcome (List A))
    → append_ok (pre ++ x ∷ []) r ≡ append_ok pre (r >>= λ xs. ok (x ∷ xs))
unfolding append_ok
append_ok-cons pre x (ok xs) = ap ok (append_assoc pre (x ∷ []) xs)
append_ok-cons pre x (err e) = refl
append_ok-cons pre x panic = refl

append_ok-bind :
    {B : Type 0} (pre : List B) (r : Outcome B) (rest : Outcome (List B))
    (loop : List B → Outcome (List B))
    → ((x : B) → loop (pre ++ x ∷ []) ≡ append_ok (pre ++ x ∷ []) rest)
    → (r >>= λ x. loop (pre ++ x ∷ [])) ≡ append_ok pre (r >>= λ x. rest >>= λ xs. ok (x ∷ xs))
unfolding append_ok
append_ok-bind pre (ok x) rest loop h = h x ∙ append_ok-cons pre x rest
append_ok-bind pre (err e) rest loop h = refl
append_ok-bind pre panic rest loop h = refl

append_ok-nil : {A : Type 0} (r : Outcome (List A)) → append_ok [] r ≡ r
unfolding append_ok
append_ok-nil (ok xs) = refl
append_ok-nil (err e) = refl
append_ok-nil panic = refl

module _ (crates : Crates) where
  build_proxies-append :
      (config : StreamConfig) (pre : List (Proxy crates)) (servers : List StreamServer)
      → build_proxies crates config pre servers
        ≡ append_ok pre (traverse (build_proxy crates config) servers)
  unfolding build_proxies traverse append_ok
  build_proxies-append config pre [] = ap ok (sym (append-nil pre))
  build_proxies-append config pre (s ∷ servers) =
      append_ok-bind pre (build_proxy crates config s)
        (traverse (build_proxy crates config) servers)
        (λ proxies. build_proxies crates config proxies servers)
        (λ x. build_proxies-append config (pre ++ x ∷ []) servers)

  pub build_proxies-traverse :
      (config : StreamConfig)
      → build_proxies crates config [] config.servers
        ≡ traverse (build_proxy crates config) config.servers
  build_proxies-traverse config = build_proxies-append config [] config.servers ∙ append_ok-nil _

  -- The loop of the local discovery.
  socket_addrs-append :
      (pre : List SocketAddr) (servers : List UpstreamServer)
      → socket_addrs crates pre servers
        ≡ append_ok pre (traverse (to_socket_addrs crates.parse_ip) servers)
  unfolding socket_addrs traverse append_ok
  socket_addrs-append pre [] = ap ok (sym (append-nil pre))
  socket_addrs-append pre (us ∷ servers) =
      append_ok-bind pre (to_socket_addrs crates.parse_ip us)
        (traverse (to_socket_addrs crates.parse_ip) servers)
        (λ addrs. socket_addrs crates addrs servers)
        (λ x. socket_addrs-append (pre ++ x ∷ []) servers)

  -- For an upstream with local discovery whose servers all parse, the discovery holds the set of
  -- their addresses.
  pub create_discovery-local :
      (u : Upstream) (addrs : List SocketAddr)
      → u.service_discovery ≡ ServiceDiscovery.local
      → Yields (to_socket_addrs crates.parse_ip) u.servers addrs
      → create_discovery crates u ≡ ok (Discovery.local (with_backends addrs))
  unfolding create_discovery append_ok with_backends
  create_discovery-local u addrs e h = rw (
    e,
    discovery_of,
    socket_addrs-append [] u.servers,
    Yields-traverse (to_socket_addrs crates.parse_ip) u.servers addrs h,
    append_ok,
  )

  -- Where the discovery is made, all servers parse.
  pub create_discovery-Yields :
      (u : Upstream) (d : Discovery (Resolver crates))
      → u.service_discovery ≡ ServiceDiscovery.local
      → create_discovery crates u ≡ ok d
      → (addrs : List SocketAddr) × Yields (to_socket_addrs crates.parse_ip) u.servers addrs
  unfolding create_discovery discovery_of
  create_discovery-Yields u d e h =
      let made = subst (λ k. discovery_of crates k u.servers ≡ ok d) e h in
      let (addrs, g, _) = >>=-eq-ok (socket_addrs crates [] u.servers) _ made in
      (
        addrs,
        traverse-ok (to_socket_addrs crates.parse_ip) u.servers addrs
            (sym (append_ok-nil _) ∙ sym (socket_addrs-append [] u.servers) ∙ g),
      )

  discovery-IsFit :
      (kind : ServiceDiscovery) (servers : List UpstreamServer) (d : Discovery (Resolver crates))
      → discovery_of crates kind servers ≡ ok d
      → IsFit d
  unfolding discovery_of
  discovery-IsFit ServiceDiscovery.dns servers d h =
      let (us, _, h) = >>=-eq-ok (ok_or (first servers) no_servers) _ h in
      let (dns, _, h) =
        >>=-eq-ok (new_discovery crates.resolvers crates.parse_addr us.address us.port none) _ h in
      subst IsFit {x = Discovery.dns dns} (cc) tt
  discovery-IsFit ServiceDiscovery.local servers d h =
      let (addrs, _, h) = >>=-eq-ok (socket_addrs crates [] servers) _ h in
      subst IsFit {x = Discovery.local (with_backends addrs)} (cc) (with_backends-IsValid addrs)

  -- The balancer of an upstream: of its discovery, which is fit for use, with the empty set and the
  -- configured algorithm at its start.
  pub record IsInitial (u : Upstream) (lb : Balancer crates) : Type 0 where
    pub discovery : Discovery (Resolver crates)
    pub selector : Selector
    pub fresh : lb ≡ LoadBalancer.new (Backends.new discovery) selector
    pub discovers : create_discovery crates u ≡ ok discovery
    pub fit : IsFit discovery
    pub selects : create_selector u.load_balancer ≡ ok selector

  initialize-IsInitial :
      (u : Upstream) (lb : Balancer crates)
      → initialize_load_balancer crates u ≡ ok lb
      → IsInitial u lb
  unfolding initialize_load_balancer
  initialize-IsInitial u lb h =
      let (discovery, e, h) = >>=-eq-ok (create_discovery crates u) _ h in
      let (selector, f, h) = >>=-eq-ok (create_selector u.load_balancer) _ h in
      record {
        discovery = discovery;
        selector = selector;
        fresh = cc;
        discovers = e;
        fit =
            discovery-IsFit u.service_discovery u.servers discovery (unfold create_discovery in e);
        selects = f;
      }

  pub record IsBuilt (config : StreamConfig) (s : StreamServer) (p : Proxy crates) : Type 0 where
    pub configured : p.stream_config ≡ s
    pub served : (s.listen.protocol ≡ Protocol.tcp) ⊎ (s.listen.protocol ≡ Protocol.ws)
    pub tls : TlsConfig
    pub has_tls : s.tls ≡ some tls
    pub store : Store crates.rustls
    pub makes : Credentials.try_from crates.rustls crates.read tls ≡ ok store
    pub accepts : p.tls_server.acceptor ≡ crates.acceptor_from store.server_cfg
    pub found : Upstream
    pub finds : upstream config s.proxy_pass ≡ some found
    pub initial : IsInitial found p.load_balancer

  ok_or-ok : {A : Type 0} (o : Option A) (e : Error) (a : A) → ok_or o e ≡ ok a → o ≡ some a
  ok_or-ok none e a h = cc
  ok_or-ok (some b) e a h = cc

  proxy_for-ok :
      (p : Protocol) (x y : Proxy crates)
      → proxy_for crates p x ≡ ok y
      → (x ≡ y) × ((p ≡ Protocol.tcp) ⊎ (p ≡ Protocol.ws))
  proxy_for-ok Protocol.tcp x y h = (cc, inl refl)
  proxy_for-ok Protocol.ws x y h = (cc, inr refl)
  proxy_for-ok Protocol.udp x y h = cc
  proxy_for-ok Protocol.http x y h = cc

  pub build_proxy-IsBuilt :
      (config : StreamConfig) (s : StreamServer) (p : Proxy crates)
      → build_proxy crates config s ≡ ok p
      → IsBuilt config s p
  unfolding build_proxy Stream.new
  build_proxy-IsBuilt config s p h =
      let (tls, e, h) = >>=-eq-ok (ok_or s.tls no_tls_config) _ h in
      let (store, f, h) = >>=-eq-ok (Credentials.try_from crates.rustls crates.read tls) _ h in
      let (found, g, h) = >>=-eq-ok (ok_or (upstream config s.proxy_pass) no_upstream) _ h in
      let (lb, k, h) = >>=-eq-ok (initialize_load_balancer crates found) _ h in
      let (same, served) = proxy_for-ok s.listen.protocol _ p h in
      record {
        configured = sym (ap (λ (q : Proxy crates). q.stream_config) same);
        served = served;
        tls = tls;
        has_tls = ok_or-ok s.tls no_tls_config tls e;
        store = store;
        makes = f;
        accepts = sym (ap (λ (q : Proxy crates). q.tls_server.acceptor) same);
        found = found;
        finds = ok_or-ok (upstream config s.proxy_pass) no_upstream found g;
        initial =
            subst (IsInitial found) (ap (λ (q : Proxy crates). q.load_balancer) same)
              (initialize-IsInitial found lb k);
      }
