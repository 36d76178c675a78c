-- ===== src/App/Server/Starts.antt =====
-- Which configurations `UmayServer::try_from` of umay/src/app/server.rs makes a server from.
use umay.Base.{
  ◌≡◌, ◌≢◌, ◌⊎◌, ◌↔◌, inl, inr, refl, ap, sym, ◌∙◌, List, [], ◌∷◌, Option, none, some, ok, All,
  >>=-eq-ok,
}
use umay.App.Crates.{Crates}
use umay.App.Config.Listen.{Protocol}
use umay.App.Config.Listen
use umay.App.Config.Tls.{TlsConfig}
use umay.App.Config.Stream.{Upstream, StreamServer, StreamConfig, upstream}
use umay.App.Config.Umay.{UmayConfig}
use umay.App.Server.{
  Resolver, Proxy, create_selector, proxy_for, create_discovery, build_proxy, UmayServer,
  stream_proxies_of, try_from,
}
use umay.App.Server.Traverse.{Yields, Yields-traverse, traverse-ok}
use umay.App.Server.Laws.{IsBuilt, build_proxies-traverse, build_proxy-IsBuilt}
use umay.Balance.Backends
use umay.Balance.LoadBalancer
use umay.Proxy.Stream
use umay.Tls.Server
use umay.Balance.Discovery.Service.{Discovery}
use umay.Balance.Selection.Selector.{Selector}
use umay.Tls.Credentials
use umay.Tls.Credentials.{Store}

create_selector-ok :
    (k : Listen.LoadBalancer)
    → k ≢ Listen.LoadBalancer.ip_hash
    → (s : Selector) × (create_selector k ≡ ok s)
unfolding create_selector
create_selector-ok Listen.LoadBalancer.random h = (_, refl)
create_selector-ok Listen.LoadBalancer.round_robin h = (_, refl)
create_selector-ok Listen.LoadBalancer.weighted_round_robin h = (_, refl)
create_selector-ok Listen.LoadBalancer.least_conn h = (_, refl)
create_selector-ok Listen.LoadBalancer.ip_hash h = absurd (h refl)

ip_hash-panic :
    (k : Listen.LoadBalancer) (s : Selector)
    → create_selector k ≡ ok s
    → k ≢ Listen.LoadBalancer.ip_hash
unfolding create_selector
ip_hash-panic k s h = λ e. cc (ap create_selector e)

module _ (crates : Crates) where
  -- A stream server that can be started: it has a TLS configuration whose files make a store, its
  -- upstream is in the table, with a discovery that can be made, and what it asks for is implemented.
  pub record IsReady (stream : StreamConfig) (s : StreamServer) : Type 0 where
    pub tls : TlsConfig
    pub has_tls : s.tls ≡ some tls
    pub store : Store crates.rustls
    pub makes : Credentials.try_from crates.rustls crates.read tls ≡ ok store
    pub found : Upstream
    pub finds : upstream stream s.proxy_pass ≡ some found
    pub discovery : Discovery (Resolver crates)
    pub discovers : create_discovery crates found ≡ ok discovery
    pub selects : found.load_balancer ≢ Listen.LoadBalancer.ip_hash
    pub serves : (s.listen.protocol ≡ Protocol.tcp) ⊎ (s.listen.protocol ≡ Protocol.ws)

  abbrev pub AllReady : Option StreamConfig → Type 0
  AllReady none = Unit
  AllReady (some stream) = All (IsReady stream) stream.servers

  proxy_for-served :
      (p : Protocol) (x : Proxy crates)
      → (p ≡ Protocol.tcp) ⊎ (p ≡ Protocol.ws)
      → proxy_for crates p x ≡ ok x
  proxy_for-served p x (inl e) = ap (λ q. proxy_for crates q x) e
  proxy_for-served p x (inr e) = ap (λ q. proxy_for crates q x) e

  ready_builds :
      (stream : StreamConfig) (s : StreamServer)
      → IsReady stream s
      → (p : Proxy crates) × (build_proxy crates stream s ≡ ok p)
  unfolding build_proxy
  ready_builds stream s h =
      let (sel, e) = create_selector-ok h.found.load_balancer h.selects in
      let tls_server = Server.new crates.acceptor_from h.store.name h.store.server_cfg in
      let balancer = LoadBalancer.new (Backends.new h.discovery) sel in
      (
        Stream.new s tls_server balancer,
        rw (h.has_tls, h.makes, h.finds, h.discovers, e)
            (proxy_for-served s.listen.protocol _ h.serves),
      )

  built-IsReady :
      (stream : StreamConfig) (s : StreamServer) (p : Proxy crates)
      → IsBuilt crates stream s p
      → IsReady stream s
  built-IsReady stream s p b = record {
    tls = b.tls;
    has_tls = b.has_tls;
    store = b.store;
    makes = b.makes;
    found = b.found;
    finds = b.finds;
    discovery = b.initial.discovery;
    discovers = b.initial.discovers;
    selects = ip_hash-panic b.found.load_balancer b.initial.selector b.initial.selects;
    serves = b.served;
  }

  All-Yields :
      (stream : StreamConfig) (servers : List StreamServer)
      → All (IsReady stream) servers
      → (proxies : List (Proxy crates)) × Yields (build_proxy crates stream) servers proxies
  All-Yields stream [] h = ([], tt)
  All-Yields stream (s ∷ servers) h =
      let (p, e) = ready_builds stream s h.0 in
      let (proxies, rest) = All-Yields stream servers h.1 in (p ∷ proxies, (e, rest))

  Yields-IsReady :
      (stream : StreamConfig) (servers : List StreamServer) (proxies : List (Proxy crates))
      → Yields (build_proxy crates stream) servers proxies
      → All (IsReady stream) servers
  Yields-IsReady stream [] proxies h = tt
  Yields-IsReady stream (s ∷ servers) [] h = absurd h
  Yields-IsReady stream (s ∷ servers) (p ∷ proxies) h = (
    built-IsReady stream s p (build_proxy-IsBuilt crates stream s p h.0),
    Yields-IsReady stream servers proxies h.1,
  )

  stream_proxies_of-ready :
      (stream : Option StreamConfig)
      → AllReady stream
      → (proxies : List (Proxy crates)) × (stream_proxies_of crates stream ≡ ok proxies)
  unfolding stream_proxies_of
  stream_proxies_of-ready none h = ([], refl)
  stream_proxies_of-ready (some stream) h =
      let (proxies, y) = All-Yields stream stream.servers h in
      (
        proxies,
        build_proxies-traverse crates stream
            ∙ Yields-traverse (build_proxy crates stream) stream.servers proxies y,
      )

  ready_of_proxies :
      (stream : Option StreamConfig) (proxies : List (Proxy crates))
      → stream_proxies_of crates stream ≡ ok proxies
      → AllReady stream
  unfolding stream_proxies_of
  ready_of_proxies none proxies h = tt
  ready_of_proxies (some stream) proxies h = Yields-IsReady stream stream.servers proxies (
      traverse-ok (build_proxy crates stream) stream.servers proxies
        (sym (build_proxies-traverse crates stream) ∙ h))

  -- A server is made from a configuration just when each of its stream servers is ready: it has a TLS
  -- configuration whose files make a store, its upstream is in the table with a discovery that can be
  -- made, the upstream does not ask for IP hashing, and the protocol is TCP or WebSocket.
  pub try_from-ok_iff :
      (config : UmayConfig)
      → ((server : UmayServer crates) × (try_from crates config ≡ ok server))
        ↔ AllReady config.stream
  unfolding try_from
  try_from-ok_iff config = (forth, back)
    where
      forth :
          (server : UmayServer crates) × (try_from crates config ≡ ok server)
          → AllReady config.stream
      forth (server, h) =
          let (proxies, e, _) = >>=-eq-ok (stream_proxies_of crates config.stream) _ h in
          ready_of_proxies config.stream proxies e

      back :
          AllReady config.stream
          → (server : UmayServer crates) × (try_from crates config ≡ ok server)
      back h =
          let (proxies, e) = stream_proxies_of-ready config.stream h in
          (record { stream_proxies = proxies; http_proxies = []; config = config }, rw e refl)
