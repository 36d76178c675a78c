-- ===== src/App/Server.antt =====
-- umay/src/app/server.rs: building the proxies from a configuration.
pub mod Traverse
pub mod Laws
pub mod TryFrom
pub mod Targets
pub mod Deployment
pub mod Serving
pub mod Listed
pub mod Starts
pub mod Tasks
use umay.Base.{
  ℕ, List, [], ◌∷◌, ◌++◌, String, Option, none, some, Outcome, ok, err, panic, ◌>>=◌, ok_or,
  no_tls_config, no_upstream, no_servers,
}
use umay.Net.{SocketAddr}
use umay.App.Crates.{Crates}
use umay.App.Config.Listen.{Protocol, ServiceDiscovery}
use umay.App.Config.Listen
use umay.App.Config.Stream.{
  UpstreamServer, Upstream, StreamServer, StreamConfig, upstream, to_socket_addrs,
}
use umay.App.Config.Umay.{UmayConfig}
use umay.Balance.Backends
use umay.Balance.LoadBalancer
use umay.Balance.LoadBalancer.{LoadBalancer}
use umay.Balance.Discovery.Dns.{new_discovery}
use umay.Balance.Discovery.Local.{with_backends}
use umay.Balance.Discovery.Service.{Discovery}
use umay.Balance.Selection.Selector.{Selector}
use umay.Balance.Selection.Random
use umay.Balance.Selection.RoundRobin
use umay.Balance.Selection.WeightedRoundRobin
use umay.Balance.Selection.LeastConnections
use umay.Tls.Server
use umay.Tls.Server.{Server}
use umay.Tls.Credentials
use umay.Tls.Credentials.{Store}
use umay.Proxy.Stream
use umay.Proxy.Stream.{StreamProxy}
use umay.Proxy.Http.{HttpProxy}

unfoldable pub create_selector : Listen.LoadBalancer → Outcome Selector
unfolding RoundRobin.default WeightedRoundRobin.default LeastConnections.default
create_selector Listen.LoadBalancer.random = ok (Selector.random Random.random)
create_selector Listen.LoadBalancer.round_robin = ok (Selector.round_robin RoundRobin.default)
create_selector Listen.LoadBalancer.weighted_round_robin =
    ok (Selector.weighted_round_robin WeightedRoundRobin.default)
create_selector Listen.LoadBalancer.least_conn =
    ok (Selector.least_connections LeastConnections.default)
create_selector Listen.LoadBalancer.ip_hash = panic

-- `.iter().next()`
abbrev pub first {ℓ} : {A : Type ℓ} → List A → Option A
first [] = none
first (x ∷ xs) = some x

module _ (crates : Crates) where
  open crates use {rustls, Acceptor, acceptor_from, resolvers, parse_addr, parse_ip, read}

  abbrev pub Resolver : Type 0
  Resolver = resolvers.Resolver

  abbrev pub Balancer : Type 0
  Balancer = LoadBalancer Selector (Discovery Resolver)

  abbrev pub Proxy : Type 0
  Proxy = StreamProxy rustls.ServerName Acceptor Resolver

  -- The `for` loop of the local discovery.
  unfoldable pub socket_addrs : List SocketAddr → List UpstreamServer → Outcome (List SocketAddr)
  unfolding to_socket_addrs
  socket_addrs backends [] = ok backends
  socket_addrs backends (us ∷ servers) = do
    addr ← to_socket_addrs parse_ip us
    socket_addrs (backends ++ addr ∷ []) servers

  unfoldable pub discovery_of :
      ServiceDiscovery → List UpstreamServer → Outcome (Discovery Resolver)
  unfolding socket_addrs new_discovery
  discovery_of ServiceDiscovery.dns servers = do
    us ← ok_or (first servers) no_servers
    discovery ← new_discovery resolvers parse_addr us.address us.port none
    ok (Discovery.dns discovery)
  discovery_of ServiceDiscovery.local servers = do
    backends ← socket_addrs [] servers
    ok (Discovery.local (with_backends backends))

  unfoldable pub create_discovery : Upstream → Outcome (Discovery Resolver)
  unfolding discovery_of
  create_discovery config = discovery_of config.service_discovery config.servers

  unfoldable pub initialize_load_balancer : Upstream → Outcome Balancer
  unfolding create_discovery create_selector
  initialize_load_balancer upstream = do
    discovery ← create_discovery upstream
    let backends = Backends.new discovery
    selector ← create_selector upstream.load_balancer
    ok (LoadBalancer.new backends selector)

  unfoldable pub initialize_tls_server : Store rustls → Outcome (Server rustls.ServerName Acceptor)
  unfolding Server.new
  initialize_tls_server store = ok (Server.new acceptor_from store.name store.server_cfg)

  -- The `match` on the protocol: the two others are `todo!()`.
  abbrev pub proxy_for : Protocol → Proxy → Outcome Proxy
  proxy_for Protocol.tcp proxy = ok proxy
  proxy_for Protocol.ws proxy = ok proxy
  proxy_for Protocol.udp proxy = panic
  proxy_for Protocol.http proxy = panic

  -- The body of the loop over the servers, up to the `push`.
  unfoldable pub build_proxy : StreamConfig → StreamServer → Outcome Proxy
  unfolding initialize_load_balancer initialize_tls_server
  build_proxy config server = do
    tls_config ← ok_or server.tls no_tls_config
    store ← Credentials.try_from rustls read tls_config
    tls_server ← initialize_tls_server store
    found ← ok_or (upstream config server.proxy_pass) no_upstream
    load_balancer ← initialize_load_balancer found
    proxy_for server.listen.protocol (Stream.new server tls_server load_balancer)

  unfoldable pub build_proxies :
      StreamConfig → List Proxy → List StreamServer → Outcome (List Proxy)
  unfolding build_proxy
  build_proxies config proxies [] = ok proxies
  build_proxies config proxies (server ∷ servers) = do
    proxy ← build_proxy config server
    build_proxies config (proxies ++ proxy ∷ []) servers

  -- The metrics are left out: nothing reads them.
  pub record UmayServer : Type 0 where
    pub stream_proxies : List Proxy
    pub http_proxies : List HttpProxy
    pub config : UmayConfig

  unfoldable pub stream_proxies_of : Option StreamConfig → Outcome (List Proxy)
  unfolding build_proxies
  stream_proxies_of none = ok []
  stream_proxies_of (some stream) = build_proxies stream [] stream.servers

  unfoldable pub try_from : UmayConfig → Outcome UmayServer
  unfolding stream_proxies_of
  try_from config = do
    proxies ← stream_proxies_of config.stream
    ok (record { stream_proxies = proxies; http_proxies = []; config = config })
