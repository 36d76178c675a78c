-- ===== src/App/Config/Stream.antt =====
-- Upstreams and stream servers of umay/src/app/config.rs.
use umay.Base.{ℕ, List, String, Option, Outcome, ok, invalid_address, ◌>>=◌, ok_or}
use umay.Base.Dict.{get}
use umay.Net.{IpAddr, SocketAddr, socket_addr}
use umay.App.Config.Listen.{ListenConfig, LoadBalancer, ServiceDiscovery}
use umay.App.Config.Tls.{TlsConfig}

pub record UpstreamServer : Type 0 where
  pub address : String
  pub port : ℕ

-- `address.parse::<IpAddr>()` is the standard library's.
unfoldable pub to_socket_addrs : (String → Option IpAddr) → UpstreamServer → Outcome SocketAddr
to_socket_addrs parse_ip s = do
  ip ← ok_or (parse_ip s.address) invalid_address
  ok (socket_addr ip s.port)

pub record Upstream : Type 0 where
  pub load_balancer : LoadBalancer
  pub service_discovery : ServiceDiscovery
  pub servers : List UpstreamServer

unfoldable pub new_upstream : LoadBalancer → ServiceDiscovery → List UpstreamServer → Upstream
new_upstream load_balancer service_discovery servers = record {
  load_balancer = load_balancer;
  service_discovery = service_discovery;
  servers = servers;
}

unfoldable pub new_upstream_server : String → ℕ → UpstreamServer
new_upstream_server address port = record { address = address; port = port }

pub record StreamServer : Type 0 where
  pub name : String
  pub listen : ListenConfig
  pub proxy_pass : String
  pub tls : Option TlsConfig

unfoldable pub new_stream_server : String → ListenConfig → String → Option TlsConfig → StreamServer
new_stream_server name listen proxy_pass tls = record {
  name = name;
  listen = listen;
  proxy_pass = proxy_pass;
  tls = tls;
}

unfoldable pub set_name : StreamServer → String → StreamServer
set_name s name = record s { name = name }

unfoldable pub set_listen : StreamServer → ListenConfig → StreamServer
set_listen s listen = record s { listen = listen }

unfoldable pub set_proxy_pass : StreamServer → String → StreamServer
set_proxy_pass s proxy_pass = record s { proxy_pass = proxy_pass }

unfoldable pub set_tls : StreamServer → Option TlsConfig → StreamServer
set_tls s tls = record s { tls = tls }

pub record StreamConfig : Type 0 where
  pub upstreams : List (String × Upstream)
  pub servers : List StreamServer

unfoldable pub upstream : StreamConfig → String → Option Upstream
upstream c key = get c.upstreams key

unfoldable pub new_stream_config : List (String × Upstream) → List StreamServer → StreamConfig
new_stream_config upstreams servers = record { upstreams = upstreams; servers = servers }
