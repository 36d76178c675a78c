-- ===== src/App/Examples/Targets.antt =====
-- The theorems on where connections go, and on the whole program, at concrete configurations.
use umay.Base.{◌≡◌, ◌⊎◌, ◌↔◌, refl, [], ◌∷◌, String, none, some, ok, err, foreign, true}
use umay.Base.Dict.{get}
use umay.Net.{socket_addr}
use umay.App.Config.Listen
use umay.App.Config.Listen.{Protocol, ServiceDiscovery}
use umay.App.Config.Stream.{Upstream, StreamConfig, upstream}
use umay.App.Config.Tls.{read_trusted_certificate, read_certificate, read_certificate_key}
use umay.App.Config.Umay.{UmayConfig, ConfigCrate, load}
use umay.App.Examples.Data.{addr, crates, good, stream_of, config_of, upstream_of}
use umay.App.Main.{Tracing, Builder, build_runtime, main}
use umay.App.Main.Laws.{main-err_iff}
use umay.App.Server.{Proxy, UmayServer, build_proxy, try_from}
use umay.Balance.Backends
use umay.Balance.Discovery.Dns.{new_discovery}
use umay.Balance.Discovery.Local.{with_backends}
use umay.Balance.Discovery.Service.{Discovery}
use umay.Balance.LoadBalancer.{select}
use umay.Balance.LoadBalancer
use umay.Balance.Selection.Selector.{Selector, selector_algorithm}
use umay.Proxy.Stream
use umay.Tls.Credentials
use umay.Tls.Server.{ready}

abbrev pub proxy : Proxy crates
proxy = record {
  stream_config = good;
  tls_server = record {
    name = "default.default.serviceaccount.identity.umay.cluster.local";
    acceptor = (((1 ∷ []) ∷ [], true), ((1 ∷ []) ∷ [], 1 ∷ []));
  };
  load_balancer = record {
    selection = Selector.round_robin (record { index = 0 });
    backends = record { discovery = Discovery.local (with_backends (addr ∷ [])); backends = [] };
  };
}

builds : build_proxy crates (stream_of (good ∷ [])) good ≡ ok proxy
unfolding build_proxy upstream get Stream.new Credentials.try_from read_trusted_certificate
    read_certificate read_certificate_key LoadBalancer.new Backends.new socket_addr
builds = refl

abbrev pub server : UmayServer crates
server = record {
  stream_proxies = proxy ∷ [];
  http_proxies = [];
  config = config_of (stream_of (good ∷ []));
}

pub makes : try_from crates (config_of (stream_of (good ∷ []))) ≡ ok server
unfolding try_from
makes = rw builds

pub finds :
    upstream (stream_of (good ∷ [])) "fair" ≡ some (upstream_of Listen.LoadBalancer.round_robin)
unfolding upstream get
finds = refl

-- The same upstream, resolved by DNS.
abbrev named : Upstream
named = record (upstream_of Listen.LoadBalancer.round_robin) {
  service_discovery = ServiceDiscovery.dns;
}

abbrev pub dns_stream : StreamConfig
dns_stream = record { upstreams = ("fair", named) ∷ []; servers = good ∷ [] }

abbrev pub dns_proxy : Proxy crates
dns_proxy = record proxy {
  load_balancer = record {
    selection = Selector.round_robin (record { index = 0 });
    backends = record {
      discovery = Discovery.dns (record { resolver = ([], []); hostname = "10.0.0.1"; port = 53 });
      backends = [];
    };
  };
}

dns_builds : build_proxy crates dns_stream good ≡ ok dns_proxy
unfolding build_proxy upstream get Stream.new Credentials.try_from read_trusted_certificate
    read_certificate read_certificate_key LoadBalancer.new Backends.new socket_addr new_discovery
dns_builds = refl

abbrev pub dns_config : UmayConfig
dns_config = config_of dns_stream

abbrev pub dns_server : UmayServer crates
dns_server = record { stream_proxies = dns_proxy ∷ []; http_proxies = []; config = dns_config }

pub dns_makes : try_from crates dns_config ≡ ok dns_server
unfolding try_from
dns_makes = rw dns_builds

-- The file loads, and the runtime cannot be built.
abbrev crate : ConfigCrate
crate = record {
  Config = String;
  build = λ file prefix separator. ok file;
  try_deserialize = λ file. ok (config_of (stream_of (good ∷ [])));
}

abbrev builder : Builder
builder workers blocking = err (foreign 3)

abbrev tracing : Tracing
tracing = record {
  EnvFilter = String;
  debug = "debug";
  try_from_default_env = none;
  new = λ level. level;
}

main-err_iff_example :
    ((main crates crate builder tracing (λ name. none) []).run.result ≡ ready (err (foreign 3))) ↔ (
      (load crate (λ name. none) ≡ err (foreign 3))
      ⊎ ((config : UmayConfig) × (load crate (λ name. none) ≡ ok config)
          × (build_runtime builder config.worker_threads ≡ err (foreign 3))))
main-err_iff_example = main-err_iff crates crate builder [] (foreign 3) tracing (λ name. none)
