-- ===== src/App/Examples.antt =====
-- The theorems on the configuration at concrete values.
mod Data
mod Server
mod Targets
mod Tasks
mod Program
use umay.Base.{
  ℕ, ◌≡◌, ◌≢◌, inl, refl, List, [], ◌∷◌, ◌++◌, String, none, some, ok, err, panic, true, false,
  Bool, ◌>>=◌, no_upstream,
}
use umay.Base.Dict.{get}
use mathlib.Core.List.{foldl}
use umay.Net.{IpAddr, SocketAddr, socket_addr, ipv4_mapped, ipv4_mapped_idem}
use umay.Tls.Server.{ready}
use umay.App.Run.{run_server}
use umay.App.Run.Laws.{ports, stream_ports, run_server-ports, run_server-ne-err}
use umay.App.Crates.{Crates}
use umay.App.Config.Listen
use umay.App.Config.Listen.{Protocol, ServiceDiscovery}
use umay.App.Config.Tls.{
  Bytes, TlsConfig, read_trusted_certificate, read_certificate, read_certificate_key,
}
use umay.App.Config.Stream.{Upstream, StreamServer, StreamConfig, upstream, to_socket_addrs}
use umay.App.Config.Umay.{UmayConfig, ConfigCrate, load, get_upstream}
use umay.App.Config.Umay.Laws.{stream_upstreams, http_upstreams, get_upstream-get, Loads, load_iff}
use umay.App.Config.Dns.{Hickory, DnsConfig, into_resolver_config}
use umay.App.Config.Dns.Laws.{nameserver, domain, add_udp, opts, into_resolver_config-traverse}
use umay.App.Server.{UmayServer, try_from, Proxy, build_proxy, create_discovery}
use umay.Balance.Selection.Selector.{Selector}
use umay.Balance.LoadBalancer
use umay.Balance.Backends
use umay.Proxy.Stream
use umay.App.Server.Traverse.{traverse}
use umay.App.Server.Laws.{create_discovery-local}
use umay.App.Server.TryFrom.{
  Builds, try_from-Builds, try_from-err, try_from-panic, build_proxy-panic,
}
use umay.Balance.Discovery.Local.{with_backends}
use umay.Balance.Discovery.Service.{Discovery}
use umay.Balance.Discovery.Dns.{Resolvers}
use umay.Tls.Credentials
use umay.Tls.Credentials.{Rustls, Store}
use umay.App.Examples.Data.{
  hickory, resolvers, rustls, addr, crates, tls, upstream_of, server_of, good, lost, hashed,
  stream_of, config_of,
}

abbrev crate : ConfigCrate
crate = record {
  Config = String;
  build = λ file prefix separator. ok file;
  try_deserialize = λ file. ok (config_of (stream_of (good ∷ [])));
}

load_iff_example :
    (load crate (λ name. none) ≡ ok (config_of (stream_of (good ∷ [])))
      → Loads crate (λ name. none) (config_of (stream_of (good ∷ []))))
    × (Loads crate (λ name. none) (config_of (stream_of (good ∷ [])))
        → load crate (λ name. none) ≡ ok (config_of (stream_of (good ∷ []))))
load_iff_example = load_iff crate (λ name. none) (config_of (stream_of (good ∷ [])))

abbrev dns_config : DnsConfig
dns_config = record {
  nameservers = some ("10.0.0.1:53" ∷ []);
  search = "svc.cluster.local" ∷ "cluster.local" ∷ [];
  ndots = some 5;
}

into_resolver_config-traverse_example : into_resolver_config hickory (λ s. some addr) dns_config ≡ (
    traverse (nameserver hickory (λ s. some addr)) ("10.0.0.1:53" ∷ []) >>= λ addrs.
    traverse (domain hickory (λ s. some addr)) dns_config.search >>= λ names. ok (
      foldl hickory.add_search (foldl (add_udp hickory (λ s. some addr)) hickory.new addrs) names,
      opts hickory (λ s. some addr) (some 5),
    ))
into_resolver_config-traverse_example =
    into_resolver_config-traverse hickory (λ s. some addr) dns_config
