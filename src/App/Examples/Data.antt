-- ===== src/App/Examples/Data.antt =====
-- Crates, stream servers and configurations to apply the theorems on umay/src/app to.
use umay.Base.{ℕ, List, [], ◌∷◌, String, none, some, ok, true, Bool}
use umay.Net.{IpAddr, SocketAddr}
use umay.App.Crates.{Crates}
use umay.App.Config.Listen
use umay.App.Config.Listen.{Protocol, ServiceDiscovery}
use umay.App.Config.Tls.{Bytes, TlsConfig}
use umay.App.Config.Stream.{Upstream, StreamServer, StreamConfig}
use umay.App.Config.Umay.{UmayConfig}
use umay.App.Config.Dns.{Hickory}
use umay.Balance.Discovery.Dns.{Resolvers}
use umay.Tls.Credentials.{Rustls}

abbrev pub hickory : Hickory
hickory = record {
  ResolverConfig = List SocketAddr × List String;
  ResolverOpts = ℕ;
  Name = String;
  new = ([], []);
  add_name_server = λ config addr protocol. (addr ∷ config.0, config.1);
  add_search = λ config name. (config.0, name ∷ config.1);
  default_opts = 1;
  set_ndots = λ o n. n;
  parse_name = λ s. some s;
}

abbrev pub resolvers : Resolvers hickory
resolvers = record {
  Resolver = List SocketAddr × List String;
  tokio = λ config o. config;
  tokio_from_system_conf = ok ([], []);
}

-- A configuration is what it was made from; every file parses.
abbrev pub rustls : Rustls
rustls = record {
  ServerName = String;
  RootCertStore = List Bytes;
  PrivateKey = Bytes;
  SigningKey = Bytes;
  CertifiedKey = List Bytes × Bytes;
  ServerCertVerifier = List Bytes;
  ClientCertVerifier = List Bytes × Bool;
  ClientConfig = List Bytes × ((List Bytes × Bytes) × Bool);
  ServerConfig = (List Bytes × Bool) × (List Bytes × Bytes);
  parse_name = ok;
  is_utf8 = λ pem. true;
  certs = λ pem. ok (pem ∷ []);
  private_key = λ pem. ok (some pem);
  any_ecdsa_type = ok;
  certified_key = λ certs key. (certs, key);
  add_parsable_certificates = λ certs. certs;
  server_cert_verifier = ok;
  client_cert_verifier = λ roots allow. ok (roots, allow);
  client_config = λ verifier key resumption. (verifier, (key, resumption));
  server_config = λ verifier key. (verifier, key);
}

abbrev pub addr : SocketAddr
addr = SocketAddr.v4 0x0a000001 53

abbrev pub crates : Crates
crates = record {
  rustls = rustls;
  Acceptor = (List Bytes × Bool) × (List Bytes × Bytes);
  acceptor_from = λ config. config;
  hickory = hickory;
  resolvers = resolvers;
  parse_addr = λ s. some addr;
  parse_ip = λ s. some (IpAddr.v4 0x0a000001);
  read = λ path. ok (1 ∷ []);
}

abbrev pub tls : TlsConfig
tls = record {
  enabled = true;
  proxy_tls_certificate = "cert.pem";
  proxy_tls_certificate_key = "key.pem";
  proxy_tls_trusted_certificate = "ca.pem";
  proxy_tls_verify = true;
  proxy_tls_verify_depth = 2;
  proxy_tls_session_reuse = true;
  proxy_tls_protocols = [];
  proxy_tls_ciphers = "HIGH";
}

abbrev pub upstream_of : Listen.LoadBalancer → Upstream
upstream_of kind = record {
  load_balancer = kind;
  service_discovery = ServiceDiscovery.local;
  servers = record { address = "10.0.0.1"; port = 53 } ∷ [];
}

abbrev pub server_of : Protocol → String → StreamServer
server_of protocol pass = record {
  name = "front";
  listen = record { port = 443; protocol = protocol };
  proxy_pass = pass;
  tls = some tls;
}

abbrev pub good : StreamServer
good = server_of Protocol.tcp "fair"

-- Its upstream is not in the table.
abbrev pub lost : StreamServer
lost = server_of Protocol.ws "lost"

abbrev pub hashed : StreamServer
hashed = server_of Protocol.tcp "hashed"

abbrev pub stream_of : List StreamServer → StreamConfig
stream_of servers = record {
  upstreams =
      ("fair", upstream_of Listen.LoadBalancer.round_robin)
      ∷ ("hashed", upstream_of Listen.LoadBalancer.ip_hash)
      ∷ [];
  servers = servers;
}

abbrev pub config_of : StreamConfig → UmayConfig
config_of stream = record {
  worker_threads = 4;
  close_timeout = 1;
  exit_timeout = 1;
  shutdown_grace_period = 1;
  stream = some stream;
  http = none;
}
