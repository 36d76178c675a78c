-- ===== src/App/Examples/Server.antt =====
-- The theorems on the construction and the running of the server at concrete crates.
use umay.Base.{◌↔◌, ◌≡◌, refl, List, [], ◌∷◌, some, ok, err, true, false, no_upstream}
use umay.Base.Dict.{get}
use umay.Net.{socket_addr}
use umay.App.Run.{run_server}
use umay.App.Run.Laws.{ports, stream_ports, run_server-ports}
use umay.App.Config.Tls.{read_trusted_certificate, read_certificate, read_certificate_key}
use umay.App.Config.Stream.{StreamServer, upstream}
use umay.App.Server.{UmayServer, try_from, Proxy, build_proxy}
use umay.Balance.Selection.Selector.{Selector}
use umay.Balance.LoadBalancer
use umay.Balance.Backends
use umay.Proxy.Stream
use umay.App.Server.Starts.{IsReady, try_from-ok_iff}
use umay.App.Server.TryFrom.{Builds, try_from-Builds, try_from-err}
use umay.Balance.Discovery.Local.{with_backends}
use umay.Balance.Discovery.Service.{Discovery}
use umay.Tls.Credentials
use umay.Tls.Credentials.{Rustls, Store}
use umay.App.Examples.Data.{rustls, addr, crates, tls, good, lost, hashed, stream_of, config_of}

abbrev store : Store rustls
store = record {
  name = "default.default.serviceaccount.identity.umay.cluster.local";
  verifier = (1 ∷ []) ∷ [];
  client_cfg = ((1 ∷ []) ∷ [], (((1 ∷ []) ∷ [], 1 ∷ []), false));
  server_cfg = (((1 ∷ []) ∷ [], true), ((1 ∷ []) ∷ [], 1 ∷ []));
}

makes : Credentials.try_from rustls crates.read tls ≡ ok store
unfolding Credentials.try_from read_trusted_certificate read_certificate read_certificate_key
makes = refl

abbrev good_proxy : Proxy crates
good_proxy = record {
  stream_config = good;
  tls_server = record { name = store.name; acceptor = store.server_cfg };
  load_balancer = record {
    selection = Selector.round_robin (record { index = 0 });
    backends = record { discovery = Discovery.local (with_backends (addr ∷ [])); backends = [] };
  };
}

builds_good :
    (servers : List StreamServer) → build_proxy crates (stream_of servers) good ≡ ok good_proxy
unfolding build_proxy upstream get Stream.new Credentials.try_from read_trusted_certificate
    read_certificate read_certificate_key LoadBalancer.new Backends.new socket_addr
builds_good servers = refl

loses :
    (servers : List StreamServer) → build_proxy crates (stream_of servers) lost ≡ err no_upstream
unfolding build_proxy upstream get
loses servers = rw makes

try_from-err_example :
    try_from crates (config_of (stream_of (good ∷ lost ∷ hashed ∷ []))) ≡ err no_upstream
try_from-err_example =
    try_from-err crates (config_of (stream_of (good ∷ lost ∷ hashed ∷ [])))
      (stream_of (good ∷ lost ∷ hashed ∷ [])) (good ∷ []) lost (hashed ∷ []) (good_proxy ∷ []) refl
      refl (builds_good (good ∷ lost ∷ hashed ∷ []), tt) no_upstream
      (loses (good ∷ lost ∷ hashed ∷ []))

abbrev built : UmayServer crates
built = record {
  stream_proxies = good_proxy ∷ [];
  http_proxies = [];
  config = config_of (stream_of (good ∷ []));
}

makes_built : try_from crates (config_of (stream_of (good ∷ []))) ≡ ok built
unfolding try_from
makes_built = rw (builds_good (good ∷ []))

try_from-Builds_example :
    Builds crates (some (stream_of (good ∷ []))) (good_proxy ∷ [])
    × (built.http_proxies ≡ [])
    × (built.config ≡ config_of (stream_of (good ∷ [])))
try_from-Builds_example =
    try_from-Builds crates (config_of (stream_of (good ∷ []))) built makes_built

run_server-ports_example :
    ports crates (run_server crates (config_of (stream_of (good ∷ []))) []).tasks
    ≡ stream_ports (some (stream_of (good ∷ [])))
run_server-ports_example =
    run_server-ports crates (config_of (stream_of (good ∷ []))) built [] makes_built

try_from-ok_iff_example :
    ((s : UmayServer crates) × (try_from crates (config_of (stream_of (good ∷ hashed ∷ [])))
        ≡ ok s))
    ↔ (let stream = stream_of (good ∷ hashed ∷ []) in
        IsReady crates stream good × (IsReady crates stream hashed × Unit {0}))
try_from-ok_iff_example = try_from-ok_iff crates (config_of (stream_of (good ∷ hashed ∷ [])))
