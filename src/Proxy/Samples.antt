-- ===== src/Proxy/Samples.antt =====
-- A session, a network and a balancer to apply the theorems to.
use umay.Base.{ℕ, List, [], ◌∷◌, String, Option, none, some, ok, err, foreign}
use umay.Net.{SocketAddr}
use umay.Balance.Backend.{Backend}
use umay.Balance.LoadBalancer.{LoadBalancer}
use umay.Balance.Selection.Selector.{Selector}
use umay.Balance.Discovery.Local
use umay.Balance.Discovery.Service.{Discovery}
use umay.Tls.{Session, passthru}
use umay.Proxy.Stream.Tcp.{client, server, reads, writes, done}
use umay.Proxy.Stream.WebSocket.{from_client}
use umay.Proxy.Stream.Connection.{Display, Network}

abbrev pub session : Session
session = record {
  TlsStream = Option String;
  ServerName = String;
  parse_name = λ s. some s;
  peer_certificates = λ s. none;
  server_name = λ s. s;
  alpn_protocol = λ s. none;
}

abbrev pub display : Display
display = record { show_ip = λ ip. "10.0.0.1"; show_port = λ port. "80" }

abbrev pub network : Network session
network = record {
  Io = String;
  TcpStream = SocketAddr;
  ClientWs = Option String;
  UpstreamWs = String;
  Message = ℕ;
  terminate = λ io. ok (passthru io, some io);
  connect = λ addr. ok addr;
  accept_async = λ stream. ok stream;
  connect_async = λ url. ok url;
  tcp_events = λ stream upstream. reads client (1 ∷ []) ∷ writes server 1 ∷ done client none ∷ [];
  ws_rounds =
      λ stream upstream. from_client (ok 1) (ok tt) ∷ from_client (err (foreign 1)) (ok tt) ∷ [];
  rng = record { gen_range = λ n. 0; gen_range-lt = λ n pos. pos };
}

abbrev pub backends : List Backend
backends = record { addr = SocketAddr.v4 0x0a000001 80; weight = 1 } ∷ []

abbrev pub balancer : LoadBalancer Selector (Discovery (Unit {0}))
balancer = record {
  selection = Selector.round_robin (record { index = 0 });
  backends = record { discovery = Discovery.local Local.default; backends = backends };
}
