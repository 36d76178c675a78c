-- ===== src/Proxy/Examples.antt =====
-- The theorems on sessions and connections at a concrete network.
use umay.Base.{
  ℕ, ◌≡◌, ◌≢◌, refl, List, [], ◌∷◌, ◌++◌, String, true, none, some, ok, err, foreign, Mem, arith,
}
use umay.App.Config.Listen.{Protocol}
use umay.Net.{SocketAddr, IpAddr, socket_addr}
use umay.Balance.Discovery.Local
use umay.Balance.Backend.{Backend}
use umay.Balance.LoadBalancer.{select}
use umay.Balance.Selection.Selector.{Selector, selector_algorithm}
use umay.Balance.Discovery.Service.{Discovery, Lookup}
use umay.Tls.{passthru}
use umay.Tls.Server.{ready}
use umay.Proxy.Stream.Tcp
use umay.Proxy.Stream.Tcp.{CopyEvent, reads, writes, done, proxy_tcp, proxy_tcp-end}
use umay.Proxy.Stream.WebSocket.{
  both_ended, Sent, client, upstream, proxy_ws, rounds_of, proxy_ws-append,
}
use umay.Proxy.Stream.Connection.{handle_connection, upstream_url}
use umay.Proxy.Stream.Connection.Laws.{handle_connection_ws-ne-ok}
use umay.Proxy.Samples.{display, network, backends, balancer}
use umay.Proxy.Stream.Connection.Paths.{ending, session_end, handle_connection-serves}
use umay.Proxy.Stream.{StreamProxy}
use umay.Proxy.Stream.Lifetime.{InUse, run, refreshes, connection, call, sharing}
use umay.Proxy.Stream.Lifetime.Resilience.{run_failing-serves}
use umay.Base.OrdSet.{collect, extend, insert}
use umay.Balance.Discovery.Service
use umay.Balance.Discovery.Dns
use umay.Balance.Backend

-- The client ends while a byte of the server's is still in the buffer.
abbrev copied : List CopyEvent
copied =
    reads Tcp.client (1 ∷ 2 ∷ [])
    ∷ writes Tcp.server 1
    ∷ reads Tcp.server (9 ∷ 8 ∷ [])
    ∷ writes Tcp.client 1
    ∷ reads Tcp.client (3 ∷ [])
    ∷ writes Tcp.server 4
    ∷ []

proxy_tcp-end_example :
    let r = proxy_tcp (copied ++ done Tcp.client none ∷ writes Tcp.client 1 ∷ []) in
    (r.server ≡ 1 ∷ 2 ∷ 3 ∷ []) × (r.client ≡ 9 ∷ []) × (r.result ≡ ready (ok tt))
proxy_tcp-end_example =
    proxy_tcp-end Tcp.client none (writes Tcp.client 1 ∷ []) copied
      (tt, (tt, (tt, (tt, (tt, (tt, tt))))))

url_written : upstream_url display (SocketAddr.v4 0x0a000001 80) ≡ "ws://10.0.0.1:80"
unfolding upstream_url
url_written = refl

abbrev talk : List (Sent ℕ)
talk = client 1 ∷ upstream 10 ∷ client 2 ∷ []

proxy_ws-append_example :
    let p = proxy_ws {Message = ℕ} (both_ended ∷ []) in
    proxy_ws (rounds_of talk ++ both_ended ∷ [])
    ≡ record { upstream = 1 ∷ 2 ∷ p.upstream; client = 10 ∷ p.client; result = p.result }
proxy_ws-append_example = proxy_ws-append talk (both_ended ∷ [])

handle_connection_ws-ne-ok_example :
    (handle_connection display network Protocol.ws balancer "umay.example").0 ≢ ready (ok tt)
handle_connection_ws-ne-ok_example =
    handle_connection_ws-ne-ok display network Protocol.ws balancer "umay.example" refl

handle_connection-serves_example :
    (b : Backend) × Mem b backends
    × ((select network.rng none balancer).1 ≡ some b)
    × (handle_connection display network Protocol.ws balancer "umay.example"
        ≡ ending
            (select network.rng none balancer).0
            (session_end display network Protocol.ws (some "umay.example") b))
handle_connection-serves_example =
    handle_connection-serves display network Protocol.ws balancer "umay.example"
      (passthru "umay.example") (some "umay.example") refl
      (record { unit = (refl, tt); some_backend = omega arith; small = omega arith })

-- Two backends, of which the second is next.
abbrev pair : List Backend
pair =
    record { addr = SocketAddr.v4 0x0a000001 80; weight = 1 }
    ∷ record { addr = SocketAddr.v4 0x0a000002 80; weight = 1 }
    ∷ []

abbrev in_use : InUse (Unit {0})
in_use = record {
  balancer = record {
    selection = Selector.round_robin (record { index = 1 });
    backends = record { discovery = Discovery.local Local.default; backends = pair };
  };
  alive = true;
  asked = [];
}

abbrev front : StreamProxy String ℕ (Unit {0})
front = record {
  stream_config = record {
    name = "front";
    listen = record { port = 443; protocol = Protocol.tcp };
    proxy_pass = "fair";
    tls = none;
  };
  tls_server = record { name = "front"; acceptor = 0 };
  load_balancer = in_use.balancer;
}

-- The resolver answers once, and fails from then on.
abbrev by_name : Discovery (Unit {0})
by_name = Discovery.dns (record { resolver = tt; hostname = "fair.example"; port = 80 })

abbrev resolving : InUse (Unit {0})
resolving = record in_use {
  balancer = record in_use.balancer { backends = record { discovery = by_name; backends = [] } };
}

abbrev answers : Lookup (Unit {0})
answers r host = ok (IpAddr.v4 0x0a000001 ∷ [])

abbrev fails : Lookup (Unit {0})
fails r host = err (foreign 7)

answers_found : Service.discover answers by_name ≡ ok backends
unfolding Service.discover Dns.discover collect extend insert Backend.new socket_addr
answers_found = refl

fails_always : (bs : List Backend) → Service.discover fails by_name ≢ ok bs
unfolding Service.discover Dns.discover
fails_always bs = λ h. cc

abbrev later : InUse (Unit {0})
later =
    run display front (refreshes answers ∷ connection network "one" ∷ refreshes fails ∷ [])
      resolving

run_failing-serves_example :
    (b : Backend) × Mem b backends
    × (call display network (sharing front later) "two"
        ≡ ending
            (select network.rng none later.balancer).0
            (session_end display network Protocol.tcp (some "two") b))
run_failing-serves_example =
    run_failing-serves by_name backends display front resolving answers
      (connection network "one" ∷ refreshes fails ∷ []) network "two" (passthru "two") (some "two")
      refl refl answers_found
      (record { unit = (refl, tt); some_backend = omega arith; small = omega arith })
      (tt, (fails_always, tt)) refl
