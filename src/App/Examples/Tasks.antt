-- ===== src/App/Examples/Tasks.antt =====
-- The theorems on the tasks of a server, at a concrete configuration.
use umay.Base.{
  ◌≡◌, refl, arith, List, [], ◌∷◌, map, Mem, Outcome, String, some, ok, length, get_elem?,
}
use umay.Net.{IpAddr, SocketAddr}
use umay.App.Config.Listen
use umay.App.Config.Listen.{Protocol, ServiceDiscovery}
use umay.App.Config.Stream.{Upstream, to_socket_addrs, upstream}
use umay.App.Examples.Data.{crates, good, stream_of, config_of, upstream_of}
use umay.App.Examples.Targets.{
  proxy, server, makes, finds, dns_stream, dns_server, dns_proxy, dns_makes, dns_config,
}
use umay.App.Server.Deployment.{Lists}
use umay.App.Server.Tasks.{started, try_from-Comes, try_from-serves_tasks}
use umay.Balance.Backend.{Backend}
use umay.Balance.Discovery.Service.{Lookup}
use umay.Proxy.Samples.{session, display, network}
use umay.Proxy.Stream.Connection.{Action}
use umay.Proxy.Stream.Connection.Paths.{session_end}
use umay.Proxy.Stream.Lifetime.Targets.{AllAt}
use umay.Proxy.Stream.Interleaved.{
  Event, refreshes, arrives, advances, after_session, advance, step, run,
}
use umay.Proxy.Stream.Interleaved.Ends.{Comes}
use umay.Proxy.Stream.Interleaved.Progress.{task}
use umay.Tls.{passthru}
use umay.Tls.Server.{Poll}

abbrev R : Type 0
R = List SocketAddr × List String

abbrev lookup : Lookup R
lookup r host = ok (IpAddr.v4 0x0a000007 ∷ [])

-- A connection comes before the first refresh, and goes on between the steps of the next.
abbrev early : List (Event session R)
early = arrives network "early.example" ∷ advances 0 ∷ []

abbrev late : List (Event session R)
late =
    advances 1
    ∷ refreshes lookup
    ∷ advances 0
    ∷ advances 1
    ∷ advances 0
    ∷ advances 1
    ∷ advances 1
    ∷ []

try_from-serves_tasks_example :
    let before = run display Protocol.tcp [] (
      step display Protocol.tcp
        (refreshes lookup)
        (run display Protocol.tcp early (started crates session proxy))) in
    (b : Backend) × Mem
      (ok b.addr)
      (map (to_socket_addrs crates.parse_ip) (record { address = "10.0.0.1"; port = 53 } ∷ []))
    × (let (r, asked) = session_end display network Protocol.tcp (some "last.example") b in
        get_elem?
          (run display Protocol.tcp (arrives network "last.example" ∷ late) before).tasks
          (length before.tasks)
        ≡ some (task network "last.example" (after_session r) asked))
unfolding advance step run
try_from-serves_tasks_example =
    try_from-serves_tasks crates display (config_of (stream_of (good ∷ []))) (stream_of (good ∷ []))
      server 0 good proxy (upstream_of Listen.LoadBalancer.round_robin) early lookup [] late network
      "last.example" (passthru "last.example", some "last.example") refl makes refl refl finds refl
      (omega arith) (omega arith) refl (omega arith)

try_from-Comes_example :
    let before = run display Protocol.tcp early (started crates session dns_proxy) in
    (u : Upstream) × (upstream dns_stream "fair" ≡ some u)
    × (r : Poll (Outcome (Unit {0}))) × (asked : List Action) × (get_elem?
          (run display Protocol.tcp (arrives network "last.example" ∷ late) before).tasks
          (length before.tasks)
        ≡ some (task network "last.example" (after_session r) asked))
    × Comes display Protocol.tcp
        (AllAt (Lists crates u.service_discovery u.servers))
        network
        "last.example"
        r
        asked
unfolding advance step run
try_from-Comes_example =
    try_from-Comes crates display dns_config dns_stream dns_server 0 good dns_proxy early late
      network "last.example" refl dns_makes refl refl (omega arith)
