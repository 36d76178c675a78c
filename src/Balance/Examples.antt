-- ===== src/Balance/Examples.antt =====
-- The theorems on balancing at concrete backends, discoveries and histories.
use umay.Base.{
  ℕ, ◌+◌, ◌*◌, ◌%◌, ◌^◌, ◌<◌, ◌≡◌, refl, none, some, List, [], ◌∷◌, map, ok, err, length, arith,
  foreign,
}
use umay.Base.OrdSet.{contains, collect, insert}
use umay.Net.{IpAddr, SocketAddr, socket_addr, socket_ord}
use umay.Balance.Backend
use umay.Balance.Backend.{Backend}
use umay.Balance.Selection.Random.{Rng}
use umay.Balance.Selection.Rotation.{rotate, rounds}
use umay.Balance.Selection.Fairness.{picks, round_robin-rounds, weighted-rounds, weighted-unit}
use umay.Balance.Selection.RoundRobin
use umay.Balance.Selection.RoundRobin.{RoundRobin}
use umay.Balance.Selection.WeightedRoundRobin
use umay.Balance.Selection.WeightedRoundRobin.{WeightedRoundRobin, walk}
use umay.Balance.Selection.WeightedRoundRobin.Laws.{expand}
use umay.Balance.Selection.LeastConnections
use umay.Balance.Selection.LeastConnections.{LeastConnections, open_connections, increment}
use umay.Balance.Selection.LeastConnections.History
use umay.Balance.Selection.LeastConnections.History.{
  opened, closed, track, tally, opens, closes, open_connections-track, open_connections-default,
}
use umay.Balance.Selection.LeastConnections.Balance.{assign, IsLevel, assign-IsLevel}
use umay.Balance.Selection.Selector.{Selector, selector_algorithm}
use umay.Balance.Discovery.Local.{with_backends}
use umay.Balance.Discovery.Local.Laws.{IsValid, has}
use umay.Balance.Discovery.Local.Refines
use umay.Balance.Discovery.Local.Refines.{replay, run_refines, discover_of_has}
use umay.Balance.Discovery.Dns
use umay.Balance.Discovery.Dns.{DnsDiscovery}
use umay.Balance.Discovery.Dns.Laws.{Answers, discover-Answers}
use umay.Balance.Discovery.Service
use umay.Balance.Discovery.Service.{Discovery, Lookup, discovery_service}
use umay.Balance.LoadBalancer
use umay.Balance.LoadBalancer.Schedule.{Event, refreshes, selects, start, run, found, run-found}
use umay.Balance.LoadBalancer.Laws.{Serves, select-Serves}

abbrev addr_a : SocketAddr
addr_a = SocketAddr.v4 0x0a000001 80

abbrev addr_b : SocketAddr
addr_b = SocketAddr.v4 0x0a000002 80

abbrev light : Backend
light = record { addr = addr_a; weight = 1 }

abbrev single : Backend
single = record { addr = addr_b; weight = 1 }

abbrev heavy : Backend
heavy = record { addr = addr_b; weight = 2 }

abbrev mixed : List Backend
mixed = light ∷ heavy ∷ []

abbrev pair : List Backend
pair = light ∷ single ∷ []

abbrev rng : Rng
rng = record { gen_range = λ n. 0; gen_range-lt = λ n pos. pos }

round_robin-rounds_example :
    picks (2 * length pair) (λ t. RoundRobin.select t pair) (record { index = 5 })
    ≡ rounds 2 (map some (rotate (5 % length pair) pair))
round_robin-rounds_example =
    round_robin-rounds 2 (record { index = 5 }) pair (omega arith) (omega arith)

weighted-rounds_example :
    picks
      (2 * length (expand mixed))
      (λ t. WeightedRoundRobin.select t mixed)
      (record { index = 4 })
    ≡ rounds 2 (map some (rotate (4 % length (expand mixed)) (expand mixed)))
unfolding expand
weighted-rounds_example =
    weighted-rounds 2 (record { index = 4 }) mixed (omega arith) (omega arith) (omega arith)

weighted-unit_example :
    picks 3 (λ t. WeightedRoundRobin.select t pair) (record { index = 1 })
    ≡ picks 3 (λ t. RoundRobin.select t pair) (record { index = 1 })
weighted-unit_example = weighted-unit 3 1 pair (refl, (refl, tt)) (omega arith) (omega arith)

abbrev busy : LeastConnections
busy = increment addr_a LeastConnections.default

abbrev history : List History.Event
history = opened addr_a ∷ opened addr_b ∷ opened addr_a ∷ closed addr_a ∷ []

open_connections-default_example :
    open_connections (track history LeastConnections.default) addr_a + closes addr_a history
    ≡ opens addr_a history
open_connections-default_example =
    open_connections-default history addr_a (omega arith, tt) (omega arith)

abbrev calls : List Refines.Call
calls = Refines.add addr_b ∷ Refines.remove addr_a ∷ Refines.add addr_a ∷ []

run_refines_example :
    let d = Refines.run calls (with_backends (addr_a ∷ [])) in
    IsValid d × (has d ≡ replay calls (contains (addr_a ∷ [])))
run_refines_example = run_refines calls (addr_a ∷ [])

abbrev service : DnsDiscovery (Unit {0})
service = record { resolver = tt; hostname = "backend.example"; port = 8080 }

abbrev two_ips : Lookup (Unit {0})
two_ips r host = ok (IpAddr.v4 0x0a000002 ∷ IpAddr.v4 0x0a000001 ∷ [])

abbrev failing : Lookup (Unit {0})
failing r host = err (foreign 1)

discover-Answers_example :
    Answers 8080 (two_ips tt "backend.example") (Dns.discover two_ips service)
discover-Answers_example = discover-Answers two_ips service

abbrev events : List (Event (Lookup (Unit {0})))
events = refreshes two_ips ∷ selects rng none ∷ refreshes failing ∷ []

abbrev first_selector : Selector
first_selector = Selector.round_robin (record { index = 0 })

run-found_example :
    (run events (start (Discovery.dns service) first_selector)).balancer.backends.backends
    ≡ found (Discovery.dns service) events
run-found_example = run-found (Discovery.dns service) first_selector events

few : length (found (Discovery.dns service) events) < 2 ^ 64
unfolding found Service.discover Dns.discover collect insert Backend.new socket_addr
few = omega arith

select-Serves_example :
    Serves
      (found (Discovery.dns service) events)
      (LoadBalancer.select rng none
        (run events (start (Discovery.dns service) first_selector)).balancer).1
select-Serves_example = select-Serves (Discovery.dns service) first_selector events rng none tt few

assign-IsLevel_example : (m : ℕ) × IsLevel m (assign 5 LeastConnections.default pair) pair
assign-IsLevel_example = assign-IsLevel 5 pair (omega arith)
