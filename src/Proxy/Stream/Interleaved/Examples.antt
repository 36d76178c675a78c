-- ===== src/Proxy/Stream/Interleaved/Examples.antt =====
-- Tasks of a proxy that interleave, at a concrete network.
use umay.Base.{◌≡◌, refl, List, [], ◌∷◌, map, true, some, ok, ok-injective, arith}
use umay.Net.{SocketAddr}
use umay.App.Config.Listen.{Protocol}
use umay.Balance.Backend.{Backend}
use umay.Balance.Backends
use umay.Balance.LoadBalancer
use umay.Base.OrdSet.{collect, extend, insert}
use umay.Balance.Backend
use umay.Balance.Discovery.Local
use umay.Balance.Discovery.Local.{with_backends}
use umay.Balance.Discovery.Service
use umay.Balance.Discovery.Service.{Discovery, Lookup}
use umay.Balance.Selection.Selector
use umay.Balance.Selection.Selector.{Selector}
use umay.Balance.Selection.RoundRobin
use umay.Balance.Selection.Rotation.{rotate, rounds}
use umay.Tls.{passthru}
use umay.Proxy.Samples.{session, display, network}
use umay.Proxy.Stream.Interleaved.{
  Running, Event, arrives, advances, refreshes, loaded, pick, move, advance, step, run,
}
use umay.Proxy.Stream.Interleaved.Fairness.{answers, answers-rounds}

abbrev targets : List SocketAddr
targets = SocketAddr.v4 0x0a000001 80 ∷ SocketAddr.v4 0x0a000002 80 ∷ []

-- The second of the two is next.
abbrev found : Discovery (Unit {0})
found = Discovery.local (with_backends targets)

abbrev pair : List Backend
pair = (with_backends targets).backends

-- A refreshed proxy with one connection that has loaded the set.
abbrev running : Running session (Unit {0})
running = record {
  balancer = record {
    selection = Selector.round_robin (record { index = 1 });
    backends = record { discovery = found; backends = pair };
  };
  alive = true;
  tasks =
      record {
        net = network;
        io = "early.example";
        phase = loaded (some "early.example") pair;
        asked = [];
      }
      ∷ [];
}

abbrev lookup : Lookup (Unit {0})
lookup r host = ok []

-- A connection comes, and the two pick in the other order, with a refresh between.
abbrev events : List (Event session (Unit {0}))
events =
    arrives network "umay.example"
    ∷ advances 1
    ∷ advances 1
    ∷ advances 1
    ∷ refreshes lookup
    ∷ advances 0
    ∷ []

same_found :
    (w : Lookup (Unit {0})) (xs : List Backend) → Service.discover w found ≡ ok xs → xs ≡ pair
unfolding Service.discover Local.discover
same_found w xs h = cc (ok-injective pair xs h)

answers-rounds_example :
    answers display Protocol.ws events running ≡ rounds 1 (map some (rotate 1 pair))
unfolding answers step run advance move pick Selector.select RoundRobin.select with_backends collect
    extend insert Backend.new LoadBalancer.tick Backends.refresh Service.discover Local.discover
answers-rounds_example =
    answers-rounds display Protocol.ws pair found same_found 1 events running (record { index = 1 })
      (record {
        held = record { discovery = refl; set = refl };
        tasks = ((refl, (passthru "early.example", refl, refl)), tt);
      })
      refl (omega arith) (omega arith) refl
