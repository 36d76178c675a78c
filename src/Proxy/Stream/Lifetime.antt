-- ===== src/Proxy/Stream/Lifetime.antt =====
-- A `StreamProxy` of umay/src/proxy/stream.rs in use: its connections and the ticks of its balancer's
-- refresh task, which umay/src/app/server.rs starts, in any order. `call` handles a connection on a
-- clone, which shares the balancer.
pub mod Targets
pub mod Serves
pub mod Fairness
pub mod Resilience
use umay.Base.{List, [], ◌∷◌, ◌++◌, Bool, true, false, Outcome, ok, if◌then◌else◌}
use umay.App.Config.Listen.{Protocol}
use umay.Balance.LoadBalancer.{LoadBalancer, tick}
use umay.Balance.Selection.Selector.{Selector}
use umay.Balance.Discovery.Service.{Discovery, Lookup, discovery_service}
use umay.Tls.{Session}
use umay.Tls.Server.{Poll}
use umay.Proxy.Stream.{StreamProxy}
use umay.Proxy.Stream.Connection.{Display, Network, Action, Conn, handle_connection}

-- A tick of the task while the resolver answers `w`, or a connection on some network.
pub data Event (session : Session) (R : Type 0) : Type 1 where
  refreshes : Lookup R → Event session R
  connection : (net : Network session) → net.Io → Event session R

-- `alive` says whether the refresh task still runs; `asked` is what all connections have asked of
-- the network.
pub record InUse (R : Type 0) : Type 0 where
  pub balancer : LoadBalancer Selector (Discovery R)
  pub alive : Bool
  pub asked : List Action

module _ {R : Type 0} where
  abbrev pub served : InUse R → Conn R → InUse R
  served u c = record u { balancer = c.balancer; asked = u.asked ++ c.actions }

  abbrev pub ticked : InUse R → LoadBalancer Selector (Discovery R) × Bool → InUse R
  ticked u r = record u { balancer = r.0; alive = r.1 }

module _ {R Name Acceptor : Type 0} where
  -- The proxy whose clones share the balancer as it is.
  abbrev pub sharing : StreamProxy Name Acceptor R → InUse R → StreamProxy Name Acceptor R
  sharing p u = record p { load_balancer = u.balancer }

  -- As `run` of the server starts it.
  abbrev pub started : StreamProxy Name Acceptor R → InUse R
  started p = record { balancer = p.load_balancer; alive = true; asked = [] }

module _ {session : Session} (display : Display) {R Name Acceptor : Type 0} where
  unfoldable pub call :
      (net : Network session)
      → StreamProxy Name Acceptor R
      → net.Io
      → Poll (Outcome (Unit {0})) × Conn R
  unfolding handle_connection
  call net this req =
      handle_connection display net this.stream_config.listen.protocol this.load_balancer req

  unfoldable pub step : StreamProxy Name Acceptor R → Event session R → InUse R → InUse R
  unfolding call tick
  step p (refreshes w) u = if u.alive then ticked u (tick w u.balancer) else u
  step p (connection net io) u = served u (call net (sharing p u) io).1

  unfoldable pub run : StreamProxy Name Acceptor R → List (Event session R) → InUse R → InUse R
  unfolding step
  run p [] u = u
  run p (e ∷ es) u = run p es (step p e u)
