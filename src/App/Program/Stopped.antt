-- ===== src/App/Program/Stopped.antt =====
-- A service of umay/src/app/server.rs whose loop has returned.
use umay.Base.{ℕ, ◌≡◌, Outcome, length}
use umay.App.Program.{over, Service, Program}
use umay.Balance.Discovery.Service.{Discovery, discovery_service}
use umay.Balance.LoadBalancer.{LoadBalancer}
use umay.Balance.Selection.Selector.{Selector}
use umay.Proxy.Stream.Connection.{Display}
use umay.Proxy.Stream.Interleaved.{arrives, move, moved}
use umay.Proxy.Stream.Interleaved
use umay.Tls.{Session}

module _ {session : Session} (display : Display) {R : Type 0} where
  -- The service ended so, with `n` connections accepted.
  abbrev Stopped : Outcome (Unit {0}) → ℕ → Service session R → Type 0
  Stopped r n v = (v.loop ≡ over r) × (length v.running.tasks ≡ n)
