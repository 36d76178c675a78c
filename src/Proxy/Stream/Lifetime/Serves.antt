-- ===== src/Proxy/Stream/Lifetime/Serves.antt =====
-- The connections of a proxy of umay/src/proxy/stream.rs over a local discovery, after a refresh.
use mathlib.Core.Path.{subst}
use umay.Base.{
  ◌≡◌, refl, ap, sym, ◌∙◌, List, [], ◌∷◌, ◌++◌, Bool, true, false, ok, Mem, none, if◌then◌else◌,
}
use umay.Balance.Backend.{Backend}
use umay.Balance.Backends.{Backends}
use umay.Balance.LoadBalancer.{tick, select}
use umay.Balance.Selection.Selector.{selector_algorithm}
use umay.Balance.Discovery.Local.{LocalDiscovery}
use umay.Balance.Discovery.Local
use umay.Balance.Discovery.Service.{Discovery, Lookup, discovery_service}
use umay.Balance.Discovery.Service
use umay.Tls.{Session, ServerTls}
use umay.Proxy.Stream.{StreamProxy}
use umay.Proxy.Stream.Connection.{Display, Network}
use umay.Proxy.Stream.Connection.Laws.{handle_connection-acts}
use umay.Proxy.Stream.Connection.Paths.{IsServing, ending, session_end, handle_connection-serves}
use umay.Proxy.Stream.Lifetime.{
  Event, refreshes, connection, InUse, call, served, sharing, ticked, started, run,
}

module _ {R : Type 0} (d : LocalDiscovery) where
  abbrev found : Backends (Discovery R)
  found = record { discovery = Discovery.local d; backends = d.backends }

  -- The proxy holds what its discovery holds.
  abbrev IsReady : InUse R → Type 0
  IsReady u = u.balancer.backends ≡ found

  tick-IsReady :
      (w : Lookup R) (u : InUse R)
      → u.balancer.backends.discovery ≡ Discovery.local d
      → IsReady (ticked u (tick w u.balancer))
  unfolding tick Service.discover Local.discover
  tick-IsReady w u h = cc h

  -- Its refresh task runs and asks that discovery.
  abbrev IsLocal : InUse R → Type 0
  IsLocal u = (u.balancer.backends.discovery ≡ Discovery.local d) × (u.alive ≡ true)

  tick-IsLocal : (w : Lookup R) (u : InUse R) → IsLocal u → IsLocal (ticked u (tick w u.balancer))
  unfolding tick Service.discover Local.discover
  tick-IsLocal w u h =
      (ap (λ (b : Backends (Discovery R)). b.discovery) (tick-IsReady w u h.0), cc (h.0))

  alive-IsReady :
      (alive : Bool) (w : Lookup R) (u : InUse R)
      → IsReady u
      → IsReady (if alive then ticked u (tick w u.balancer) else u)
  alive-IsReady true w u h = tick-IsReady w u (ap (λ (b : Backends (Discovery R)). b.discovery) h)
  alive-IsReady false w u h = h

  module _ {Name Acceptor : Type 0} {session : Session} (display : Display)
      (p : StreamProxy Name Acceptor R) where
    call-IsReady :
        (net : Network session) (io : net.Io) (u : InUse R)
        → IsReady u
        → IsReady (served u (call display net (sharing p u) io).1)
    unfolding call
    call-IsReady net io u h =
        (handle_connection-acts display net p.stream_config.listen.protocol u.balancer io).1 ∙ h

    run-IsReady :
        (es : List (Event session R)) (u : InUse R) → IsReady u → IsReady (run display p es u)
    unfolding run
    run-IsReady [] u h = h
    run-IsReady (refreshes w ∷ es) u h = run-IsReady es _ (alive-IsReady u.alive w u h)
    run-IsReady (connection net io ∷ es) u h = run-IsReady es _ (call-IsReady net io u h)

    call-IsLocal :
        (net : Network session) (io : net.Io) (u : InUse R)
        → IsLocal u
        → IsLocal (served u (call display net (sharing p u) io).1)
    unfolding call
    call-IsLocal net io u h = (
      ap (λ (b : Backends (Discovery R)). b.discovery)
            (handle_connection-acts display net p.stream_config.listen.protocol u.balancer io).1
          ∙ h.0,
      h.1,
    )

    -- Any refresh makes it ready, whatever came before.
    run_refreshed-IsReady :
        (early : List (Event session R)) (w : Lookup R) (es : List (Event session R)) (u : InUse R)
        → IsLocal u
        → IsReady (run display p (early ++ refreshes w ∷ es) u)
    unfolding run
    run_refreshed-IsReady [] w es u h = run-IsReady es _ (rw h.1 (tick-IsReady w u h.0))
    run_refreshed-IsReady (refreshes v ∷ early) w es u h =
        run_refreshed-IsReady early w es _ (rw h.1 (tick-IsLocal v u h))
    run_refreshed-IsReady (connection net io ∷ early) w es u h =
        run_refreshed-IsReady early w es _ (call-IsLocal net io u h)

    -- After a refresh, whatever came before and since, a connection whose handshake succeeds is
    -- served by one of the backends that the discovery holds.
    pub run-serves :
        (early : List (Event session R)) (w : Lookup R) (es : List (Event session R))
        (net : Network session) (io : net.Io) (tls : ServerTls session.ServerName)
        (stream : session.TlsStream)
        → p.load_balancer.backends.discovery ≡ Discovery.local d
        → IsServing d.backends
        → net.terminate io ≡ ok (tls, stream)
        → let u = run display p (early ++ refreshes w ∷ es) (started p) in
          (b : Backend) × Mem b d.backends
          × (call display net (sharing p u) io
              ≡ ending
                  (select net.rng none u.balancer).0
                  (session_end display net p.stream_config.listen.protocol stream b))
    unfolding call
    run-serves early w es net io tls stream h serving handshake =
        let u = run display p (early ++ refreshes w ∷ es) (started p) in
        let same =
          ap (λ (b : Backends (Discovery R)). b.backends)
            (run_refreshed-IsReady early w es (started p) (h, refl)) in
        let (b, m, _, e) =
          handle_connection-serves display net p.stream_config.listen.protocol u.balancer io tls
            stream handshake (subst IsServing (sym same) serving) in
        (b, subst (Mem b) same m, e)
