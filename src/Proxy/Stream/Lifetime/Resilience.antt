-- ===== src/Proxy/Stream/Lifetime/Resilience.antt =====
-- The connections of a proxy of umay/src/proxy/stream.rs while its discovery fails.
use mathlib.Core.Path.{subst}
use umay.Base.{
  ◌≡◌, ◌≢◌, refl, ap, sym, ◌∙◌, List, [], ◌∷◌, Bool, true, false, Outcome, ok, err, panic,
  ok-injective, All, Mem, none, if◌then◌else◌,
}
use umay.Balance.Backend.{Backend}
use umay.Balance.Backends.{Backends, stored}
use umay.Balance.LoadBalancer.{tick, select}
use umay.Balance.Selection.Selector.{selector_algorithm}
use umay.Balance.Discovery.Service.{Discovery, Lookup, discovery_service}
use umay.Balance.Discovery.Service
use umay.Tls.{Session, ServerTls}
use umay.Proxy.Stream.{StreamProxy}
use umay.Proxy.Stream.Connection.{Display, Network}
use umay.Proxy.Stream.Connection.Laws.{handle_connection-acts}
use umay.Proxy.Stream.Connection.Paths.{IsServing, ending, session_end, handle_connection-serves}
use umay.Proxy.Stream.Lifetime.{Event, refreshes, connection, InUse, call, sharing, ticked, run}

-- The event is no refresh that finds a set.
abbrev pub FindsNone : {session : Session} {R : Type 0} → Discovery R → Event session R → Type 0
FindsNone d (refreshes w) = (bs : List Backend) → Service.discover w d ≢ ok bs
FindsNone d (connection net io) = Unit

module _ {R : Type 0} (d : Discovery R) (bs : List Backend) where
  abbrev found : Backends (Discovery R)
  found = record { discovery = d; backends = bs }

  abbrev Holds : InUse R → Type 0
  Holds u = u.balancer.backends ≡ found

  stored-ok :
      (b : Backends (Discovery R)) (r : Outcome (List Backend))
      → b.discovery ≡ d
      → r ≡ ok bs
      → (stored b r).0 ≡ found
  stored-ok b (ok xs) e h = cc (e, ok-injective xs bs h)
  stored-ok b (err x) e h = cc
  stored-ok b panic e h = cc

  stored_failed :
      (b : Backends (Discovery R)) (r : Outcome (List Backend))
      → ((xs : List Backend) → r ≢ ok xs)
      → (stored b r).0 ≡ b
  stored_failed b (ok xs) h = absurd (h xs refl)
  stored_failed b (err x) h = refl
  stored_failed b panic h = refl

  tick-Holds :
      (w : Lookup R) (u : InUse R)
      → u.balancer.backends.discovery ≡ d
      → Service.discover w d ≡ ok bs
      → Holds (ticked u (tick w u.balancer))
  unfolding tick
  tick-Holds w u e h = stored-ok u.balancer.backends _ e (ap (Service.discover w) e ∙ h)

  failed-Holds :
      (alive : Bool) (w : Lookup R) (u : InUse R)
      → ((xs : List Backend) → Service.discover w d ≢ ok xs)
      → Holds u
      → Holds (if alive then ticked u (tick w u.balancer) else u)
  unfolding tick
  failed-Holds true w u fails h =
      stored_failed u.balancer.backends _ (λ xs e.
        fails xs (ap (λ (b : Backends (Discovery R)). Service.discover w b.discovery) (sym h) ∙ e))
      ∙ h
  failed-Holds false w u fails h = h

  module _ {Name Acceptor : Type 0} {session : Session} (display : Display)
      (p : StreamProxy Name Acceptor R) where
    run-Holds :
        (es : List (Event session R)) (u : InUse R)
        → All (FindsNone d) es
        → Holds u
        → Holds (run display p es u)
    unfolding run call
    run-Holds [] u none_found h = h
    run-Holds (refreshes w ∷ es) u none_found h =
        run-Holds es _ none_found.1 (failed-Holds u.alive w u none_found.0 h)
    run-Holds (connection net io ∷ es) u none_found h =
        run-Holds es _ none_found.1
          ((handle_connection-acts display net p.stream_config.listen.protocol u.balancer io).1 ∙ h)

    -- Failing discoveries do no harm: where a refresh of a task that runs has found a set of at least
    -- one and fewer than 2^64 backends of weight 1, and all later refreshes end in an error or a
    -- panic, every connection whose handshake succeeds is served by a backend of that set, and ends as
    -- the session with it ends.
    pub run_failing-serves :
        (u : InUse R) (w : Lookup R) (es : List (Event session R)) (net : Network session)
        (io : net.Io) (tls : ServerTls session.ServerName) (stream : session.TlsStream)
        → u.balancer.backends.discovery ≡ d
        → u.alive ≡ true
        → Service.discover w d ≡ ok bs
        → IsServing bs
        → All (FindsNone d) es
        → net.terminate io ≡ ok (tls, stream)
        → let later = run display p (refreshes w ∷ es) u in
          (b : Backend) × Mem b bs
          × (call display net (sharing p later) io
              ≡ ending
                  (select net.rng none later.balancer).0
                  (session_end display net p.stream_config.listen.protocol stream b))
    unfolding call run
    run_failing-serves u w es net io tls stream same alive finds serving none_found handshake =
        let later = run display p (refreshes w ∷ es) u in
        let held =
          ap (λ (b : Backends (Discovery R)). b.backends)
            (run-Holds es _ none_found (rw alive (tick-Holds w u same finds))) in
        let (b, m, _, e) =
          handle_connection-serves display net p.stream_config.listen.protocol later.balancer io tls
            stream handshake (subst IsServing (sym held) serving) in
        (b, subst (Mem b) held m, e)
