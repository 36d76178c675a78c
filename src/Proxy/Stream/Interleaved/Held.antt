-- ===== src/Proxy/Stream/Interleaved/Held.antt =====
-- The balancer of a proxy of umay/src/proxy/stream.rs in every interleaving of its tasks.
use mathlib.Core.Path.{subst}
use umay.Base.{
  ◌≡◌, ◌≢◌, refl, ap, sym, ◌∙◌, List, [], ◌∷◌, Bool, true, false, Outcome, ok, err, panic,
  if◌then◌else◌,
}
use umay.App.Config.Listen.{Protocol}
use umay.Balance.Backend.{Backend}
use umay.Balance.Backends.{Backends, stored}
use umay.Balance.Backends.Laws.{stored-set}
use umay.Balance.LoadBalancer.{tick, goes_on}
use umay.Balance.Discovery.Service.{Discovery, Lookup, discovery_service}
use umay.Balance.Discovery.Service
use umay.Tls.{Session}
use umay.Proxy.Stream.Connection.{Display}
use umay.Proxy.Stream.Interleaved.{
  Running, Event, refreshes, arrives, advances, waits, ticked, step, run,
}
use umay.Proxy.Stream.Interleaved.Ends.{advance-backends}

module _ {session : Session} (display : Display) (p : Protocol) (S : List Backend → Type 0)
    {R : Type 0} (d : Discovery R)
    (finds : (w : Lookup R) (bs : List Backend) → Service.discover w d ≡ ok bs → S bs) where
  -- The discovery is `d`, and the set in use satisfies `S`.
  pub record IsHeld (s : Running session R) : Type 1 where
    pub discovery : s.balancer.backends.discovery ≡ d
    pub set : S s.balancer.backends.backends

  ticked-IsHeld :
      (alive : Bool) (w : Lookup R) (s : Running session R)
      → IsHeld s
      → IsHeld (if alive then ticked s (tick w s.balancer) else s)
  unfolding tick
  ticked-IsHeld true w s h =
      let (set, same) =
        stored-set S s.balancer.backends (Service.discover w s.balancer.backends.discovery) h.set
          (λ bs e. finds w bs (subst (λ x. Service.discover w x ≡ ok bs) h.discovery e)) in
      record { discovery = same ∙ h.discovery; set = set }
  ticked-IsHeld false w s h = h

  pub step-IsHeld :
      (e : Event session R) (s : Running session R) → IsHeld s → IsHeld (step display p e s)
  unfolding step
  step-IsHeld (refreshes w) s h = ticked-IsHeld s.alive w s h
  step-IsHeld (arrives net io) s h = record { discovery = h.discovery; set = h.set }
  step-IsHeld (waits i) s h = h
  step-IsHeld (advances i) s h =
      let same = advance-backends display p i s.balancer s.tasks in
      record {
        discovery = ap (λ (b : Backends (Discovery R)). b.discovery) same ∙ h.discovery;
        set = subst (λ (b : Backends (Discovery R)). S b.backends) (sym same) h.set;
      }

  pub run-IsHeld :
      (es : List (Event session R)) (s : Running session R) → IsHeld s → IsHeld (run display p es s)
  unfolding run
  run-IsHeld [] s h = h
  run-IsHeld (e ∷ es) s h = run-IsHeld es _ (step-IsHeld e s h)

  -- A refresh that finds a set puts it in use.
  pub refreshed-IsHeld :
      (w : Lookup R) (bs : List Backend) (s : Running session R)
      → Service.discover w d ≡ ok bs
      → S bs
      → s.balancer.backends.discovery ≡ d
      → s.alive ≡ true
      → IsHeld (step display p (refreshes w) s)
  unfolding step tick
  refreshed-IsHeld w bs s e set h alive = rw alive (
      subst
        (λ (r : Outcome (List Backend)). IsHeld (record s {
          balancer = record s.balancer { backends = (stored s.balancer.backends r).0 };
          alive = goes_on (stored s.balancer.backends r).1;
        }))
        (sym (ap (Service.discover w) h ∙ e)) (record { discovery = h; set = set }))

goes_on-stored :
    {D : Type 0} (b : Backends D) (r : Outcome (List Backend))
    → r ≢ panic
    → goes_on (stored b r).1 ≡ true
goes_on-stored b (ok bs) h = refl
goes_on-stored b (err e) h = refl
goes_on-stored b panic h = absurd (h refl)

-- A refresh task whose discovery `d` never panics keeps running.
module _ {session : Session} (display : Display) (p : Protocol) {R : Type 0} (d : Discovery R)
    (sound : (w : Lookup R) → Service.discover w d ≢ panic) where
  pub run_alive :
      (es : List (Event session R)) (s : Running session R)
      → s.balancer.backends.discovery ≡ d
      → s.alive ≡ true
      → (run display p es s).alive ≡ true
  unfolding run tick
  run_alive [] s h alive = alive
  run_alive (refreshes w ∷ es) s h alive =
      let r = Service.discover w s.balancer.backends.discovery in
      rw alive (
        run_alive es _ ((stored-set (λ bs. Unit {0}) s.balancer.backends r tt (λ bs e. tt)).1 ∙ h) (
          goes_on-stored s.balancer.backends r
            (λ e. sound w (ap (Service.discover w) (sym h) ∙ e))))
  run_alive (arrives net io ∷ es) s h alive = run_alive es _ h alive
  run_alive (waits i ∷ es) s h alive = run_alive es s h alive
  run_alive (advances i ∷ es) s h alive =
      run_alive es _
        (ap (λ (b : Backends (Discovery R)). b.discovery)
            (advance-backends display p i s.balancer s.tasks)
          ∙ h)
        alive
