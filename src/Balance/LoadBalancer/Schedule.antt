-- ===== src/Balance/LoadBalancer/Schedule.antt =====
-- A load balancer of umay/src/balance/mod.rs in use: ticks of its refresh task and calls of `select`,
-- in any order.
use umay.Base.{
  ◌≡◌, ◌∙◌, refl, List, [], ◌∷◌, Option, String, Outcome, ok, err, panic, Bool, true, false,
  if◌then◌else◌, arith,
}
use umay.Balance.Backend.{Backend}
use umay.Balance.Backends.{Backends, refresh, get_backends}
use umay.Balance.Backends
use umay.Balance.Discovery.Service.{ServiceDiscovery, IsBackendSet}
use umay.Balance.Selection.Algorithm.{SelectionAlgorithm}
use umay.Balance.Selection.Random.{Rng}
use umay.Balance.LoadBalancer.{LoadBalancer, select, tick, goes_on}
use umay.Balance.LoadBalancer

-- `refreshes w`: the task ticks while the world answers `w`.
pub data Event (W : Type 0) : Type 0 where
  refreshes : W → Event W
  selects : Rng → Option String → Event W

-- `alive` says whether the refresh task still runs.
pub record InUse (S D : Type 0) : Type 0 where
  pub balancer : LoadBalancer S D
  pub alive : Bool

abbrev pub next_alive : Bool → Outcome (List Backend) → Bool
next_alive false r = false
next_alive true (ok bs) = true
next_alive true (err x) = true
next_alive true panic = false

abbrev pub next_found : Bool → List Backend → Outcome (List Backend) → List Backend
next_found false old r = old
next_found true old (ok bs) = bs
next_found true old (err x) = old
next_found true old panic = old

module _ {S D : Type 0} where
  abbrev pub ticked : LoadBalancer S D × Bool → InUse S D
  ticked r = record { balancer = r.0; alive = r.1 }

  -- The balancer as `initialize_load_balancer` makes it, with its task started.
  unfoldable pub start : D → S → InUse S D
  unfolding LoadBalancer.new Backends.new
  start d s = record { balancer = LoadBalancer.new (Backends.new d) s; alive = true }

module _ {S W D : Type 0} ⦃algorithm : SelectionAlgorithm S⦄ ⦃service : ServiceDiscovery W D⦄ where
  unfoldable pub step : Event W → InUse S D → InUse S D
  unfolding select tick
  step (refreshes w) u = if u.alive then ticked (tick w u.balancer) else u
  step (selects rng key) u = record u { balancer = (select rng key u.balancer).0 }

  unfoldable pub run : List (Event W) → InUse S D → InUse S D
  unfolding step
  run [] u = u
  run (e ∷ es) u = run es (step e u)

module _ {W D : Type 0} ⦃service : ServiceDiscovery W D⦄ where
  -- The set of the last discovery that succeeded, up to the first panic; `old` if none did.
  unfoldable pub found_from : D → Bool → List Backend → List (Event W) → List Backend
  found_from d alive old [] = old
  found_from d alive old (refreshes w ∷ es) =
      let r = service.discover w d in found_from d (next_alive alive r) (next_found alive old r) es
  found_from d alive old (selects rng key ∷ es) = found_from d alive old es

  unfoldable pub found : D → List (Event W) → List Backend
  unfolding found_from
  found d es = found_from d true [] es

  found_set :
      (d : D) (alive : Bool) (old : List Backend) (w : W)
      → service.Fits d
      → IsBackendSet old
      → IsBackendSet (next_found alive old (service.discover w d))
  found_set d alive old w fit h = set_of alive (service.discover w d) refl
    where
      set_of :
          (b : Bool) (r : Outcome (List Backend))
          → service.discover w d ≡ r
          → IsBackendSet (next_found b old r)
      set_of false r e = h
      set_of true (ok bs) e = service.discover-set w d bs fit e
      set_of true (err x) e = h
      set_of true panic e = h

  found_from-set :
      (d : D) (alive : Bool) (old : List Backend) (es : List (Event W))
      → service.Fits d
      → IsBackendSet old
      → IsBackendSet (found_from d alive old es)
  unfolding found_from
  found_from-set d alive old [] fit h = h
  found_from-set d alive old (refreshes w ∷ es) fit h =
      found_from-set d (next_alive alive (service.discover w d))
        (next_found alive old (service.discover w d)) es fit (found_set d alive old w fit h)
  found_from-set d alive old (selects rng key ∷ es) fit h = found_from-set d alive old es fit h

  pub found-set : (d : D) (es : List (Event W)) → service.Fits d → IsBackendSet (found d es)
  unfolding found
  found-set d es fit = found_from-set d true [] es fit (record { sorted = tt; unit = tt })

module _ {S W D : Type 0} ⦃algorithm : SelectionAlgorithm S⦄ ⦃service : ServiceDiscovery W D⦄ where
  found_at : InUse S D → List (Event W) → List Backend
  unfolding found_from
  found_at u es = found_from u.balancer.backends.discovery u.alive u.balancer.backends.backends es

  found_at-refreshes :
      (w : W) (es : List (Event W)) (u : InUse S D)
      → found_at (step (refreshes w) u) es ≡ found_at u (refreshes w ∷ es)
  unfolding found_at step
  found_at-refreshes w es u = ground arith

  found_at-selects :
      (rng : Rng) (key : Option String) (es : List (Event W)) (u : InUse S D)
      → found_at (step {W = W} (selects rng key) u) es ≡ found_at u (selects rng key ∷ es)
  unfolding found_at step
  found_at-selects rng key es u = ground arith

  run-found_at :
      (es : List (Event W)) (u : InUse S D) → (run es u).balancer.backends.backends ≡ found_at u es
  unfolding run found_at
  run-found_at [] u = refl
  run-found_at (refreshes w ∷ es) u =
      run-found_at es (step (refreshes w) u) ∙ found_at-refreshes w es u
  run-found_at (selects rng key ∷ es) u =
      run-found_at es (step {W = W} (selects rng key) u) ∙ found_at-selects rng key es u

  start-found : (d : D) (s : S) (es : List (Event W)) → found_at (start d s) es ≡ found d es
  unfolding found_at start found
  start-found d s es = refl

  -- After any ticks and calls the balancer holds the set of the last discovery that succeeded
  -- before any panic: a refresh that fails keeps the set, and a panic ends the task.
  pub run-found :
      (d : D) (s : S) (es : List (Event W))
      → (run es (start d s)).balancer.backends.backends ≡ found d es
  run-found d s es = run-found_at es (start d s) ∙ start-found d s es
