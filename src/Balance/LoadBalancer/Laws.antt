-- ===== src/Balance/LoadBalancer/Laws.antt =====
-- Calls of `select` of umay/src/balance/mod.rs among other events.
use umay.Base.{
  ◌≡◌, ◌^◌, ◌<◌, ◌⊎◌, inl, inr, refl, List, [], ◌∷◌, Option, none, some, String, Mem, length, arith,
  All,
}
use umay.Balance.Backend.{Backend}
use umay.Balance.Discovery.Service.{ServiceDiscovery}
use umay.Balance.Selection.Algorithm.{SelectionAlgorithm, IsUnit}
use umay.Balance.Selection.Random.{Rng}
use umay.Balance.LoadBalancer.{LoadBalancer, select}
use umay.Balance.LoadBalancer.Schedule.{Event, start, run, found, run-found, found-set}

-- No backend from the empty set, and one of its members from any other.
abbrev pub Serves : List Backend → Option Backend → Type 0
Serves bs answer = ((bs ≡ []) × (answer ≡ none)) ⊎ ((b : Backend) × (answer ≡ some b) × Mem b bs)

module _ {S D : Type 0} ⦃algorithm : SelectionAlgorithm S⦄ where
  serves :
      (rng : Rng) (key : Option String) (lb : LoadBalancer S D) (bs : List Backend)
      → lb.backends.backends ≡ bs
      → All IsUnit bs
      → length bs < 2 ^ 64
      → Serves bs (select rng key lb).1
  unfolding select
  serves rng key lb [] e unit small = inl (refl, ground arith)
  serves rng key lb (x ∷ bs) e unit small =
      let (b, h) = algorithm.select-total rng lb.selection (x ∷ bs) unit (omega arith) small in
      inr (b, ground arith, algorithm.select-mem rng lb.selection (x ∷ bs) b h)

module _ {S W D : Type 0} ⦃algorithm : SelectionAlgorithm S⦄ ⦃service : ServiceDiscovery W D⦄ where
  -- For a discovery that is fit for use: after any ticks of the refresh task and calls of `select`,
  -- a call answers a member of the set of the last discovery that succeeded before any panic, which
  -- has fewer than 2^64 members, and none while that set is empty.
  pub select-Serves :
      (d : D) (s : S) (es : List (Event W)) (rng : Rng) (key : Option String)
      → service.Fits d
      → length (found d es) < 2 ^ 64
      → Serves (found d es) (select rng key (run es (start d s)).balancer).1
  select-Serves d s es rng key fit small =
      serves rng key (run es (start d s)).balancer (found d es) (run-found d s es)
        (found-set d es fit).unit small
