-- ===== src/Balance/LoadBalancer.antt =====
-- `LoadBalancer` of umay/src/balance/mod.rs, over any discovery and any selection algorithm.
pub mod Schedule
pub mod Laws
use umay.Base.{
  if◌then◌else◌, List, Option, none, some, String, Outcome, ok, err, panic, Bool, true, false,
}
use umay.Balance.Backend.{Backend}
use umay.Balance.Backends.{Backends, refresh, get_backends}
use umay.Balance.Discovery.Dns.{is_empty}
use umay.Balance.Discovery.Service.{ServiceDiscovery}
use umay.Balance.Selection.Algorithm.{SelectionAlgorithm}
use umay.Balance.Selection.Random.{Rng}

pub record LoadBalancer (S D : Type 0) : Type 0 where
  pub selection : S
  pub backends : Backends D

module _ {S D : Type 0} where
  unfoldable pub new : Backends D → S → LoadBalancer S D
  new backends selection = record { selection = selection; backends = backends }

module _ {S D : Type 0} ⦃algorithm : SelectionAlgorithm S⦄ where
  -- `key` is never read.
  unfoldable pub select : Rng → Option String → LoadBalancer S D → LoadBalancer S D × Option Backend
  unfolding get_backends
  select rng key lb =
      let backends = get_backends lb.backends in
      if is_empty backends
      then (lb, none)
      else (let (s, b) = algorithm.select rng lb.selection backends in
          (record lb { selection = s }, b))

-- An error of a refresh is logged and the task goes on (`true`), a panic ends it (`false`).
abbrev pub goes_on : Outcome (Unit {0}) → Bool
goes_on (ok u) = true
goes_on (err e) = true
goes_on panic = false

module _ {S W D : Type 0} ⦃service : ServiceDiscovery W D⦄ where
  -- One tick of the task that `start_refresh_task` spawns.
  unfoldable pub tick : W → LoadBalancer S D → LoadBalancer S D × Bool
  unfolding refresh
  tick w lb = let (b, r) = refresh w lb.backends in (record lb { backends = b }, goes_on r)
