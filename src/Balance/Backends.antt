-- ===== src/Balance/Backends.antt =====
-- `Backends` of umay/src/balance/mod.rs: a discovery and the set that it last found. `store` replaces
-- the set atomically.
pub mod Laws
use umay.Base.{List, [], Outcome, ok, err, panic}
use umay.Balance.Backend.{Backend}
use umay.Balance.Discovery.Service.{ServiceDiscovery}

pub record Backends (D : Type 0) : Type 0 where
  pub discovery : D
  pub backends : List Backend

module _ {D : Type 0} where
  unfoldable pub new : D → Backends D
  new discovery = record { discovery = discovery; backends = [] }

  unfoldable pub get_backends : Backends D → List Backend
  get_backends b = b.backends

  -- `?` leaves before the store.
  abbrev pub stored : Backends D → Outcome (List Backend) → Backends D × Outcome (Unit {0})
  stored b (ok new_backends) = (record b { backends = new_backends }, ok tt)
  stored b (err e) = (b, err e)
  stored b panic = (b, panic)

module _ {W D : Type 0} ⦃service : ServiceDiscovery W D⦄ where
  unfoldable pub refresh : W → Backends D → Backends D × Outcome (Unit {0})
  refresh w b = stored b (service.discover w b.discovery)
