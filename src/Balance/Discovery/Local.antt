-- ===== src/Balance/Discovery/Local.antt =====
-- `LocalDiscovery` of umay/src/balance/discovery.rs. `rcu` and `store` replace the set atomically.
pub mod Laws
pub mod Refines
use Prim.Native.Nat.Ordering.{lt, eq, gt}
use umay.Base.{ℕ, List, [], ◌∷◌, map, Outcome, ok, Bool, true, false, not}
use umay.Base.OrdSet.{insert, collect, retain, is_eq}
use umay.Net.{SocketAddr, socket_ord}
use umay.Balance.Backend.{Backend, backend_ord, new}

pub record LocalDiscovery : Type 0 where
  pub backends : List Backend

unfoldable pub default : LocalDiscovery
default = record { backends = [] }

abbrev pub unit_backends : List SocketAddr → List Backend
unit_backends = map λ addr. new addr 1

unfoldable pub with_backends : List SocketAddr → LocalDiscovery
with_backends addrs = record { backends = collect (unit_backends addrs) }

unfoldable pub add_backend : SocketAddr → LocalDiscovery → LocalDiscovery
add_backend addr d = record { backends = insert (new addr 1) d.backends }

unfoldable pub remove_backend : SocketAddr → LocalDiscovery → LocalDiscovery
remove_backend addr d = record {
  backends = retain (λ b. not (is_eq (socket_ord.cmp b.addr addr))) d.backends;
}

unfoldable pub set_backends : List SocketAddr → LocalDiscovery → LocalDiscovery
set_backends addrs d = record { backends = collect (unit_backends addrs) }

unfoldable pub clear_backends : LocalDiscovery → LocalDiscovery
clear_backends d = record { backends = [] }

unfoldable pub discover : LocalDiscovery → Outcome (List Backend)
discover d = ok d.backends
