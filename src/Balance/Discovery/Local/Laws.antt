-- ===== src/Balance/Discovery/Local/Laws.antt =====
-- `LocalDiscovery` of umay/src/balance/discovery.rs as a set of addresses, method by method.
use mathlib.Core.Path.{ap₂}
use umay.Base.{◌≡◌, refl, ap, ◌∙◌, List, [], ◌∷◌, Bool, false, not, ◌&&◌, ◌||◌, All, arith}
use umay.Base.OrdSet.{
  contains, is_eq, IsSorted, insert-IsSorted, collect-IsSorted, retain-IsSorted, contains-insert,
  contains-collect, contains-retain, All-collect, All-insert, All-retain,
}
use umay.Net.{SocketAddr, socket_ord}
use umay.Balance.Backend.{backend_ord, new}
use umay.Balance.Selection.Algorithm.{IsUnit}
use umay.Balance.Discovery.Local.{
  LocalDiscovery, unit_backends, with_backends, add_backend, remove_backend, set_backends,
  clear_backends,
}

pub record IsValid (d : LocalDiscovery) : Type 0 where
  pub sorted : IsSorted d.backends
  pub unit : All IsUnit d.backends

IsUnit-new : (addr : SocketAddr) → IsUnit (new addr 1)
unfolding new
IsUnit-new addr = refl

unit_backends-IsUnit : (addrs : List SocketAddr) → All IsUnit (unit_backends addrs)
unit_backends-IsUnit [] = tt
unit_backends-IsUnit (a ∷ addrs) = (IsUnit-new a, unit_backends-IsUnit addrs)

pub with_backends-IsValid : (addrs : List SocketAddr) → IsValid (with_backends addrs)
unfolding with_backends
with_backends-IsValid addrs = record {
  sorted = collect-IsSorted (unit_backends addrs);
  unit = All-collect IsUnit (unit_backends addrs) (unit_backends-IsUnit addrs);
}

pub add_backend-IsValid :
    (addr : SocketAddr) (d : LocalDiscovery) → IsValid d → IsValid (add_backend addr d)
unfolding add_backend
add_backend-IsValid addr d v = record {
  sorted = insert-IsSorted (new addr 1) d.backends v.sorted;
  unit = All-insert IsUnit (new addr 1) d.backends (IsUnit-new addr) v.unit;
}

pub remove_backend-IsValid :
    (addr : SocketAddr) (d : LocalDiscovery) → IsValid d → IsValid (remove_backend addr d)
unfolding remove_backend
remove_backend-IsValid addr d v = record {
  sorted = retain-IsSorted _ d.backends v.sorted;
  unit = All-retain IsUnit _ d.backends v.unit;
}

pub set_backends-IsValid :
    (addrs : List SocketAddr) (d : LocalDiscovery) → IsValid (set_backends addrs d)
unfolding set_backends with_backends
set_backends-IsValid addrs d = with_backends-IsValid addrs

pub clear_backends-IsValid : (d : LocalDiscovery) → IsValid (clear_backends d)
unfolding clear_backends
clear_backends-IsValid d = record { sorted = tt; unit = tt }

-- The set of addresses that a `LocalDiscovery` stands for.
unfoldable pub has : LocalDiscovery → SocketAddr → Bool
has d addr = contains d.backends (new addr 1)

new-cmp :
    (j a : SocketAddr) → is_eq (backend_ord.cmp (new j 1) (new a 1)) ≡ is_eq (socket_ord.cmp j a)
unfolding new
new-cmp j a = ground arith

pub has-add :
    (addr : SocketAddr) (d : LocalDiscovery) (j : SocketAddr)
    → has (add_backend addr d) j ≡ (is_eq (socket_ord.cmp j addr) || has d j)
unfolding has add_backend
has-add addr d j =
    contains-insert (new addr 1) d.backends (new j 1)
    ∙ ap (λ b. b || contains d.backends (new j 1)) (new-cmp j addr)

pub has-remove :
    (addr : SocketAddr) (d : LocalDiscovery) (j : SocketAddr)
    → has (remove_backend addr d) j ≡ (has d j && not (is_eq (socket_ord.cmp j addr)))
unfolding has remove_backend new
has-remove addr d j = contains-retain _ d.backends (new j 1)

contains-unit :
    (addrs : List SocketAddr) (j : SocketAddr)
    → contains (unit_backends addrs) (new j 1) ≡ contains addrs j
unfolding contains
contains-unit [] j = refl
contains-unit (a ∷ addrs) j = ap₂ {A = Bool} {B = Bool} ◌||◌ (new-cmp j a) (contains-unit addrs j)

pub has-set :
    (addrs : List SocketAddr) (d : LocalDiscovery) (j : SocketAddr)
    → has (set_backends addrs d) j ≡ contains addrs j
unfolding has set_backends
has-set addrs d j = contains-collect (unit_backends addrs) (new j 1) ∙ contains-unit addrs j

pub has-with :
    (addrs : List SocketAddr) (j : SocketAddr) → has (with_backends addrs) j ≡ contains addrs j
unfolding has with_backends
has-with addrs j = contains-collect (unit_backends addrs) (new j 1) ∙ contains-unit addrs j

pub has-clear : (d : LocalDiscovery) (j : SocketAddr) → has (clear_backends d) j ≡ false
unfolding has clear_backends contains
has-clear d j = refl
