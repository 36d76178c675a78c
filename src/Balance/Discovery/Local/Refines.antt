-- ===== src/Balance/Discovery/Local/Refines.antt =====
-- Sequences of calls on `LocalDiscovery` of umay/src/balance/discovery.rs, and the same updates of a
-- set of addresses.
use mathlib.Core.Path.{fun_ext, subst}
use umay.Base.{
  ◌≡◌, ◌≢◌, inl, inr, refl, ap, sym, ◌∙◌, List, [], ◌∷◌, ok, Bool, false, not, ◌&&◌, ◌||◌, All,
  arith, Bool-cases, ◌==◌, ==_iff,
}
use umay.Base.OrdSet.{contains, is_eq}
use umay.Base.OrdSet.Ext.{SameMembers, eq_of_SameMembers}
use umay.Net.{SocketAddr, socket_ord}
use umay.Balance.Backend.{Backend, backend_ord, new}
use umay.Balance.Selection.Algorithm.{IsUnit}
use umay.Balance.Discovery.Local.{
  LocalDiscovery, with_backends, add_backend, remove_backend, set_backends, clear_backends,
  discover,
}
use umay.Balance.Discovery.Local.Laws.{
  IsValid, with_backends-IsValid, add_backend-IsValid, remove_backend-IsValid, set_backends-IsValid,
  clear_backends-IsValid, has, has-add, has-remove, has-set, has-with, has-clear,
}

pub data Call : Type 0 where
  add remove : SocketAddr → Call
  set : List SocketAddr → Call
  clear : Call

unfoldable pub run : List Call → LocalDiscovery → LocalDiscovery
run [] d = d
run (add a ∷ cs) d = run cs (add_backend a d)
run (remove a ∷ cs) d = run cs (remove_backend a d)
run (set addrs ∷ cs) d = run cs (set_backends addrs d)
run (clear ∷ cs) d = run cs (clear_backends d)

-- The same calls on a set of addresses, given by its test.
unfoldable pub replay : List Call → (SocketAddr → Bool) → SocketAddr → Bool
replay [] f = f
replay (add a ∷ cs) f = replay cs (λ j. is_eq (socket_ord.cmp j a) || f j)
replay (remove a ∷ cs) f = replay cs (λ j. f j && not (is_eq (socket_ord.cmp j a)))
replay (set addrs ∷ cs) f = replay cs (contains addrs)
replay (clear ∷ cs) f = replay cs (λ _. false)

pub run-IsValid : (cs : List Call) (d : LocalDiscovery) → IsValid d → IsValid (run cs d)
unfolding run
run-IsValid [] d v = v
run-IsValid (add a ∷ cs) d v = run-IsValid cs (add_backend a d) (add_backend-IsValid a d v)
run-IsValid (remove a ∷ cs) d v = run-IsValid cs (remove_backend a d) (remove_backend-IsValid a d v)
run-IsValid (set addrs ∷ cs) d v =
    run-IsValid cs (set_backends addrs d) (set_backends-IsValid addrs d)
run-IsValid (clear ∷ cs) d v = run-IsValid cs (clear_backends d) (clear_backends-IsValid d)

run-replay : (cs : List Call) (d : LocalDiscovery) → has (run cs d) ≡ replay cs (has d)
unfolding run replay
run-replay [] d = refl
run-replay (add a ∷ cs) d = run-replay cs (add_backend a d) ∙ ap (replay cs) (fun_ext (has-add a d))
run-replay (remove a ∷ cs) d =
    run-replay cs (remove_backend a d) ∙ ap (replay cs) (fun_ext (has-remove a d))
run-replay (set addrs ∷ cs) d =
    run-replay cs (set_backends addrs d) ∙ ap (replay cs) (fun_ext (has-set addrs d))
run-replay (clear ∷ cs) d =
    run-replay cs (clear_backends d) ∙ ap (replay cs) (fun_ext (has-clear d))

-- From the configured addresses on, any sequence of calls keeps the set sorted with every weight 1,
-- and its members are those of the same updates of a set of addresses.
pub run_refines :
    (cs : List Call) (addrs : List SocketAddr)
    → let d = run cs (with_backends addrs) in IsValid d × (has d ≡ replay cs (contains addrs))
run_refines cs addrs = (
  run-IsValid cs (with_backends addrs) (with_backends-IsValid addrs),
  run-replay cs (with_backends addrs) ∙ ap (replay cs) (fun_ext (has-with addrs)),
)

contains_heavy :
    (xs : List Backend) (b : Backend) → All IsUnit xs → b.weight ≢ 1 → contains xs b ≡ false
unfolding contains
contains_heavy [] b h n = refl
contains_heavy (x ∷ xs) b h n = ground (arith, contains_heavy xs b, backend_ord.eq_of_cmp b x)

unit_eq : (b : Backend) → b.weight ≡ 1 → b ≡ new b.addr 1
unfolding new
unit_eq b e = ground arith

SameMembers-has :
    (d e : LocalDiscovery)
    → IsValid d
    → IsValid e
    → has d ≡ has e
    → SameMembers d.backends e.backends
unfolding has new
SameMembers-has d e v w h b = elim (Bool-cases (b.weight == 1)) [
  | inl one ↦
      subst (λ c. contains d.backends c ≡ contains e.backends c)
        (sym (unit_eq b ((==_iff b.weight 1).0 one))) (ap (λ (f : SocketAddr → Bool). f b.addr) h)
  | inr other ↦
      ground (arith, contains_heavy d.backends b v.unit, contains_heavy e.backends b w.unit)
]

-- Of two valid sets, those with the same addresses answer `discover` alike, the order included.
pub discover_of_has :
    (d e : LocalDiscovery) → IsValid d → IsValid e → has d ≡ has e → discover d ≡ discover e
unfolding discover
discover_of_has d e v w h =
    ap ok (eq_of_SameMembers d.backends e.backends v.sorted w.sorted (SameMembers-has d e v w h))
