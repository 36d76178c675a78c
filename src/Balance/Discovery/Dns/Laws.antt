-- ===== src/Balance/Discovery/Dns/Laws.antt =====
-- The answers of `DnsDiscovery` of umay/src/balance/discovery.rs.
use mathlib.Core.Path.{fun_ext}
use umay.Base.{
  ℕ, ◌≡◌, refl, ap, sym, ◌∙◌, List, [], ◌∷◌, map, String, Outcome, ok, err, panic, no_backends,
  true, false, All, if◌then◌else◌,
}
use umay.Base.OrdSet.{
  collect, contains, IsSorted, collect-IsSorted, contains-collect, All-collect, contains_head,
}
use umay.Net.{IpAddr, SocketAddr, socket_addr, socket_ord}
use umay.Balance.Backend.{Backend, backend_ord, new}
use umay.Balance.Selection.Algorithm.{IsUnit}
use umay.Balance.Discovery.Dns.{DnsDiscovery, ip_backends, is_empty, discover}
use umay.Balance.Discovery.Local
use umay.Balance.Discovery.Local.Refines.{discover_of_has}
use umay.Balance.Discovery.Local.{unit_backends, with_backends}
use umay.Balance.Discovery.Local.Laws.{has, has-with, with_backends-IsValid}

abbrev pub addresses : ℕ → List IpAddr → List SocketAddr
addresses port = map λ ip. socket_addr ip port

ip_backends-IsUnit : (port : ℕ) (ips : List IpAddr) → All IsUnit (ip_backends port ips)
unfolding new
ip_backends-IsUnit port [] = tt
ip_backends-IsUnit port (ip ∷ ips) = (refl, ip_backends-IsUnit port ips)

contains_none : (b : Backend) → contains [] b ≡ false
unfolding contains
contains_none b = refl

discover_none :
    (port : ℕ)
    → (if is_empty (collect (ip_backends port []))
        then err no_backends
        else ok (collect (ip_backends port [])))
      ≡ err no_backends
unfolding collect
discover_none port = refl

collect_empty : (b : Backend) (bs : List Backend) → is_empty (collect (b ∷ bs)) ≡ false
collect_empty b bs = nonempty (collect (b ∷ bs)) (contains-collect (b ∷ bs) b ∙ contains_head b bs)
  where
    nonempty : (xs : List Backend) → contains xs b ≡ true → is_empty xs ≡ false
    nonempty [] h = cc (contains_none b, h)
    nonempty (x ∷ xs) h = refl

-- What `discover` must answer, by what the resolver answers: the same error, an error for no
-- address, and otherwise the set of one backend of weight 1 for each address with the port.
abbrev pub Answers : ℕ → Outcome (List IpAddr) → Outcome (List Backend) → Type 0
Answers port (ok []) r = r ≡ err no_backends
Answers port (ok (ip ∷ ips)) r =
    (bs : List Backend) × (r ≡ ok bs)
    × (is_empty bs ≡ false)
    × IsSorted bs
    × All IsUnit bs
    × ((j : SocketAddr) → contains bs (new j 1) ≡ contains (addresses port (ip ∷ ips)) j)
Answers port (err x) r = r ≡ err x
Answers port panic r = r ≡ panic

ip_backends_eq :
    (port : ℕ) (ips : List IpAddr) → ip_backends port ips ≡ unit_backends (addresses port ips)
ip_backends_eq port [] = refl
ip_backends_eq port (ip ∷ ips) = ap (◌∷◌ (new (socket_addr ip port) 1)) (ip_backends_eq port ips)

contains-ips :
    (port : ℕ) (ips : List IpAddr) (j : SocketAddr)
    → contains (collect (ip_backends port ips)) (new j 1) ≡ contains (addresses port ips) j
unfolding has with_backends
contains-ips port ips j =
    ap (λ bs. contains (collect bs) (new j 1)) (ip_backends_eq port ips)
    ∙ has-with (addresses port ips) j

module _ {R : Type 0} (lookup_ip : R → String → Outcome (List IpAddr)) (d : DnsDiscovery R) where
  discover_answer :
      (answer : Outcome (List IpAddr))
      → lookup_ip d.resolver d.hostname ≡ answer
      → Answers d.port answer (discover lookup_ip d)
  unfolding discover
  discover_answer (ok []) e = rw (e, discover) (discover_none d.port)
  discover_answer (ok (ip ∷ ips)) e =
      rw (e, discover)
        (
          collect (ip_backends d.port (ip ∷ ips)),
          rw (collect_empty (new (socket_addr ip d.port) 1) (ip_backends d.port ips)),
          collect_empty (new (socket_addr ip d.port) 1) (ip_backends d.port ips),
          collect-IsSorted (ip_backends d.port (ip ∷ ips)),
          All-collect IsUnit (ip_backends d.port (ip ∷ ips)) (ip_backends-IsUnit d.port (ip ∷ ips)),
          contains-ips d.port (ip ∷ ips),
        )
  discover_answer (err x) e = rw (e, discover)
  discover_answer panic e = rw (e, discover)

  -- On every answer of the resolver: its error or panic is passed on, no address is an error, and
  -- otherwise `discover` answers a sorted set that is not empty, of backends of weight 1, one for
  -- each address with the port.
  pub discover-Answers : Answers d.port (lookup_ip d.resolver d.hostname) (discover lookup_ip d)
  discover-Answers = discover_answer (lookup_ip d.resolver d.hostname) refl

ips_eq :
    (port : ℕ) (ips ips' : List IpAddr)
    → ((j : SocketAddr) → contains (addresses port ips) j ≡ contains (addresses port ips') j)
    → collect (ip_backends port ips) ≡ collect (ip_backends port ips')
unfolding with_backends Local.discover
ips_eq port ips ips' same =
    ap collect (ip_backends_eq port ips)
    ∙ cc (
        discover_of_has (with_backends as') (with_backends bs') (with_backends-IsValid as')
          (with_backends-IsValid bs') (fun_ext λ j. has-with as' j ∙ same j ∙ sym (has-with bs' j)))
    ∙ ap collect (sym (ip_backends_eq port ips'))
  where
    as' : List SocketAddr
    as' = addresses port ips

    bs' : List SocketAddr
    bs' = addresses port ips'

module _ {R : Type 0} (lookup lookup' : R → String → Outcome (List IpAddr))
    (d : DnsDiscovery R) where
  -- Two answers of the resolver that give the same socket addresses are discovered alike: their
  -- order and repetitions leave no trace.
  pub discover_same :
      (ips ips' : List IpAddr)
      → lookup d.resolver d.hostname ≡ ok ips
      → lookup' d.resolver d.hostname ≡ ok ips'
      → ((j : SocketAddr) → contains (addresses d.port ips) j ≡ contains (addresses d.port ips') j)
      → discover lookup d ≡ discover lookup' d
  unfolding discover
  discover_same ips ips' e e' same = rw (e, e', ips_eq d.port ips ips' same, discover)
