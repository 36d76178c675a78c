-- ===== src/Balance/Discovery/Service.antt =====
-- The trait `ServiceDiscovery` of umay/src/balance/discovery.rs with the laws that its users rely
-- on, and `Box<dyn ServiceDiscovery>`.
use mathlib.Core.Path.{subst}
use umay.Base.{◌≡◌, List, [], ◌∷◌, String, Outcome, ok, err, panic, All}
use umay.Base.OrdSet.{IsSorted}
use umay.Net.{IpAddr}
use umay.Balance.Backend.{Backend, backend_ord}
use umay.Balance.Selection.Algorithm.{IsUnit}
use umay.Balance.Discovery.Local
use umay.Balance.Discovery.Local.{LocalDiscovery}
use umay.Balance.Discovery.Local.Laws.{IsValid}
use umay.Balance.Discovery.Dns
use umay.Balance.Discovery.Dns.{DnsDiscovery}
use umay.Balance.Discovery.Dns.Laws.{Answers, discover-Answers}

-- A set of backends as the `BTreeSet` keeps it, each of weight 1.
pub record IsBackendSet (bs : List Backend) : Type 0 where
  pub sorted : IsSorted bs
  pub unit : All IsUnit bs

-- `W` is what the world answers at one call.
pub record ServiceDiscovery (W D : Type 0) : Type 1 where
  pub discover : W → D → Outcome (List Backend)
  pub Fits : D → Type 0
  pub discover-set :
      (w : W) (d : D) (bs : List Backend) → Fits d → discover w d ≡ ok bs → IsBackendSet bs

-- What a resolver answers when it is asked for a host.
abbrev pub Lookup : Type 0 → Type 0
Lookup R = R → String → Outcome (List IpAddr)

module _ {R : Type 0} where
  pub dns-set :
      (lookup_ip : Lookup R) (d : DnsDiscovery R) (bs : List Backend)
      → Dns.discover lookup_ip d ≡ ok bs
      → IsBackendSet bs
  dns-set lookup_ip d bs e =
      answers_set (lookup_ip d.resolver d.hostname) (discover-Answers lookup_ip d)
    where
      answers_set :
          (answer : Outcome (List IpAddr))
          → Answers d.port answer (Dns.discover lookup_ip d)
          → IsBackendSet bs
      answers_set (ok []) h = cc
      answers_set (ok (ip ∷ ips)) (xs, same, _, sorted, unit, _) =
          subst IsBackendSet (cc) (record { sorted = sorted; unit = unit })
      answers_set (err x) h = cc
      answers_set panic h = cc

pub data Discovery (R : Type 0) : Type 0 where
  dns : DnsDiscovery R → Discovery R
  local : LocalDiscovery → Discovery R

module _ {R : Type 0} where
  -- A call through the trait object.
  unfoldable pub discover : Lookup R → Discovery R → Outcome (List Backend)
  discover lookup_ip (dns d) = Dns.discover lookup_ip d
  discover lookup_ip (local d) = Local.discover d

  abbrev pub IsFit : Discovery R → Type 0
  IsFit (dns d) = Unit
  IsFit (local d) = IsValid d

  pub discovery-set :
      (lookup_ip : Lookup R) (d : Discovery R) (bs : List Backend)
      → IsFit d
      → discover lookup_ip d ≡ ok bs
      → IsBackendSet bs
  unfolding discover Local.discover
  discovery-set lookup_ip (dns d) bs fit e = dns-set lookup_ip d bs e
  discovery-set lookup_ip (local d) bs fit e =
      subst IsBackendSet (cc) (record { sorted = fit.sorted; unit = fit.unit })

  instance abbrev pub discovery_service : ServiceDiscovery (Lookup R) (Discovery R)
  discovery_service = record { discover = discover; Fits = IsFit; discover-set = discovery-set }
