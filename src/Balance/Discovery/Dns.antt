-- ===== src/Balance/Discovery/Dns.antt =====
-- `DnsDiscovery` of umay/src/balance/discovery.rs. The resolver of the crate `hickory_resolver` is
-- a parameter: how it is made, and what it answers when it is asked.
pub mod Laws
use umay.Base.{
  ℕ, List, [], ◌∷◌, map, Option, none, some, String, Outcome, ok, err, no_backends, ◌>>=◌, Bool,
  true, false, if◌then◌else◌,
}
use umay.Base.OrdSet.{collect}
use umay.Net.{IpAddr, SocketAddr, socket_addr}
use umay.Balance.Backend.{Backend, backend_ord, new}
use umay.App.Config.Dns.{Hickory, DnsConfig, into_resolver_config}

pub record Resolvers (h : Hickory) : Type 1 where
  pub Resolver : Type 0
  pub tokio : h.ResolverConfig → h.ResolverOpts → Resolver
  pub tokio_from_system_conf : Outcome Resolver

pub record DnsDiscovery (R : Type 0) : Type 0 where
  pub resolver : R
  pub hostname : String
  pub port : ℕ

module _ {h : Hickory} (r : Resolvers h) (parse_addr : String → Option SocketAddr) where
  open r use {Resolver, tokio, tokio_from_system_conf}

  unfoldable pub make_resolver : Option DnsConfig → Outcome Resolver
  make_resolver none = tokio_from_system_conf
  make_resolver (some config) = do
    cfg ← into_resolver_config h parse_addr config
    ok (tokio cfg.0 cfg.1)

  unfoldable pub new_discovery : String → ℕ → Option DnsConfig → Outcome (DnsDiscovery Resolver)
  unfolding make_resolver
  new_discovery hostname port dns_config = do
    resolver ← make_resolver dns_config
    ok (record { resolver = resolver; hostname = hostname; port = port })

abbrev pub is_empty {ℓ} : {A : Type ℓ} → List A → Bool
is_empty [] = true
is_empty (x ∷ xs) = false

abbrev pub ip_backends : ℕ → List IpAddr → List Backend
ip_backends port = map λ ip. new (socket_addr ip port) 1

module _ {R : Type 0} (lookup_ip : R → String → Outcome (List IpAddr)) where
  -- `lookup_ip` is what the resolver answers at this call.
  unfoldable pub discover : DnsDiscovery R → Outcome (List Backend)
  discover d = do
    ips ← lookup_ip d.resolver d.hostname
    let backends = collect (ip_backends d.port ips)
    if is_empty backends then err no_backends else ok backends
