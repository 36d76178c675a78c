-- ===== src/App/Config/Dns.antt =====
-- `DnsConfig` of umay/src/app/config.rs. The types and builders of the crate `hickory_resolver` are
-- parameters.
pub mod Laws
use umay.Base.{
  ℕ, List, [], ◌∷◌, String, Option, none, some, Outcome, ok, invalid_nameserver,
  invalid_search_domain, ◌>>=◌, ok_or,
}
use umay.Net.{SocketAddr}

pub record DnsConfig : Type 0 where
  pub nameservers : Option (List String)
  pub search : List String
  pub ndots : Option ℕ

pub data NameServerProtocol : Type 0 where
  udp tcp : NameServerProtocol

pub record Hickory : Type 1 where
  pub ResolverConfig : Type 0
  pub ResolverOpts : Type 0
  pub Name : Type 0
  pub new : ResolverConfig
  pub add_name_server : ResolverConfig → SocketAddr → NameServerProtocol → ResolverConfig
  pub add_search : ResolverConfig → Name → ResolverConfig
  pub default_opts : ResolverOpts
  pub set_ndots : ResolverOpts → ℕ → ResolverOpts
  pub parse_name : String → Option Name

module _ (h : Hickory) (parse_addr : String → Option SocketAddr) where
  open h use {
    ResolverConfig, ResolverOpts, Name, new, add_name_server, add_search, default_opts, set_ndots,
    parse_name,
  }

  -- The first loop.
  unfoldable pub add_nameservers : ResolverConfig → List String → Outcome ResolverConfig
  add_nameservers config [] = ok config
  add_nameservers config (ns ∷ nameservers) = do
    addr ← ok_or (parse_addr ns) invalid_nameserver
    add_nameservers (add_name_server config addr udp) nameservers

  -- The second loop.
  unfoldable pub add_searches : ResolverConfig → List String → Outcome ResolverConfig
  add_searches config [] = ok config
  add_searches config (domain ∷ search) = do
    name ← ok_or (parse_name domain) invalid_search_domain
    add_searches (add_search config name) search

  abbrev pub nameserver_list : Option (List String) → List String
  nameserver_list none = []
  nameserver_list (some nameservers) = nameservers

  unfoldable pub into_resolver_config : DnsConfig → Outcome (ResolverConfig × ResolverOpts)
  unfolding add_nameservers add_searches
  into_resolver_config c = do
    config ← add_nameservers new (nameserver_list c.nameservers)
    config' ← add_searches config c.search
    ok (config', elim c.ndots [ none ↦ default_opts | some ndots ↦ set_ndots default_opts ndots ])
