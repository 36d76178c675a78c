-- ===== src/App/Config/Dns/Laws.antt =====
-- The loops of `into_resolver_config` of umay/src/app/config.rs.
use mathlib.Core.List.{foldl}
use umay.Base.{
  ◌≡◌, refl, List, [], ◌∷◌, String, Option, none, some, Outcome, ok, err, panic, invalid_nameserver,
  invalid_search_domain, ok_or, ◌>>=◌, ap, ◌∙◌, ℕ,
}
use umay.Net.{SocketAddr}
use umay.App.Server.Traverse.{traverse}
use umay.App.Config.Dns.{
  Hickory, DnsConfig, udp, add_nameservers, add_searches, nameserver_list, into_resolver_config,
}

module _ {A B C : Type 0} (f : A → Outcome B) where
  fuse :
      (x : A) (xs : List A) (k : List B → Outcome C)
      → (f x >>= λ y. traverse f xs >>= λ ys. k (y ∷ ys)) ≡ (traverse f (x ∷ xs) >>= k)
  unfolding traverse
  fuse x xs k = by_first (f x) (traverse f xs)
    where
      by_rest :
          (y : B) (s : Outcome (List B))
          → (s >>= λ ys. k (y ∷ ys)) ≡ ((s >>= λ ys. ok (y ∷ ys)) >>= k)
      by_rest y (ok ys) = refl
      by_rest y (err e) = refl
      by_rest y panic = refl

      by_first :
          (r : Outcome B) (s : Outcome (List B))
          → (r >>= λ y. s >>= λ ys. k (y ∷ ys)) ≡ ((r >>= λ y. s >>= λ ys. ok (y ∷ ys)) >>= k)
      by_first (ok y) s = by_rest y s
      by_first (err e) s = refl
      by_first panic s = refl

bind_eq :
    {A B : Type 0} (m : Outcome A) (f g : A → Outcome B)
    → ((a : A) → f a ≡ g a)
    → (m >>= f) ≡ (m >>= g)
bind_eq (ok a) f g h = h a
bind_eq (err e) f g h = refl
bind_eq panic f g h = refl

bind-map :
    {A B C : Type 0} (m : Outcome A) (g : A → B) (k : B → Outcome C)
    → ((m >>= λ a. ok (g a)) >>= k) ≡ (m >>= λ a. k (g a))
bind-map (ok a) g k = refl
bind-map (err e) g k = refl
bind-map panic g k = refl

module _ (h : Hickory) (parse_addr : String → Option SocketAddr) where
  open h use {
    ResolverConfig, ResolverOpts, Name, new, add_name_server, add_search, default_opts, set_ndots,
    parse_name,
  }

  abbrev pub nameserver : String → Outcome SocketAddr
  nameserver ns = ok_or (parse_addr ns) invalid_nameserver

  abbrev pub domain : String → Outcome Name
  domain s = ok_or (parse_name s) invalid_search_domain

  abbrev pub add_udp : ResolverConfig → SocketAddr → ResolverConfig
  add_udp config addr = add_name_server config addr udp

  abbrev pub opts : Option ℕ → ResolverOpts
  opts none = default_opts
  opts (some ndots) = set_ndots default_opts ndots

  add_nameservers-traverse :
      (config : ResolverConfig) (nss : List String)
      → add_nameservers h parse_addr config nss
        ≡ (traverse nameserver nss >>= λ addrs. ok (foldl add_udp config addrs))
  unfolding add_nameservers traverse
  add_nameservers-traverse config [] = refl
  add_nameservers-traverse config (ns ∷ nss) =
      bind_eq (nameserver ns) _ _ (λ addr. add_nameservers-traverse (add_udp config addr) nss)
      ∙ fuse nameserver ns nss (λ addrs. ok (foldl add_udp config addrs))

  add_searches-traverse :
      (config : ResolverConfig) (search : List String)
      → add_searches h parse_addr config search
        ≡ (traverse domain search >>= λ names. ok (foldl add_search config names))
  unfolding add_searches traverse
  add_searches-traverse config [] = refl
  add_searches-traverse config (s ∷ search) =
      bind_eq (domain s) _ _ (λ name. add_searches-traverse (add_search config name) search)
      ∙ fuse domain s search (λ names. ok (foldl add_search config names))

  -- The configuration of a resolver is made by parsing all the name servers, then all the search
  -- domains, where the first that does not parse is the error, and adding both in their order to
  -- the empty configuration, the name servers by UDP.
  pub into_resolver_config-traverse :
      (c : DnsConfig)
      → into_resolver_config h parse_addr c ≡ (
          traverse nameserver (nameserver_list h parse_addr c.nameservers) >>= λ addrs.
          traverse domain c.search >>= λ names.
          ok (foldl add_search (foldl add_udp new addrs) names, opts c.ndots))
  unfolding into_resolver_config
  into_resolver_config-traverse c =
      ap (λ m. m >>= searched) (add_nameservers-traverse new nss)
      ∙ bind-map (traverse nameserver nss) (foldl add_udp new) searched
      ∙ bind_eq (traverse nameserver nss) _ _ λ addrs.
        ap (λ m. m >>= finished) (add_searches-traverse (foldl add_udp new addrs) c.search)
        ∙ bind-map (traverse domain c.search) (foldl add_search (foldl add_udp new addrs)) finished
    where
      nss : List String
      nss = nameserver_list h parse_addr c.nameservers

      finished : ResolverConfig → Outcome (ResolverConfig × ResolverOpts)
      finished config = ok (config, opts c.ndots)

      searched : ResolverConfig → Outcome (ResolverConfig × ResolverOpts)
      searched config = add_searches h parse_addr config c.search >>= finished
