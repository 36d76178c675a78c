-- ===== src/App/Server/Listed.antt =====
-- What a discovery of umay/src/app/server.rs finds, by the upstream it was created for.
use mathlib.Core.List.{mem-map_of_mem}
use mathlib.Core.Path.{subst}
use umay.Base.{◌≡◌, refl, sym, ◌∙◌, List, [], ◌∷◌, Mem, ok, ok-injective}
use umay.Net.{SocketAddr, port}
use umay.Balance.Backend.{Backend}
use umay.Balance.Discovery.Local.{with_backends}
use umay.Balance.Discovery.Service.{Discovery}
use umay.App.Crates.{Crates}
use umay.App.Config.Listen.{ServiceDiscovery}
use umay.App.Config.Stream.{UpstreamServer, Upstream}
use umay.App.Server.{Resolver, create_discovery, discovery_of}
use umay.App.Server.Traverse.{Yields-map}
use umay.App.Server.Laws.{create_discovery-Yields, create_discovery-local}
use umay.App.Server.Targets.{All-weaken, local-Finds, dns-Finds, discovery_of-dns}
use umay.App.Server.Deployment.{Lists}
use umay.Proxy.Stream.Lifetime.Targets.{Finds}

Finds-weaken :
    {R : Type 0} (P Q : SocketAddr → Type 0) (d : Discovery R)
    → ((a : SocketAddr) → P a → Q a)
    → Finds P d
    → Finds Q d
Finds-weaken P Q d f h w bs e =
    All-weaken (λ (b : Backend). P b.addr) (λ (b : Backend). Q b.addr) (λ b. f b.addr) bs (h w bs e)

module _ (crates : Crates) where
  dns-Lists :
      (servers : List UpstreamServer) (d : Discovery (Resolver crates))
      → discovery_of crates ServiceDiscovery.dns servers ≡ ok d
      → Finds (Lists crates ServiceDiscovery.dns servers) d
  unfolding discovery_of
  dns-Lists [] d h = cc
  dns-Lists (us ∷ servers) d h =
      let (x, e, same) = discovery_of-dns crates (us ∷ servers) us d refl h in
      subst (Finds (λ a. port a ≡ us.port)) (sym e)
        (subst (λ n. Finds (λ a. port a ≡ n) (Discovery.dns x)) same (dns-Finds x))

  local-Lists :
      (u : Upstream) (d : Discovery (Resolver crates))
      → u.service_discovery ≡ ServiceDiscovery.local
      → create_discovery crates u ≡ ok d
      → Finds (Lists crates ServiceDiscovery.local u.servers) d
  local-Lists u d e h =
      let (addrs, reads) = create_discovery-Yields crates u d e h in
      subst (Finds (Lists crates ServiceDiscovery.local u.servers))
        (ok-injective (Discovery.local (with_backends addrs)) d
          (sym (create_discovery-local crates u addrs e reads) ∙ h))
        (Finds-weaken (λ a. Mem a addrs) (Lists crates ServiceDiscovery.local u.servers) _
          (λ a m.
            subst (Mem (ok a)) (sym (Yields-map _ u.servers addrs reads)) (mem-map_of_mem ok m))
          (local-Finds addrs))

  pub kind-Lists :
      (u : Upstream) (d : Discovery (Resolver crates)) (k : ServiceDiscovery)
      → u.service_discovery ≡ k
      → create_discovery crates u ≡ ok d
      → Finds (Lists crates k u.servers) d
  unfolding create_discovery
  kind-Lists u d ServiceDiscovery.local e h = local-Lists u d e h
  kind-Lists u d ServiceDiscovery.dns e h =
      dns-Lists u.servers d (subst (λ k. discovery_of crates k u.servers ≡ ok d) e h)
