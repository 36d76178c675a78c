-- ===== src/App/Server/TryFrom.antt =====
-- `UmayServer::try_from` of umay/src/app/server.rs as a whole.
use mathlib.Core.Path.{subst}
use umay.Base.{
  ◌≡◌, ◌⊎◌, ap, sym, ◌∙◌, List, [], ◌∷◌, ◌++◌, Option, none, some, ok, err, panic, Error, ◌>>=◌,
  >>=-eq-ok, ok-injective, arith,
}
use umay.App.Crates.{Crates}
use umay.App.Config.Listen.{Protocol}
use umay.App.Config.Listen
use umay.App.Config.Tls.{TlsConfig}
use umay.App.Config.Stream.{Upstream, StreamServer, StreamConfig, upstream}
use umay.App.Config.Umay.{UmayConfig}
use umay.App.Server.{
  Resolver, Proxy, Balancer, create_selector, proxy_for, create_discovery, build_proxy, UmayServer,
  stream_proxies_of, try_from,
}
use umay.App.Server.Traverse.{traverse, Yields, traverse-ok, traverse-err, traverse-panic}
use umay.App.Server.Laws.{IsBuilt, build_proxies-traverse, build_proxy-IsBuilt}
use umay.Balance.Discovery.Service.{Discovery}
use umay.Balance.Selection.Selector.{Selector}
use umay.Tls.Credentials
use umay.Tls.Credentials.{Store}

module _ (crates : Crates) where
  -- One proxy for each server, in order.
  abbrev pub AllBuilt : StreamConfig → List StreamServer → List (Proxy crates) → Type 0
  AllBuilt config [] [] = Unit
  AllBuilt config [] (p ∷ proxies) = ⊥
  AllBuilt config (s ∷ servers) [] = ⊥
  AllBuilt config (s ∷ servers) (p ∷ proxies) =
      IsBuilt crates config s p × AllBuilt config servers proxies

  abbrev pub Builds : Option StreamConfig → List (Proxy crates) → Type 0
  Builds none proxies = proxies ≡ []
  Builds (some config) proxies = AllBuilt config config.servers proxies

  Yields-AllBuilt :
      (config : StreamConfig) (servers : List StreamServer) (proxies : List (Proxy crates))
      → Yields (build_proxy crates config) servers proxies
      → AllBuilt config servers proxies
  Yields-AllBuilt config [] [] h = tt
  Yields-AllBuilt config [] (p ∷ proxies) h = h
  Yields-AllBuilt config (s ∷ servers) [] h = h
  Yields-AllBuilt config (s ∷ servers) (p ∷ proxies) h =
      (build_proxy-IsBuilt crates config s p h.0, Yields-AllBuilt config servers proxies h.1)

  stream_proxies-Builds :
      (stream : Option StreamConfig) (proxies : List (Proxy crates))
      → stream_proxies_of crates stream ≡ ok proxies
      → Builds stream proxies
  unfolding stream_proxies_of
  stream_proxies-Builds none proxies h = cc
  stream_proxies-Builds (some config) proxies h = Yields-AllBuilt config config.servers proxies (
      traverse-ok (build_proxy crates config) config.servers proxies
        (sym (build_proxies-traverse crates config) ∙ h))

  -- A server that is made keeps the configuration, has one proxy for each stream server, in order,
  -- each built from its server as `IsBuilt` says, and has no HTTP proxy.
  pub try_from-Builds :
      (config : UmayConfig) (server : UmayServer crates)
      → try_from crates config ≡ ok server
      → Builds config.stream server.stream_proxies
        × (server.http_proxies ≡ [])
        × (server.config ≡ config)
  unfolding try_from
  try_from-Builds config server h =
      let (proxies, e, h) = >>=-eq-ok (stream_proxies_of crates config.stream) _ h in
      let same = ok-injective _ server h in
      (
        subst (Builds config.stream) (ap (λ (s : UmayServer crates). s.stream_proxies) same)
            (stream_proxies-Builds config.stream proxies e),
        sym (ap (λ (s : UmayServer crates). s.http_proxies) same),
        sym (ap (λ (s : UmayServer crates). s.config) same),
      )

  -- The proxies of a server, item by item.
  pub try_from-Yields :
      (config : UmayConfig) (stream : StreamConfig) (server : UmayServer crates)
      → config.stream ≡ some stream
      → try_from crates config ≡ ok server
      → Yields (build_proxy crates stream) stream.servers server.stream_proxies
  unfolding try_from stream_proxies_of
  try_from-Yields config stream server has h =
      let (proxies, e, h) = >>=-eq-ok (stream_proxies_of crates config.stream) _ h in
      subst (Yields (build_proxy crates stream) stream.servers)
        (ap (λ (s : UmayServer crates). s.stream_proxies) (ok-injective _ server h))
        (traverse-ok (build_proxy crates stream) stream.servers proxies (
          sym (build_proxies-traverse crates stream) ∙ sym (ap (stream_proxies_of crates) has) ∙ e))

  module _ (config : UmayConfig) (stream : StreamConfig) (before : List StreamServer)
      (s : StreamServer) (after : List StreamServer) (proxies : List (Proxy crates))
      (has : config.stream ≡ some stream) (at : stream.servers ≡ before ++ s ∷ after)
      (built : Yields (build_proxy crates stream) before proxies) where
    proxies_as :
        stream_proxies_of crates config.stream
        ≡ traverse (build_proxy crates stream) (before ++ s ∷ after)
    unfolding stream_proxies_of
    proxies_as =
        ap (stream_proxies_of crates) has
        ∙ build_proxies-traverse crates stream
        ∙ ap (traverse (build_proxy crates stream)) at

    -- Where the stream servers before one are built and it ends in an error, that error is the
    -- whole's, whatever servers come after.
    pub try_from-err :
        (e : Error) → build_proxy crates stream s ≡ err e → try_from crates config ≡ err e
    unfolding try_from
    try_from-err e h =
        rw (proxies_as, traverse-err (build_proxy crates stream) before proxies s after e built h)

    -- Where the stream servers before one are built and it panics, the whole panics, whatever
    -- servers come after.
    pub try_from-panic : build_proxy crates stream s ≡ panic → try_from crates config ≡ panic
    unfolding try_from
    try_from-panic h =
        rw (proxies_as, traverse-panic (build_proxy crates stream) before proxies s after built h)

  -- The `todo!()`s: IP hashing, UDP and HTTP.
  abbrev pub IsUnimplemented : Listen.LoadBalancer → Protocol → Type 0
  IsUnimplemented k p =
      (k ≡ Listen.LoadBalancer.ip_hash) ⊎ ((p ≡ Protocol.udp) ⊎ (p ≡ Protocol.http))

  unimplemented :
      (k : Listen.LoadBalancer) (p : Protocol) (balancer : Selector → Balancer crates)
      (proxy : Balancer crates → Proxy crates)
      → IsUnimplemented k p
      → (create_selector k >>= (λ sel. ok (balancer sel)) >>= λ lb. proxy_for crates p (proxy lb))
        ≡ panic
  unfolding create_selector
  unimplemented k p balancer proxy h = ground arith

  -- A stream server whose TLS files, upstream and discovery are in order panics if it asks for IP
  -- hashing, UDP or HTTP.
  pub build_proxy-panic :
      (config : StreamConfig) (s : StreamServer) (tls : TlsConfig) (store : Store crates.rustls)
      (found : Upstream) (d : Discovery (Resolver crates))
      → s.tls ≡ some tls
      → Credentials.try_from crates.rustls crates.read tls ≡ ok store
      → upstream config s.proxy_pass ≡ some found
      → create_discovery crates found ≡ ok d
      → IsUnimplemented found.load_balancer s.listen.protocol
      → build_proxy crates config s ≡ panic
  unfolding build_proxy
  build_proxy-panic config s tls store found d e f g k h =
      rw (e, f, g, k) (unimplemented found.load_balancer s.listen.protocol _ _ h)
