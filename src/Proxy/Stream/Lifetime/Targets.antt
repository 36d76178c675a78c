-- ===== src/Proxy/Stream/Lifetime/Targets.antt =====
-- Which addresses the connections of a proxy of umay/src/proxy/stream.rs go to, over its whole life.
use mathlib.Core.Path.{subst}
use mathlib.Core.Logic.Or
use mathlib.Core.List.{mem-cons, not-mem-nil}
use umay.Base.{
  ◌≡◌, inl, inr, refl, ap, sym, ◌∙◌, List, [], ◌∷◌, Bool, true, false, ok, Mem, All, All-append,
  if◌then◌else◌,
}
use umay.Net.{SocketAddr}
use umay.Balance.Backend.{Backend}
use umay.Balance.Backends.{Backends, refresh}
use umay.Balance.Backends.Laws.{stored-set}
use umay.Balance.LoadBalancer
use umay.Balance.Backends
use umay.Balance.LoadBalancer.{LoadBalancer, tick}
use umay.Balance.Selection.Selector.{Selector}
use umay.Balance.Discovery.Service.{Discovery, Lookup, discovery_service}
use umay.Balance.Discovery.Service
use umay.Tls.{Session}
use umay.Proxy.Stream.{StreamProxy}
use umay.Proxy.Stream.Connection.{
  Display, Network, Action, connects, accepts_ws, connects_ws, upstream_url,
}
use umay.Proxy.Stream.Connection.Serve.{ActsFor, ActsWithin}
use umay.Proxy.Stream.Connection.Laws.{handle_connection-acts}
use umay.Proxy.Stream.Lifetime.{
  Event, refreshes, connection, InUse, call, served, sharing, ticked, started, run,
}

module _ {ℓ κ} {A : Type ℓ} (P : A → Type κ) where
  pub All-mem : ((x : A) → IsProp (P x)) → {x : A} (xs : List A) → All P xs → Mem x xs → P x
  All-mem prop [] h m = absurd (not-mem-nil m)
  All-mem prop {x} (y ∷ ys) h m =
      Or.elim (prop x) (mem-cons.0 m) (λ e. rw e h.0) (All-mem prop ys h.1)

-- A set whose addresses satisfy `P`.
abbrev pub AllAt : (SocketAddr → Type 0) → List Backend → Type 0
AllAt P bs = All (λ (b : Backend). P b.addr) bs

-- What the discovery finds is such a set.
abbrev pub Finds : {R : Type 0} → (SocketAddr → Type 0) → Discovery R → Type 0
Finds {R} P d = (w : Lookup R) (bs : List Backend) → Service.discover w d ≡ ok bs → AllAt P bs

module _ (display : Display) (P : SocketAddr → Type 0) where
  -- What is asked of the network goes to an address that satisfies `P`.
  abbrev pub Reaches : Action → Type 0
  Reaches (connects addr) = P addr
  Reaches accepts_ws = Unit
  Reaches (connects_ws url) = (addr : SocketAddr) × P addr × (url ≡ upstream_url display addr)

  ActsFor-Reaches :
      (b : Backend) (actions : List Action)
      → P b.addr
      → ActsFor display b actions
      → All Reaches actions
  ActsFor-Reaches b actions h (inl e) = rw e (h, tt)
  ActsFor-Reaches b actions h (inr (inl e)) = rw e (tt, tt)
  ActsFor-Reaches b actions h (inr (inr e)) = rw e (tt, ((b.addr, h, refl), tt))

  ActsWithin-Reaches :
      ((addr : SocketAddr) → IsProp (P addr))
      → (bs : List Backend) (actions : List Action) → AllAt P bs
      → ActsWithin display bs actions
      → All Reaches actions
  ActsWithin-Reaches prop bs actions h (inl e) = rw e tt
  ActsWithin-Reaches prop bs actions h (inr (b, m, acts)) =
      ActsFor-Reaches b actions
        (All-mem (λ (c : Backend). P c.addr) (λ (c : Backend). prop c.addr) bs h m) acts

  module _ {R : Type 0} (d : Discovery R) where
    -- The state of a proxy whose discovery is `d`.
    pub record IsConfined (u : InUse R) : Type 0 where
      pub discovery : u.balancer.backends.discovery ≡ d
      pub set : AllAt P u.balancer.backends.backends
      pub asked : All Reaches u.asked

    tick-IsConfined :
        Finds P d
        → (w : Lookup R) (u : InUse R) → IsConfined u
        → IsConfined (ticked u (tick w u.balancer))
    unfolding tick
    tick-IsConfined finds w u h =
        let (set, same) =
          stored-set (AllAt P) u.balancer.backends
            (Service.discover w u.balancer.backends.discovery) h.set
            (λ bs e. finds w bs (subst (λ x. Service.discover w x ≡ ok bs) h.discovery e)) in
        record { discovery = same ∙ h.discovery; set = set; asked = h.asked }

    tick_alive-IsConfined :
        Finds P d
        → (alive : Bool) (w : Lookup R) (u : InUse R) → IsConfined u
        → IsConfined (if alive then ticked u (tick w u.balancer) else u)
    tick_alive-IsConfined finds true w u h = tick-IsConfined finds w u h
    tick_alive-IsConfined finds false w u h = h

    module _ {Name Acceptor : Type 0} {session : Session}
        (prop : (addr : SocketAddr) → IsProp (P addr)) (finds : Finds P d)
        (p : StreamProxy Name Acceptor R) where
      call-IsConfined :
          (net : Network session) (io : net.Io) (u : InUse R)
          → IsConfined u
          → IsConfined (served u (call display net (sharing p u) io).1)
      unfolding call
      call-IsConfined net io u h =
          let (acts, same) =
            handle_connection-acts display net p.stream_config.listen.protocol u.balancer io in
          record {
            discovery = ap (λ (b : Backends (Discovery R)). b.discovery) same ∙ h.discovery;
            set =
                subst (AllAt P) (sym (ap (λ (b : Backends (Discovery R)). b.backends) same)) h.set;
            asked =
                All-append Reaches u.asked _ h.asked
                  (ActsWithin-Reaches prop u.balancer.backends.backends _ h.set acts);
          }

      run-IsConfined :
          (es : List (Event session R)) (u : InUse R)
          → IsConfined u
          → IsConfined (run display p es u)
      unfolding run
      run-IsConfined [] u h = h
      run-IsConfined (refreshes w ∷ es) u h =
          run-IsConfined es _ (tick_alive-IsConfined finds u.alive w u h)
      run-IsConfined (connection net io ∷ es) u h = run-IsConfined es _ (call-IsConfined net io u h)

      -- Whatever happens in the life of a proxy that starts with the empty set, all its connections
      -- go to addresses in place.
      pub run-Reaches :
          (es : List (Event session R)) (selector : Selector)
          → p.load_balancer ≡ LoadBalancer.new (Backends.new d) selector
          → All Reaches (run display p es (started p)).asked
      unfolding LoadBalancer.new Backends.new
      run-Reaches es selector fresh =
          (run-IsConfined es (started p) (record {
            discovery =
                ap (λ (x : LoadBalancer Selector (Discovery R)). x.backends.discovery) fresh;
            set =
                subst (AllAt P)
                  (sym
                    (ap (λ (x : LoadBalancer Selector (Discovery R)). x.backends.backends) fresh))
                  tt;
            asked = tt;
          })).asked
