-- ===== src/Proxy/Stream/Connection/Serve.antt =====
-- The `match` on the choice in `handle_connection` of umay/src/proxy/stream.rs.
use umay.Base.{
  ◌≡◌, ◌≢◌, ◌⊎◌, inl, inr, refl, ap, List, [], ◌∷◌, Option, none, some, Outcome, ok, err, panic,
  Mem,
}
use umay.App.Config.Listen.{Protocol}
use umay.Balance.Backend.{Backend}
use umay.Balance.LoadBalancer.{LoadBalancer}
use umay.Balance.Selection.Selector.{Selector, selector_algorithm}
use umay.Balance.Discovery.Service.{Discovery}
use umay.Tls.{Session}
use umay.Tls.Server.{ready}
use umay.Proxy.Stream.WebSocket.{Round, proxy_ws, proxy_ws-ne-ok}
use umay.Proxy.Stream.Connection.{
  Network, Display, Action, connects, accepts_ws, connects_ws, Conn, act, lift, ◌>>=◌, serve,
  serve_chosen, settle, upstream_url,
}

-- The connection before anything was asked.
abbrev pub fresh : {R : Type 0} → LoadBalancer Selector (Discovery R) → Conn R
fresh balancer = record { balancer = balancer; actions = [] }

abbrev acted : {R : Type 0} → LoadBalancer Selector (Discovery R) → List Action → Conn R
acted balancer actions = record { balancer = balancer; actions = actions }

module _ {R A B : Type 0} (lb : LoadBalancer Selector (Discovery R)) where
  act_once :
      (a : Action) (r : Outcome A) (g : A → Outcome B)
      → ((act a r >>= λ x. lift (g x)) (fresh lb)).1 ≡ acted lb (a ∷ [])
  act_once a (ok x) g = refl
  act_once a (err e) g = refl
  act_once a panic g = refl

  act_twice :
      {C : Type 0} (a a' : Action) (r : Outcome A) (r' : Outcome B) (g : A → B → Outcome C)
      → (((act a r >>= λ x. act a' r' >>= λ y. lift (g x y)) (fresh lb)).1 ≡ acted lb (a ∷ []))
        ⊎ (((act a r >>= λ x. act a' r' >>= λ y. lift (g x y)) (fresh lb)).1
            ≡ acted lb (a ∷ a' ∷ []))
  act_twice a a' (ok x) (ok y) g = inr refl
  act_twice a a' (ok x) (err e) g = inr refl
  act_twice a a' (ok x) panic g = inr refl
  act_twice a a' (err e) r' g = inl refl
  act_twice a a' panic r' g = inl refl

  ws_ne_ok :
      {Message : Type 0} (a a' : Action) (r : Outcome A) (r' : Outcome B)
      (rounds : A → B → List (Round Message))
      → settle
          ((act a r >>= λ x. act a' r' >>= λ y. lift (ok (proxy_ws (rounds x y)).result))
            (fresh lb)).0
        ≢ ready (ok tt)
  ws_ne_ok a a' (ok x) (ok y) rounds = proxy_ws-ne-ok (rounds x y)
  ws_ne_ok a a' (ok x) (err e) rounds = λ h. cc
  ws_ne_ok a a' (ok x) panic rounds = λ h. cc
  ws_ne_ok a a' (err e) r' rounds = λ h. cc
  ws_ne_ok a a' panic r' rounds = λ h. cc

-- What is asked of the network on behalf of one backend.
abbrev pub ActsFor : Display → Backend → List Action → Type 0
ActsFor display b actions =
    (actions ≡ connects b.addr ∷ [])
    ⊎ ((actions ≡ accepts_ws ∷ [])
        ⊎ (actions ≡ accepts_ws ∷ connects_ws (upstream_url display b.addr) ∷ []))

-- Nothing, or what serves one member of the balancer's set.
abbrev pub ActsWithin : Display → List Backend → List Action → Type 0
ActsWithin display backends actions =
    (actions ≡ []) ⊎ ((b : Backend) × Mem b backends × ActsFor display b actions)

module _ {session : Session} (display : Display) (net : Network session) {R : Type 0}
    (lb : LoadBalancer Selector (Discovery R)) where
  open session use {TlsStream}
  open net use {Io, terminate, rng}

  serve-acts :
      (p : Protocol) (stream : TlsStream) (b : Backend)
      → let c = (serve display net p stream b (fresh lb)).1 in
        ((c.actions ≡ []) ⊎ ActsFor display b c.actions) × (c.balancer ≡ lb)
  unfolding serve
  serve-acts Protocol.tcp stream b =
      let e = act_once lb (connects b.addr) (net.connect b.addr) _ in
      (inr (inl (ap (λ (c : Conn R). c.actions) e)), ap (λ (c : Conn R). c.balancer) e)
  serve-acts Protocol.ws stream b =
      let url = upstream_url display b.addr in
      elim (act_twice lb accepts_ws (connects_ws url) (net.accept_async stream)
        (net.connect_async url) (λ x y. ok (proxy_ws (net.ws_rounds x y)).result)) [
          | inl e ↦ (
            inr (inr (inl (ap (λ (c : Conn R). c.actions) e))),
            ap (λ (c : Conn R). c.balancer) e,
          )
          | inr e ↦ (
            inr (inr (inr (ap (λ (c : Conn R). c.actions) e))),
            ap (λ (c : Conn R). c.balancer) e,
          )
        ]
  serve-acts Protocol.udp stream b = (inl refl, refl)
  serve-acts Protocol.http stream b = (inl refl, refl)

  serve_ws-ne-ok :
      (stream : TlsStream) (b : Backend)
      → settle (serve display net Protocol.ws stream b (fresh lb)).0 ≢ ready (ok tt)
  unfolding serve
  serve_ws-ne-ok stream b =
      ws_ne_ok lb accepts_ws (connects_ws (upstream_url display b.addr)) (net.accept_async stream)
        (net.connect_async (upstream_url display b.addr)) net.ws_rounds

  -- The handshake's and the choice's failures ask nothing of the network and keep the set.
  pub serve_chosen-acts :
      (p : Protocol) (stream : TlsStream) (chosen : Option Backend) (bs : List Backend)
      → ((b : Backend) → chosen ≡ some b → Mem b bs)
      → let c = (serve_chosen display net p stream chosen (fresh lb)).1 in
        ActsWithin display bs c.actions × (c.balancer ≡ lb)
  unfolding serve_chosen
  serve_chosen-acts p stream none bs h = (inl refl, refl)
  serve_chosen-acts p stream (some b) bs h = elim (serve-acts p stream b).0 [
    | inl e ↦ (inl e, (serve-acts p stream b).1)
    | inr acts ↦ (inr (b, h b refl, acts), (serve-acts p stream b).1)
  ]

  pub serve_chosen_ws-ne-ok :
      (stream : TlsStream) (chosen : Option Backend)
      → settle (serve_chosen display net Protocol.ws stream chosen (fresh lb)).0 ≢ ready (ok tt)
  unfolding serve_chosen
  serve_chosen_ws-ne-ok stream none = λ h. cc
  serve_chosen_ws-ne-ok stream (some b) = serve_ws-ne-ok stream b
