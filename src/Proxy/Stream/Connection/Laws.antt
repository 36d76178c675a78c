-- ===== src/Proxy/Stream/Connection/Laws.antt =====
-- The paths through `handle_connection` of umay/src/proxy/stream.rs.
use umay.Base.{
  ◌≡◌, ◌≢◌, inl, refl, ap, ◌∙◌, List, [], ◌∷◌, Option, none, some, Outcome, ok, err, panic, Error,
  Mem, if◌then◌else◌,
}
use umay.App.Config.Listen.{Protocol}
use umay.Balance.Backend.{Backend}
use umay.Balance.Discovery.Dns.{is_empty}
use umay.Balance.Selection.Selector
use umay.Tls.Server.{Terminated}
use umay.Balance.LoadBalancer.{LoadBalancer, select}
use umay.Balance.Selection.Selector.{Selector, selector_algorithm, selector-mem}
use umay.Balance.Selection.Random.{Rng}
use umay.Balance.Discovery.Service.{Discovery}
use umay.Tls.{Session}
use umay.Tls.Server.{Poll, ready}
use umay.Proxy.Stream.Connection.{
  Display, Network, Conn, lift, choose, ◌>>=◌, serve_chosen, handle_connection, settle,
}
use umay.Proxy.Stream.Connection.Serve.{fresh, ActsWithin, serve_chosen-acts, serve_chosen_ws-ne-ok}

-- `select` on a set that is not empty.
abbrev pub answered :
    {D : Type 0}
    → LoadBalancer Selector D
    → Selector × Option Backend
    → LoadBalancer Selector D × Option Backend
answered lb r = (record lb { selection = r.0 }, r.1)

abbrev pub answer :
    {D : Type 0}
    → Rng
    → LoadBalancer Selector D
    → List Backend
    → LoadBalancer Selector D × Option Backend
answer rng lb bs =
    if is_empty bs then (lb, none) else answered lb (Selector.select rng lb.selection bs)

answer-mem :
    {D : Type 0} (rng : Rng) (lb : LoadBalancer Selector D) (bs : List Backend) (b : Backend)
    → (answer rng lb bs).1 ≡ some b
    → Mem b bs
answer-mem rng lb [] b h = cc
answer-mem rng lb (x ∷ bs) b h = selector-mem rng lb.selection (x ∷ bs) b h

answer-backends :
    {D : Type 0} (rng : Rng) (lb : LoadBalancer Selector D) (bs : List Backend)
    → (answer rng lb bs).0.backends ≡ lb.backends
answer-backends rng lb [] = refl
answer-backends rng lb (x ∷ bs) = refl

balancer_select-mem :
    {D : Type 0} (rng : Rng) (lb : LoadBalancer Selector D) (b : Backend)
    → (select rng none lb).1 ≡ some b
    → Mem b lb.backends.backends
unfolding select
balancer_select-mem rng lb = answer-mem rng lb lb.backends.backends

balancer_select-backends :
    {D : Type 0} (rng : Rng) (lb : LoadBalancer Selector D)
    → (select rng none lb).0.backends ≡ lb.backends
unfolding select
balancer_select-backends rng lb = answer-backends rng lb lb.backends.backends

module _ {session : Session} (display : Display) (net : Network session) {R : Type 0} (p : Protocol)
    (lb : LoadBalancer Selector (Discovery R)) (io : net.Io) where
  after : Terminated session → Outcome (Poll (Outcome (Unit {0}))) × Conn R
  after r =
      (lift r >>= λ t. choose net.rng >>= λ chosen. serve_chosen display net p t.1 chosen)
        (fresh lb)

  -- The balancer once a backend is chosen.
  next : LoadBalancer Selector (Discovery R)
  next = (select net.rng none lb).0

  after-acts :
      (r : Terminated session)
      → let c = (after r).1 in
        ActsWithin display lb.backends.backends c.actions × (c.balancer.backends ≡ lb.backends)
  unfolding after next
  after-acts (ok t) =
      let (acts, same) =
        serve_chosen-acts display net next p t.1 (select net.rng none lb).1 lb.backends.backends
          (balancer_select-mem net.rng lb) in
      (
        acts,
        ap (λ (x : LoadBalancer Selector (Discovery R)). x.backends) same
            ∙ balancer_select-backends net.rng lb,
      )
  after-acts (err e) = (inl refl, refl)
  after-acts panic = (inl refl, refl)

  -- On every path a connection asks the network for nothing, or for what serves one backend of the
  -- set at hand, and leaves the set as it is.
  pub handle_connection-acts :
      let c = (handle_connection display net p lb io).1 in
      ActsWithin display lb.backends.backends c.actions × (c.balancer.backends ≡ lb.backends)
  unfolding handle_connection after
  handle_connection-acts = after-acts (net.terminate io)

  after-ws : (r : Terminated session) → p ≡ Protocol.ws → settle (after r).0 ≢ ready (ok tt)
  unfolding after next
  after-ws (ok t) e = rw e (serve_chosen_ws-ne-ok display net next t.1 (select net.rng none lb).1)
  after-ws (err e) _ = λ h. cc
  after-ws panic _ = λ h. cc

  -- A WebSocket connection never ends in `Ok(())`: it goes on, or ends in an error or a panic.
  pub handle_connection_ws-ne-ok :
      p ≡ Protocol.ws → (handle_connection display net p lb io).0 ≢ ready (ok tt)
  unfolding handle_connection after
  handle_connection_ws-ne-ok = after-ws (net.terminate io)

  -- A handshake that fails ends the connection with its error, with nothing asked of the network
  -- and no backend chosen.
  pub handle_connection-handshake :
      (e : Error)
      → net.terminate io ≡ err e
      → handle_connection display net p lb io ≡ (ready (err e), fresh lb)
  unfolding handle_connection
  handle_connection-handshake e h = rw h
