-- ===== src/Proxy/Stream/Connection/Paths.antt =====
-- All that `handle_connection` of umay/src/proxy/stream.rs can come to, path by path.
use Prim.Native.String
use umay.Net.{SocketAddr, ip, port}
use umay.Base.{
  String, ◌^◌, ◌<◌, ◌≡◌, refl, List, [], ◌∷◌, length, All, Mem, none, some, Outcome, ok, err, panic,
  no_backends_available, unsupported_protocol, arith,
}
use umay.App.Config.Listen.{Protocol}
use umay.Balance.Backend.{Backend}
use umay.Balance.LoadBalancer.{LoadBalancer, select}
use umay.Balance.Selection.Algorithm.{IsUnit}
use umay.Balance.Selection.Random.{Rng}
use umay.Balance.Selection.Selector.{Selector, selector_algorithm, selector-mem, selector-total}
use umay.Balance.Discovery.Service.{Discovery}
use umay.Tls.{Session, ServerTls}
use umay.Tls.Server.{Poll, ready}
use umay.Proxy.Stream.Tcp.{proxy_tcp}
use umay.Proxy.Stream.WebSocket.{proxy_ws}
use umay.Proxy.Stream.Connection.{
  Display, Network, Action, connects, accepts_ws, connects_ws, Conn, act, lift, ◌>>=◌, serve,
  handle_connection, settle, upstream_url,
}
use umay.Proxy.Stream.Connection.Serve.{fresh}
use umay.Proxy.Stream.Connection.Laws.{answer}

-- The address of an upstream WebSocket: `ws://`, the IP address, a colon and the port.
abbrev pub ws_address : Display → SocketAddr → String
ws_address display a =
    String.◌++◌ "ws://"
      (String.◌++◌ (display.show_ip (ip a)) (String.◌++◌ ":" (display.show_port (port a))))

-- What a connection comes to: its result so far, and what was asked of the network.
abbrev pub End : Type 0
End = Poll (Outcome (Unit {0})) × List Action

abbrev settled :
    {R : Type 0} → Outcome (Poll (Outcome (Unit {0}))) × Conn R → Poll (Outcome (Unit {0})) × Conn R
settled r = (settle r.0, r.1)

abbrev pub ending :
    {R : Type 0} → LoadBalancer Selector (Discovery R) → End → Poll (Outcome (Unit {0})) × Conn R
ending lb e = (e.0, record { balancer = lb; actions = e.1 })

module _ {session : Session} (display : Display) (net : Network session) where
  open session use {TlsStream}
  open net use {
    TcpStream, ClientWs, UpstreamWs, connect, accept_async, connect_async, tcp_events, ws_rounds,
  }

  abbrev pub tcp_end : TlsStream → Outcome TcpStream → Poll (Outcome (Unit {0}))
  tcp_end stream (ok upstream) = (proxy_tcp (tcp_events stream upstream)).result
  tcp_end stream (err e) = ready (err e)
  tcp_end stream panic = ready panic

  abbrev pub upstream_end : ClientWs → Outcome UpstreamWs → Poll (Outcome (Unit {0}))
  upstream_end client (ok upstream) = (proxy_ws (ws_rounds client upstream)).result
  upstream_end client (err e) = ready (err e)
  upstream_end client panic = ready panic

  abbrev pub ws_end : Backend → Outcome ClientWs → End
  ws_end b (ok client) =
      let url = ws_address display b.addr in
      (upstream_end client (connect_async url), accepts_ws ∷ connects_ws url ∷ [])
  ws_end b (err e) = (ready (err e), accepts_ws ∷ [])
  ws_end b panic = (ready panic, accepts_ws ∷ [])

  -- A session with one backend, by protocol.
  abbrev pub session_end : Protocol → TlsStream → Backend → End
  session_end Protocol.tcp stream b = (tcp_end stream (connect b.addr), connects b.addr ∷ [])
  session_end Protocol.ws stream b = ws_end b (accept_async stream)
  session_end Protocol.udp stream b = (ready (err unsupported_protocol), [])
  session_end Protocol.http stream b = (ready (err unsupported_protocol), [])

  module _ {R : Type 0} (lb : LoadBalancer Selector (Discovery R)) where
    connect_end :
        (stream : TlsStream) (b : Backend) (r : Outcome TcpStream)
        → settled (
            (act (connects b.addr) r >>= λ upstream.
            lift (ok (proxy_tcp (tcp_events stream upstream)).result))
              (fresh lb))
          ≡ ending lb (tcp_end stream r, connects b.addr ∷ [])
    connect_end stream b (ok upstream) = refl
    connect_end stream b (err e) = refl
    connect_end stream b panic = refl

    client_end :
        (b : Backend) (client : ClientWs) (r : Outcome UpstreamWs)
        → let url = upstream_url display b.addr in
          settled (
            (act (connects_ws url) r >>= λ upstream.
            lift (ok (proxy_ws (ws_rounds client upstream)).result))
              (record { balancer = lb; actions = accepts_ws ∷ [] }))
          ≡ ending lb (upstream_end client r, accepts_ws ∷ connects_ws url ∷ [])
    client_end b client (ok upstream) = refl
    client_end b client (err e) = refl
    client_end b client panic = refl

    accept_end :
        (b : Backend) (r : Outcome ClientWs)
        → let url = upstream_url display b.addr in
          settled (
            (act accepts_ws r >>= λ client.
            act (connects_ws url) (connect_async url) >>= λ upstream.
            lift (ok (proxy_ws (ws_rounds client upstream)).result))
              (fresh lb))
          ≡ ending lb (ws_end b r)
    unfolding upstream_url
    accept_end b (ok client) = client_end b client (connect_async (upstream_url display b.addr))
    accept_end b (err e) = refl
    accept_end b panic = refl

    pub serve-end :
        (p : Protocol) (stream : TlsStream) (b : Backend)
        → settled (serve display net p stream b (fresh lb)) ≡ ending lb (session_end p stream b)
    unfolding serve
    serve-end Protocol.tcp stream b = connect_end stream b (connect b.addr)
    serve-end Protocol.ws stream b = accept_end b (accept_async stream)
    serve-end Protocol.udp stream b = refl
    serve-end Protocol.http stream b = refl

-- A set in use: backends of weight 1, at least one and fewer than 2^64.
pub record IsServing (bs : List Backend) : Type 0 where
  pub unit : All IsUnit bs
  pub some_backend : 0 < length bs
  pub small : length bs < 2 ^ 64

module _ {D : Type 0} (rng : Rng) (lb : LoadBalancer Selector D) where
  answer-total :
      (bs : List Backend)
      → IsServing bs
      → (b : Backend) × Mem b bs × ((answer rng lb bs).1 ≡ some b)
  answer-total [] h = absurd (omega (arith, h.some_backend))
  answer-total (x ∷ bs) h =
      let (b, e) = selector-total rng lb.selection (x ∷ bs) h.unit h.some_backend h.small in
      (b, selector-mem rng lb.selection (x ∷ bs) b e, e)

  select-total :
      IsServing lb.backends.backends
      → (b : Backend) × Mem b lb.backends.backends × ((select rng none lb).1 ≡ some b)
  unfolding select
  select-total h = answer-total lb.backends.backends h

  select-empty : lb.backends.backends ≡ [] → select rng none lb ≡ (lb, none)
  unfolding select
  select-empty h = rw h

module _ {session : Session} (display : Display) (net : Network session) {R : Type 0} (p : Protocol)
    (lb : LoadBalancer Selector (Discovery R)) (io : net.Io) (tls : ServerTls session.ServerName)
    (stream : session.TlsStream) (handshake : net.terminate io ≡ ok (tls, stream)) where
  -- A connection whose handshake succeeds, on a set of at least one and fewer than 2^64 backends of
  -- weight 1, is served by a member of the set, which the balancer chose: it asks for that backend and
  -- ends as the session with it ends.
  pub handle_connection-serves :
      IsServing lb.backends.backends
      → (b : Backend) × Mem b lb.backends.backends
        × ((select net.rng none lb).1 ≡ some b)
        × (handle_connection display net p lb io
            ≡ ending (select net.rng none lb).0 (session_end display net p stream b))
  unfolding handle_connection
  handle_connection-serves h =
      let (b, m, e) = select-total net.rng lb h in
      (b, m, e, rw (handshake, e) (serve-end display net (select net.rng none lb).0 p stream b))

  -- A connection whose handshake succeeds, on the empty set, ends in the error that no backend is
  -- available, with nothing asked of the network and the balancer as it was.
  pub handle_connection-empty :
      lb.backends.backends ≡ []
      → handle_connection display net p lb io ≡ (ready (err no_backends_available), fresh lb)
  unfolding handle_connection
  handle_connection-empty h = rw (handshake, select-empty net.rng lb h)
