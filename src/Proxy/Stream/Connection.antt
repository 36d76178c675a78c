-- ===== src/Proxy/Stream/Connection.antt =====
-- `handle_connection` of umay/src/proxy/stream.rs: the handshake, the choice of a backend, the
-- connection to it and the session.
pub mod Serve
pub mod Laws
pub mod Paths
use Prim.Native.String
use umay.Base.{
  ℕ, List, [], ◌∷◌, ◌++◌, String, Option, none, some, Outcome, ok, err, panic,
  no_backends_available, unsupported_protocol,
}
use umay.Net.{IpAddr, SocketAddr, ip, port}
use umay.App.Config.Listen.{Protocol}
use umay.Balance.Backend.{Backend}
use umay.Balance.LoadBalancer.{LoadBalancer, select}
use umay.Balance.Selection.Selector.{Selector, selector_algorithm}
use umay.Balance.Selection.Random.{Rng}
use umay.Balance.Discovery.Service.{Discovery}
use umay.Tls.{Session, ServerTls}
use umay.Tls.Server.{Poll, pending, ready, Terminated}
use umay.Proxy.Stream.Tcp.{CopyEvent, proxy_tcp}
use umay.Proxy.Stream.WebSocket.{Round, proxy_ws}

-- `Display` of addresses and ports.
pub record Display : Type 0 where
  pub show_ip : IpAddr → String
  pub show_port : ℕ → String

-- What the network and the crates answer during one connection. `terminate` is what the handshake
-- ends in; `tcp_events` and `ws_rounds` are what happens in a session so far.
pub record Network (session : Session) : Type 1 where
  pub Io : Type 0
  pub TcpStream : Type 0
  pub ClientWs : Type 0
  pub UpstreamWs : Type 0
  pub Message : Type 0
  pub terminate : Io → Terminated session
  pub connect : SocketAddr → Outcome TcpStream
  pub accept_async : session.TlsStream → Outcome ClientWs
  pub connect_async : String → Outcome UpstreamWs
  pub tcp_events : session.TlsStream → TcpStream → List CopyEvent
  pub ws_rounds : ClientWs → UpstreamWs → List (Round Message)
  pub rng : Rng

-- What was asked of the network.
pub data Action : Type 0 where
  connects : SocketAddr → Action
  accepts_ws : Action
  connects_ws : String → Action

pub record Conn (R : Type 0) : Type 0 where
  pub balancer : LoadBalancer Selector (Discovery R)
  pub actions : List Action

-- A step may act and choose, and may end the connection.
abbrev pub M : Type 0 → Type 0 → Type 0
M R A = Conn R → Outcome A × Conn R

abbrev pub then_run : {R A B : Type 0} → (A → M R B) → Outcome A × Conn R → Outcome B × Conn R
then_run f (ok a, c) = f a c
then_run f (err e, c) = (err e, c)
then_run f (panic, c) = (panic, c)

infixl 5 ◌>>=◌
abbrev pub ◌>>=◌ : {R A B : Type 0} → M R A → (A → M R B) → M R B
◌>>=◌ m f c = then_run f (m c)

abbrev pub lift : {R A : Type 0} → Outcome A → M R A
lift r c = (r, c)

abbrev pub act : {R A : Type 0} → Action → Outcome A → M R A
act a r c = (r, record c { actions = c.actions ++ a ∷ [] })

-- `self.load_balancer.select(None)`
abbrev pub choose : {R : Type 0} → Rng → M R (Option Backend)
choose rng c =
    let (balancer, b) = select rng none c.balancer in (ok b, record c { balancer = balancer })

abbrev pub settle : Outcome (Poll (Outcome (Unit {0}))) → Poll (Outcome (Unit {0}))
settle (ok r) = r
settle (err e) = ready (err e)
settle panic = ready panic

-- `format!("ws://{}:{}", ..)`
unfoldable pub upstream_url : Display → SocketAddr → String
upstream_url display addr =
    String.◌++◌ "ws://"
      (String.◌++◌ (display.show_ip (ip addr)) (String.◌++◌ ":" (display.show_port (port addr))))

module _ {session : Session} (display : Display) (net : Network session) {R : Type 0} where
  open session use {TlsStream}
  open net use {Io, terminate, connect, accept_async, connect_async, tcp_events, ws_rounds, rng}

  -- The `match` on the protocol.
  unfoldable pub serve : Protocol → TlsStream → Backend → M R (Poll (Outcome (Unit {0})))
  unfolding upstream_url proxy_tcp proxy_ws
  serve Protocol.tcp stream b = do
    upstream ← act (connects b.addr) (connect b.addr)
    lift (ok (proxy_tcp (tcp_events stream upstream)).result)
  serve Protocol.ws stream b = do
    client_ws ← act accepts_ws (accept_async stream)
    let url = upstream_url display b.addr
    upstream_ws ← act (connects_ws url) (connect_async url)
    lift (ok (proxy_ws (ws_rounds client_ws upstream_ws)).result)
  serve Protocol.udp stream b = lift (err unsupported_protocol)
  serve Protocol.http stream b = lift (err unsupported_protocol)

  -- The `match` on the choice.
  unfoldable pub serve_chosen :
      Protocol → TlsStream → Option Backend → M R (Poll (Outcome (Unit {0})))
  unfolding serve
  serve_chosen protocol stream (some b) = serve protocol stream b
  serve_chosen protocol stream none = lift (err no_backends_available)

  unfoldable pub steps : Protocol → Io → M R (Poll (Outcome (Unit {0})))
  unfolding serve_chosen
  steps protocol io = do
    terminated ← lift (terminate io)
    chosen ← choose rng
    serve_chosen protocol terminated.1 chosen

  -- The connection so far: its result, if it has one, with the balancer and what was asked.
  unfoldable pub handle_connection :
      Protocol → LoadBalancer Selector (Discovery R) → Io → Poll (Outcome (Unit {0})) × Conn R
  unfolding steps
  handle_connection protocol balancer io =
      let (r, c) = steps protocol io (record { balancer = balancer; actions = [] }) in (settle r, c)
