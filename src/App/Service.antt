-- ===== src/App/Service.antt =====
-- A running service of umay/src/app/server.rs: the accepted sockets as `bind_listener` prepares them
-- with the options of umay/src/app/mod.rs, and the loop of `run_service`. Sockets are the standard
-- library's and those of the crates `tokio` and `socket2`, and are a parameter.
pub mod Laws
mod Examples
use Prim.Native.String
use umay.Base.{ℕ, List, [], ◌∷◌, Option, none, some, String, Outcome, ok, err, panic, ◌>>=◌, ◌>>◌}
use umay.Net.{SocketAddr}
use umay.Tls.Server.{Poll, pending, ready}

-- An option is set on the socket or not; the conversions hand it over.
pub record Sockets : Type 1 where
  pub TcpStream : Type 0
  pub TcpKeepalive : Type 0
  pub set_nodelay : TcpStream → Outcome TcpStream
  pub into_std : TcpStream → Outcome TcpStream
  pub from_std : TcpStream → Outcome TcpStream
  pub keepalive : TcpKeepalive
  pub with_time : TcpKeepalive → ℕ → TcpKeepalive
  pub set_tcp_keepalive : TcpStream → TcpKeepalive → Outcome TcpStream
  pub peer_addr : TcpStream → Outcome SocketAddr

-- What the loop waits for: an answer of the listener, or a change of the shutdown channel.
pub data Event (Socket : Type 0) : Type 0 where
  connection : Option (Outcome Socket) → Event Socket
  shutdown_changed : Event Socket

-- The sockets that a task was spawned for, and what the service ended in, if it has.
pub record Served (Socket : Type 0) : Type 0 where
  pub called : List Socket
  pub result : Poll (Outcome (Unit {0}))

module _ (sockets : Sockets) where
  open sockets use {
    TcpStream, TcpKeepalive, set_nodelay, into_std, from_std, keepalive, with_time,
    set_tcp_keepalive, peer_addr,
  }

  -- The socket with the option, or as it was where the option cannot be set.
  abbrev pub or_warn : TcpStream → Outcome TcpStream → Outcome TcpStream
  or_warn tcp (ok set) = ok set
  or_warn tcp (err e) = ok tcp
  or_warn tcp panic = panic

  unfoldable pub set_nodelay_or_warn : TcpStream → Outcome TcpStream
  set_nodelay_or_warn tcp = or_warn tcp (set_nodelay tcp)

  -- The fold over an option.
  abbrev pub timed : Option ℕ → TcpKeepalive
  timed none = keepalive
  timed (some t) = with_time keepalive t

  unfoldable pub set_keepalive_or_warn : TcpStream → Option ℕ → Outcome TcpStream
  set_keepalive_or_warn tcp duration = do
    sock ← into_std tcp
    sock ← or_warn sock (set_tcp_keepalive sock (timed duration))
    from_std sock

  -- The closure of `bind_listener`. The peer's address is only logged.
  unfoldable pub prepare : Outcome TcpStream → Outcome TcpStream
  unfolding set_nodelay_or_warn set_keepalive_or_warn
  prepare res = do
    tcp ← res
    tcp ← set_nodelay_or_warn tcp
    tcp ← set_keepalive_or_warn tcp none
    client_addr ← peer_addr tcp
    ok tcp

  abbrev pub called_for : TcpStream → Served TcpStream → Served TcpStream
  called_for socket s = record s { called = socket ∷ s.called }

  abbrev pub ended : Outcome (Unit {0}) → Served TcpStream
  ended r = record { called = []; result = ready r }

  abbrev pub after_prepare : Served TcpStream → Outcome TcpStream → Served TcpStream
  after_prepare rest (ok socket) = called_for socket rest
  after_prepare rest (err e) = rest
  after_prepare rest panic = ended panic

  -- The loop.
  unfoldable pub accept_loop : List (Event TcpStream) → Served TcpStream
  unfolding prepare
  accept_loop [] = record { called = []; result = pending }
  accept_loop (connection (some res) ∷ events) = after_prepare (accept_loop events) (prepare res)
  accept_loop (connection none ∷ events) = accept_loop events
  accept_loop (shutdown_changed ∷ events) = ended (ok tt)

  -- `bound` is what binding the port answers.
  unfoldable pub run_service : Outcome (Unit {0}) → List (Event TcpStream) → Served TcpStream
  unfolding accept_loop
  run_service (ok u) events = accept_loop events
  run_service (err e) events = ended (err e)
  run_service panic events = ended panic

-- Listening sockets of the standard library and of the crate `tokio`.
pub record Listeners : Type 1 where
  pub TcpListener : Type 0
  pub bind : String → Outcome TcpListener
  pub set_nonblocking : TcpListener → Outcome (Unit {0})
  pub from_std : TcpListener → Outcome (Unit {0})
  pub show_port : ℕ → String

module _ (listeners : Listeners) where
  open listeners use {bind, set_nonblocking, from_std, show_port}

  -- Up to the listener; what the stream over it yields are the loop's events.
  unfoldable pub bind_listener : ℕ → Outcome (Unit {0})
  bind_listener port = do
    listener ← bind (String.◌++◌ "0.0.0.0:" (show_port port))
    set_nonblocking listener
    from_std listener

  unfoldable pub serve_port :
      (sockets : Sockets) → ℕ → List (Event sockets.TcpStream) → Served sockets.TcpStream
  unfolding bind_listener run_service
  serve_port sockets port events = run_service sockets (bind_listener port) events
