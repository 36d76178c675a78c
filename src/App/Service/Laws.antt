-- ===== src/App/Service/Laws.antt =====
-- The sockets that `run_service` of umay/src/app/server.rs calls its service for.
use umay.Base.{
  ◌≡◌, ◌≢◌, refl, ap, List, [], ◌∷◌, ◌++◌, map, Option, none, some, Outcome, ok, err, panic, ◌∙◌,
  Error,
}
use umay.Net.{SocketAddr}
use umay.Tls.Server.{ready}
use umay.App.Service.{
  Sockets, Event, connection, shutdown_changed, after_prepare, prepare, accept_loop, run_service,
}

module _ (sockets : Sockets) where
  open sockets use {TcpStream}

  -- The sockets that could be accepted and prepared.
  abbrev pub socket_of : Outcome TcpStream → List TcpStream
  socket_of (ok tcp) = tcp ∷ []
  socket_of (err e) = []
  socket_of panic = []

  abbrev pub prepared : List (Option (Outcome TcpStream)) → List TcpStream
  prepared [] = []
  prepared (none ∷ answers) = prepared answers
  prepared (some res ∷ answers) = socket_of (prepare sockets res) ++ prepared answers

  abbrev pub NeverPanics : List (Option (Outcome TcpStream)) → Type 0
  NeverPanics [] = Unit
  NeverPanics (none ∷ answers) = NeverPanics answers
  NeverPanics (some res ∷ answers) = (prepare sockets res ≢ panic) × NeverPanics answers

  after_prepare-called :
      (r : Outcome TcpStream) (xs : List TcpStream)
      → r ≢ panic
      → after_prepare sockets (record { called = xs; result = ready (ok tt) }) r
        ≡ record { called = socket_of r ++ xs; result = ready (ok tt) }
  after_prepare-called (ok tcp) xs h = refl
  after_prepare-called (err e) xs h = refl
  after_prepare-called panic xs h = absurd (h refl)

  accept_loop-prepared :
      (answers : List (Option (Outcome TcpStream))) (rest : List (Event TcpStream))
      → NeverPanics answers
      → accept_loop sockets (map connection answers ++ shutdown_changed ∷ rest)
        ≡ record { called = prepared answers; result = ready (ok tt) }
  unfolding accept_loop
  accept_loop-prepared [] rest h = refl
  accept_loop-prepared (none ∷ answers) rest h = accept_loop-prepared answers rest h
  accept_loop-prepared (some res ∷ answers) rest h =
      ap (λ s. after_prepare sockets s (prepare sockets res))
        (accept_loop-prepared answers rest h.1)
      ∙ after_prepare-called (prepare sockets res) (prepared answers) h.0

  -- Once its port is bound and until the shutdown, a service calls its handler for every socket that
  -- is accepted and prepared, in order, whatever errors come between; at the shutdown it returns
  -- `Ok(())` and calls for none after it. The preparation of no socket panics.
  pub run_service-prepared :
      (answers : List (Option (Outcome TcpStream))) (rest : List (Event TcpStream))
      → NeverPanics answers
      → run_service sockets (ok tt) (map connection answers ++ shutdown_changed ∷ rest)
        ≡ record { called = prepared answers; result = ready (ok tt) }
  unfolding run_service
  run_service-prepared = accept_loop-prepared

  -- An option of the socket that cannot be set leaves it as it is: where neither option can be set,
  -- and the conversions and the peer's address succeed, the socket is prepared all the same.
  pub prepare-unset :
      (tcp std out : TcpStream) (e e' : Error) (addr : SocketAddr)
      → sockets.set_nodelay tcp ≡ err e
      → sockets.into_std tcp ≡ ok std
      → sockets.set_tcp_keepalive std sockets.keepalive ≡ err e'
      → sockets.from_std std ≡ ok out
      → sockets.peer_addr out ≡ ok addr
      → prepare sockets (ok tcp) ≡ ok out
  unfolding prepare
  prepare-unset tcp std out e e' addr h1 h2 h3 h4 h5 = rw (h1, h2, h3, h4, h5)
