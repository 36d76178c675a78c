-- ===== src/App/System/Examples.antt =====
-- The theorems on the running program at concrete interleavings of two services.
use umay.Base.{ℕ, ◌<◌, ◌≡◌, ◌≢◌, inl, refl, [], ◌∷◌, true, some, ok}
use umay.Net.{SocketAddr}
use umay.Tls.Server.{pending}
use umay.App.Service.{Sockets, connection}
use umay.App.Signal.{
  Cause, received, panicked, finished, sigterm, installs, delivers, watch, changed,
}
use umay.App.System.{Task, System, result, watches, ends, init, Reach, here, later}
use umay.App.System.Safety.{Reach-cause}
use umay.App.System.Shutdown.{finished-returns}

abbrev sockets : Sockets
sockets = record {
  TcpStream = ℕ;
  TcpKeepalive = ℕ;
  set_nodelay = λ tcp. ok tcp;
  into_std = λ tcp. ok tcp;
  from_std = λ tcp. ok tcp;
  keepalive = 0;
  with_time = λ ka t. t;
  set_tcp_keepalive = λ tcp ka. ok tcp;
  peer_addr = λ tcp. ok (SocketAddr.v4 0x0a000001 443);
}

-- The handlers are installed, a signal is delivered, and the server ends.
abbrev signalled : System ℕ
signalled = record (init sockets) { watcher = finished (received sigterm) }

abbrev stopped : System ℕ
stopped = record signalled { ended = true }

stopped-Reach : Reach sockets 2 (init sockets) stopped
unfolding watch changed
stopped-Reach =
    later (later (later here (watches (installs (ok tt)))) (watches (delivers sigterm))) (ends refl)

Reach-cause_example : (c : Cause) × (stopped.watcher ≡ finished c)
Reach-cause_example = Reach-cause sockets stopped-Reach 0 (inl refl)

-- One of the two services has accepted a connection when the installation of a handler fails.
abbrev serving : Task ℕ
serving = record { bound = some (ok tt); events = connection (some (ok 7)) ∷ [] }

abbrev broken : System ℕ
broken = record (init sockets) { watcher = finished panicked; tasks = λ i. serving }

finished-returns_example :
    (t : System ℕ) × Reach sockets 2 broken t
    × (t.ended ≡ true)
    × ((i : ℕ) → i < 2 → result sockets (t.tasks i) ≢ pending)
finished-returns_example = finished-returns sockets 2 broken panicked refl
