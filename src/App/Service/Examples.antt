-- ===== src/App/Service/Examples.antt =====
-- The theorems on a running service at concrete sockets, which are numbers.
use umay.Base.{ℕ, ◌≡◌, List, [], ◌∷◌, ◌++◌, map, Option, none, some, Outcome, ok, err, foreign}
use umay.Net.{SocketAddr}
use umay.Tls.Server.{ready}
use umay.App.Service.{Sockets, connection, shutdown_changed, prepare, run_service}
use umay.App.Service.Laws.{prepared, run_service-prepared}

-- No option can be set.
abbrev sockets : Sockets
sockets = record {
  TcpStream = ℕ;
  TcpKeepalive = ℕ;
  set_nodelay = λ tcp. err (foreign 1);
  into_std = λ tcp. ok tcp;
  from_std = λ tcp. ok tcp;
  keepalive = 0;
  with_time = λ ka t. t;
  set_tcp_keepalive = λ tcp ka. err (foreign 2);
  peer_addr = λ tcp. ok (SocketAddr.v4 0x0a000001 443);
}

abbrev answers : List (Option (Outcome ℕ))
answers = some (ok 7) ∷ some (err (foreign 3)) ∷ none ∷ some (ok 8) ∷ []

run_service-prepared_example :
    run_service sockets
      (ok tt)
      (map connection answers ++ shutdown_changed ∷ connection (some (ok 9)) ∷ [])
    ≡ record { called = prepared sockets answers; result = ready (ok tt) }
unfolding prepare
run_service-prepared_example =
    run_service-prepared sockets answers (connection (some (ok 9)) ∷ [])
      ((λ h. cc), ((λ h. cc), ((λ h. cc), tt)))
