-- ===== src/Proxy/Stream/WebSocket.antt =====
-- `proxy_ws` of umay/src/proxy/stream.rs: messages are passed on, one for each round of the loop.
use umay.Base.{◌≡◌, ◌≢◌, refl, ap, List, [], ◌∷◌, ◌++◌, Outcome, ok, err, panic}
use umay.Tls.Server.{Poll, pending, ready}

-- One round: the side whose `next` answers first with an item, what that item is, and what the other
-- side's `send` answers to it. Where both sides have ended, both patterns of the `select!` fail and it
-- panics.
pub data Round (Message : Type 0) : Type 0 where
  from_client from_upstream : Outcome Message → Outcome (Unit {0}) → Round Message
  both_ended : Round Message

-- A message and the side that sent it.
pub data Sent (Message : Type 0) : Type 0 where
  client upstream : Message → Sent Message

pub record Passed (Message : Type 0) : Type 0 where
  pub upstream : List Message
  pub client : List Message
  pub result : Poll (Outcome (Unit {0}))

module _ {Message : Type 0} where
  abbrev pub stopped : Outcome (Unit {0}) → Passed Message
  stopped r = record { upstream = []; client = []; result = ready r }

  abbrev pub pass_upstream : Message → Passed Message → Passed Message
  pass_upstream m p = record p { upstream = m ∷ p.upstream }

  abbrev pub pass_client : Message → Passed Message → Passed Message
  pass_client m p = record p { client = m ∷ p.client }

  unfoldable pub proxy_ws : List (Round Message) → Passed Message
  proxy_ws [] = record { upstream = []; client = []; result = pending }
  proxy_ws (from_client (ok m) (ok u) ∷ rounds) = pass_upstream m (proxy_ws rounds)
  proxy_ws (from_client (ok m) (err e) ∷ rounds) = stopped (err e)
  proxy_ws (from_client (ok m) panic ∷ rounds) = stopped panic
  proxy_ws (from_client (err e) sent ∷ rounds) = stopped (err e)
  proxy_ws (from_client panic sent ∷ rounds) = stopped panic
  proxy_ws (from_upstream (ok m) (ok u) ∷ rounds) = pass_client m (proxy_ws rounds)
  proxy_ws (from_upstream (ok m) (err e) ∷ rounds) = stopped (err e)
  proxy_ws (from_upstream (ok m) panic ∷ rounds) = stopped panic
  proxy_ws (from_upstream (err e) sent ∷ rounds) = stopped (err e)
  proxy_ws (from_upstream panic sent ∷ rounds) = stopped panic
  proxy_ws (both_ended ∷ rounds) = stopped panic

  -- A session never ends in `Ok(())`: it ends in an error or a panic, or goes on.
  pub proxy_ws-ne-ok : (rounds : List (Round Message)) → (proxy_ws rounds).result ≢ ready (ok tt)
  unfolding proxy_ws
  proxy_ws-ne-ok [] = λ e. cc
  proxy_ws-ne-ok (from_client (ok m) (ok u) ∷ rounds) = proxy_ws-ne-ok rounds
  proxy_ws-ne-ok (from_client (ok m) (err e) ∷ rounds) = λ h. cc
  proxy_ws-ne-ok (from_client (ok m) panic ∷ rounds) = λ h. cc
  proxy_ws-ne-ok (from_client (err e) sent ∷ rounds) = λ h. cc
  proxy_ws-ne-ok (from_client panic sent ∷ rounds) = λ h. cc
  proxy_ws-ne-ok (from_upstream (ok m) (ok u) ∷ rounds) = proxy_ws-ne-ok rounds
  proxy_ws-ne-ok (from_upstream (ok m) (err e) ∷ rounds) = λ h. cc
  proxy_ws-ne-ok (from_upstream (ok m) panic ∷ rounds) = λ h. cc
  proxy_ws-ne-ok (from_upstream (err e) sent ∷ rounds) = λ h. cc
  proxy_ws-ne-ok (from_upstream panic sent ∷ rounds) = λ h. cc
  proxy_ws-ne-ok (both_ended ∷ rounds) = λ h. cc

  -- The rounds that pass a message on.
  abbrev pub rounds_of : List (Sent Message) → List (Round Message)
  rounds_of [] = []
  rounds_of (client m ∷ ms) = from_client (ok m) (ok tt) ∷ rounds_of ms
  rounds_of (upstream m ∷ ms) = from_upstream (ok m) (ok tt) ∷ rounds_of ms

  abbrev pub from_clients : List (Sent Message) → List Message
  from_clients [] = []
  from_clients (client m ∷ ms) = m ∷ from_clients ms
  from_clients (upstream m ∷ ms) = from_clients ms

  abbrev pub from_upstreams : List (Sent Message) → List Message
  from_upstreams [] = []
  from_upstreams (client m ∷ ms) = from_upstreams ms
  from_upstreams (upstream m ∷ ms) = m ∷ from_upstreams ms

  -- However the messages of the two sides interleave, each side is given those of the other, all of
  -- them and in order, before whatever the later rounds do.
  pub proxy_ws-append :
      (ms : List (Sent Message)) (rounds : List (Round Message))
      → let p = proxy_ws rounds in
        proxy_ws (rounds_of ms ++ rounds) ≡ record {
          upstream = from_clients ms ++ p.upstream;
          client = from_upstreams ms ++ p.client;
          result = p.result;
        }
  unfolding proxy_ws
  proxy_ws-append [] rounds = refl
  proxy_ws-append (client m ∷ ms) rounds = ap (pass_upstream m) (proxy_ws-append ms rounds)
  proxy_ws-append (upstream m ∷ ms) rounds = ap (pass_client m) (proxy_ws-append ms rounds)
