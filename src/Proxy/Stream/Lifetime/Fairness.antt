-- ===== src/Proxy/Stream/Lifetime/Fairness.antt =====
-- How the connections of a proxy of umay/src/proxy/stream.rs are spread by round robin.
use mathlib.Core.List.{append_assoc, append-nil}
use mathlib.Core.Path.{ap₂}
use umay.Base.{
  ℕ, zero, suc, ◌+◌, ◌*◌, ◌%◌, ◌^◌, ◌<◌, ◌≡◌, refl, ap, sym, ◌∙◌, List, [], ◌∷◌, ◌++◌, map, length,
  All, Option, none, some, Outcome, ok, Bool, false, arith,
}
use umay.App.Config.Listen.{Protocol}
use umay.Balance.Backend.{Backend}
use umay.Balance.Backends.{Backends}
use umay.Balance.LoadBalancer.{LoadBalancer, select}
use umay.Balance.Selection.Random.{Rng}
use umay.Balance.Selection.RoundRobin
use umay.Balance.Selection.RoundRobin.{RoundRobin}
use umay.Balance.Selection.Rotation.{rotate, rounds}
use umay.Balance.Selection.Fairness.{picks, round_robin-rounds}
use umay.Balance.Selection.Selector.{Selector, selector_algorithm}
use umay.Balance.Selection.Selector
use umay.Balance.Discovery.Service.{Discovery}
use umay.Balance.Discovery.Dns.{is_empty}
use umay.Tls.{Session, ServerTls}
use umay.Tls.Server.{Poll}
use umay.Proxy.Stream.{StreamProxy}
use umay.Proxy.Stream.Connection.{Display, Network, Action, connects, Conn}
use umay.Proxy.Stream.Connection.Paths.{IsServing, handle_connection-serves, session_end}
use umay.Proxy.Stream.Lifetime.{Event, connection, InUse, call, served, sharing, run}

abbrev asks : List (Option Backend) → List Action
asks [] = []
asks (none ∷ bs) = asks bs
asks (some b ∷ bs) = connects b.addr ∷ asks bs

-- The connection to each backend, in order.
abbrev pub connect_all : List Backend → List Action
connect_all = map λ (b : Backend). connects b.addr

asks-append : (xs ys : List (Option Backend)) → asks (xs ++ ys) ≡ asks xs ++ asks ys
asks-append [] ys = refl
asks-append (none ∷ xs) ys = asks-append xs ys
asks-append (some b ∷ xs) ys = ap (◌∷◌ (connects b.addr)) (asks-append xs ys)

asks-some : (bs : List Backend) → asks (map some bs) ≡ connect_all bs
asks-some [] = refl
asks-some (b ∷ bs) = ap (◌∷◌ (connects b.addr)) (asks-some bs)

asks-rounds :
    (m : ℕ) (bs : List Backend) → asks (rounds m (map some bs)) ≡ rounds m (connect_all bs)
unfolding rounds
asks-rounds zero bs = refl
asks-rounds (suc m) bs =
    asks-append (map some bs) (rounds m (map some bs)) ∙ rw (asks-some bs, asks-rounds m bs)

not_empty : (bs : List Backend) → 0 < length bs → is_empty bs ≡ false
not_empty [] pos = absurd (omega arith)
not_empty (b ∷ bs) pos = refl

-- A connection on some network.
abbrev pub Client : Session → Type 1
Client session = (net : Network session) × net.Io

abbrev pub arrives : {session : Session} {R : Type 0} → Client session → Event session R
arrives (net, io) = connection net io

-- Its handshake succeeds.
abbrev pub Shakes : {session : Session} → Client session → Type 0
Shakes {session} (net, io) =
    (t : ServerTls session.ServerName × session.TlsStream) × (net.terminate io ≡ ok t)

module _ {R : Type 0} (set : Backends (Discovery R)) where
  abbrev balancer_at : RoundRobin → LoadBalancer Selector (Discovery R)
  balancer_at s = record { selection = Selector.round_robin s; backends = set }

  select-round_robin :
      (rng : Rng) (s : RoundRobin)
      → 0 < length set.backends
      → let (s', b) = RoundRobin.select s set.backends in
        select rng none (balancer_at s) ≡ (balancer_at s', b)
  unfolding select Selector.select
  select-round_robin rng s pos = rw (not_empty set.backends pos)

  abbrev in_use_at : RoundRobin → Bool → List Action → InUse R
  in_use_at s alive asked = record { balancer = balancer_at s; alive = alive; asked = asked }

  module _ {session : Session} (display : Display) {Name Acceptor : Type 0}
      (p : StreamProxy Name Acceptor R) (tcp : p.stream_config.listen.protocol ≡ Protocol.tcp)
      (serving : IsServing set.backends) where
    call_once :
        (s : RoundRobin) (alive : Bool) (asked : List Action) (net : Network session) (io : net.Io)
        → Shakes (net, io)
        → let (s', b) = RoundRobin.select s set.backends in
          let u = in_use_at s alive asked in
          served u (call display net (sharing p u) io).1
          ≡ in_use_at s' alive (asked ++ asks (b ∷ []))
    unfolding call
    call_once s alive asked net io (t, handshake) =
        let (b, _, e, acts) =
          handle_connection-serves display net p.stream_config.listen.protocol (balancer_at s) io
            t.0 t.1 handshake serving in
        let sel = select-round_robin net.rng s serving.some_backend in
        let chosen =
          sym (ap (λ (x : LoadBalancer Selector (Discovery R) × Option Backend). x.1) sel) ∙ e in
        ap (λ (x : Poll (Outcome (Unit {0})) × Conn R). served (in_use_at s alive asked) x.1) acts
        ∙ ap₂
            (λ (lb : LoadBalancer Selector (Discovery R)) (acted : List Action). record {
              balancer = lb;
              alive = alive;
              asked = asked ++ acted;
            })
            (ap (λ (x : LoadBalancer Selector (Discovery R) × Option Backend). x.0) sel)
            (ap (λ q. (session_end display net q t.1 b).1) tcp
              ∙ ap (λ (o : Option Backend). asks (o ∷ [])) (sym chosen))

    run-picks :
        (clients : List (Client session)) (s : RoundRobin) (alive : Bool) (asked : List Action)
        → All Shakes clients
        → (run display p (map arrives clients) (in_use_at s alive asked)).asked
          ≡ asked ++ asks (picks (length clients) (λ t. RoundRobin.select t set.backends) s)
    unfolding run picks
    run-picks [] s alive asked h = sym (append-nil asked)
    run-picks ((net, io) ∷ clients) s alive asked h =
        let (s', b) = RoundRobin.select s set.backends in
        let rest = asks (picks (length clients) (λ t. RoundRobin.select t set.backends) s') in
        ap (λ u. (run display p (map arrives clients) u).asked) (call_once s alive asked net io h.0)
        ∙ run-picks clients s' alive (asked ++ asks (b ∷ [])) h.1
        ∙ append_assoc asked (asks (b ∷ [])) rest
        ∙ ap (λ acted. asked ++ acted)
            (sym (
              asks-append (b ∷ [])
                (picks (length clients) (λ t. RoundRobin.select t set.backends) s')))

module _ {R : Type 0} {session : Session} (display : Display) {Name Acceptor : Type 0} where
  -- Round robin spreads connections evenly over TCP: on a set of at least one and fewer than 2^64
  -- backends of weight 1, while the counter does not reach 2^64, `m` times as many connections as
  -- there are backends, between two refreshes and all with a handshake that succeeds, go `m` times
  -- through all backends in order, from the one where the counter stands, with one attempt to connect
  -- for each.
  pub run-rounds :
      (p : StreamProxy Name Acceptor R) (u : InUse R) (s : RoundRobin)
      (clients : List (Client session)) (m : ℕ)
      → let bs = u.balancer.backends.backends in
        p.stream_config.listen.protocol ≡ Protocol.tcp
        → u.balancer.selection ≡ Selector.round_robin s
        → IsServing bs
        → All Shakes clients
        → length clients ≡ m * length bs
        → s.index + m * length bs < 2 ^ 64
        → (run display p (map arrives clients) u).asked
          ≡ u.asked ++ rounds m (connect_all (rotate (s.index % length bs) bs))
  run-rounds p u s clients m tcp selects serving shake count room =
      let set = u.balancer.backends in
      let bs = set.backends in
      ap
        (λ sel.
          (run display p (map arrives clients) (record {
            balancer = record { selection = sel; backends = set };
            alive = u.alive;
            asked = u.asked;
          })).asked)
        selects
      ∙ run-picks set display p tcp serving clients s u.alive u.asked shake
      ∙ ap (λ answers. u.asked ++ asks answers)
          (ap (λ n. picks n (λ t. RoundRobin.select t bs) s) count
            ∙ round_robin-rounds m s bs serving.some_backend room)
      ∙ ap (λ acted. u.asked ++ acted) (asks-rounds m (rotate (s.index % length bs) bs))
