-- ===== src/Proxy/Stream/Interleaved/Ends.antt =====
-- What the tasks of a proxy of umay/src/proxy/stream.rs come to, in every interleaving.
use umay.Base.{
  ℕ, zero, suc, ◌≡◌, refl, ap, sym, ◌∙◌, List, [], ◌∷◌, ◌++◌, Option, none, some, Outcome, ok, err,
  panic, Error, no_backends_available, Mem, All, drop,
}
use mathlib.Core.Path.{subst}
use mathlib.Core.List.{append-nil}
use umay.App.Config.Listen.{Protocol}
use umay.Balance.Backend.{Backend}
use umay.Balance.Backends.{get_backends}
use umay.Balance.LoadBalancer.{LoadBalancer}
use umay.Balance.Discovery.Service.{Discovery, discovery_service}
use umay.Balance.Selection.Random.{Rng}
use umay.Balance.Selection.Selector
use umay.Balance.Selection.Selector.{Selector, selector-nil, selector-mem}
use umay.Tls.{Session, ServerTls}
use umay.Tls.Server.{Poll, pending, ready, Terminated}
use umay.Proxy.Stream.Connection.{Display, Network, Action, Conn, serve_chosen, settle}
use umay.Proxy.Stream.Connection.Paths.{session_end, serve-end}
use umay.Proxy.Stream.Interleaved.{
  Phase, arrived, shaken, loaded, chosen, relaying, ended, after_session, after_handshake, Task,
  pick, move, advance,
}

-- The second half of `select` is the algorithm's call, which answers nothing on the empty set.
pick-select :
    {D : Type 0} (rng : Rng) (bs : List Backend) (lb : LoadBalancer Selector D)
    → (Selector.select rng lb.selection bs).1 ≡ (pick rng bs lb).1
unfolding pick
pick-select rng [] lb = ap (λ (x : Selector × Option Backend). x.1) (selector-nil rng lb.selection)
pick-select rng (b ∷ bs) lb = refl

-- What a task keeps of the balancer.
pick-backends :
    {D : Type 0} (rng : Rng) (bs : List Backend) (lb : LoadBalancer Selector D)
    → (pick rng bs lb).0.backends ≡ lb.backends
unfolding pick
pick-backends rng [] lb = refl
pick-backends rng (b ∷ bs) lb = refl

pub serve_chosen-balancer :
    {session : Session} (display : Display) (net : Network session) {R : Type 0}
    (lb : LoadBalancer Selector (Discovery R)) (p : Protocol) (stream : session.TlsStream)
    (b : Option Backend)
    → (serve_chosen display net p stream b (record { balancer = lb; actions = [] })).1.balancer ≡ lb
unfolding serve_chosen
serve_chosen-balancer display net lb p stream none = refl
serve_chosen-balancer {session} display net {R} lb p stream (some b) =
    ap (λ (x : Poll (Outcome (Unit {0})) × Conn R). x.1.balancer)
      (serve-end display net lb p stream b)

module _ {session : Session} (display : Display) (p : Protocol) (S : List Backend → Type 0) where
  open session use {ServerName, TlsStream}

  -- All that a connection can come to, with what it has asked of its network, where `S` holds of the
  -- sets that it may load.
  pub data Comes (net : Network session) (io : net.Io)
      : Poll (Outcome (Unit {0})) → List Action → Type 0 where
    unshaken : (e : Error) → net.terminate io ≡ err e → Comes net io (ready (err e)) []
    broken : net.terminate io ≡ panic → Comes net io (ready panic) []
    unserved :
        (t : ServerTls ServerName × TlsStream)
        → net.terminate io ≡ ok t
        → (bs : List Backend) → S bs
        → (s : Selector) → (Selector.select net.rng s bs).1 ≡ none
        → Comes net io (ready (err no_backends_available)) []
    served :
        (t : ServerTls ServerName × TlsStream)
        → net.terminate io ≡ ok t
        → (bs : List Backend) → S bs
        → (b : Backend) → Mem b bs
        → Comes net io (session_end display net p t.1 b).0 (session_end display net p t.1 b).1

  -- The handshake went well, and nothing was asked so far.
  abbrev pub Shaken : (net : Network session) → net.Io → TlsStream → List Action → Type 0
  Shaken net io stream asked =
      (tls : ServerTls ServerName) × (net.terminate io ≡ ok (tls, stream)) × (asked ≡ [])

  -- What is known of a task at each phase.
  abbrev pub At : (net : Network session) → net.Io → Phase session → List Action → Type 0
  At net io arrived asked = asked ≡ []
  At net io (shaken stream) asked = Shaken net io stream asked
  At net io (loaded stream bs) asked = S bs × Shaken net io stream asked
  At net io (chosen stream b) asked =
      ((bs : List Backend) × S bs × (s : Selector) × ((Selector.select net.rng s bs).1 ≡ b))
      × Shaken net io stream asked
  At net io relaying asked = Comes net io pending asked
  At net io (ended r) asked = Comes net io (ready r) asked

  abbrev pub IsHonest : Task session → Type 0
  IsHonest t = At t.net t.io t.phase t.asked

  handshake-At :
      (net : Network session) (io : net.Io) (r : Terminated session)
      → net.terminate io ≡ r
      → At net io (after_handshake r) []
  handshake-At net io (ok (tls, stream)) e = (tls, e, refl)
  handshake-At net io (err x) e = unshaken x e
  handshake-At net io panic e = broken e

  session-At :
      (net : Network session) (io : net.Io) (r : Poll (Outcome (Unit {0}))) (asked : List Action)
      → Comes net io r asked
      → At net io (after_session r) asked
  session-At net io pending asked h = h
  session-At net io (ready r) asked h = h

  pub At-session :
      (net : Network session) (io : net.Io) (r : Poll (Outcome (Unit {0}))) (asked : List Action)
      → At net io (after_session r) asked
      → Comes net io r asked
  At-session net io pending asked h = h
  At-session net io (ready r) asked h = h

  module _ {R : Type 0} where
    serve-Comes :
        (net : Network session) (io : net.Io) (t : ServerTls ServerName × TlsStream)
        → net.terminate io ≡ ok t
        → (bs : List Backend) → S bs
        → (s : Selector) (b : Option Backend) → (Selector.select net.rng s bs).1 ≡ b
        → (lb : LoadBalancer Selector (Discovery R))
        → let (r, c) = serve_chosen display net p t.1 b (record { balancer = lb; actions = [] }) in
          Comes net io (settle r) c.actions
    unfolding serve_chosen
    serve-Comes net io t h bs held s none e lb = unserved t h bs held s e
    serve-Comes net io t h bs held s (some b) e lb =
        subst (λ (x : Poll (Outcome (Unit {0})) × Conn R). Comes net io x.0 x.1.actions)
          (sym (serve-end display net lb p t.1 b))
          (served t h bs held b (selector-mem net.rng s bs b e))

    move-At :
        (net : Network session) (io : net.Io) (phase : Phase session) (asked : List Action)
        (lb : LoadBalancer Selector (Discovery R))
        → S lb.backends.backends
        → At net io phase asked
        → let (lb', phase', new) = move display p net io phase lb in At net io phase' (asked ++ new)
    unfolding move get_backends
    move-At net io arrived asked lb held e =
        subst (λ actions. At net io (after_handshake (net.terminate io)) (actions ++ [])) (sym e)
          (handshake-At net io (net.terminate io) refl)
    move-At net io (shaken stream) asked lb held (tls, h, e) =
        (held, (tls, h, append-nil asked ∙ e))
    move-At net io (loaded stream bs) asked lb held (set, (tls, h, e)) =
        ((bs, set, lb.selection, pick-select net.rng bs lb), (tls, h, append-nil asked ∙ e))
    move-At net io (chosen stream b) asked lb held ((bs, set, s, k), (tls, h, e)) =
        let (r, c) = serve_chosen display net p stream b (record { balancer = lb; actions = [] }) in
        subst (λ actions. At net io (after_session (settle r)) (actions ++ c.actions)) (sym e)
          (session-At net io (settle r) c.actions
            (serve-Comes net io (tls, stream) h bs set s b k lb))
    move-At net io relaying asked lb held h =
        subst (Comes net io pending) (sym (append-nil asked)) h
    move-At net io (ended r) asked lb held h =
        subst (Comes net io (ready r)) (sym (append-nil asked)) h

    pub advance-IsHonest :
        (n i : ℕ) (lb : LoadBalancer Selector (Discovery R)) (ts : List (Task session))
        → S lb.backends.backends
        → All IsHonest (drop n ts)
        → All IsHonest (drop n (advance display p i lb ts).1)
    unfolding advance
    advance-IsHonest zero i lb [] held h = tt
    advance-IsHonest (suc n) i lb [] held h = tt
    advance-IsHonest zero zero lb (t ∷ ts) held h =
        (move-At t.net t.io t.phase t.asked lb held h.0, h.1)
    advance-IsHonest zero (suc i) lb (t ∷ ts) held h = (h.0, advance-IsHonest zero i lb ts held h.1)
    advance-IsHonest (suc n) zero lb (t ∷ ts) held h = h
    advance-IsHonest (suc n) (suc i) lb (t ∷ ts) held h = advance-IsHonest n i lb ts held h

-- No task touches the set in use.
module _ {session : Session} (display : Display) (p : Protocol) {R : Type 0} where
  move-backends :
      (net : Network session) (io : net.Io) (phase : Phase session)
      (lb : LoadBalancer Selector (Discovery R))
      → (move display p net io phase lb).0.backends ≡ lb.backends
  unfolding move
  move-backends net io arrived lb = refl
  move-backends net io (shaken stream) lb = refl
  move-backends net io (loaded stream bs) lb = pick-backends net.rng bs lb
  move-backends net io (chosen stream b) lb =
      ap (λ (x : LoadBalancer Selector (Discovery R)). x.backends)
        (serve_chosen-balancer display net lb p stream b)
  move-backends net io relaying lb = refl
  move-backends net io (ended r) lb = refl

  pub advance-backends :
      (i : ℕ) (lb : LoadBalancer Selector (Discovery R)) (ts : List (Task session))
      → (advance display p i lb ts).0.backends ≡ lb.backends
  unfolding advance
  advance-backends i lb [] = refl
  advance-backends zero lb (t ∷ ts) = move-backends t.net t.io t.phase lb
  advance-backends (suc i) lb (t ∷ ts) = advance-backends i lb ts
