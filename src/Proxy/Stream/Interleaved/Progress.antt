-- ===== src/Proxy/Stream/Interleaved/Progress.antt =====
-- The turns that a task of umay/src/proxy/stream.rs needs, whatever the others do.
use mathlib.Core.Path.{subst}
use mathlib.Core.Option.{some-injective}
use umay.Base.{
  get_elem?-append_some, ℕ, zero, suc, ◌-◌, ◌≤◌, ◌≡◌, refl, sym, List, [], ◌∷◌, ◌++◌, Bool, true,
  false, some, ok, err, panic, get_elem?, Outcome, if◌then◌else◌, arith,
}
use umay.App.Config.Listen.{Protocol}
use umay.Balance.LoadBalancer.{LoadBalancer, tick}
use umay.Balance.Selection.Selector.{Selector}
use umay.Balance.Discovery.Service.{Discovery, discovery_service}
use umay.Tls.{Session}
use umay.Tls.Server.{Poll, pending, ready, Terminated}
use umay.Proxy.Stream.Connection.{Display, Network, Action}
use umay.Proxy.Stream.Interleaved.{
  Phase, arrived, shaken, loaded, chosen, relaying, ended, after_session, after_handshake, Task,
  Running, Event, refreshes, arrives, advances, waits, move, advance, ticked, run, turn, turns_of,
}

turn-suc : (i j : ℕ) → turn (suc i) (suc j) ≡ turn i j
turn-suc i j = ground arith

-- How many steps are left.
abbrev pub left : {session : Session} → Phase session → ℕ
left arrived = 4
left (shaken stream) = 3
left (loaded stream bs) = 2
left (chosen stream b) = 1
left relaying = 0
left (ended r) = 0

left_handshake :
    (session : Session) (r : Terminated session) → left (after_handshake {session = session} r) ≤ 3
left_handshake session (ok t) = omega arith
left_handshake session (err e) = omega arith
left_handshake session panic = omega arith

left_session :
    (session : Session) (r : Poll (Outcome (Unit {0})))
    → left (after_session {session = session} r) ≤ 0
left_session session pending = omega arith
left_session session (ready r) = omega arith

module _ {session : Session} where
  module _ (net : Network session) (io : net.Io) where
    abbrev pub task : Phase session → List Action → Task session
    task phase asked = record { net = net; io = io; phase = phase; asked = asked }

    -- Task `i` is this connection, with at most `k` steps left.
    pub record Stands (i k : ℕ) (ts : List (Task session)) : Type 1 where
      pub phase : Phase session
      pub asked : List Action
      pub place : get_elem? ts i ≡ some (task phase asked)
      pub close : left phase ≤ k

    weaken : {i k n : ℕ} {ts : List (Task session)} → k ≤ n → Stands i k ts → Stands i n ts
    weaken le h = record {
      phase = h.phase;
      asked = h.asked;
      place = h.place;
      close = omega (arith, h.close);
    }

    module _ (display : Display) (p : Protocol) {R : Type 0} where
      move-left :
          (phase : Phase session) (lb : LoadBalancer Selector (Discovery R))
          → left (move display p net io phase lb).1 ≤ left phase - 1
      unfolding move
      move-left arrived lb = left_handshake session (net.terminate io)
      move-left (shaken stream) lb = omega arith
      move-left (loaded stream bs) lb = omega arith
      move-left (chosen stream b) lb = omega (arith, left_session session _)
      move-left relaying lb = omega arith
      move-left (ended r) lb = omega arith

      advance-Stands :
          (i j k : ℕ) (lb : LoadBalancer Selector (Discovery R)) (ts : List (Task session))
          → Stands i k ts
          → Stands i (k - turn i j) (advance display p j lb ts).1
      unfolding advance
      advance-Stands i j k lb [] h = cc (h.place)
      advance-Stands zero zero k lb (t ∷ ts) h =
          let (lb', phase', new) = move display p net io h.phase lb in
          subst (λ u. Stands 0 (k - 1) (advance display p 0 lb (u ∷ ts)).1)
            (sym (some-injective t (task h.phase h.asked) h.place))
            (record {
              phase = phase';
              asked = h.asked ++ new;
              place = refl;
              close = omega (arith, move-left h.phase lb, h.close);
            })
      advance-Stands zero (suc j) k lb (t ∷ ts) h = record {
        phase = h.phase;
        asked = h.asked;
        place = h.place;
        close = ground (arith, h.close);
      }
      advance-Stands (suc i) zero k lb (t ∷ ts) h = record {
        phase = h.phase;
        asked = h.asked;
        place = h.place;
        close = ground (arith, h.close);
      }
      advance-Stands (suc i) (suc j) k lb (t ∷ ts) h =
          let g =
            advance-Stands i j k lb ts
              (record { phase = h.phase; asked = h.asked; place = h.place; close = h.close }) in
          record {
            phase = g.phase;
            asked = g.asked;
            place = g.place;
            close = subst (λ n. left g.phase ≤ k - n) (sym (turn-suc i j)) g.close;
          }

      alive-Stands :
          (alive : Bool) (r : LoadBalancer Selector (Discovery R) × Bool) (s : Running session R)
          → (if alive then ticked s r else s).tasks ≡ s.tasks
      alive-Stands true r s = refl
      alive-Stands false r s = refl

      -- The turns of the task bring it to its end, and nothing sets it back.
      pub run-Stands :
          (es : List (Event session R)) (i k : ℕ) (s : Running session R)
          → Stands i k s.tasks
          → Stands i (k - turns_of i es) (run display p es s).tasks
      unfolding run
      run-Stands [] i k s h = weaken (omega arith) h
      run-Stands (refreshes w ∷ es) i k s h =
          run-Stands es i k _
            (subst (Stands i k) (sym (alive-Stands s.alive (tick w s.balancer) s)) h)
      run-Stands (arrives other j ∷ es) i k s h = run-Stands es i k _ (record {
        phase = h.phase;
        asked = h.asked;
        place = get_elem?-append_some s.tasks _ i _ h.place;
        close = h.close;
      })
      run-Stands (waits j ∷ es) i k s h = run-Stands es i k s h
      run-Stands (advances j ∷ es) i k s h =
          weaken (omega arith)
            (run-Stands es i (k - turn i j) _ (advance-Stands i j k s.balancer s.tasks h))
