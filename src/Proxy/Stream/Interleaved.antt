-- ===== src/Proxy/Stream/Interleaved.antt =====
-- The connections of a proxy of umay/src/proxy/stream.rs as the runtime runs them: each is a task of
-- its own, and their steps and the ticks of the refresh task come in any order. A step is what
-- `handle_connection` does between two accesses to what the tasks share. `select` of
-- umay/src/balance/mod.rs makes two: it loads the set, then it picks by the algorithm, and other tasks
-- may come between.
pub mod Ends
pub mod Progress
pub mod Held
pub mod Runs
pub mod Fairness
mod Examples
use umay.Base.{
  ℕ, zero, suc, ◌+◌, List, [], ◌∷◌, ◌++◌, Bool, true, false, Option, none, some, Outcome, ok, err,
  panic, ◌==◌, if◌then◌else◌,
}
use umay.App.Config.Listen.{Protocol}
use umay.Balance.Backend.{Backend}
use umay.Balance.Backends.{get_backends}
use umay.Balance.LoadBalancer.{LoadBalancer, tick}
use umay.Balance.Discovery.Dns.{is_empty}
use umay.Balance.Discovery.Service.{Discovery, Lookup, discovery_service}
use umay.Balance.Selection.Random.{Rng}
use umay.Balance.Selection.Selector
use umay.Balance.Selection.Selector.{Selector}
use umay.Tls.{Session}
use umay.Tls.Server.{Poll, pending, ready, Terminated}
use umay.Proxy.Stream.Connection.{Display, Network, Action, serve_chosen, settle}

-- Where a task stands: before the end of its handshake, before `select`, between its two halves, before
-- it serves what was chosen, in a session that goes on, and at its end.
pub data Phase (session : Session) : Type 0 where
  arrived : Phase session
  shaken : session.TlsStream → Phase session
  loaded : session.TlsStream → List Backend → Phase session
  chosen : session.TlsStream → Option Backend → Phase session
  relaying : Phase session
  ended : Outcome (Unit {0}) → Phase session

-- `asked` is what it has asked of its network.
pub record Task (session : Session) : Type 1 where
  pub net : Network session
  pub io : net.Io
  pub phase : Phase session
  pub asked : List Action

-- What all tasks share, with the tasks in the order of their arrival.
pub record Running (session : Session) (R : Type 0) : Type 1 where
  pub balancer : LoadBalancer Selector (Discovery R)
  pub alive : Bool
  pub tasks : List (Task session)

-- A task is polled: what it waits for has come, and it makes its next step, or it has not, and the task
-- stays where it is. One whose handshake or connection never completes has no more turns.
pub data Event (session : Session) (R : Type 0) : Type 1 where
  refreshes : Lookup R → Event session R
  arrives : (net : Network session) → net.Io → Event session R
  advances waits : ℕ → Event session R

abbrev pub after_handshake : {session : Session} → Terminated session → Phase session
after_handshake (ok (tls, stream)) = shaken stream
after_handshake (err e) = ended (err e)
after_handshake panic = ended panic

-- A session that is not over goes on.
abbrev pub after_session : {session : Session} → Poll (Outcome (Unit {0})) → Phase session
after_session pending = relaying
after_session (ready r) = ended r

-- The second half of `select`, on the set that was loaded.
unfoldable pub pick :
    {D : Type 0}
    → Rng
    → List Backend
    → LoadBalancer Selector D
    → LoadBalancer Selector D × Option Backend
pick rng bs lb =
    if is_empty bs
    then (lb, none)
    else (let (s, b) = Selector.select rng lb.selection bs in (record lb { selection = s }, b))

module _ {session : Session} where
  abbrev pub moved : Task session → Phase session → List Action → Task session
  moved t phase actions = record t { phase = phase; asked = t.asked ++ actions }

-- Whether the turn is that of task `i`.
abbrev pub turn : ℕ → ℕ → ℕ
turn i j = if j == i then 1 else 0

module _ {session : Session} {R : Type 0} where
  abbrev pub ticked :
      Running session R → LoadBalancer Selector (Discovery R) × Bool → Running session R
  ticked s r = record s { balancer = r.0; alive = r.1 }

  abbrev pub joined : Running session R → Task session → Running session R
  joined s t = record s { tasks = s.tasks ++ t ∷ [] }

  abbrev pub advanced :
      Running session R
      → LoadBalancer Selector (Discovery R) × List (Task session)
      → Running session R
  advanced s r = record s { balancer = r.0; tasks = r.1 }

  -- How many steps task `i` makes in a schedule, counted also at its end.
  abbrev pub turns_of : ℕ → List (Event session R) → ℕ
  turns_of i [] = 0
  turns_of i (refreshes w ∷ es) = turns_of i es
  turns_of i (arrives net io ∷ es) = turns_of i es
  turns_of i (waits j ∷ es) = turns_of i es
  turns_of i (advances j ∷ es) = turn i j + turns_of i es

module _ {session : Session} (display : Display) (p : Protocol) {R : Type 0} where
  -- The next step of a task: the balancer after it, the phase, and what it asks.
  unfoldable pub move :
      (net : Network session)
      → net.Io
      → Phase session
      → LoadBalancer Selector (Discovery R)
      → LoadBalancer Selector (Discovery R) × Phase session × List Action
  unfolding pick serve_chosen get_backends
  move net io arrived lb = (lb, after_handshake (net.terminate io), [])
  move net io (shaken stream) lb = (lb, loaded stream (get_backends lb.backends), [])
  move net io (loaded stream bs) lb =
      let (lb', b) = pick net.rng bs lb in (lb', chosen stream b, [])
  move net io (chosen stream b) lb =
      let (r, c) = serve_chosen display net p stream b (record { balancer = lb; actions = [] }) in
      (c.balancer, after_session (settle r), c.actions)
  move net io relaying lb = (lb, relaying, [])
  move net io (ended r) lb = (lb, ended r, [])

  -- Task `i` makes its next step.
  unfoldable pub advance :
      ℕ
      → LoadBalancer Selector (Discovery R)
      → List (Task session)
      → LoadBalancer Selector (Discovery R) × List (Task session)
  unfolding move
  advance i lb [] = (lb, [])
  advance zero lb (t ∷ ts) =
      let (lb', phase, actions) = move t.net t.io t.phase lb in (lb', moved t phase actions ∷ ts)
  advance (suc i) lb (t ∷ ts) = let (lb', ts') = advance i lb ts in (lb', t ∷ ts')

  unfoldable pub step : Event session R → Running session R → Running session R
  unfolding advance tick
  step (refreshes w) s = if s.alive then ticked s (tick w s.balancer) else s
  step (arrives net io) s = joined s (record { net = net; io = io; phase = arrived; asked = [] })
  step (advances i) s = advanced s (advance i s.balancer s.tasks)
  step (waits i) s = s

  unfoldable pub run : List (Event session R) → Running session R → Running session R
  unfolding step
  run [] s = s
  run (e ∷ es) s = run es (step e s)
