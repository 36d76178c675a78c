-- ===== src/Proxy/Stream/Interleaved/Runs.antt =====
-- Every connection of a proxy of umay/src/proxy/stream.rs in every interleaving of its tasks.
use mathlib.Core.Path.{subst}
use umay.Base.{
  All-drop-length, All-drop-get_elem?, All-drop-append, get_elem?-last, ℕ, ◌≤◌, ◌≡◌, refl, ap, sym,
  ◌∙◌, List, [], ◌∷◌, Bool, true, false, some, Outcome, ok, length, drop, Mem, ok-injective, All,
  get_elem?, if◌then◌else◌, arith,
}
use umay.App.Config.Listen.{Protocol}
use umay.Balance.Backend.{Backend}
use umay.Balance.LoadBalancer.{LoadBalancer, tick}
use umay.Balance.Selection.Selector.{Selector, selector-total}
use umay.Balance.Discovery.Service.{Discovery, Lookup, discovery_service}
use umay.Balance.Discovery.Service
use umay.Tls.{Session, ServerTls}
use umay.Proxy.Stream.Connection.Paths.{End, IsServing, session_end}
use umay.Tls.Server.{Poll, pending, ready}
use umay.Proxy.Stream.Connection.{Display, Network, Action}
use umay.Proxy.Stream.Interleaved.{
  Phase, arrived, shaken, loaded, chosen, relaying, ended, after_session, Running, Event, refreshes,
  arrives, advances, waits, ticked, step, run, turns_of,
}
use umay.Proxy.Stream.Interleaved.Ends.{
  Comes, At-session, unshaken, broken, unserved, served, IsHonest, advance-IsHonest,
}
use umay.Proxy.Stream.Interleaved.Held.{IsHeld, step-IsHeld}
use umay.Proxy.Stream.Interleaved.Progress.{left, task, run-Stands}

session_of_left :
    {session : Session} (phase : Phase session)
    → left phase ≤ 0
    → (r : Poll (Outcome (Unit {0}))) × (phase ≡ after_session r)
session_of_left arrived h = absurd (omega arith)
session_of_left (shaken stream) h = absurd (omega arith)
session_of_left (loaded stream bs) h = absurd (omega arith)
session_of_left (chosen stream b) h = absurd (omega arith)
session_of_left relaying h = (pending, refl)
session_of_left (ended r) h = (ready r, refl)

module _ {session : Session} (display : Display) (p : Protocol) (S : List Backend → Type 0)
    {R : Type 0} (d : Discovery R)
    (finds : (w : Lookup R) (bs : List Backend) → Service.discover w d ≡ ok bs → S bs) where
  -- The balancer is as `IsHeld` says, and the tasks from the `n`-th on are honest.
  pub record IsSound (n : ℕ) (s : Running session R) : Type 1 where
    pub held : IsHeld display p S d finds s
    pub tasks : All (IsHonest display p S) (drop n s.tasks)

  alive-IsHonest :
      (n : ℕ) (alive : Bool) (r : LoadBalancer Selector (Discovery R) × Bool)
      (s : Running session R)
      → All (IsHonest display p S) (drop n s.tasks)
      → All (IsHonest display p S) (drop n (if alive then ticked s r else s).tasks)
  alive-IsHonest n true r s h = h
  alive-IsHonest n false r s h = h

  step-IsHonest :
      (n : ℕ) (e : Event session R) (s : Running session R)
      → IsSound n s
      → All (IsHonest display p S) (drop n (step display p e s).tasks)
  unfolding step
  step-IsHonest n (refreshes w) s h = alive-IsHonest n s.alive (tick w s.balancer) s h.tasks
  step-IsHonest n (arrives net io) s h =
      All-drop-append (IsHonest display p S) n s.tasks _ h.tasks (refl, tt)
  step-IsHonest n (waits i) s h = h.tasks
  step-IsHonest n (advances i) s h =
      advance-IsHonest display p S n i s.balancer s.tasks h.held.set h.tasks

  pub step-IsSound :
      (n : ℕ) (e : Event session R) (s : Running session R)
      → IsSound n s
      → IsSound n (step display p e s)
  step-IsSound n e s h = record {
    held = step-IsHeld display p S d finds e s h.held;
    tasks = step-IsHonest n e s h;
  }

  run-IsSound :
      (n : ℕ) (es : List (Event session R)) (s : Running session R)
      → IsSound n s
      → IsSound n (run display p es s)
  unfolding run
  run-IsSound n [] s h = h
  run-IsSound n (e ∷ es) s h = run-IsSound n es _ (step-IsSound n e s h)

  -- However the tasks and the refreshes interleave, a connection that has made four steps is over or in
  -- its session, in one of the ways that `Comes` lists.
  pub run-Comes :
      (s : Running session R) (net : Network session) (io : net.Io) (es : List (Event session R))
      → IsHeld display p S d finds s
      → 4 ≤ turns_of (length s.tasks) es
      → (r : Poll (Outcome (Unit {0}))) × (asked : List Action) × (get_elem?
            (run display p (arrives net io ∷ es) s).tasks
            (length s.tasks)
          ≡ some (task net io (after_session r) asked))
        × Comes display p S net io r asked
  unfolding run
  run-Comes s net io es held enough =
      let i = length s.tasks in
      let next = step display p (arrives net io) s in
      let h = run-Stands net io display p es i 4 next (
        unfold step in
        (record {
          phase = arrived;
          asked = [];
          place = get_elem?-last s.tasks (task net io arrived []);
          close = omega arith;
        })) in
      let (r, e) = session_of_left h.phase (omega (arith, h.close)) in
      let place =
        subst (λ ph. get_elem? (run display p es next).tasks i ≡ some (task net io ph h.asked)) e
          h.place in
      let all =
        (run-IsSound i es next (
          step-IsSound i (arrives net io) s (record {
            held = held;
            tasks = All-drop-length (IsHonest display p S) s.tasks;
          }))).tasks in
      (
        r,
        h.asked,
        place,
        At-session display p S net io r h.asked (
            All-drop-get_elem? (IsHonest display p S) _ i i (task net io (after_session r) h.asked)
              all (omega arith) place),
      )

-- A connection whose handshake succeeds, where every set that it may load is fit to serve.
module _ {session : Session} (display : Display) (p : Protocol) (S : List Backend → Type 0)
    (fits : (bs : List Backend) → S bs → IsServing bs) (net : Network session) (io : net.Io)
    (t : ServerTls session.ServerName × session.TlsStream)
    (handshake : net.terminate io ≡ ok t) where
  Comes-served :
      (r : Poll (Outcome (Unit {0}))) (asked : List Action)
      → Comes display p S net io r asked
      → (bs : List Backend) × S bs
        × (b : Backend) × Mem b bs
        × ((r, asked) ≡ session_end display net p t.1 b)
  Comes-served r asked (unshaken e h) = cc (h, handshake)
  Comes-served r asked (broken h) = cc (h, handshake)
  Comes-served r asked (unserved t' h bs held s none_picked) =
      let fit = fits bs held in
      let (b, picked) = selector-total net.rng s bs fit.unit fit.some_backend fit.small in
      cc (none_picked, picked)
  Comes-served r asked (served t' h bs held b m) = (
    bs,
    held,
    b,
    m,
    ap (λ u. session_end display net p u.1 b) (ok-injective t' t (sym h ∙ handshake)),
  )

  -- The session that it comes to.
  pub run-serves :
      {R : Type 0} (d : Discovery R)
      (finds : (w : Lookup R) (bs : List Backend) → Service.discover w d ≡ ok bs → S bs)
      (s : Running session R) (es : List (Event session R))
      → IsHeld display p S d finds s
      → 4 ≤ turns_of (length s.tasks) es
      → (bs : List Backend) × S bs
        × (b : Backend) × Mem b bs
        × (let (r, asked) = session_end display net p t.1 b in
            get_elem? (run display p (arrives net io ∷ es) s).tasks (length s.tasks)
            ≡ some (task net io (after_session r) asked))
  run-serves d finds s es held enough =
      let (r, asked, place, comes) = run-Comes display p S d finds s net io es held enough in
      let (bs, set, b, m, e) = Comes-served r asked comes in
      (bs, set, b, m, place ∙ ap (λ (x : End). some (task net io (after_session x.0) x.1)) e)
