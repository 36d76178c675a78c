-- ===== src/App/Program/Trace.antt =====
-- What the whole program of umay/src/app/server.rs is to one of its proxies.
use mathlib.Core.Path.{subst}
use umay.Base.{
  ℕ, ◌≡◌, refl, ap, sym, ◌∙◌, List, [], ◌∷◌, ◌++◌, Bool, true, false, Option, none, some, Outcome,
  ok, err, panic, get_elem?, ◌==◌, if◌then◌else◌,
}
use umay.App.Config.Listen.{Protocol}
use umay.App.Config.Umay.{UmayConfig}
use umay.App.Signal.{Watcher, changed}
use umay.App.Program.{
  Loop, unbound, listening, over, Service, Program, Answer, Event, watches, binds, yields, stops,
  ticks, moves, polls, passes, alive, bind, in_loop, called, accept, stop, proceed, step, run,
}
use umay.Proxy.Stream.Connection.{Display}
use umay.Proxy.Stream.Interleaved.{Running, refreshes, arrives, advances, turn, turns_of}
use umay.Proxy.Stream.Interleaved
use umay.Tls.{Session}
use umay.App.Program.After.{after, step-after}

module _ {session : Session} {R : Type 0} where
  -- What the proxy of service `i` sees of an event, by where its loop stands.
  abbrev pub taken : Answer session → List (Interleaved.Event session R)
  taken none = []
  taken (some (ok (net, io))) = arrives net io ∷ []
  taken (some (err e)) = []
  taken (some panic) = []

  abbrev pub heard : Loop → Answer session → List (Interleaved.Event session R)
  heard unbound answer = []
  heard listening answer = taken answer
  heard (over r) answer = []

  abbrev pub own : ℕ → Event session R → Loop → List (Interleaved.Event session R)
  own i (watches e) l = []
  own i (binds j r) l = []
  own i (yields j answer) l = if j == i then heard l answer else []
  own i (stops j) l = []
  own i (ticks j w) l = if j == i then refreshes w ∷ [] else []
  own i (moves j k) l = if j == i then advances k ∷ [] else []
  own i polls l = []
  own i passes l = []

  abbrev pub own_of :
      ℕ → Event session R → Option (Service session R) → List (Interleaved.Event session R)
  own_of i e none = []
  own_of i e (some v) = own i e v.loop

  -- What `es` come to for the proxy of a service.
  abbrev pub Runs :
      Display → List (Interleaved.Event session R) → Service session R → Service session R → Type 1
  Runs display es v w =
      (w.protocol ≡ v.protocol) × (w.running ≡ Interleaved.run display v.protocol es v.running)

  module _ (display : Display) where
    run-append :
        (p : Protocol) (xs ys : List (Interleaved.Event session R)) (r : Running session R)
        → Interleaved.run display p (xs ++ ys) r
          ≡ Interleaved.run display p ys (Interleaved.run display p xs r)
    unfolding Interleaved.run
    run-append p [] ys r = refl
    run-append p (x ∷ xs) ys r = run-append p xs ys (Interleaved.step display p x r)

    Runs-append :
        (xs ys : List (Interleaved.Event session R)) (v w u : Service session R)
        → Runs display xs v w
        → Runs display ys w u
        → Runs display (xs ++ ys) v u
    Runs-append xs ys v w u a b = (
      b.0 ∙ a.0,
      b.1
          ∙ ap (λ p. Interleaved.run display p ys w.running) a.0
          ∙ ap (Interleaved.run display v.protocol ys) a.1
          ∙ sym (run-append v.protocol xs ys v.running),
    )

    called-Runs :
        (answer : Answer session) (v : Service session R)
        → Runs display (taken answer) v (called display answer v)
    unfolding Interleaved.run
    called-Runs none v = (refl, refl)
    called-Runs (some (ok (net, io))) v = (refl, refl)
    called-Runs (some (err e)) v = (refl, refl)
    called-Runs (some panic) v = (refl, refl)

    accept-Runs :
        (answer : Answer session) (v : Service session R)
        → Runs display (heard v.loop answer) v (accept display answer v)
    unfolding accept Interleaved.run
    accept-Runs answer v = by_loop v.loop
      where
        by_loop :
            (l : Loop) → Runs display (heard l answer) v (in_loop v l (called display answer v))
        by_loop unbound = (refl, refl)
        by_loop listening = called-Runs answer v
        by_loop (over r) = (refl, refl)

    stop-Runs : (v : Service session R) → Runs display [] v (stop v)
    unfolding stop Interleaved.run
    stop-Runs v = by_loop v.loop
      where
        by_loop : (l : Loop) → Runs display [] v (in_loop v l (record v { loop = over (ok tt) }))
        by_loop unbound = (refl, refl)
        by_loop listening = (refl, refl)
        by_loop (over r) = (refl, refl)

    if-Runs :
        (b : Bool) (es : List (Interleaved.Event session R)) (v w : Service session R)
        → Runs display es v w
        → Runs display (if b then es else []) v (if b then w else v)
    unfolding Interleaved.run
    if-Runs true es v w h = h
    if-Runs false es v w h = (refl, refl)

    stopped-Runs :
        (a b : Bool) (v : Service session R)
        → Runs display [] v (if a then (if b then stop v else v) else v)
    unfolding Interleaved.run
    stopped-Runs true true v = stop-Runs v
    stopped-Runs true false v = (refl, refl)
    stopped-Runs false b v = (refl, refl)

    bound-Runs :
        (b : Bool) (r : Outcome (Unit {0})) (v : Service session R)
        → Runs display [] v (if b then bind r v else v)
    unfolding bind Interleaved.run
    bound-Runs true r v = (refl, refl)
    bound-Runs false r v = (refl, refl)

    after-Runs :
        (w : Watcher) (i : ℕ) (e : Event session R) (v : Service session R)
        → Runs display (own i e v.loop) v (after display w i e v)
    unfolding Interleaved.run proceed
    after-Runs w i (watches e) v = (refl, refl)
    after-Runs w i (binds j r) v = bound-Runs (j == i) r v
    after-Runs w i (yields j answer) v =
        if-Runs (j == i) (heard v.loop answer) v (accept display answer v) (accept-Runs answer v)
    after-Runs w i (stops j) v = stopped-Runs (changed w) (j == i) v
    after-Runs w i (ticks j l) v =
        if-Runs (j == i) (refreshes l ∷ []) v (proceed display (refreshes l) v) (refl, refl)
    after-Runs w i (moves j k) v =
        if-Runs (j == i) (advances k ∷ []) v (proceed display (advances k) v) (refl, refl)
    after-Runs w i polls v = (refl, refl)
    after-Runs w i passes v = (refl, refl)

    module _ (config : UmayConfig) where
      -- What a run of the program is to the proxy of service `i`.
      unfoldable pub trace :
          ℕ → List (Event session R) → Program session R → List (Interleaved.Event session R)
      unfolding step
      trace i [] s = []
      trace i (e ∷ es) s =
          (if alive s.stage then own_of i e (get_elem? s.services i) else [])
          ++ trace i es (step display config e s)

      -- However the events of the program interleave, each proxy is a run of its own tasks: service `i`
      -- keeps its protocol, and its connections and its balancer come to what its own events make of
      -- them in their order, those that the program has let through.
      pub run-trace :
          (es : List (Event session R)) (s : Program session R) (i : ℕ) (v : Service session R)
          → get_elem? s.services i ≡ some v
          → (w : Service session R) × (get_elem? (run display config es s).services i ≡ some w)
            × Runs display (trace i es s) v w
      unfolding run trace Interleaved.run
      run-trace [] s i v h = (v, h, (refl, refl))
      run-trace (e ∷ es) s i v h =
          let own_events = own i e v.loop in
          let next = step display config e s in
          let u = if alive s.stage then after display s.watcher i e v else v in
          let first =
            if-Runs (alive s.stage) own_events v (after display s.watcher i e v)
              (after-Runs s.watcher i e v) in
          let (w, place, runs) = run-trace es next i u (step-after display config e s i v h) in
          let both =
            Runs-append (if alive s.stage then own_events else []) (trace i es next) v u w first
              runs in
          (
            w,
            place,
            subst
                (λ o.
                  Runs display ((if alive s.stage then own_of i e o else []) ++ trace i es next) v
                    w)
                (sym h) both,
          )
