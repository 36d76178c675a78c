-- ===== src/App/Program/After.antt =====
-- A service of umay/src/app/server.rs after an event of the program.
use mathlib.Core.Option.{some-injective}
use umay.Base.{
  ℕ, zero, suc, ◌≡◌, ap, ◌∙◌, List, [], ◌∷◌, Bool, true, false, some, get_elem?, ◌==◌,
  if◌then◌else◌, arith,
}
use umay.App.Config.Umay.{UmayConfig}
use umay.App.Signal.{Watcher, changed}
use umay.App.Program.{
  Service, Program, Event, watches, binds, yields, stops, ticks, moves, polls, passes, alive, bind,
  accept, stop, on, occurs, proceed, alter, step,
}
use umay.Proxy.Stream.Connection.{Display}
use umay.Proxy.Stream.Interleaved.{refreshes, advances}
use umay.Tls.{Session}

module _ {session : Session} {R : Type 0} where
  -- A service after an event that concerns service `j`, and after the others.
  abbrev pub after : Display → Watcher → ℕ → Event session R → Service session R → Service session R
  after display w i (watches e) v = v
  after display w i (binds j r) v = if j == i then bind r v else v
  after display w i (yields j answer) v = if j == i then accept display answer v else v
  after display w i (stops j) v = if changed w then (if j == i then stop v else v) else v
  after display w i (ticks j l) v = if j == i then proceed display (refreshes l) v else v
  after display w i (moves j k) v = if j == i then proceed display (advances k) v else v
  after display w i polls v = v
  after display w i passes v = v

  get_elem?-alter :
      (j i : ℕ) (f : Service session R → Service session R) (vs : List (Service session R))
      (v : Service session R)
      → get_elem? vs i ≡ some v
      → get_elem? (alter j f vs) i ≡ some (if j == i then f v else v)
  get_elem?-alter j i f [] v h = cc
  get_elem?-alter zero zero f (u ∷ vs) v h = ap (λ x. some (f x)) (some-injective u v h)
  get_elem?-alter zero (suc i) f (u ∷ vs) v h = ground (arith, h)
  get_elem?-alter (suc j) zero f (u ∷ vs) v h = ground (arith, h)
  get_elem?-alter (suc j) (suc i) f (u ∷ vs) v h =
      get_elem?-alter j i f vs v h ∙ ap (λ b. some (if b then f v else v)) (ground arith)

  module _ (display : Display) (config : UmayConfig) where
    stops-after :
        (b : Bool) (j i : ℕ) (s : Program session R) (v : Service session R)
        → get_elem? s.services i ≡ some v
        → get_elem? (if b then on j stop s else s).services i
          ≡ some (if b then (if j == i then stop v else v) else v)
    stops-after true j i s v h = get_elem?-alter j i stop s.services v h
    stops-after false j i s v h = h

    occurs-after :
        (e : Event session R) (s : Program session R) (i : ℕ) (v : Service session R)
        → get_elem? s.services i ≡ some v
        → get_elem? (occurs display config e s).services i ≡ some (after display s.watcher i e v)
    occurs-after (watches e) s i v h = h
    occurs-after (binds j r) s i v h = get_elem?-alter j i (bind r) s.services v h
    occurs-after (yields j answer) s i v h =
        get_elem?-alter j i (accept display answer) s.services v h
    occurs-after (stops j) s i v h = stops-after (changed s.watcher) j i s v h
    occurs-after (ticks j w) s i v h =
        get_elem?-alter j i (proceed display (refreshes w)) s.services v h
    occurs-after (moves j k) s i v h =
        get_elem?-alter j i (proceed display (advances k)) s.services v h
    occurs-after polls s i v h = h
    occurs-after passes s i v h = h

    pub step-after :
        (e : Event session R) (s : Program session R) (i : ℕ) (v : Service session R)
        → get_elem? s.services i ≡ some v
        → get_elem? (step display config e s).services i
          ≡ some (if alive s.stage then after display s.watcher i e v else v)
    unfolding step
    step-after e s i v h = by_stage (alive s.stage)
      where
        by_stage :
            (b : Bool)
            → get_elem? (if b then occurs display config e s else s).services i
              ≡ some (if b then after display s.watcher i e v else v)
        by_stage true = occurs-after e s i v h
        by_stage false = h
