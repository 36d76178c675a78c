-- ===== src/App/Program/Stages.antt =====
-- How long `run` of umay/src/app/server.rs goes on.
use umay.Base.{
  ℕ, zero, suc, ◌+◌, ◌-◌, ◌≤◌, ◌<◌, ◌≡◌, refl, List, [], ◌∷◌, Bool, true, false, if◌then◌else◌,
  arith,
}
use umay.App.Config.Umay.{UmayConfig}
use umay.App.Run.{shutdown}
use umay.App.Signal.{changed}
use umay.App.Program.{
  Stage, serving, sleeping, returned, Program, Event, watches, binds, yields, stops, ticks, moves,
  polls, passes, alive, wakes, poll, pass, on, stop, occurs, step, run,
}
use umay.Proxy.Stream.Connection.{Display}
use umay.Tls.{Session}

abbrev pub total : List ℕ → ℕ
total [] = 0
total (n ∷ ns) = n + total ns

-- What `run` still has to sleep.
abbrev pub rest : UmayConfig → Stage → ℕ
rest config serving = total (shutdown config)
rest config (sleeping sleeps) = total sleeps
rest config returned = 0

rest-wakes : (config : UmayConfig) (sleeps : List ℕ) → rest config (wakes sleeps) ≡ total sleeps
unfolding wakes
rest-wakes config [] = refl
rest-wakes config (zero ∷ sleeps) = omega (arith, rest-wakes config sleeps)
rest-wakes config (suc n ∷ sleeps) = refl

rest-poll :
    (config : UmayConfig) (st : Stage) (b : Bool) → rest config (poll config st b) ≡ rest config st
unfolding poll
rest-poll config serving false = refl
rest-poll config serving true = rest-wakes config (shutdown config)
rest-poll config (sleeping sleeps) b = rest-wakes config sleeps
rest-poll config returned b = refl

rest-pass : (config : UmayConfig) (st : Stage) → rest config st - 1 ≤ rest config (pass st)
unfolding pass
rest-pass config serving = omega arith
rest-pass config (sleeping []) = omega arith
rest-pass config (sleeping (n ∷ sleeps)) = omega arith
rest-pass config returned = omega arith

rest_alive : (config : UmayConfig) (st : Stage) → 0 < rest config st → alive st ≡ true
rest_alive config serving h = refl
rest_alive config (sleeping sleeps) h = refl
rest_alive config returned h = absurd (omega (arith, h))

module _ {session : Session} {R : Type 0} where
  -- How many milliseconds pass.
  abbrev pub elapsed : Event session R → ℕ
  elapsed (watches e) = 0
  elapsed (binds i r) = 0
  elapsed (yields i answer) = 0
  elapsed (stops i) = 0
  elapsed (ticks i w) = 0
  elapsed (moves i j) = 0
  elapsed polls = 0
  elapsed passes = 1

  abbrev pub elapsed_in : List (Event session R) → ℕ
  elapsed_in [] = 0
  elapsed_in (e ∷ es) = elapsed e + elapsed_in es

  module _ (display : Display) (config : UmayConfig) where
    pub stops-stage :
        (b : Bool) (i : ℕ) (s : Program session R) → (if b then on i stop s else s).stage ≡ s.stage
    stops-stage true i s = refl
    stops-stage false i s = refl

    occurs-rest :
        (e : Event session R) (s : Program session R)
        → rest config s.stage - elapsed e ≤ rest config (occurs display config e s).stage
    occurs-rest (watches e) s = omega arith
    occurs-rest (binds i r) s = omega arith
    occurs-rest (yields i answer) s = omega arith
    occurs-rest (stops i) s = rw (stops-stage (changed s.watcher) i s) (omega arith)
    occurs-rest (ticks i w) s = omega arith
    occurs-rest (moves i j) s = omega arith
    occurs-rest polls s = omega (arith, rest-poll config s.stage (changed s.watcher))
    occurs-rest passes s = rest-pass config s.stage

    step-rest :
        (e : Event session R) (s : Program session R)
        → rest config s.stage - elapsed e ≤ rest config (step display config e s).stage
    unfolding step
    step-rest e s = by_stage (alive s.stage)
      where
        by_stage :
            (b : Bool)
            → rest config s.stage - elapsed e
              ≤ rest config (if b then occurs display config e s else s).stage
        by_stage true = occurs-rest e s
        by_stage false = omega arith

    pub run-rest :
        (es : List (Event session R)) (s : Program session R)
        → rest config s.stage - elapsed_in es ≤ rest config (run display config es s).stage
    unfolding run
    run-rest [] s = omega arith
    run-rest (e ∷ es) s = omega (arith, step-rest e s, run-rest es (step display config e s))

    -- While less time passes than `run` has to sleep, the runtime is there.
    pub run-alive :
        (es : List (Event session R)) (s : Program session R)
        → elapsed_in es < rest config s.stage
        → alive (run display config es s).stage ≡ true
    run-alive es s h =
        rest_alive config (run display config es s).stage (omega (arith, h, run-rest es s))
