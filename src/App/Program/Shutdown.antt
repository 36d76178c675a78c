-- ===== src/App/Program/Shutdown.antt =====
-- What has come before where `run` of umay/src/app/server.rs has returned.
use mathlib.Core.Path.{subst}
use umay.Base.{
  ℕ, ◌+◌, ◌≤◌, ◌≡◌, ◌⊎◌, inl, inr, refl, ap, List, [], ◌∷◌, Bool, true, false, if◌then◌else◌, arith,
}
use umay.App.Config.Umay.{UmayConfig, shutdown_grace_period_of, exit_timeout_of}
use umay.App.Run.{shutdown}
use umay.App.Signal.{Watcher, finished, Cause, changed}
use umay.App.System.Safety.{watch-changed, changed_cause}
use umay.App.Program.{
  Stage, serving, returned, Program, Event, watches, binds, yields, stops, ticks, moves, polls,
  passes, alive, poll, pass, on, stop, occurs, step, run,
}
use umay.App.Program.Stages.{rest, elapsed_in, run-rest}
use umay.Proxy.Stream.Connection.{Display}
use umay.Tls.{Session}

-- Nothing but a change of the channel makes `run` leave its `select`.
abbrev IsCaused : Watcher → Stage → Type 0
IsCaused w st = (st ≡ serving) ⊎ (changed w ≡ true)

poll-IsCaused :
    (config : UmayConfig) (w : Watcher) (st : Stage)
    → IsCaused w st
    → IsCaused w (poll config st (changed w))
unfolding poll
poll-IsCaused config w st (inr c) = inr c
poll-IsCaused config w st (inl e) = by_change (changed w) refl
  where
    by_change : (b : Bool) → changed w ≡ b → IsCaused w (poll config st b)
    by_change true c = inr c
    by_change false c = inl (rw e refl)

pass-IsCaused : (w : Watcher) (st : Stage) → IsCaused w st → IsCaused w (pass st)
unfolding pass
pass-IsCaused w st (inr c) = inr c
pass-IsCaused w st (inl e) = inl (rw e refl)

module _ {session : Session} {R : Type 0} (display : Display) (config : UmayConfig) where
  stops-IsCaused :
      (b : Bool) (i : ℕ) (s : Program session R)
      → IsCaused s.watcher s.stage
      → let t = if b then on i stop s else s in IsCaused t.watcher t.stage
  stops-IsCaused true i s h = h
  stops-IsCaused false i s h = h

  occurs-IsCaused :
      (e : Event session R) (s : Program session R)
      → IsCaused s.watcher s.stage
      → let t = occurs display config e s in IsCaused t.watcher t.stage
  occurs-IsCaused (watches e) s (inl h) = inl h
  occurs-IsCaused (watches e) s (inr c) = inr (watch-changed e s.watcher c)
  occurs-IsCaused (binds i r) s h = h
  occurs-IsCaused (yields i answer) s h = h
  occurs-IsCaused (stops i) s h = stops-IsCaused (changed s.watcher) i s h
  occurs-IsCaused (ticks i w) s h = h
  occurs-IsCaused (moves i j) s h = h
  occurs-IsCaused polls s h = poll-IsCaused config s.watcher s.stage h
  occurs-IsCaused passes s h = pass-IsCaused s.watcher s.stage h

  run-IsCaused :
      (es : List (Event session R)) (s : Program session R)
      → IsCaused s.watcher s.stage
      → let t = run display config es s in IsCaused t.watcher t.stage
  unfolding run step
  run-IsCaused [] s h = h
  run-IsCaused (e ∷ es) s h = run-IsCaused es (step display config e s) (by_stage (alive s.stage))
    where
      by_stage :
          (b : Bool)
          → let t = if b then occurs display config e s else s in IsCaused t.watcher t.stage
      by_stage true = occurs-IsCaused e s h
      by_stage false = h

  -- Where `run` has returned, the signal task is over, because it received a signal or could not
  -- install a handler, and from any moment at which `run` was in its `select` the grace period and
  -- the exit timeout have passed.
  pub returned-slept :
      (es : List (Event session R)) (s : Program session R)
      → s.stage ≡ serving
      → (run display config es s).stage ≡ returned
      → (shutdown_grace_period_of config + exit_timeout_of config ≤ elapsed_in es)
        × ((c : Cause) × ((run display config es s).watcher ≡ finished c))
  unfolding shutdown
  returned-slept es s start end = (
    omega (
      arith,
      subst (λ st. rest config s.stage ≤ rest config st + elapsed_in es) end
          (omega (arith, run-rest display config es s)),
      ap (rest config) start,
    ),
    elim (run-IsCaused es s (inl start)) [
      | inl e ↦ cc (end, e)
      | inr c ↦ changed_cause (run display config es s).watcher c
    ],
  )
