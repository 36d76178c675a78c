-- ===== src/App/Program/Termination.antt =====
-- How `run` of umay/src/app/server.rs comes to its end.
use mathlib.Core.Path.{subst}
use umay.Base.{
  ℕ, zero, suc, ◌+◌, ◌-◌, ◌≤◌, ◌<◌, ◌≡◌, refl, ap, sym, ◌∙◌, List, [], ◌∷◌, Bool, true, false,
  if◌then◌else◌, arith,
}
use umay.App.Config.Umay.{UmayConfig, shutdown_grace_period_of, exit_timeout_of}
use umay.App.Run.{shutdown}
use umay.App.Signal.{changed}
use umay.App.Program.{
  Stage, serving, sleeping, returned, Program, Event, watches, binds, yields, stops, ticks, moves,
  polls, passes, alive, wakes, poll, pass, occurs, step, run,
}
use umay.App.Program.Stages.{total, stops-stage}
use umay.Proxy.Stream.Connection.{Display}
use umay.Tls.{Session}

module _ {session : Session} {R : Type 0} where
  -- How often `run` is polled with a millisecond or more since the last poll, of which one has passed
  -- already where the flag is set.
  abbrev pub rounds : Bool → List (Event session R) → ℕ
  rounds b [] = 0
  rounds b (watches e ∷ es) = rounds b es
  rounds b (binds i r ∷ es) = rounds b es
  rounds b (yields i answer ∷ es) = rounds b es
  rounds b (stops i ∷ es) = rounds b es
  rounds b (ticks i w ∷ es) = rounds b es
  rounds b (moves i j ∷ es) = rounds b es
  rounds true (polls ∷ es) = suc (rounds false es)
  rounds false (polls ∷ es) = rounds false es
  rounds b (passes ∷ es) = rounds true es

-- After `k` more rounds `run` has returned.
abbrev Shuts : Bool → ℕ → Stage → Type 0
Shuts b k serving = true ≡ false
Shuts false k (sleeping []) = true ≡ false
Shuts false k (sleeping (zero ∷ sleeps)) = true ≡ false
Shuts false k (sleeping (suc n ∷ sleeps)) = suc n + total sleeps ≤ k
Shuts true k (sleeping sleeps) = total sleeps < k
Shuts b k returned = Unit {0}

wakes-Shuts : (sleeps : List ℕ) (k : ℕ) → total sleeps ≤ k → Shuts false k (wakes sleeps)
unfolding wakes
wakes-Shuts [] k h = tt
wakes-Shuts (zero ∷ sleeps) k h = wakes-Shuts sleeps k (omega (arith, h))
wakes-Shuts (suc n ∷ sleeps) k h = h

poll-Shuts-true :
    (config : UmayConfig) (k : ℕ) (st : Stage) (c : Bool)
    → Shuts true k st
    → Shuts false (k - 1) (poll config st c)
unfolding poll
poll-Shuts-true config k serving c h = cc
poll-Shuts-true config k (sleeping sleeps) c h = wakes-Shuts sleeps (k - 1) (omega (arith, h))
poll-Shuts-true config k returned c h = tt

poll-Shuts-false :
    (config : UmayConfig) (k : ℕ) (st : Stage) (c : Bool)
    → Shuts false k st
    → Shuts false k (poll config st c)
unfolding poll wakes
poll-Shuts-false config k serving c h = cc
poll-Shuts-false config k (sleeping []) c h = cc
poll-Shuts-false config k (sleeping (zero ∷ sleeps)) c h = cc
poll-Shuts-false config k (sleeping (suc n ∷ sleeps)) c h = h
poll-Shuts-false config k returned c h = tt

pass-Shuts : (b : Bool) (k : ℕ) (st : Stage) → Shuts b k st → Shuts true k (pass st)
unfolding pass
pass-Shuts b k serving h = cc
pass-Shuts false k (sleeping []) h = cc
pass-Shuts true k (sleeping []) h = h
pass-Shuts false k (sleeping (zero ∷ sleeps)) h = cc
pass-Shuts false k (sleeping (suc n ∷ sleeps)) h = omega (arith, h)
pass-Shuts true k (sleeping (n ∷ sleeps)) h = omega (arith, h)
pass-Shuts b k returned h = tt

Shuts-returned : (b : Bool) (k : ℕ) (st : Stage) → Shuts b k st → k ≤ 0 → st ≡ returned
Shuts-returned b k serving h le = cc
Shuts-returned false k (sleeping []) h le = cc
Shuts-returned false k (sleeping (zero ∷ sleeps)) h le = cc
Shuts-returned false k (sleeping (suc n ∷ sleeps)) h le = absurd (omega (arith, h, le))
Shuts-returned true k (sleeping sleeps) h le = absurd (omega (arith, h, le))
Shuts-returned b k returned h le = refl

-- The stage after an event.
abbrev stage_after :
    {session : Session} {R : Type 0} → UmayConfig → Bool → Event session R → Stage → Stage
stage_after config c (watches e) st = st
stage_after config c (binds i r) st = st
stage_after config c (yields i answer) st = st
stage_after config c (stops i) st = st
stage_after config c (ticks i w) st = st
stage_after config c (moves i j) st = st
stage_after config c polls st = poll config st c
stage_after config c passes st = pass st

module _ {session : Session} {R : Type 0} (display : Display) (config : UmayConfig) where
  returned_stays :
      (c : Bool) (e : Event session R) (st : Stage)
      → alive st ≡ false
      → stage_after config c e st ≡ st
  unfolding poll pass
  returned_stays c (watches e) st h = refl
  returned_stays c (binds i r) st h = refl
  returned_stays c (yields i answer) st h = refl
  returned_stays c (stops i) st h = refl
  returned_stays c (ticks i w) st h = refl
  returned_stays c (moves i j) st h = refl
  returned_stays c polls serving h = cc
  returned_stays c polls (sleeping sleeps) h = cc
  returned_stays c polls returned h = refl
  returned_stays c passes serving h = cc
  returned_stays c passes (sleeping sleeps) h = cc
  returned_stays c passes returned h = refl

  occurs-stage :
      (e : Event session R) (s : Program session R)
      → (occurs display config e s).stage ≡ stage_after config (changed s.watcher) e s.stage
  occurs-stage (watches e) s = refl
  occurs-stage (binds i r) s = refl
  occurs-stage (yields i answer) s = refl
  occurs-stage (stops i) s = stops-stage display config (changed s.watcher) i s
  occurs-stage (ticks i w) s = refl
  occurs-stage (moves i j) s = refl
  occurs-stage polls s = refl
  occurs-stage passes s = refl

  step-stage :
      (e : Event session R) (s : Program session R)
      → (step display config e s).stage ≡ stage_after config (changed s.watcher) e s.stage
  unfolding step
  step-stage e s = by_stage (alive s.stage) refl
    where
      by_stage :
          (b : Bool)
          → alive s.stage ≡ b
          → (if b then occurs display config e s else s).stage
            ≡ stage_after config (changed s.watcher) e s.stage
      by_stage true h = occurs-stage e s
      by_stage false h = sym (returned_stays (changed s.watcher) e s.stage h)

  module _ (s : Program session R) where
    stepped :
        (e : Event session R) (b : Bool) (k : ℕ)
        → Shuts b k (stage_after config (changed s.watcher) e s.stage)
        → Shuts b k (step display config e s).stage
    stepped e b k h = subst (Shuts b k) (sym (step-stage e s)) h

  run-Shuts :
      (es : List (Event session R)) (s : Program session R) (b : Bool) (k : ℕ)
      → Shuts b k s.stage
      → k ≤ rounds b es
      → (run display config es s).stage ≡ returned
  unfolding run
  run-Shuts [] s b k h le = Shuts-returned b k s.stage h le
  run-Shuts (watches e ∷ es) s b k h le = run-Shuts es _ b k (stepped s (watches e) b k h) le
  run-Shuts (binds i r ∷ es) s b k h le = run-Shuts es _ b k (stepped s (binds i r) b k h) le
  run-Shuts (yields i answer ∷ es) s b k h le =
      run-Shuts es _ b k (stepped s (yields i answer) b k h) le
  run-Shuts (stops i ∷ es) s b k h le = run-Shuts es _ b k (stepped s (stops i) b k h) le
  run-Shuts (ticks i w ∷ es) s b k h le = run-Shuts es _ b k (stepped s (ticks i w) b k h) le
  run-Shuts (moves i j ∷ es) s b k h le = run-Shuts es _ b k (stepped s (moves i j) b k h) le
  run-Shuts (polls ∷ es) s true k h le =
      run-Shuts es _ false (k - 1)
        (stepped s polls false (k - 1) (poll-Shuts-true config k s.stage (changed s.watcher) h))
        (omega (arith, le))
  run-Shuts (polls ∷ es) s false k h le =
      run-Shuts es _ false k
        (stepped s polls false k (poll-Shuts-false config k s.stage (changed s.watcher) h)) le
  run-Shuts (passes ∷ es) s b k h le =
      run-Shuts es _ true k (stepped s passes true k (pass-Shuts b k s.stage h)) le

  -- Where the channel has changed and `run`, which is in its `select`, is polled, `run` returns, however
  -- the rest of the program goes on: as many more polls are enough, each after a millisecond or more,
  -- as the grace period and the exit timeout have milliseconds.
  pub polls-returns :
      (es : List (Event session R)) (s : Program session R)
      → s.stage ≡ serving
      → changed s.watcher ≡ true
      → shutdown_grace_period_of config + exit_timeout_of config ≤ rounds false es
      → (run display config (polls ∷ es) s).stage ≡ returned
  unfolding run shutdown poll
  polls-returns es s start c enough =
      let k = shutdown_grace_period_of config + exit_timeout_of config in
      let polled =
        ap (λ st. poll config st (changed s.watcher)) start ∙ ap (poll config serving) c in
      run-Shuts es (step display config polls s) false k
        (stepped s polls false k
          (subst (Shuts false k) (sym polled) (wakes-Shuts (shutdown config) k (omega arith))))
        enough
