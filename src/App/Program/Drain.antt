-- ===== src/App/Program/Drain.antt =====
-- The connections of umay/src/app/server.rs across a shutdown.
use umay.Base.{
  ℕ, ◌+◌, ◌≡◌, refl, ap, ◌∙◌, List, [], ◌∷◌, ◌++◌, Bool, true, false, none, some, ok, err, panic,
  get_elem?, ◌==◌, if◌then◌else◌, arith,
}
use umay.App.Config.Umay.{UmayConfig}
use umay.App.Program.{
  Loop, unbound, listening, over, Service, Program, Answer, Event, watches, binds, yields, stops,
  ticks, moves, polls, passes, alive, occurs, step, run,
}
use umay.App.Program.After.{after, step-after}
use umay.App.Program.Trace.{own, heard, taken, own_of, trace}
use umay.Proxy.Stream.Connection.{Display}
use umay.Proxy.Stream.Interleaved.{refreshes, arrives, advances, waits, turn, turns_of}
use umay.Proxy.Stream.Interleaved
use umay.Tls.{Session}

module _ {session : Session} (R : Type 0) where
  turns_of-taken : (n : ℕ) (answer : Answer session) → turns_of n (taken {R = R} answer) ≡ 0
  turns_of-taken n none = refl
  turns_of-taken n (some (ok (net, io))) = refl
  turns_of-taken n (some (err e)) = refl
  turns_of-taken n (some panic) = refl

  turns_of-heard :
      (n : ℕ) (l : Loop) (answer : Answer session) → turns_of n (heard {R = R} l answer) ≡ 0
  turns_of-heard n unbound answer = refl
  turns_of-heard n listening answer = turns_of-taken n answer
  turns_of-heard n (over r) answer = refl

module _ {session : Session} {R : Type 0} where
  -- How many turns connection `n` of service `i` has.
  abbrev pub given : (i n : ℕ) → Event session R → ℕ
  given i n (watches e) = 0
  given i n (binds j r) = 0
  given i n (yields j answer) = 0
  given i n (stops j) = 0
  given i n (ticks j w) = 0
  given i n (moves j k) = if j == i then turn n k else 0
  given i n polls = 0
  given i n passes = 0

  abbrev pub turns : (i n : ℕ) → List (Event session R) → ℕ
  turns i n [] = 0
  turns i n (e ∷ es) = given i n e + turns i n es

  turns_of-append :
      (n : ℕ) (xs ys : List (Interleaved.Event session R))
      → turns_of n (xs ++ ys) ≡ turns_of n xs + turns_of n ys
  turns_of-append n [] ys = omega arith
  turns_of-append n (refreshes w ∷ xs) ys = turns_of-append n xs ys
  turns_of-append n (arrives net io ∷ xs) ys = turns_of-append n xs ys
  turns_of-append n (waits k ∷ xs) ys = turns_of-append n xs ys
  turns_of-append n (advances k ∷ xs) ys = omega (arith, turns_of-append n xs ys)

  unheard :
      (n : ℕ) (b : Bool) (xs : List (Interleaved.Event session R))
      → turns_of n xs ≡ 0
      → turns_of n (if b then xs else []) ≡ 0
  unheard n true xs h = h
  unheard n false xs h = refl

  turns_of-if :
      (n : ℕ) (b : Bool) (xs : List (Interleaved.Event session R)) (k : ℕ)
      → turns_of n xs ≡ k
      → turns_of n (if b then xs else []) ≡ (if b then k else 0)
  turns_of-if n true xs k h = h
  turns_of-if n false xs k h = refl

  turns_of-own : (i n : ℕ) (e : Event session R) (l : Loop) → turns_of n (own i e l) ≡ given i n e
  turns_of-own i n (watches e) l = refl
  turns_of-own i n (binds j r) l = refl
  turns_of-own i n (yields j answer) l =
      unheard n (j == i) (heard l answer) (turns_of-heard R n l answer)
  turns_of-own i n (stops j) l = refl
  turns_of-own i n (ticks j w) l = unheard n (j == i) (refreshes w ∷ []) refl
  turns_of-own i n (moves j k) l = turns_of-if n (j == i) (advances k ∷ []) (turn n k) (omega arith)
  turns_of-own i n polls l = refl
  turns_of-own i n passes l = refl

  module _ (display : Display) (config : UmayConfig) where
    step_alive :
        (e : Event session R) (s : Program session R)
        → alive (step display config e s).stage ≡ true
        → alive s.stage ≡ true
    unfolding step
    step_alive e s h = by_stage (alive s.stage) refl h
      where
        by_stage :
            (b : Bool)
            → alive s.stage ≡ b
            → alive (if b then occurs display config e s else s).stage ≡ true
            → alive s.stage ≡ true
        by_stage true e k = e
        by_stage false e k = k

    pub run_alive :
        (es : List (Event session R)) (s : Program session R)
        → alive (run display config es s).stage ≡ true
        → alive s.stage ≡ true
    unfolding run
    run_alive [] s h = h
    run_alive (e ∷ es) s h = step_alive e s (run_alive es (step display config e s) h)

    pub sees-own :
        (e : Event session R) (s : Program session R) (i : ℕ) (v : Service session R)
        → get_elem? s.services i ≡ some v
        → alive s.stage ≡ true
        → (if alive s.stage then own_of i e (get_elem? s.services i) else []) ≡ own i e v.loop
    sees-own e s i v place up = rw (up, place) refl

    pub turns-trace :
        (es : List (Event session R)) (s : Program session R) (i n : ℕ) (v : Service session R)
        → get_elem? s.services i ≡ some v
        → alive (run display config es s).stage ≡ true
        → turns_of n (trace display config i es s) ≡ turns i n es
    unfolding run trace
    turns-trace [] s i n v place h = refl
    turns-trace (e ∷ es) s i n v place h =
        let next = step display config e s in
        let up = run_alive (e ∷ es) s h in
        let u = after display s.watcher i e v in
        let placed =
          step-after display config e s i v place ∙ ap (λ b. some (if b then u else v)) up in
        ap (λ xs. turns_of n (xs ++ trace display config i es next)) (sees-own e s i v place up)
        ∙ turns_of-append n (own i e v.loop) (trace display config i es next)
        ∙ omega (arith, turns_of-own i n e v.loop, turns-trace es next i n u placed h)
