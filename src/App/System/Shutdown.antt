-- ===== src/App/System/Shutdown.antt =====
-- The running program of umay/src/app/server.rs once the signal task is over.
use mathlib.Core.Path.{subst}
use umay.Base.{
  ℕ, zero, suc, ◌<◌, ◌≤◌, ◌≡◌, ◌≢◌, ◌⊎◌, inl, inr, refl, ap, sym, ◌∙◌, List, [], ◌∷◌, ◌++◌, true,
  Option, none, some, Outcome, ok, err, panic, arith,
}
use umay.Tls.Server.{Poll, pending, ready}
use umay.App.Service.{
  Sockets, connection, shutdown_changed, Served, after_prepare, prepare, accept_loop, run_service,
}
use umay.App.Service
use umay.App.Signal.{finished, Cause, changed}
use umay.App.System.{
  update, Task, System, result, seen, set_task, binds, stops, ends, Reach, here, later,
}

update_self : {A : Type 0} (f : ℕ → A) (i : ℕ) (a : A) → update f i a i ≡ a
update_self f i a = ground arith

update_other : {A : Type 0} (f : ℕ → A) (i : ℕ) (a : A) (j : ℕ) → j ≢ i → update f i a j ≡ f j
update_other f i a j h = ground arith

eq_or_lt : (i k : ℕ) → i < suc k → (i ≡ k) ⊎ ((i < k) × (i ≢ k))
eq_or_lt i k h = ground arith

module _ (sockets : Sockets) where
  open sockets use {TcpStream}

  after_prepare-ready :
      (rest : Served TcpStream) (r : Outcome TcpStream)
      → rest.result ≢ pending
      → (after_prepare sockets rest r).result ≢ pending
  after_prepare-ready rest (ok tcp) h = h
  after_prepare-ready rest (err e) h = h
  after_prepare-ready rest panic h = λ k. cc

  accept_loop-shutdown :
      (es : List (Service.Event TcpStream))
      → (accept_loop sockets (es ++ shutdown_changed ∷ [])).result ≢ pending
  unfolding accept_loop
  accept_loop-shutdown [] = λ k. cc
  accept_loop-shutdown (connection (some res) ∷ es) =
      after_prepare-ready _ (prepare sockets res) (accept_loop-shutdown es)
  accept_loop-shutdown (connection none ∷ es) = accept_loop-shutdown es
  accept_loop-shutdown (shutdown_changed ∷ es) = λ k. cc

  result_shutdown :
      (t : Task TcpStream)
      → t.bound ≡ some (ok tt)
      → result sockets (seen sockets t shutdown_changed) ≢ pending
  unfolding run_service
  result_shutdown t e = rw e (accept_loop-shutdown t.events)

  module _ (n : ℕ) where
    Reach-append :
        {s t u : System TcpStream} → Reach sockets n s t → Reach sockets n t u → Reach sockets n s u
    Reach-append r here = r
    Reach-append r (later q st) = later (Reach-append r q) st

    -- A state that `s` leads to, in which service `i` has returned and the others stand as in `s`.
    pub record Returned (s : System TcpStream) (i : ℕ) : Type 0 where
      pub state : System TcpStream
      pub reach : Reach sockets n s state
      pub watcher : state.watcher ≡ s.watcher
      pub returned : result sockets (state.tasks i) ≢ pending
      pub others : (j : ℕ) → j ≢ i → state.tasks j ≡ s.tasks j

    -- One that is bound and runs is stopped.
    return_bound :
        (s : System TcpStream) (i : ℕ)
        → i < n
        → changed s.watcher ≡ true
        → (s.tasks i).bound ≡ some (ok tt)
        → result sockets (s.tasks i) ≡ pending
        → Returned s i
    return_bound s i lt c e p = record {
      state = set_task sockets s i (seen sockets (s.tasks i) shutdown_changed);
      reach = later here (stops i lt e p c);
      watcher = refl;
      returned =
          subst (λ t. result sockets t ≢ pending) (sym (update_self s.tasks i _))
            (result_shutdown (s.tasks i) e);
      others = update_other s.tasks i _;
    }

    already : (s : System TcpStream) (i : ℕ) → result sockets (s.tasks i) ≢ pending → Returned s i
    already s i h = record {
      state = s;
      reach = here;
      watcher = refl;
      returned = h;
      others = λ j k. refl;
    }

    bound_ok :
        (s : System TcpStream) (i : ℕ)
        → i < n
        → changed s.watcher ≡ true
        → (s.tasks i).bound ≡ some (ok tt)
        → Returned s i
    bound_ok s i lt c e = by_result (result sockets (s.tasks i)) refl
      where
        by_result : (p : Poll (Outcome (Unit {0}))) → result sockets (s.tasks i) ≡ p → Returned s i
        by_result pending q = return_bound s i lt c e q
        by_result (ready r) q = already s i (λ k. cc)

    -- One whose port is not bound yet is bound first.
    bind_first :
        (s : System TcpStream) (i : ℕ)
        → i < n
        → changed s.watcher ≡ true
        → (s.tasks i).bound ≡ none
        → Returned s i
    bind_first s i lt c e = record {
      state = after.state;
      reach = Reach-append (later here (binds i (ok tt) lt e)) after.reach;
      watcher = after.watcher;
      returned = after.returned;
      others = λ j k. after.others j k ∙ update_other s.tasks i bound j k;
    }
      where
        bound : Task TcpStream
        bound = record (s.tasks i) { bound = some (ok tt) }

        after : Returned (set_task sockets s i bound) i
        after =
            bound_ok (set_task sockets s i bound) i lt c
              (ap (λ (t : Task TcpStream). t.bound) (update_self s.tasks i bound))

    return_task : (s : System TcpStream) (i : ℕ) → i < n → changed s.watcher ≡ true → Returned s i
    unfolding run_service
    return_task s i lt c = by_bound (s.tasks i).bound refl
      where
        by_bound : (b : Option (Outcome (Unit {0}))) → (s.tasks i).bound ≡ b → Returned s i
        by_bound none e = bind_first s i lt c e
        by_bound (some (ok u)) e = bound_ok s i lt c e
        by_bound (some (err x)) e = already s i (λ k. cc (rw e at k))
        by_bound (some panic) e = already s i (λ k. cc (rw e at k))

    pub record AllReturned (s : System TcpStream) (k : ℕ) : Type 0 where
      pub state : System TcpStream
      pub reach : Reach sockets n s state
      pub watcher : state.watcher ≡ s.watcher
      pub returned : (i : ℕ) → i < k → result sockets (state.tasks i) ≢ pending

    all_suc :
        (s : System TcpStream) (k : ℕ) (before : AllReturned s k)
        → Returned before.state k
        → AllReturned s (suc k)
    all_suc s k before last = record {
      state = last.state;
      reach = Reach-append before.reach last.reach;
      watcher = last.watcher ∙ before.watcher;
      returned = λ i h. elim (eq_or_lt i k h) [
        | inl e ↦ rw e last.returned
        | inr (less, other) ↦
            subst (λ t. result sockets t ≢ pending) (sym (last.others i other))
              (before.returned i less)
      ];
    }

    return_all : (s : System TcpStream) (k : ℕ) → k ≤ n → changed s.watcher ≡ true → AllReturned s k
    return_all s zero le c = record {
      state = s;
      reach = here;
      watcher = refl;
      returned = λ i h. absurd (omega arith);
    }
    return_all s (suc k) le c =
        let before = return_all s k (omega arith) c in
        all_suc s k before
          (return_task before.state k (omega arith) (ap changed before.watcher ∙ c))

  -- Shutting down never gets stuck: from any state in which the signal task is over, reachable or not,
  -- the services and `run` can go on to a state where `run` has seen the shutdown and every service
  -- has returned.
  pub finished-returns :
      (n : ℕ) (s : System TcpStream) (c : Cause)
      → s.watcher ≡ finished c
      → (t : System TcpStream) × Reach sockets n s t
        × (t.ended ≡ true)
        × ((i : ℕ) → i < n → result sockets (t.tasks i) ≢ pending)
  unfolding changed
  finished-returns n s c e =
      let a = return_all n s n (omega arith) (rw e) in
      (record a.state { ended = true }, later a.reach (ends (rw (a.watcher, e))), refl, a.returned)
