-- ===== src/App/System/Safety.antt =====
-- What must have happened where a service or the server has returned.
use umay.Base.{
  ℕ, ◌≡◌, ◌≢◌, ◌⊎◌, inl, inr, refl, List, [], ◌∷◌, ◌++◌, Bool, true, false, Option, none, some,
  Outcome, ok, err, panic, ◌==◌, if◌then◌else◌, arith,
}
use umay.Tls.Server.{pending, ready}
use umay.App.Service.{
  Sockets, connection, shutdown_changed, Served, after_prepare, called_for, prepare, accept_loop,
  run_service,
}
use umay.App.Service
use umay.App.Signal.{Watcher, installing, waiting, finished, Cause, watch, changed}
use umay.App.Signal
use umay.App.System.{
  update, Task, System, result, seen, Step, watches, binds, accepts, stops, ends, init, Reach, here,
  later,
}

-- A change of the channel stays.
pub watch-changed : (e : Signal.Event) (w : Watcher) → changed w ≡ true → changed (watch e w) ≡ true
unfolding watch changed
watch-changed e w h = ground arith

pub changed_cause : (w : Watcher) → changed w ≡ true → (c : Cause) × (w ≡ finished c)
unfolding changed
changed_cause installing h = cc
changed_cause waiting h = cc
changed_cause (finished c) h = (c, refl)

module _ (sockets : Sockets) where
  open sockets use {TcpStream}

  -- One more event ends a loop in `Ok(())` only if it is the shutdown.
  after_prepare-ok :
      (r : Outcome TcpStream) (x y : Served TcpStream)
      → (y.result ≡ ready (ok tt) → x.result ≡ ready (ok tt))
      → (after_prepare sockets y r).result ≡ ready (ok tt)
      → (after_prepare sockets x r).result ≡ ready (ok tt)
  after_prepare-ok (ok tcp) x y f h = f h
  after_prepare-ok (err e) x y f h = f h
  after_prepare-ok panic x y f h = cc

  single_ne_ok :
      (answer : Option (Outcome TcpStream))
      → (accept_loop sockets (connection answer ∷ [])).result ≢ ready (ok tt)
  unfolding accept_loop
  single_ne_ok none = λ h. cc
  single_ne_ok (some res) = by_socket (prepare sockets res)
    where
      by_socket :
          (r : Outcome TcpStream)
          → (after_prepare sockets (record { called = []; result = pending }) r).result
            ≢ ready (ok tt)
      by_socket (ok tcp) = λ h. cc
      by_socket (err e) = λ h. cc
      by_socket panic = λ h. cc

  accept_loop-connection :
      (es : List (Service.Event TcpStream)) (answer : Option (Outcome TcpStream))
      → (accept_loop sockets (es ++ connection answer ∷ [])).result ≡ ready (ok tt)
      → (accept_loop sockets es).result ≡ ready (ok tt)
  unfolding accept_loop
  accept_loop-connection [] answer h = absurd (single_ne_ok answer h)
  accept_loop-connection (connection (some res) ∷ es) answer h =
      after_prepare-ok (prepare sockets res) _ _ (accept_loop-connection es answer) h
  accept_loop-connection (connection none ∷ es) answer h = accept_loop-connection es answer h
  accept_loop-connection (shutdown_changed ∷ es) answer h = refl

  result_connection :
      (t : Task TcpStream) (answer : Option (Outcome TcpStream))
      → t.bound ≡ some (ok tt)
      → result sockets (seen sockets t (connection answer)) ≡ ready (ok tt)
      → result sockets t ≡ ready (ok tt)
  unfolding run_service
  result_connection t answer b h = rw b (accept_loop-connection t.events answer (rw b at h))

  run_service-start : (r : Outcome (Unit {0})) → (run_service sockets r []).result ≢ ready (ok tt)
  unfolding run_service accept_loop
  run_service-start (ok u) = λ h. cc
  run_service-start (err e) = λ h. cc
  run_service-start panic = λ h. cc

update-all :
    {A : Type 0} (P : A → Type 0) (f : ℕ → A) (i : ℕ) (a : A)
    → P a
    → ((j : ℕ) → P (f j))
    → (j : ℕ) → P (update f i a j)
update-all P f i a h k j = by_test (j == i)
  where
    by_test : (b : Bool) → P (if b then a else f j)
    by_test true = h
    by_test false = k j

module _ (sockets : Sockets) where
  open sockets use {TcpStream}

  -- A task that has returned `Ok(())` has seen a change of the channel, and one whose port is not
  -- bound has accepted nothing.
  pub record IsDue (w : Watcher) (t : Task TcpStream) : Type 0 where
    pub due : result sockets t ≡ ready (ok tt) → changed w ≡ true
    pub idle : t.bound ≡ none → t.events ≡ []

  pub record IsOrderly (s : System TcpStream) : Type 0 where
    pub tasks : (i : ℕ) → IsDue s.watcher (s.tasks i)
    pub ended : s.ended ≡ true → changed s.watcher ≡ true

  bind-IsDue :
      (w : Watcher) (t : Task TcpStream) (r : Outcome (Unit {0}))
      → IsDue w t
      → t.bound ≡ none
      → IsDue w (record t { bound = some r })
  bind-IsDue w t r h e = record {
    due = λ k. absurd (run_service-start sockets r (rw (h.idle e) at k));
    idle = λ k. cc;
  }

  accept-IsDue :
      (w : Watcher) (t : Task TcpStream) (answer : Option (Outcome TcpStream))
      → IsDue w t
      → t.bound ≡ some (ok tt)
      → IsDue w (seen sockets t (connection answer))
  accept-IsDue w t answer h e = record {
    due = λ k. h.due (result_connection sockets t answer e k);
    idle = λ k. cc;
  }

  stop-IsDue :
      (w : Watcher) (t : Task TcpStream)
      → changed w ≡ true
      → t.bound ≡ some (ok tt)
      → IsDue w (seen sockets t shutdown_changed)
  stop-IsDue w t c e = record { due = λ k. c; idle = λ k. cc }

  Step-IsOrderly : {n : ℕ} {s t : System TcpStream} → Step sockets n s t → IsOrderly s → IsOrderly t
  Step-IsOrderly {s} (watches e) h = record {
    tasks = λ i. record {
      due = λ k. watch-changed e s.watcher ((h.tasks i).due k);
      idle = (h.tasks i).idle;
    };
    ended = λ k. watch-changed e s.watcher (h.ended k);
  }
  Step-IsOrderly {s} (binds i r lt e) h = record {
    tasks =
        update-all (IsDue s.watcher) s.tasks i _ (bind-IsDue s.watcher (s.tasks i) r (h.tasks i) e)
          h.tasks;
    ended = h.ended;
  }
  Step-IsOrderly {s} (accepts i answer lt e p) h = record {
    tasks =
        update-all (IsDue s.watcher) s.tasks i _
          (accept-IsDue s.watcher (s.tasks i) answer (h.tasks i) e) h.tasks;
    ended = h.ended;
  }
  Step-IsOrderly {s} (stops i lt e p c) h = record {
    tasks = update-all (IsDue s.watcher) s.tasks i _ (stop-IsDue s.watcher (s.tasks i) c e) h.tasks;
    ended = h.ended;
  }
  Step-IsOrderly {s} (ends c) h = record { tasks = h.tasks; ended = λ k. c }

  init-IsOrderly : IsOrderly (init sockets)
  unfolding changed
  init-IsOrderly = record {
    tasks = λ i. record { due = λ k. cc; idle = λ k. refl };
    ended = λ k. cc;
  }

  pub Reach-IsOrderly :
      {n : ℕ} {s : System TcpStream} → Reach sockets n (init sockets) s → IsOrderly s
  Reach-IsOrderly here = init-IsOrderly
  Reach-IsOrderly (later r st) = Step-IsOrderly st (Reach-IsOrderly r)

  -- In every interleaving: where `run` has seen the shutdown, or a service has returned `Ok(())`, the
  -- signal task is over, because it received a signal or could not install a handler.
  pub Reach-cause :
      {n : ℕ} {s : System TcpStream}
      → Reach sockets n (init sockets) s
      → (i : ℕ) → (s.ended ≡ true) ⊎ (result sockets (s.tasks i) ≡ ready (ok tt))
      → (c : Cause) × (s.watcher ≡ finished c)
  Reach-cause {s} r i (inl e) = changed_cause s.watcher ((Reach-IsOrderly r).ended e)
  Reach-cause {s} r i (inr e) = changed_cause s.watcher (((Reach-IsOrderly r).tasks i).due e)
