-- ===== src/App/Signal.antt =====
-- umay/src/app/signal.rs: the task that waits for a signal, and the watch channel whose receivers it
-- wakes. The crate `tokio` delivers the signals.
use umay.Base.{Bool, true, false, Outcome, ok, err, panic}

pub data Signal : Type 0 where
  sigterm sigint sigquit : Signal

-- Why the task is over: it received a signal, or a handler could not be installed.
pub data Cause : Type 0 where
  received : Signal → Cause
  panicked : Cause

pub data Watcher : Type 0 where
  installing : Watcher
  waiting : Watcher
  finished : Cause → Watcher

-- What the task is told: how the three installations end, and a signal.
pub data Event : Type 0 where
  installs : Outcome (Unit {0}) → Event
  delivers : Signal → Event

-- `unwrap` on an error panics, which drops the sender. No signal is seen before the handlers are
-- installed.
unfoldable pub watch : Event → Watcher → Watcher
watch (installs (ok u)) installing = waiting
watch (installs (err e)) installing = finished panicked
watch (installs panic) installing = finished panicked
watch (installs r) waiting = waiting
watch (installs r) (finished c) = finished c
watch (delivers k) installing = installing
watch (delivers k) waiting = finished (received k)
watch (delivers k) (finished c) = finished c

-- `changed()` is ready once a value was sent or the sender is gone.
unfoldable pub changed : Watcher → Bool
changed installing = false
changed waiting = false
changed (finished c) = true
