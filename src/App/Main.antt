-- ===== src/App/Main.antt =====
-- `main` of umay/src/main.rs, with `build_runtime`: the configuration is loaded, the runtime of the
-- crate `tokio` built, and the server run on it. The logger is set up first and has no effect on the
-- rest.
pub mod Laws
use umay.Base.{ℕ, List, String, Option, none, some, Outcome, ok, err, panic}
use umay.App.Crates.{Crates}
use umay.App.Config.Umay.{UmayConfig, ConfigCrate, load}
use umay.App.Run.{Run, idle, run_server}

-- `Builder::build` by the number of worker threads and of blocking threads. The builder panics at 0
-- worker threads.
abbrev pub Builder : Type 0
Builder = (worker_threads max_blocking_threads : ℕ) → Outcome (Unit {0})

unfoldable pub build_runtime : Builder → ℕ → Outcome (Unit {0})
build_runtime build worker_threads = build worker_threads worker_threads

-- The crates `tracing` and `tracing_subscriber`: the level `DEBUG` as it is written out, the filter that
-- the environment names, where it names one, and that of a level.
pub record Tracing : Type 1 where
  pub EnvFilter : Type 0
  pub debug : String
  pub try_from_default_env : Option EnvFilter
  pub new : String → EnvFilter

-- `unwrap_or_else`
abbrev pub or_new : (tracing : Tracing) → String → Option tracing.EnvFilter → tracing.EnvFilter
or_new tracing default_level none = tracing.new default_level
or_new tracing default_level (some filter) = filter

-- The filter of the logger. What else is set is how its lines look.
unfoldable pub init_logger : (tracing : Tracing) → String → tracing.EnvFilter
init_logger tracing default_level = or_new tracing default_level tracing.try_from_default_env

-- What the process does: the filter that it logs by, and the rest.
pub record Process (tracing : Tracing) (crates : Crates) : Type 0 where
  pub filter : tracing.EnvFilter
  pub run : Run crates

module _ (crates : Crates) (crate : ConfigCrate) (build : Builder) where
  abbrev pub on_runtime : UmayConfig → List (Unit {0}) → Outcome (Unit {0}) → Run crates
  on_runtime config changes (ok runtime) = run_server crates config changes
  on_runtime config changes (err e) = idle crates (err e)
  on_runtime config changes panic = idle crates panic

  abbrev pub on_config : List (Unit {0}) → Outcome UmayConfig → Run crates
  on_config changes (ok config) =
      on_runtime config changes (build_runtime build config.worker_threads)
  on_config changes (err e) = idle crates (err e)
  on_config changes panic = idle crates panic

  -- `var` reads the environment, `changes` is what the shutdown channel has sent.
  unfoldable pub main :
      (tracing : Tracing) → (String → Option String) → List (Unit {0}) → Process tracing crates
  unfolding init_logger load build_runtime run_server
  main tracing var changes = record {
    filter = init_logger tracing tracing.debug;
    run = on_config changes (load crate var);
  }
