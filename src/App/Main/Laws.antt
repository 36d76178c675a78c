-- ===== src/App/Main/Laws.antt =====
-- When `main` of umay/src/main.rs ends in an error.
use umay.Base.{◌≡◌, ◌⊎◌, ◌↔◌, inl, inr, refl, List, String, Option, Outcome, ok, err, panic, Error}
use umay.Tls.Server.{ready}
use umay.App.Crates.{Crates}
use umay.App.Config.Umay.{UmayConfig, ConfigCrate, load}
use umay.App.Run.Laws.{run_server-ne-err}
use umay.App.Main.{Tracing, Builder, build_runtime, on_runtime, on_config, main}

module _ (crates : Crates) (crate : ConfigCrate) (build : Builder) (changes : List (Unit {0}))
    (e : Error) where
  runtime-err :
      (config : UmayConfig) (r : Outcome (Unit {0}))
      → (on_runtime crates crate build config changes r).result ≡ ready (err e)
      → r ≡ err e
  runtime-err config (ok u) h = absurd (run_server-ne-err crates config changes e h)
  runtime-err config (err x) h = cc
  runtime-err config panic h = cc

  config-err :
      (r : Outcome UmayConfig)
      → (on_config crates crate build changes r).result ≡ ready (err e)
      → (r ≡ err e)
        ⊎ ((config : UmayConfig) × (r ≡ ok config)
            × (build_runtime build config.worker_threads ≡ err e))
  config-err (ok config) h =
      inr (config, refl, runtime-err config (build_runtime build config.worker_threads) h)
  config-err (err x) h = inl (cc)
  config-err panic h = cc

  -- The program ends in an error just when its configuration does not load, or loads and the runtime
  -- cannot be built, and that error is the program's; nothing that happens to the server itself
  -- ends it in an error.
  pub main-err_iff :
      (tracing : Tracing) (var : String → Option String)
      → ((main crates crate build tracing var changes).run.result ≡ ready (err e)) ↔ (
          (load crate var ≡ err e)
          ⊎ ((config : UmayConfig) × (load crate var ≡ ok config)
              × (build_runtime build config.worker_threads ≡ err e)))
  unfolding main
  main-err_iff tracing var = (config-err (load crate var), back)
    where
      back :
          ((load crate var ≡ err e)
            ⊎ ((config : UmayConfig) × (load crate var ≡ ok config)
                × (build_runtime build config.worker_threads ≡ err e)))
          → (main crates crate build tracing var changes).run.result ≡ ready (err e)
      back (inl f) = rw (f, main)
      back (inr (config, f, g)) = rw (f, main, g)
