-- ===== src/App/Config/Umay.antt =====
-- `UmayConfig` of umay/src/app/config.rs, and how it is loaded. The crate `config` and the
-- environment are parameters.
pub mod Laws
use umay.Base.{
  ◌*◌, ℕ, String, Option, none, some, Outcome, ok, err, missing_config, ◌>>=◌, ◌>>◌, Bool, true,
  false, ◌&&◌, if◌then◌else◌,
}
use umay.Base.Dict.{get}
use Prim.Native.String
use umay.App.Config.Stream.{StreamConfig, Upstream}
use umay.App.Config.Http.{HttpConfig}

pub record UmayConfig : Type 0 where
  pub worker_threads : ℕ
  pub close_timeout : ℕ
  pub exit_timeout : ℕ
  pub shutdown_grace_period : ℕ
  pub stream : Option StreamConfig
  pub http : Option HttpConfig

unfoldable pub new_config :
    (worker_threads close_timeout exit_timeout shutdown_grace_period : ℕ)
    → Option StreamConfig
    → Option HttpConfig
    → UmayConfig
new_config worker_threads close_timeout exit_timeout shutdown_grace_period stream http = record {
  worker_threads = worker_threads;
  close_timeout = close_timeout;
  exit_timeout = exit_timeout;
  shutdown_grace_period = shutdown_grace_period;
  stream = stream;
  http = http;
}

-- `Duration::from_secs`, counted in milliseconds
abbrev pub from_secs : ℕ → ℕ
from_secs secs = secs * 1000

unfoldable pub close_timeout_of : UmayConfig → ℕ
close_timeout_of c = from_secs c.close_timeout

unfoldable pub exit_timeout_of : UmayConfig → ℕ
exit_timeout_of c = from_secs c.exit_timeout

unfoldable pub shutdown_grace_period_of : UmayConfig → ℕ
shutdown_grace_period_of c = from_secs c.shutdown_grace_period

abbrev pub is_none {ℓ} : {A : Type ℓ} → Option A → Bool
is_none none = true
is_none (some a) = false

unfoldable pub validate : UmayConfig → Outcome (Unit {0})
validate c = if is_none c.stream && is_none c.http then err missing_config else ok tt

http_upstream : UmayConfig → String → Option Upstream
http_upstream c name = elim c.http [ none ↦ none | some http ↦ get http.upstreams name ]

-- The stream's upstreams come first.
unfoldable pub get_upstream : UmayConfig → String → Option Upstream
unfolding http_upstream
get_upstream c name = elim c.stream [
  | none ↦ http_upstream c name
  | some stream ↦ elim (get stream.upstreams name) [ some u ↦ some u | none ↦ http_upstream c name ]
]

-- What the crate `config` builds from a file and the environment variables of a prefix.
pub record ConfigCrate : Type 1 where
  pub Config : Type 0
  pub build : (file prefix separator : String) → Outcome Config
  pub try_deserialize : Config → Outcome UmayConfig

unfoldable pub get_env_var : (String → Option String) → String → String → String
get_env_var var name default = elim (var name) [ none ↦ default | some value ↦ value ]

module _ (crate : ConfigCrate) where
  open crate use {Config, build, try_deserialize}

  unfoldable pub get_config : String → Outcome Config
  get_config path = build (String.◌++◌ path "umay.yaml") "UMAY" "_"

  -- `var` reads the environment.
  unfoldable pub load : (String → Option String) → Outcome UmayConfig
  unfolding get_config get_env_var validate
  load var = do
    let path = get_env_var var "CONFIG_BASE_PATH" "config/"
    raw ← get_config path
    config ← try_deserialize raw
    validate config
    ok config
