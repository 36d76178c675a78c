-- ===== src/App/Config/Umay/Laws.antt =====
-- How umay/src/app/config.rs loads a configuration and looks its upstreams up.
use mathlib.Core.Path.{subst}
use umay.Base.{
  ◌≡◌, ◌⊎◌, refl, List, [], ◌∷◌, ◌++◌, String, Option, none, some, ok, >>=-eq-ok, arith, false,
}
use umay.Base.Dict.{get}
use Prim.Native.String
use umay.App.Config.Stream.{Upstream, StreamConfig}
use umay.App.Config.Http.{HttpConfig}
use umay.App.Config.Umay.{
  UmayConfig, ConfigCrate, is_none, validate, get_upstream, http_upstream, get_config, get_env_var,
  load,
}

abbrev pub stream_upstreams : Option StreamConfig → List (String × Upstream)
stream_upstreams none = []
stream_upstreams (some stream) = stream.upstreams

abbrev pub http_upstreams : Option HttpConfig → List (String × Upstream)
http_upstreams none = []
http_upstreams (some http) = http.upstreams

get-append :
    (xs ys : List (String × Upstream)) (name : String)
    → get (xs ++ ys) name ≡ elim (get xs name) [ none ↦ get ys name | some u ↦ some u ]
unfolding get
get-append [] ys name = refl
get-append (x ∷ xs) ys name = ground (arith, get-append xs ys name)

-- The upstreams of a configuration are one table, in which those of the stream section come before
-- those of the HTTP section.
pub get_upstream-get :
    (c : UmayConfig) (name : String)
    → get_upstream c name ≡ get (stream_upstreams c.stream ++ http_upstreams c.http) name
unfolding get_upstream http_upstream get
get_upstream-get c name =
    ground (arith, get-append (stream_upstreams c.stream) (http_upstreams c.http) name)

-- Some section is there.
abbrev pub HasSection : UmayConfig → Type 0
HasSection c = (is_none c.stream ≡ false) ⊎ (is_none c.http ≡ false)

validate-HasSection : (c : UmayConfig) → validate c ≡ ok tt → HasSection c
unfolding validate
validate-HasSection c h = ground arith

HasSection-validate : (c : UmayConfig) → HasSection c → validate c ≡ ok tt
unfolding validate
HasSection-validate c h = ground arith

-- The file that is read: under the base path of the environment, or under config/.
abbrev pub config_file : (String → Option String) → String
config_file var = elim (var "CONFIG_BASE_PATH") [
  | none ↦ "config/umay.yaml"
  | some path ↦ String.◌++◌ path "umay.yaml"
]

module _ (crate : ConfigCrate) (var : String → Option String) (c : UmayConfig) where
  abbrev pub Loads : Type 0
  Loads =
      (raw : crate.Config) × (crate.build (config_file var) "UMAY" "_" ≡ ok raw)
      × (crate.try_deserialize raw ≡ ok c)
      × HasSection c

  file_eq :
      get_config crate (get_env_var var "CONFIG_BASE_PATH" "config/")
      ≡ crate.build (config_file var) "UMAY" "_"
  unfolding get_config get_env_var
  file_eq = by_var (var "CONFIG_BASE_PATH")
    where
      by_var :
          (base : Option String)
          → crate.build
              (String.◌++◌ (elim base [ none ↦ "config/" | some path ↦ path ]) "umay.yaml")
              "UMAY"
              "_"
            ≡ crate.build
                (elim base [ none ↦ "config/umay.yaml" | some path ↦ String.◌++◌ path "umay.yaml" ])
                "UMAY"
                "_"
      by_var none = refl
      by_var (some path) = refl

  load-Loads : load crate var ≡ ok c → Loads
  unfolding load
  load-Loads h =
      let (raw, e, h1) =
        >>=-eq-ok (get_config crate (get_env_var var "CONFIG_BASE_PATH" "config/")) _ h in
      let (config, f, h2) = >>=-eq-ok (crate.try_deserialize raw) _ h1 in
      let (_, v, h3) = >>=-eq-ok (validate config) _ h2 in
      (
        raw,
        cc (e, file_eq),
        cc,
        subst HasSection {x = config} {y = c} (cc) (validate-HasSection config v),
      )

  -- A configuration is loaded just when the file under the base path and the variables with the
  -- prefix build, they deserialise to it, and it has a stream or an HTTP section.
  pub load_iff : (load crate var ≡ ok c → Loads) × (Loads → load crate var ≡ ok c)
  unfolding load
  load_iff = (load-Loads, λ (raw, e, f, s). rw (file_eq, e, f, HasSection-validate c s))
