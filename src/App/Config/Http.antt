-- ===== src/App/Config/Http.antt =====
-- `HttpConfig` of umay/src/app/config.rs. No HTTP server is built from it yet.
use umay.Base.{ℕ, List, String, Option}
use umay.App.Config.Listen.{ListenConfig}
use umay.App.Config.Tls.{TlsConfig}
use umay.App.Config.Stream.{Upstream}

pub record LocationConfig : Type 0 where
  pub path : String

pub record HttpServer : Type 0 where
  pub name : String
  pub listen : ListenConfig
  pub tls : Option TlsConfig
  pub proxy_pass : String
  pub location : LocationConfig
  pub proxy_http_version : String
  pub proxy_set_header : String
  pub keepalive_timeout : ℕ

unfoldable pub set_name : HttpServer → String → HttpServer
set_name s name = record s { name = name }

unfoldable pub set_listen : HttpServer → ListenConfig → HttpServer
set_listen s listen = record s { listen = listen }

unfoldable pub set_tls : HttpServer → Option TlsConfig → HttpServer
set_tls s tls = record s { tls = tls }

unfoldable pub set_proxy_pass : HttpServer → String → HttpServer
set_proxy_pass s proxy_pass = record s { proxy_pass = proxy_pass }

unfoldable pub set_location : HttpServer → LocationConfig → HttpServer
set_location s location = record s { location = location }

unfoldable pub set_proxy_http_version : HttpServer → String → HttpServer
set_proxy_http_version s version = record s { proxy_http_version = version }

unfoldable pub set_proxy_set_header : HttpServer → String → HttpServer
set_proxy_set_header s header = record s { proxy_set_header = header }

unfoldable pub set_keepalive_timeout : HttpServer → ℕ → HttpServer
set_keepalive_timeout s timeout = record s { keepalive_timeout = timeout }

pub record HttpConfig : Type 0 where
  pub upstreams : List (String × Upstream)
  pub servers : List HttpServer
