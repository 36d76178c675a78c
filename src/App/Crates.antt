-- ===== src/App/Crates.antt =====
-- What the server is built with and the repository does not hold: the crates `rustls`,
-- `tokio_rustls` and `hickory_resolver`, the parsers of the standard library and the file system.
use umay.Base.{String, Option, Outcome}
use umay.Net.{IpAddr, SocketAddr}
use umay.App.Config.Dns.{Hickory}
use umay.App.Config.Tls.{Bytes}
use umay.Balance.Discovery.Dns.{Resolvers}
use umay.Tls.Credentials.{Rustls}

pub record Crates : Type 1 where
  pub rustls : Rustls
  pub Acceptor : Type 0
  -- `TlsAcceptor::from`
  pub acceptor_from : rustls.ServerConfig → Acceptor
  pub hickory : Hickory
  pub resolvers : Resolvers hickory
  -- `str::parse::<SocketAddr>` and `str::parse::<IpAddr>`
  pub parse_addr : String → Option SocketAddr
  pub parse_ip : String → Option IpAddr
  -- Opens a file and reads it to its end.
  pub read : String → Outcome Bytes
