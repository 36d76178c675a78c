-- ===== src/Proxy/Stream.antt =====
-- `StreamProxy` of umay/src/proxy/stream.rs. Its clones share what its `Arc`s point to.
pub mod Tcp
pub mod WebSocket
pub mod Connection
pub mod Lifetime
pub mod Interleaved
use umay.Base.{ℕ}
use umay.App.Config.Stream.{StreamServer}
use umay.Balance.LoadBalancer.{LoadBalancer}
use umay.Balance.Selection.Selector.{Selector}
use umay.Balance.Discovery.Service.{Discovery}
use umay.Tls.Server.{Server}

-- The types are those of server names, acceptors and resolvers.
pub record StreamProxy (Name Acceptor R : Type 0) : Type 0 where
  pub stream_config : StreamServer
  pub tls_server : Server Name Acceptor
  pub load_balancer : LoadBalancer Selector (Discovery R)

module _ {Name Acceptor R : Type 0} where
  unfoldable pub new :
      StreamServer
      → Server Name Acceptor
      → LoadBalancer Selector (Discovery R)
      → StreamProxy Name Acceptor R
  new config tls_server lb = record {
    stream_config = config;
    tls_server = tls_server;
    load_balancer = lb;
  }

  unfoldable pub port : StreamProxy Name Acceptor R → ℕ
  port p = p.stream_config.listen.port
