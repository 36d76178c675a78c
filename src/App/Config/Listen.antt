-- ===== src/App/Config/Listen.antt =====
-- `ListenConfig`, `Protocol` and the other enumerations of umay/src/app/config.rs.
use umay.Base.{ℕ}

pub data Protocol : Type 0 where
  tcp udp ws http : Protocol

pub data LoadBalancer : Type 0 where
  round_robin least_conn random ip_hash weighted_round_robin : LoadBalancer

pub data ServiceDiscovery : Type 0 where
  dns local : ServiceDiscovery

pub record ListenConfig : Type 0 where
  pub port : ℕ
  pub protocol : Protocol

unfoldable pub new_listen : ℕ → Protocol → ListenConfig
new_listen port protocol = record { port = port; protocol = protocol }
