-- ===== src/Tls.antt =====
-- umay/src/tls/mod.rs: what is known of a connection once its TLS handshake is done. The crates
-- `rustls` and `tokio_rustls` are parameters.
pub mod Server
pub mod Credentials
pub mod Pki
mod Examples
use umay.Base.{ℕ, List, [], ◌∷◌, String, Option, none, some}
use umay.App.Config.Tls.{Bytes}

-- A TLS stream, and what its session tells: the certificates of the peer, the name that the client
-- asked for and the protocol that was negotiated. `parse_name` is `ServerName::try_from`.
pub record Session : Type 1 where
  pub TlsStream : Type 0
  pub ServerName : Type 0
  pub parse_name : String → Option ServerName
  pub peer_certificates : TlsStream → Option (List Bytes)
  pub server_name : TlsStream → Option String
  pub alpn_protocol : TlsStream → Option Bytes

pub record ClientId : Type 0 where
  pub der : Bytes

pub record NegotiatedProtocol : Type 0 where
  pub protocol : Bytes

pub data ServerTls (Name : Type 0) : Type 0 where
  established : Option ClientId → Option NegotiatedProtocol → ServerTls Name
  passthru : Name → ServerTls Name

-- `certs.first()`
abbrev pub first_id : List Bytes → Option ClientId
first_id [] = none
first_id (cert ∷ certs) = some (record { der = cert })

module _ (session : Session) where
  open session use {TlsStream, peer_certificates}

  unfoldable pub client_identity : TlsStream → Option ClientId
  client_identity stream = elim (peer_certificates stream) [
    | none ↦ none
    | some certs ↦ first_id certs
  ]
