-- ===== src/Tls/Server.antt =====
-- umay/src/tls/server.rs: the future that waits for a handshake and says what it established.
pub mod Laws
use umay.Base.{ℕ, List, [], ◌∷◌, String, Option, none, some, Outcome, ok, err, panic}
use mathlib.Core.Option
use umay.Tls.{Session, ServerTls, established, passthru, NegotiatedProtocol, client_identity}

pub data Poll {ℓ} (A : Type ℓ) : Type ℓ where
  pending : Poll A
  ready : A → Poll A

-- The acceptor is that of the crate `tokio_rustls`.
pub record Server (Name Acceptor : Type 0) : Type 0 where
  pub name : Name
  pub acceptor : Acceptor

module _ {Name Config Acceptor : Type 0} (acceptor_from : Config → Acceptor) where
  unfoldable pub new : Name → Config → Server Name Acceptor
  new name config = record { name = name; acceptor = acceptor_from config }

module _ (session : Session) where
  open session use {TlsStream, ServerName, parse_name, server_name, alpn_protocol}

  abbrev pub Terminated : Type 0
  Terminated = Outcome (ServerTls ServerName × TlsStream)

  -- With a name from the client: `ServerName::try_from(sni).expect(..)`.
  abbrev pub named : TlsStream → Option ServerName → Terminated
  named stream none = panic
  named stream (some sni) = ok (passthru sni, stream)

  unfoldable pub classify : TlsStream → Terminated
  classify stream = elim (server_name stream) [
    | some sni ↦ named stream (parse_name sni)
    | none ↦ ok (
      established (client_identity session stream)
          (Option.map (λ p. record { protocol = p }) (alpn_protocol stream)),
      stream,
    )
  ]

  abbrev pub after_accept : Outcome TlsStream → Terminated
  after_accept (ok stream) = classify stream
  after_accept (err e) = err e
  after_accept panic = panic

  -- `TerminateFuture::poll`, by what the poll of the inner `Accept` future answers.
  unfoldable pub poll : Poll (Outcome TlsStream) → Poll Terminated
  unfolding classify
  poll pending = pending
  poll (ready r) = ready (after_accept r)

  -- `terminate`, which awaits the future: polls until one is ready.
  unfoldable pub terminate : List (Poll (Outcome TlsStream)) → Poll Terminated
  unfolding poll
  terminate [] = pending
  terminate (p ∷ polls) =
      let rest = terminate polls in elim (poll p) [ pending ↦ rest | ready r ↦ ready r ]
