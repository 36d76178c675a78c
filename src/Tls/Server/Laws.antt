-- ===== src/Tls/Server/Laws.antt =====
-- The end of a handshake in umay/src/tls/server.rs.
use mathlib.Core.Option
use mathlib.Core.Path.{subst}
use umay.Base.{
  ℕ, zero, suc, ◌≡◌, ◌≢◌, ◌⊎◌, ◌↔◌, inl, inr, refl, ap, sym, ◌∙◌, List, [], ◌∷◌, ◌++◌, String,
  Option, none, some, Outcome, ok, err, panic, Error, replicate,
}
use umay.App.Config.Tls.{Bytes}
use umay.Tls.{
  Session, ServerTls, established, passthru, ClientId, NegotiatedProtocol, client_identity,
}
use umay.Tls.Server.{Poll, pending, ready, Terminated, after_accept, named, classify, terminate}

-- The handshake was pending for some polls, and then ended so.
abbrev pub First : {A : Type 0} → List (Poll (Outcome A)) → Outcome A → Type 0
First {A} polls r =
    (n : ℕ) × (rest : List (Poll (Outcome A))) × (polls ≡ replicate n pending ++ ready r ∷ rest)

-- The first of the peer's certificates, where it has sent one.
abbrev pub IsFirst : Option (List Bytes) → Option ClientId → Type 0
IsFirst certs id =
    ((id ≡ none) × ((certs ≡ none) ⊎ (certs ≡ some [])))
    ⊎ ((c : Bytes) × (cs : List Bytes) × (certs ≡ some (c ∷ cs)) × (id ≡ some (record { der = c })))

abbrev pub IsNegotiated : Option Bytes → Option NegotiatedProtocol → Type 0
IsNegotiated alpn protocol =
    ((protocol ≡ none) × (alpn ≡ none))
    ⊎ ((b : Bytes) × (alpn ≡ some b) × (protocol ≡ some (record { protocol = b })))

module _ (session : Session) where
  open session use {
    TlsStream, ServerName, parse_name, server_name, alpn_protocol, peer_certificates,
  }

  -- What is true of a stream that is reported so.
  abbrev pub Reports : ServerTls ServerName → TlsStream → Type 0
  Reports (established id protocol) stream =
      (server_name stream ≡ none)
      × IsFirst (peer_certificates stream) id
      × IsNegotiated (alpn_protocol stream) protocol
  Reports (passthru name) stream =
      (sni : String) × (server_name stream ≡ some sni) × (parse_name sni ≡ some name)

  -- However often the handshake is pending first, the future is ready when the handshake is.
  terminate_first :
      (n : ℕ) (r : Outcome TlsStream) (polls : List (Poll (Outcome TlsStream)))
      → terminate session (replicate n pending ++ ready r ∷ polls) ≡ ready (after_accept session r)
  unfolding terminate
  terminate_first zero r polls = refl
  terminate_first (suc n) r polls = terminate_first n r polls

  terminate-First :
      (polls : List (Poll (Outcome TlsStream))) (x : Terminated session)
      → terminate session polls ≡ ready x
      → (r : Outcome TlsStream) × First polls r × (after_accept session r ≡ x)
  unfolding terminate
  terminate-First [] x h = cc
  terminate-First (pending ∷ polls) x h =
      let (r, (n, rest, e), same) = terminate-First polls x h in
      (r, (suc n, rest, ap (◌∷◌ pending) e), same)
  terminate-First (ready r ∷ polls) x h = (r, (zero, polls, refl), cc)

  -- The identity and the protocol of a stream.
  identity-IsFirst :
      (stream : TlsStream) → IsFirst (peer_certificates stream) (client_identity session stream)
  unfolding client_identity
  identity-IsFirst stream = by_certs (peer_certificates stream) refl
    where
      by_certs :
          (certs : Option (List Bytes))
          → peer_certificates stream ≡ certs
          → IsFirst certs (client_identity session stream)
      by_certs none e = inl (rw (client_identity, e) refl, inl refl)
      by_certs (some []) e = inl (rw (client_identity, e) refl, inr refl)
      by_certs (some (c ∷ cs)) e = inr (c, cs, refl, rw (client_identity, e) refl)

  alpn-IsNegotiated :
      (alpn : Option Bytes) → IsNegotiated alpn (Option.map (λ p. record { protocol = p }) alpn)
  alpn-IsNegotiated none = inl (refl, refl)
  alpn-IsNegotiated (some b) = inr (b, refl, refl)

  IsFirst-unique :
      (certs : Option (List Bytes)) (x y : Option ClientId)
      → IsFirst certs x
      → IsFirst certs y
      → x ≡ y
  IsFirst-unique certs x y (inl (a, h)) (inl (b, k)) = cc
  IsFirst-unique certs x y (inl (a, inl h)) (inr (c, cs, e, k)) = cc
  IsFirst-unique certs x y (inl (a, inr h)) (inr (c, cs, e, k)) = cc
  IsFirst-unique certs x y (inr (c, cs, e, k)) (inl (a, inl h)) = cc
  IsFirst-unique certs x y (inr (c, cs, e, k)) (inl (a, inr h)) = cc
  IsFirst-unique certs x y (inr (c, cs, e, k)) (inr (c', cs', e', k')) = cc

  IsNegotiated-unique :
      (alpn : Option Bytes) (x y : Option NegotiatedProtocol)
      → IsNegotiated alpn x
      → IsNegotiated alpn y
      → x ≡ y
  IsNegotiated-unique alpn x y (inl (a, h)) (inl (b, k)) = cc
  IsNegotiated-unique alpn x y (inl (a, h)) (inr (b, e, k)) = cc
  IsNegotiated-unique alpn x y (inr (b, e, k)) (inl (a, h)) = cc
  IsNegotiated-unique alpn x y (inr (b, e, k)) (inr (b', e', k')) = cc

  abbrev said : TlsStream → ServerTls ServerName
  said stream =
      established (client_identity session stream)
        (Option.map (λ p. record { protocol = p }) (alpn_protocol stream))

  classify-none :
      (stream : TlsStream)
      → server_name stream ≡ none
      → classify session stream ≡ ok (said stream, stream)
  unfolding classify
  classify-none stream e = rw (classify, e) refl

  classify-some :
      (stream : TlsStream) (sni : String)
      → server_name stream ≡ some sni
      → classify session stream ≡ named session stream (parse_name sni)
  unfolding classify
  classify-some stream sni e = rw (classify, e) refl

  named-Reports :
      (stream t : TlsStream) (tls : ServerTls ServerName) (sni : String) (name : Option ServerName)
      → server_name stream ≡ some sni
      → parse_name sni ≡ name
      → named session stream name ≡ ok (tls, t)
      → (stream ≡ t) × Reports tls stream
  named-Reports stream t tls sni none e f h = cc
  named-Reports stream t tls sni (some name) e f h =
      (cc, subst (λ x. Reports x stream) {x = passthru name} (cc) (sni, e, f))

  classify-Reports :
      (stream t : TlsStream) (tls : ServerTls ServerName)
      → classify session stream ≡ ok (tls, t)
      → (stream ≡ t) × Reports tls stream
  classify-Reports stream t tls h = by_name (server_name stream) refl
    where
      by_name : (sni : Option String) → server_name stream ≡ sni → (stream ≡ t) × Reports tls stream
      by_name none e =
          let k = sym (classify-none stream e) ∙ h in
          (
            cc k,
            subst (λ x. Reports x stream) {x = said stream} (cc k)
                (e, identity-IsFirst stream, alpn-IsNegotiated (alpn_protocol stream)),
          )
      by_name (some sni) e =
          named-Reports stream t tls sni (parse_name sni) e refl
            (sym (classify-some stream sni e) ∙ h)

  Reports-classify :
      (stream : TlsStream) (tls : ServerTls ServerName)
      → Reports tls stream
      → classify session stream ≡ ok (tls, stream)
  Reports-classify stream (established id protocol) (e, first, negotiated) =
      let same = IsFirst-unique (peer_certificates stream) _ id (identity-IsFirst stream) first in
      let agreed =
        IsNegotiated-unique (alpn_protocol stream) _ protocol
          (alpn-IsNegotiated (alpn_protocol stream)) negotiated in
      classify-none stream e
      ∙ ap
          (λ i. ok (
            established i (Option.map (λ p. record { protocol = p }) (alpn_protocol stream)),
            stream,
          ))
          same
      ∙ ap (λ q. ok (established id q, stream)) agreed
  Reports-classify stream (passthru name) (sni, e, f) =
      classify-some stream sni e ∙ ap (named session stream) f

  classify-ne-err : (stream : TlsStream) (e : Error) → classify session stream ≢ err e
  classify-ne-err stream e = by_name (server_name stream) refl
    where
      by_name : (sni : Option String) → server_name stream ≡ sni → classify session stream ≢ err e
      by_name none s = λ h. cc (classify-none stream s)
      by_name (some sni) s = by_parse (parse_name sni) refl
        where
          by_parse :
              (name : Option ServerName) → parse_name sni ≡ name → classify session stream ≢ err e
          by_parse none f = λ h. cc (classify-some stream sni s, ap (named session stream) f)
          by_parse (some name) f = λ h. cc (classify-some stream sni s, ap (named session stream) f)

  -- Awaiting the future comes to a connection just when the handshake, pending for some polls, ends in
  -- its stream, and the report is true of that stream: the name that the client asked for, parsed, where
  -- it asked for one, and otherwise the first certificate that the peer sent, if any, with the
  -- negotiated protocol, if any.
  pub terminate-ok_iff :
      (polls : List (Poll (Outcome TlsStream))) (tls : ServerTls ServerName) (t : TlsStream)
      → (terminate session polls ≡ ready (ok (tls, t))) ↔ (First polls (ok t) × Reports tls t)
  terminate-ok_iff polls tls t = (forth, back)
    where
      by_end :
          (r : Outcome TlsStream)
          → First polls r
          → after_accept session r ≡ ok (tls, t)
          → First polls (ok t) × Reports tls t
      by_end (ok stream) first h =
          let (same, reports) = classify-Reports stream t tls h in
          (subst (λ s. First polls (ok s)) same first, subst (Reports tls) same reports)
      by_end (err e) first h = cc
      by_end panic first h = cc

      forth : terminate session polls ≡ ready (ok (tls, t)) → First polls (ok t) × Reports tls t
      forth h = let (r, first, e) = terminate-First polls (ok (tls, t)) h in by_end r first e

      back : First polls (ok t) × Reports tls t → terminate session polls ≡ ready (ok (tls, t))
      back ((n, rest, e), reports) =
          ap (terminate session) e
          ∙ terminate_first n (ok t) rest
          ∙ ap ready (Reports-classify t tls reports)

  -- It comes to an error just when the handshake, pending for some polls, ends in that error.
  pub terminate-err_iff :
      (polls : List (Poll (Outcome TlsStream))) (e : Error)
      → (terminate session polls ≡ ready (err e)) ↔ First polls (err e)
  terminate-err_iff polls e = (forth, back)
    where
      by_end :
          (r : Outcome TlsStream)
          → First polls r
          → after_accept session r ≡ err e
          → First polls (err e)
      by_end (ok stream) first h = absurd (classify-ne-err stream e h)
      by_end (err x) first h = subst (First polls) {x = err x} (cc) first
      by_end panic first h = cc

      forth : terminate session polls ≡ ready (err e) → First polls (err e)
      forth h = let (r, first, same) = terminate-First polls (err e) h in by_end r first same

      back : First polls (err e) → terminate session polls ≡ ready (err e)
      back (n, rest, same) = ap (terminate session) same ∙ terminate_first n (err e) rest
