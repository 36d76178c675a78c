-- ===== src/Tls/Examples.antt =====
-- The theorems on TLS at a concrete session and concrete answers of the crates.
use umay.Base.{
  ◌≡◌, ◌↔◌, err, foreign, refl, List, [], ◌∷◌, String, Option, none, some, ok, true, false, Bool,
}
use umay.App.Config.Tls.{Bytes}
use umay.Tls.{Session, passthru}
use umay.Tls.Server.{pending, ready, terminate}
use umay.Tls.Server.Laws.{First, Reports, terminate-ok_iff, terminate-err_iff}
use umay.Tls.Credentials
use umay.Tls.Credentials.{Rustls, Store}
use umay.Tls.Credentials.Laws.{Made, new-Made}

-- A stream is the name that its client asked for.
abbrev session : Session
session = record {
  TlsStream = Option String;
  ServerName = String;
  parse_name = λ s. some s;
  peer_certificates = λ s. none;
  server_name = λ s. s;
  alpn_protocol = λ s. none;
}

abbrev hello : Option String
hello = some "umay.example"

-- Two polls in vain, and the handshake ends.
terminate-ok_iff_example :
    let polls = pending ∷ pending ∷ ready (ok hello) ∷ pending ∷ [] in
    (terminate session polls ≡ ready (ok (passthru "umay.example", hello)))
    ↔ (First polls (ok hello) × Reports session (passthru "umay.example") hello)
terminate-ok_iff_example =
    terminate-ok_iff session (pending ∷ pending ∷ ready (ok hello) ∷ pending ∷ [])
      (passthru "umay.example") hello

terminate-err_iff_example :
    let polls = pending ∷ ready (err (foreign 4)) ∷ [] in
    (terminate session polls ≡ ready (err (foreign 4))) ↔ First polls (err (foreign 4))
terminate-err_iff_example =
    terminate-err_iff session (pending ∷ ready (err (foreign 4)) ∷ []) (foreign 4)

-- A configuration is what it was made from; every file parses.
abbrev rustls : Rustls
rustls = record {
  ServerName = String;
  RootCertStore = List Bytes;
  PrivateKey = Bytes;
  SigningKey = Bytes;
  CertifiedKey = List Bytes × Bytes;
  ServerCertVerifier = List Bytes;
  ClientCertVerifier = List Bytes × Bool;
  ClientConfig = List Bytes × ((List Bytes × Bytes) × Bool);
  ServerConfig = (List Bytes × Bool) × (List Bytes × Bytes);
  parse_name = ok;
  is_utf8 = λ pem. true;
  certs = λ pem. ok (pem ∷ []);
  private_key = λ pem. ok (some pem);
  any_ecdsa_type = ok;
  certified_key = λ certs key. (certs, key);
  add_parsable_certificates = λ certs. certs;
  server_cert_verifier = ok;
  client_cert_verifier = λ roots allow. ok (roots, allow);
  client_config = λ verifier key resumption. (verifier, (key, resumption));
  server_config = λ verifier key. (verifier, key);
}

abbrev roots : Bytes
roots = 1 ∷ 2 ∷ []

abbrev cert : Bytes
cert = 3 ∷ []

abbrev key : Bytes
key = 4 ∷ []

abbrev store : Store rustls
store = record {
  name = "umay.example";
  verifier = roots ∷ [];
  client_cfg = (roots ∷ [], ((cert ∷ [], key), false));
  server_cfg = ((roots ∷ [], true), (cert ∷ [], key));
}

made : Credentials.new rustls "umay.example" roots cert key [] ≡ ok store
unfolding Credentials.new
made = refl

new-Made_example : Made rustls roots cert key store
new-Made_example = new-Made rustls "umay.example" roots cert key store made
