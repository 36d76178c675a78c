-- ===== src/Tls/Pki/Examples.antt =====
-- The theorems on the files of a `TestPki` at concrete certificates and a concrete disk.
use text.Mathlib.Text.{◌==◌ as str_eq}
use umay.Base.{
  ℕ, ◌≡◌, refl, List, [], ◌∷◌, String, true, Bool, none, some, ok, ◌>>=◌, foreign, if◌then◌else◌,
}
use umay.App.Config.Tls.{Bytes, TlsConfig}
use umay.Tls.Credentials
use umay.Tls.Credentials.{Rustls}
use umay.Tls.Pki.{Rcgen, TestPki}
use umay.Tls.Pki.Files.{Files, Disk, written, failed, write_certs_and_keys}
use umay.Tls.Pki.Join.{path_join, path_join-eq}
use umay.Tls.Pki.Laws.{
  Holds, chain, read_from, write_certs_and_keys-Holds, write_certs_and_keys-try_from,
}
use umay.Tls.Pki.Frame.{write_certs_and_keys-Outside}

-- Certificates and keys are numbers.
abbrev rcgen : Rcgen
rcgen = record {
  Certificate = ℕ;
  KeyPair = ℕ;
  CertificateParams = List String;
  RootCertStore = List Bytes;
  new_params = λ names. ok names;
  push_name = λ params type name. params;
  set_is_ca = λ params ca. params;
  set_key_usages = λ params usages. params;
  set_extended_key_usages = λ params usages. params;
  set_serial_number = λ params serial. params;
  generate_for = λ owner. ok 1;
  self_signed = λ params key. ok 2;
  signed_by = λ params key ca ca_key. ok 3;
  der = λ cert. cert ∷ [];
  pem = λ cert. 0 ∷ cert ∷ [];
  serialize_der = λ key. key ∷ [];
  serialize_pem = λ key. 9 ∷ key ∷ [];
  empty_roots = [];
  add_root = λ roots der. ok (der ∷ roots);
}

abbrev pki : TestPki rcgen
pki = record { roots = []; ca_cert = (10, 11); client_cert = (20, 21); server_cert = (30, 31) }

-- The disk of a Unix system on which every write succeeds.
abbrev disk : Disk
disk = record {
  join = path_join;
  join-eq = path_join-eq;
  create_dir_all = λ dir. ok tt;
  create = λ path. ok tt;
  write = λ path bs. written;
}

abbrev before : Files
before name = none

abbrev after : Files
after = (write_certs_and_keys disk rcgen pki "/tmp/certs" before).1

all_written : write_certs_and_keys disk rcgen pki "/tmp/certs" before ≡ (ok tt, after)
unfolding write_certs_and_keys
all_written = refl

write_certs_and_keys-Holds_example : Holds disk rcgen pki "/tmp/certs" after
write_certs_and_keys-Holds_example =
    write_certs_and_keys-Holds disk rcgen pki "/tmp/certs" before after all_written

abbrev rustls : Rustls
rustls = record {
  ServerName = String;
  RootCertStore = List Bytes;
  PrivateKey = Bytes;
  SigningKey = Bytes;
  CertifiedKey = List Bytes × Bytes;
  ServerCertVerifier = List Bytes;
  ClientCertVerifier = List Bytes × Bool;
  ClientConfig = List Bytes × ((List Bytes × Bytes) × Bool);
  ServerConfig = (List Bytes × Bool) × (List Bytes × Bytes);
  parse_name = ok;
  is_utf8 = λ pem. true;
  certs = λ pem. ok (pem ∷ []);
  private_key = λ pem. ok (some pem);
  any_ecdsa_type = ok;
  certified_key = λ certs key. (certs, key);
  add_parsable_certificates = λ certs. certs;
  server_cert_verifier = ok;
  client_cert_verifier = λ roots allow. ok (roots, allow);
  client_config = λ verifier key resumption. (verifier, (key, resumption));
  server_config = λ verifier key. (verifier, key);
}

abbrev tls : TlsConfig
tls = record {
  enabled = true;
  proxy_tls_certificate = "/tmp/certs/server.crt";
  proxy_tls_certificate_key = "/tmp/certs/server.key";
  proxy_tls_trusted_certificate = "/tmp/certs/ca-chain.pem";
  proxy_tls_verify = true;
  proxy_tls_verify_depth = 2;
  proxy_tls_session_reuse = true;
  proxy_tls_protocols = [];
  proxy_tls_ciphers = "HIGH";
}

write_certs_and_keys-try_from_example :
    Credentials.try_from rustls (read_from (foreign 1) after) tls ≡ (
      rustls.parse_name "default.default.serviceaccount.identity.umay.cluster.local" >>= λ name.
      Credentials.new rustls name (chain {rcgen = rcgen} pki) (30 ∷ []) (9 ∷ 31 ∷ []) [])
write_certs_and_keys-try_from_example =
    write_certs_and_keys-try_from disk rcgen rustls pki "/tmp/certs" before after (foreign 1) tls
      all_written refl refl refl

-- A disk that is full after one byte, with a file that is none of those that are written.
abbrev full : Disk
full = record disk { write = λ path bs. failed 1 (foreign 2) }

abbrev notes : Files
notes name = if str_eq name "/tmp/certs/notes.txt" then some (7 ∷ []) else none

write_certs_and_keys-Outside_example :
    (write_certs_and_keys full rcgen pki "/tmp/certs" notes).1 "/tmp/certs/notes.txt"
    ≡ notes "/tmp/certs/notes.txt"
write_certs_and_keys-Outside_example =
    write_certs_and_keys-Outside full "/tmp/certs/notes.txt" rcgen "/tmp/certs" pki notes
      (refl, (refl, (refl, (refl, (refl, (refl, (refl, tt)))))))
