-- ===== src/Tls/Credentials.antt =====
-- umay/src/tls/credentials.rs: how the TLS configuration of a stream server becomes the keys and the
-- `rustls` configurations of its proxy. The crates `rustls` and `rustls_pemfile` are parameters.
pub mod Laws
use umay.Base.{
  ℕ, List, [], ◌∷◌, ◌++◌, String, Option, none, some, Outcome, ok, err, panic, ◌>>=◌, ◌>>◌, ok_or,
  Bool, true, false, no_certificates, no_private_key, invalid_utf8,
}
use umay.App.Config.Tls.{
  Bytes, TlsConfig, read_certificate, read_certificate_key, read_trusted_certificate,
}
use umay.Balance.Discovery.Dns.{is_empty}

pub record Rustls : Type 1 where
  pub ServerName : Type 0
  pub RootCertStore : Type 0
  pub PrivateKey : Type 0
  pub SigningKey : Type 0
  pub CertifiedKey : Type 0
  pub ServerCertVerifier : Type 0
  pub ClientCertVerifier : Type 0
  pub ClientConfig : Type 0
  pub ServerConfig : Type 0
  pub parse_name : String → Outcome ServerName
  -- `std::str::from_utf8(..).is_ok()`
  pub is_utf8 : Bytes → Bool
  -- The certificates of a PEM file, or the error of the first bad one.
  pub certs : Bytes → Outcome (List Bytes)
  pub private_key : Bytes → Outcome (Option PrivateKey)
  pub any_ecdsa_type : PrivateKey → Outcome SigningKey
  pub certified_key : List Bytes → SigningKey → CertifiedKey
  pub add_parsable_certificates : List Bytes → RootCertStore
  pub server_cert_verifier : RootCertStore → Outcome ServerCertVerifier
  -- The flag is `allow_unauthenticated`.
  pub client_cert_verifier : RootCertStore → Bool → Outcome ClientCertVerifier
  -- The flag is that of the session resumption.
  pub client_config : ServerCertVerifier → CertifiedKey → Bool → ClientConfig
  pub server_config : ClientCertVerifier → CertifiedKey → ServerConfig

module _ (rustls : Rustls) where
  open rustls use {
    ServerName, RootCertStore, PrivateKey, CertifiedKey, ServerCertVerifier, ClientConfig,
    ServerConfig, parse_name, is_utf8, certs, private_key, any_ecdsa_type, certified_key,
    add_parsable_certificates, server_cert_verifier, client_cert_verifier, client_config,
    server_config,
  }

  pub record Store : Type 0 where
    pub name : ServerName
    pub verifier : ServerCertVerifier
    pub client_cfg : ClientConfig
    pub server_cfg : ServerConfig

  abbrev pub utf8_or_error : Bytes → Outcome Bytes
  utf8_or_error pem = elim (is_utf8 pem) [ true ↦ ok pem | false ↦ err invalid_utf8 ]

  abbrev pub nonempty_or_error : List Bytes → Outcome (List Bytes)
  nonempty_or_error [] = err no_certificates
  nonempty_or_error (cert ∷ rest) = ok (cert ∷ rest)

  unfoldable pub create_root_store : Bytes → Outcome RootCertStore
  create_root_store roots_pem = do
    pem ← utf8_or_error roots_pem
    found ← certs pem
    roots ← nonempty_or_error found
    ok (add_parsable_certificates roots)

  unfoldable pub extract_private_key : Bytes → Outcome PrivateKey
  extract_private_key key = do found ← private_key key; ok_or found no_private_key

  unfoldable pub create_certified_key : Bytes → Bytes → List Bytes → Outcome CertifiedKey
  unfolding extract_private_key
  create_certified_key server_cert key intermediates = do
    let chain = server_cert ∷ intermediates
    private_key ← extract_private_key key
    signing_key ← any_ecdsa_type private_key
    ok (certified_key chain signing_key)

  -- The resolver answers the one key for every request.
  unfoldable pub resolve {ℓ} : {Request : Type ℓ} → CertifiedKey → Request → Option CertifiedKey
  resolve key request = some key

  unfoldable pub create_client_config : ServerCertVerifier → CertifiedKey → Outcome ClientConfig
  create_client_config verifier key = ok (client_config verifier key false)

  unfoldable pub create_server_config : RootCertStore → CertifiedKey → Outcome ServerConfig
  create_server_config roots key = do
    verifier ← client_cert_verifier roots true
    ok (server_config verifier key)

  unfoldable pub new : ServerName → Bytes → Bytes → Bytes → List Bytes → Outcome Store
  unfolding create_root_store create_certified_key create_client_config create_server_config
  new name roots_pem server_cert key intermediates = do
    roots ← create_root_store roots_pem
    certified ← create_certified_key server_cert key intermediates
    verifier ← server_cert_verifier roots
    client_cfg ← create_client_config verifier certified
    server_cfg ← create_server_config roots certified
    ok (record {
      name = name;
      verifier = verifier;
      client_cfg = client_cfg;
      server_cfg = server_cfg;
    })

  -- `read` is the file system. The name is the one that the source spells out.
  unfoldable pub try_from : (String → Outcome Bytes) → TlsConfig → Outcome Store
  unfolding new
  try_from read c = do
    name ← parse_name "default.default.serviceaccount.identity.umay.cluster.local"
    roots ← read_trusted_certificate read c
    cert ← read_certificate read c
    key ← read_certificate_key read c
    new name roots cert key []
