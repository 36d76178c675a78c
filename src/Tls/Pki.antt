-- ===== src/Tls/Pki.antt =====
-- umay/src/tls/pki.rs: the keys and certificates of the tests, and the files that they are written to.
-- The crate `rcgen` is a parameter.
pub mod Files
pub mod Writes
pub mod Laws
pub mod Frame
mod Join
mod Examples
use umay.Base.{ℕ, List, [], ◌∷◌, String, Outcome, ok, err, panic, ◌>>=◌}
use umay.App.Config.Tls.{Bytes}

pub data DnType : Type 0 where
  organization_name common_name : DnType

pub data IsCa : Type 0 where
  ca_unconstrained no_ca : IsCa

pub data KeyUsagePurpose : Type 0 where
  key_cert_sign digital_signature crl_sign : KeyUsagePurpose

pub data ExtendedKeyUsagePurpose : Type 0 where
  server_auth client_auth : ExtendedKeyUsagePurpose

-- `generate_for` draws a key: it is asked for the key of one of the three certificates.
pub data Owner : Type 0 where
  authority server client : Owner

pub record Rcgen : Type 1 where
  pub Certificate : Type 0
  pub KeyPair : Type 0
  pub CertificateParams : Type 0
  pub RootCertStore : Type 0
  pub new_params : List String → Outcome CertificateParams
  pub push_name : CertificateParams → DnType → String → CertificateParams
  pub set_is_ca : CertificateParams → IsCa → CertificateParams
  pub set_key_usages : CertificateParams → List KeyUsagePurpose → CertificateParams
  pub set_extended_key_usages : CertificateParams → List ExtendedKeyUsagePurpose → CertificateParams
  pub set_serial_number : CertificateParams → Bytes → CertificateParams
  pub generate_for : Owner → Outcome KeyPair
  pub self_signed : CertificateParams → KeyPair → Outcome Certificate
  pub signed_by : CertificateParams → KeyPair → Certificate → KeyPair → Outcome Certificate
  pub der : Certificate → Bytes
  pub pem : Certificate → Bytes
  pub serialize_der : KeyPair → Bytes
  pub serialize_pem : KeyPair → Bytes
  pub empty_roots : RootCertStore
  pub add_root : RootCertStore → Bytes → Outcome RootCertStore

-- `unwrap`
abbrev pub unwrap {ℓ} : {A : Type ℓ} → Outcome A → Outcome A
unwrap (ok a) = ok a
unwrap (err e) = panic
unwrap panic = panic

module _ (rcgen : Rcgen) where
  open rcgen use {
    Certificate, KeyPair, CertificateParams, RootCertStore, new_params, push_name, set_is_ca,
    set_key_usages, set_extended_key_usages, set_serial_number, generate_for, self_signed,
    signed_by, der, serialize_der, empty_roots, add_root,
  }

  pub record TestPki : Type 0 where
    pub roots : RootCertStore
    pub ca_cert : Certificate × KeyPair
    pub client_cert : Certificate × KeyPair
    pub server_cert : Certificate × KeyPair

  unfoldable pub create_ca_cert : Outcome (Certificate × KeyPair)
  create_ca_cert = do
    params ← unwrap (new_params [])
    let named =
        push_name (push_name params organization_name "Rustls Server Acceptor") common_name
          "Test CA"
    let params =
        set_key_usages (set_is_ca named ca_unconstrained)
          (key_cert_sign ∷ digital_signature ∷ crl_sign ∷ [])
    key_pair ← unwrap (generate_for authority)
    cert ← unwrap (self_signed params key_pair)
    ok (cert, key_pair)

  unfoldable pub create_server_cert : Certificate → KeyPair → Outcome (Certificate × KeyPair)
  create_server_cert ca_cert ca_key = do
    params ← unwrap (new_params ("localhost" ∷ []))
    let params = set_extended_key_usages (set_is_ca params no_ca) (server_auth ∷ [])
    key_pair ← unwrap (generate_for server)
    cert ← unwrap (signed_by params key_pair ca_cert ca_key)
    ok (cert, key_pair)

  unfoldable pub create_client_cert : Certificate → KeyPair → Outcome (Certificate × KeyPair)
  create_client_cert ca_cert ca_key = do
    params ← unwrap (new_params [])
    let named = push_name params common_name "Test Client"
    let params =
        set_serial_number (set_extended_key_usages (set_is_ca named no_ca) (client_auth ∷ []))
          (0xC0 ∷ 0xFF ∷ 0xEE ∷ [])
    key_pair ← unwrap (generate_for client)
    cert ← unwrap (signed_by params key_pair ca_cert ca_key)
    ok (cert, key_pair)

  unfoldable pub create_root_cert_store : Certificate → Outcome RootCertStore
  create_root_cert_store ca_cert = unwrap (add_root empty_roots (der ca_cert))

  unfoldable pub default : Outcome TestPki
  unfolding create_ca_cert create_server_cert create_client_cert create_root_cert_store
  default = do
    ca_cert ← create_ca_cert
    server_cert ← create_server_cert ca_cert.0 ca_cert.1
    client_cert ← create_client_cert ca_cert.0 ca_cert.1
    roots ← create_root_cert_store ca_cert.0
    ok (record {
      roots = roots;
      ca_cert = ca_cert;
      client_cert = client_cert;
      server_cert = server_cert;
    })

  -- The configuration of a server without client authentication, by `rustls`: `with_single_cert`
  -- builds it, `with_key_log` sets its key log to a file.
  module _ {ServerConfig : Type 0} (with_single_cert : List Bytes → Bytes → Outcome ServerConfig)
      (with_key_log : ServerConfig → ServerConfig) where
    unfoldable pub server_config : TestPki → Outcome ServerConfig
    server_config pki = do
      config ←
          unwrap (with_single_cert (der pki.server_cert.0 ∷ []) (serialize_der pki.server_cert.1))
      ok (with_key_log config)
