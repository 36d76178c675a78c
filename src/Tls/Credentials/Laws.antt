-- ===== src/Tls/Credentials/Laws.antt =====
-- What a store of umay/src/tls/credentials.rs is made from.
use mathlib.Core.Path.{subst}
use umay.Base.{arith, ◌≡◌, refl, List, [], ◌∷◌, String, some, Outcome, ok, true, >>=-eq-ok}
use umay.App.Config.Tls.{
  Bytes, TlsConfig, read_certificate, read_certificate_key, read_trusted_certificate,
}
use umay.Tls.Credentials.{
  Rustls, Store, create_root_store, create_certified_key, create_server_config, utf8_or_error,
  nonempty_or_error, extract_private_key, new, try_from,
}

module _ (rustls : Rustls) (read : String → Outcome Bytes) where
  -- The store of a stream server is made from the three files of its TLS configuration: two
  -- configurations with the same paths give the same store or the same error, whatever they say of
  -- `enabled`, of the verification and its depth, of session reuse, protocols and ciphers.
  pub try_from_paths :
      (c c' : TlsConfig)
      → c.proxy_tls_certificate ≡ c'.proxy_tls_certificate
      → c.proxy_tls_certificate_key ≡ c'.proxy_tls_certificate_key
      → c.proxy_tls_trusted_certificate ≡ c'.proxy_tls_trusted_certificate
      → try_from rustls read c ≡ try_from rustls read c'
  unfolding try_from read_certificate read_certificate_key read_trusted_certificate
  try_from_paths c c' e f g = simp (e, f, g)

module _ (rustls : Rustls) where
  -- What a store is made of.
  pub record Made (roots_pem server_cert key : Bytes) (store : Store rustls) : Type 0 where
    pub cert : Bytes
    pub certs : List Bytes
    pub private_key : rustls.PrivateKey
    pub signing_key : rustls.SigningKey
    pub client_verifier : rustls.ClientCertVerifier
    pub is_utf8 : rustls.is_utf8 roots_pem ≡ true
    pub parsed : rustls.certs roots_pem ≡ ok (cert ∷ certs)
    pub found : rustls.private_key key ≡ ok (some private_key)
    pub signs : rustls.any_ecdsa_type private_key ≡ ok signing_key
    pub verifies :
        rustls.client_cert_verifier (rustls.add_parsable_certificates (cert ∷ certs)) true
        ≡ ok client_verifier
    pub serves :
        store.server_cfg
        ≡ rustls.server_config client_verifier (rustls.certified_key (server_cert ∷ []) signing_key)

  utf8-ok :
      (pem out : Bytes)
      → utf8_or_error rustls pem ≡ ok out
      → (rustls.is_utf8 pem ≡ true) × (pem ≡ out)
  utf8-ok pem out h = ground arith

  nonempty-ok :
      (found roots : List Bytes)
      → nonempty_or_error rustls found ≡ ok roots
      → (cert : Bytes) × (certs : List Bytes) × (found ≡ cert ∷ certs) × (roots ≡ cert ∷ certs)
  nonempty-ok [] roots h = cc
  nonempty-ok (cert ∷ certs) roots h = (cert, certs, refl, cc)

  root_store-ok :
      (pem : Bytes) (store : rustls.RootCertStore)
      → create_root_store rustls pem ≡ ok store
      → (cert : Bytes) × (certs : List Bytes) × (rustls.is_utf8 pem ≡ true)
        × (rustls.certs pem ≡ ok (cert ∷ certs))
        × (store ≡ rustls.add_parsable_certificates (cert ∷ certs))
  unfolding create_root_store
  root_store-ok pem store h =
      let (out, e, h1) = >>=-eq-ok (utf8_or_error rustls pem) _ h in
      let (found, f, h2) = >>=-eq-ok (rustls.certs out) _ h1 in
      let (roots, g, h3) = >>=-eq-ok (nonempty_or_error rustls found) _ h2 in
      let (utf8, same) = utf8-ok pem out e in
      let (cert, certs, p, q) = nonempty-ok found roots g in (cert, certs, utf8, cc, cc)

  certified_key-ok :
      (server_cert key : Bytes) (certified : rustls.CertifiedKey)
      → create_certified_key rustls server_cert key [] ≡ ok certified
      → (private_key : rustls.PrivateKey) × (signing_key : rustls.SigningKey) × (rustls.private_key
            key
          ≡ ok (some private_key))
        × (rustls.any_ecdsa_type private_key ≡ ok signing_key)
        × (certified ≡ rustls.certified_key (server_cert ∷ []) signing_key)
  unfolding create_certified_key
  certified_key-ok server_cert key certified h =
      let (private_key, e, h1) = >>=-eq-ok (extract_private_key rustls key) _ h in
      let (signing_key, f, h2) = >>=-eq-ok (rustls.any_ecdsa_type private_key) _ h1 in
      let (found, g, h3) = >>=-eq-ok (rustls.private_key key) _ e in
      (private_key, signing_key, ground (arith, g, h3), f, cc)

  server_config-ok :
      (roots : rustls.RootCertStore) (key : rustls.CertifiedKey) (config : rustls.ServerConfig)
      → create_server_config rustls roots key ≡ ok config
      → (verifier : rustls.ClientCertVerifier) × (rustls.client_cert_verifier roots true
          ≡ ok verifier)
        × (config ≡ rustls.server_config verifier key)
  unfolding create_server_config
  server_config-ok roots key config h =
      let (verifier, e, h1) = >>=-eq-ok (rustls.client_cert_verifier roots true) _ h in
      (verifier, e, cc)

  -- Where `new` makes a store without intermediate certificates, the roots are UTF-8, they parse
  -- and hold a certificate, the key file holds a key and that key signs by ECDSA; the server
  -- configuration asks clients for a certificate without insisting and answers with the one
  -- certificate given.
  pub new-Made :
      (name : rustls.ServerName) (roots_pem server_cert key : Bytes) (store : Store rustls)
      → new rustls name roots_pem server_cert key [] ≡ ok store
      → Made roots_pem server_cert key store
  unfolding new
  new-Made name roots_pem server_cert key store h =
      let (roots, e, h) = >>=-eq-ok (create_root_store rustls roots_pem) _ h in
      let (certified, f, h) = >>=-eq-ok (create_certified_key rustls server_cert key []) _ h in
      let (verifier, _, h) = >>=-eq-ok (rustls.server_cert_verifier roots) _ h in
      let (server_cfg, g, h) = >>=-eq-ok (create_server_config rustls roots certified) _ h in
      let (cert, certs, is_utf8, parsed, r) = root_store-ok roots_pem roots e in
      let (private_key, signing_key, found, signs, k) =
        certified_key-ok server_cert key certified f in
      let (client_verifier, v, c) = server_config-ok roots certified server_cfg g in
      record {
        cert = cert;
        certs = certs;
        private_key = private_key;
        signing_key = signing_key;
        client_verifier = client_verifier;
        is_utf8 = is_utf8;
        parsed = parsed;
        found = found;
        signs = signs;
        verifies = subst (λ x. rustls.client_cert_verifier x true ≡ ok client_verifier) r v;
        serves = cc;
      }
