-- ===== src/App/Config/Tls.antt =====
-- `TlsConfig` of umay/src/app/config.rs. The file system is a parameter.
use umay.Base.{ℕ, Bool, List, String, Outcome}

pub record TlsConfig : Type 0 where
  pub enabled : Bool
  pub proxy_tls_certificate : String
  pub proxy_tls_certificate_key : String
  pub proxy_tls_trusted_certificate : String
  pub proxy_tls_verify : Bool
  pub proxy_tls_verify_depth : ℕ
  pub proxy_tls_session_reuse : Bool
  pub proxy_tls_protocols : List String
  pub proxy_tls_ciphers : String

unfoldable pub new_tls :
    Bool
    → (certificate certificate_key trusted_certificate : String) → (verify : Bool) → ℕ
    → (session_reuse : Bool) → List String
    → String
    → TlsConfig
new_tls enabled certificate certificate_key trusted_certificate verify depth session_reuse protocols
      ciphers =
    record {
      enabled = enabled;
      proxy_tls_certificate = certificate;
      proxy_tls_certificate_key = certificate_key;
      proxy_tls_trusted_certificate = trusted_certificate;
      proxy_tls_verify = verify;
      proxy_tls_verify_depth = depth;
      proxy_tls_session_reuse = session_reuse;
      proxy_tls_protocols = protocols;
      proxy_tls_ciphers = ciphers;
    }

abbrev pub Bytes : Type 0
Bytes = List ℕ

-- The three accessors of the same names as the fields that hold the paths: open the file and read
-- it to its end. `read` answers for both calls.
module _ (read : String → Outcome Bytes) where
  unfoldable pub read_certificate : TlsConfig → Outcome Bytes
  read_certificate c = read c.proxy_tls_certificate

  unfoldable pub read_certificate_key : TlsConfig → Outcome Bytes
  read_certificate_key c = read c.proxy_tls_certificate_key

  unfoldable pub read_trusted_certificate : TlsConfig → Outcome Bytes
  read_trusted_certificate c = read c.proxy_tls_trusted_certificate
