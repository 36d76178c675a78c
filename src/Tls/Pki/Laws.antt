-- ===== src/Tls/Pki/Laws.antt =====
-- The files of a `TestPki` of umay/src/tls/pki.rs once all are written, and what
-- umay/src/tls/credentials.rs makes of them.
use Prim.Native.String
use mathlib.Core.Path.{subst}
use umay.Base.{◌≡◌, ap, sym, ◌∙◌, [], ◌++◌, String, none, some, Outcome, ok, err, Error, ◌>>=◌}
use umay.App.Config.Tls.{
  Bytes, TlsConfig, read_certificate, read_certificate_key, read_trusted_certificate,
}
use umay.Tls.Credentials
use umay.Tls.Credentials.{Rustls}
use umay.Tls.Pki.{Rcgen, TestPki}
use umay.Tls.Pki.Files.{
  Files, put, Disk, ◌>>◌, ask, create_file, write_all, fs_write, write_cert_and_key,
  write_full_chain, write_certs_and_keys,
}
use umay.Tls.Pki.Writes.{then-ok, create_file-ok, fs_write-ok, write_on}

-- The chain of the three certificates.
abbrev pub chain : {rcgen : Rcgen} → TestPki rcgen → Bytes
chain {rcgen} pki =
    (rcgen.pem pki.ca_cert.0 ++ rcgen.pem pki.server_cert.0) ++ rcgen.pem pki.client_cert.0

-- Reading a file of the directory, where `missing` is the error for one that is not there.
abbrev pub read_from : Error → Files → String → Outcome Bytes
read_from missing files path = elim (files path) [ none ↦ err missing | some bs ↦ ok bs ]

read_from-some :
    (missing : Error) (files : Files) (path : String) (bs : Bytes)
    → files path ≡ some bs
    → read_from missing files path ≡ ok bs
read_from-some missing files path bs e = rw (e, read_from)

module _ (disk : Disk) where
  open disk use {join}

  module _ (rcgen : Rcgen) where
    open rcgen use {Certificate, KeyPair, der, pem, serialize_pem}

    pair_put : String → String → Certificate → KeyPair → Files → Files
    pair_put directory prefix cert key files =
        put (put files (join directory (String.◌++◌ prefix ".crt")) (der cert))
          (join directory (String.◌++◌ prefix ".key")) (serialize_pem key)

    pair-ok :
        (directory prefix : String) (cert : Certificate) (key : KeyPair) (files out : Files)
        → write_cert_and_key disk rcgen directory prefix cert key files ≡ (ok tt, out)
        → out ≡ pair_put directory prefix cert key files
    unfolding write_cert_and_key pair_put
    pair-ok directory prefix cert key files out h =
        let crt = join directory (String.◌++◌ prefix ".crt") in
        let keyed = join directory (String.◌++◌ prefix ".key") in
        let (mid, a, b) =
          then-ok (fs_write disk crt (der cert)) (fs_write disk keyed (serialize_pem key)) files out
            h in
        fs_write-ok disk keyed (serialize_pem key) mid out b
        ∙ ap (λ f. put f keyed (serialize_pem key)) (fs_write-ok disk crt (der cert) files mid a)

    chain-ok :
        (pki : TestPki rcgen) (directory : String) (files out : Files)
        → write_full_chain disk rcgen pki directory files ≡ (ok tt, out)
        → out
          ≡ put files
              (join directory "ca-chain.pem")
              (((pem pki.ca_cert.0) ++ pem pki.server_cert.0) ++ pem pki.client_cert.0)
    unfolding write_full_chain
    chain-ok pki directory files out h =
        let path = join directory "ca-chain.pem" in
        let add = λ (c : Certificate). write_all disk path (pem c) in
        let (f3, h3, w3) =
          then-ok (create_file disk path >> add pki.ca_cert.0 >> add pki.server_cert.0)
            (add pki.client_cert.0) files out h in
        let (f2, h2, w2) =
          then-ok (create_file disk path >> add pki.ca_cert.0) (add pki.server_cert.0) files f3
            h3 in
        let (f1, h1, w1) = then-ok (create_file disk path) (add pki.ca_cert.0) files f2 h2 in
        write_on disk path _ (pem pki.client_cert.0) files f3 out
          (write_on disk path _ (pem pki.server_cert.0) files f2 f3
            (write_on disk path [] (pem pki.ca_cert.0) files f1 f2
              (create_file-ok disk path files f1 h1) w1)
            w2)
          w3

    -- The files that a directory holds once all is written.
    pub record Holds (pki : TestPki rcgen) (directory : String) (files : Files) : Type 0 where
      pub ca_crt : files (join directory "ca.crt") ≡ some (der pki.ca_cert.0)
      pub ca_key : files (join directory "ca.key") ≡ some (serialize_pem pki.ca_cert.1)
      pub server_crt : files (join directory "server.crt") ≡ some (der pki.server_cert.0)
      pub server_key : files (join directory "server.key") ≡ some (serialize_pem pki.server_cert.1)
      pub client_crt : files (join directory "client.crt") ≡ some (der pki.client_cert.0)
      pub client_key : files (join directory "client.key") ≡ some (serialize_pem pki.client_cert.1)
      pub ca_chain : files (join directory "ca-chain.pem") ≡ some (chain pki)

    all_put : TestPki rcgen → String → Files → Files
    unfolding pair_put
    all_put pki directory files =
        put
          (pair_put directory "client" pki.client_cert.0 pki.client_cert.1 (
            pair_put directory "server" pki.server_cert.0 pki.server_cert.1
              (pair_put directory "ca" pki.ca_cert.0 pki.ca_cert.1 files)))
          (join directory "ca-chain.pem") (chain pki)

    all_put-Holds :
        (pki : TestPki rcgen) (directory : String) (files : Files)
        → Holds pki directory (all_put pki directory files)
    unfolding all_put
    all_put-Holds pki directory files = record {
      ca_crt = simp disk.join-eq;
      ca_key = simp disk.join-eq;
      server_crt = simp disk.join-eq;
      server_key = simp disk.join-eq;
      client_crt = simp disk.join-eq;
      client_key = simp disk.join-eq;
      ca_chain = simp disk.join-eq;
    }

    written-ok :
        (pki : TestPki rcgen) (directory : String) (files out : Files)
        → write_certs_and_keys disk rcgen pki directory files ≡ (ok tt, out)
        → out ≡ all_put pki directory files
    unfolding write_certs_and_keys all_put
    written-ok pki directory files out h =
        let pair = λ (prefix : String) (c : Certificate × KeyPair).
          write_cert_and_key disk rcgen directory prefix c.0 c.1 in
        let made = ask disk (disk.create_dir_all directory) in
        let (f4, h4, w4) =
          then-ok
            (made
              >> pair "ca" pki.ca_cert
              >> pair "server" pki.server_cert
              >> pair "client" pki.client_cert)
            (write_full_chain disk rcgen pki directory) files out h in
        let (f3, h3, w3) =
          then-ok (made >> pair "ca" pki.ca_cert >> pair "server" pki.server_cert)
            (pair "client" pki.client_cert) files f4 h4 in
        let (f2, h2, w2) =
          then-ok (made >> pair "ca" pki.ca_cert) (pair "server" pki.server_cert) files f3 h3 in
        let (f1, h1, w1) = then-ok made (pair "ca" pki.ca_cert) files f2 h2 in
        chain-ok pki directory f4 out w4
        ∙ ap (λ f. put f (join directory "ca-chain.pem") (chain pki))
            (pair-ok directory "client" pki.client_cert.0 pki.client_cert.1 f3 f4 w3
              ∙ ap (pair_put directory "client" pki.client_cert.0 pki.client_cert.1) (
                  pair-ok directory "server" pki.server_cert.0 pki.server_cert.1 f2 f3 w2
                  ∙ ap (pair_put directory "server" pki.server_cert.0 pki.server_cert.1) (
                      pair-ok directory "ca" pki.ca_cert.0 pki.ca_cert.1 f1 f2 w1
                      ∙ ap (pair_put directory "ca" pki.ca_cert.0 pki.ca_cert.1)
                          (sym (ap (λ (x : Outcome (Unit {0}) × Files). x.1) h1)))))

    -- Where everything is written without an error, the directory holds the certificate and the key
    -- of each of the three owners in files of their own, and the chain of the three certificates, the
    -- authority's first, whatever the files held before.
    pub write_certs_and_keys-Holds :
        (pki : TestPki rcgen) (directory : String) (files out : Files)
        → write_certs_and_keys disk rcgen pki directory files ≡ (ok tt, out)
        → Holds pki directory out
    write_certs_and_keys-Holds pki directory files out h =
        subst (Holds pki directory) (sym (written-ok pki directory files out h))
          (all_put-Holds pki directory files)

    module _ (rustls : Rustls) where
      -- What is written is read back: where everything is written without an error, a TLS configuration
      -- whose paths are those of the server's files and of the chain makes its store from the server's
      -- certificate and key and from the chain, under the name it always takes.
      pub write_certs_and_keys-try_from :
          (pki : TestPki rcgen) (directory : String) (files out : Files) (missing : Error)
          (c : TlsConfig)
          → write_certs_and_keys disk rcgen pki directory files ≡ (ok tt, out)
          → c.proxy_tls_certificate ≡ join directory "server.crt"
          → c.proxy_tls_certificate_key ≡ join directory "server.key"
          → c.proxy_tls_trusted_certificate ≡ join directory "ca-chain.pem"
          → Credentials.try_from rustls (read_from missing out) c ≡ (
              rustls.parse_name "default.default.serviceaccount.identity.umay.cluster.local"
              >>= λ name.
                  Credentials.new rustls name
                    (chain pki)
                    (der pki.server_cert.0)
                    (serialize_pem pki.server_cert.1)
                    [])
      unfolding Credentials.try_from read_certificate read_certificate_key read_trusted_certificate
      write_certs_and_keys-try_from pki directory files out missing c h e f g =
          let w = write_certs_and_keys-Holds pki directory files out h in
          simp (
            e,
            f,
            g,
            read_from-some missing out (join directory "ca-chain.pem") (chain pki) w.ca_chain,
            read_from-some missing out (join directory "server.crt") (der pki.server_cert.0)
                w.server_crt,
            read_from-some missing out (join directory "server.key")
                (serialize_pem pki.server_cert.1) w.server_key,
          )
