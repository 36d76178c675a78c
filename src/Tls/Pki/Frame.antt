-- ===== src/Tls/Pki/Frame.antt =====
-- What writing a `TestPki` of umay/src/tls/pki.rs leaves alone, failures included.
use Prim.Native.String
use text.Mathlib.Text.{◌==◌ as str_eq}
use umay.Base.{All, ◌≡◌, refl, ◌∙◌, [], ◌∷◌, String, false, Outcome, ok, err, panic}
use umay.App.Config.Tls.{Bytes}
use umay.Tls.Pki.{Rcgen, TestPki}
use umay.Tls.Pki.Files.{
  Files, put, Written, written, failed, Disk, M, then_do, ◌>>◌, created, create_file, appended,
  write_all, fs_write, write_cert_and_key, write_full_chain, write_certs_and_keys,
}

-- Whatever it ends in, a step leaves the file `q` as it is.
record Keeps (q : String) (m : M) : Type 0 where
  keeps : (files : Files) → (m files).1 q ≡ files q

Keeps-then_do :
    (q : String) (k : M) (files : Files) (r : Outcome (Unit {0}) × Files)
    → Keeps q k
    → r.1 q ≡ files q
    → (then_do k r).1 q ≡ files q
Keeps-then_do q k files (ok u, mid) g e = g.keeps mid ∙ e
Keeps-then_do q k files (err x, mid) g e = e
Keeps-then_do q k files (panic, mid) g e = e

then-Keeps : {q : String} {m k : M} → Keeps q m → Keeps q k → Keeps q (m >> k)
then-Keeps {q} {m} {k} h g = record {
  keeps = λ files. Keeps-then_do q k files (m files) g (h.keeps files);
}

put-other :
    (files : Files) (path : String) (bs : Bytes) (q : String)
    → str_eq q path ≡ false
    → put files path bs q ≡ files q
put-other files path bs q h = rw h

module _ (disk : Disk) (q : String) where
  create_file-Keeps : (path : String) → str_eq q path ≡ false → Keeps q (create_file disk path)
  unfolding create_file
  create_file-Keeps path h = record { keeps = λ files. by_answer files (disk.create path) }
    where
      by_answer :
          (files : Files) (r : Outcome (Unit {0})) → (created disk path r files).1 q ≡ files q
      by_answer files (ok u) = put-other files path [] q h
      by_answer files (err e) = refl
      by_answer files panic = refl

  write_all-Keeps :
      (path : String) (bs : Bytes) → str_eq q path ≡ false → Keeps q (write_all disk path bs)
  unfolding write_all
  write_all-Keeps path bs h = record { keeps = λ files. by_answer files (disk.write path bs) }
    where
      by_answer : (files : Files) (r : Written) → (appended disk path bs r files).1 q ≡ files q
      by_answer files written = put-other files path _ q h
      by_answer files (failed n e) = put-other files path _ q h

  fs_write-Keeps :
      (path : String) (bs : Bytes) → str_eq q path ≡ false → Keeps q (fs_write disk path bs)
  unfolding fs_write
  fs_write-Keeps path bs h = then-Keeps (create_file-Keeps path h) (write_all-Keeps path bs h)

  module _ (rcgen : Rcgen) (directory : String) where
    open rcgen use {Certificate, KeyPair, pem}

    abbrev pub Other : String → Type 0
    Other name = str_eq q (disk.join directory name) ≡ false

    pair-Keeps :
        (prefix : String) (cert : Certificate) (key : KeyPair)
        → Other (String.◌++◌ prefix ".crt")
        → Other (String.◌++◌ prefix ".key")
        → Keeps q (write_cert_and_key disk rcgen directory prefix cert key)
    unfolding write_cert_and_key
    pair-Keeps prefix cert key h k = then-Keeps (fs_write-Keeps _ _ h) (fs_write-Keeps _ _ k)

    chain-Keeps :
        (pki : TestPki rcgen)
        → Other "ca-chain.pem"
        → Keeps q (write_full_chain disk rcgen pki directory)
    unfolding write_full_chain
    chain-Keeps pki h =
        let added =
          λ (c : Certificate). write_all-Keeps (disk.join directory "ca-chain.pem") (pem c) h in
        then-Keeps
          (then-Keeps
            (then-Keeps (create_file-Keeps (disk.join directory "ca-chain.pem") h)
              (added pki.ca_cert.0))
            (added pki.server_cert.0))
          (added pki.client_cert.0)

    -- None of the seven files that are written.
    abbrev pub Outside : Type 0
    Outside = All Other (
        "ca.crt" ∷ "ca.key" ∷ "server.crt" ∷ "server.key" ∷ "client.crt" ∷ "client.key"
        ∷ "ca-chain.pem" ∷ [])

    all_kept :
        (pki : TestPki rcgen) → Outside → Keeps q (write_certs_and_keys disk rcgen pki directory)
    unfolding write_certs_and_keys
    all_kept pki (h1, (h2, (h3, (h4, (h5, (h6, (h7, u))))))) =
        then-Keeps
          (then-Keeps
            (then-Keeps
              (then-Keeps (record { keeps = λ files. refl })
                (pair-Keeps "ca" pki.ca_cert.0 pki.ca_cert.1 h1 h2))
              (pair-Keeps "server" pki.server_cert.0 pki.server_cert.1 h3 h4))
            (pair-Keeps "client" pki.client_cert.0 pki.client_cert.1 h5 h6))
          (chain-Keeps pki h7)

    -- Whether it succeeds or fails, and wherever it fails, the writing leaves every file but the seven
    -- of its directory as it is.
    pub write_certs_and_keys-Outside :
        (pki : TestPki rcgen) (files : Files)
        → Outside
        → (write_certs_and_keys disk rcgen pki directory files).1 q ≡ files q
    write_certs_and_keys-Outside pki files h = (all_kept pki h).keeps files
