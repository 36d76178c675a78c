-- ===== src/Tls/Pki/Files.antt =====
-- How umay/src/tls/pki.rs writes a `TestPki` to a directory. The file system and `Path::join` are the
-- standard library's.
use Prim.Native.String
use text.Mathlib.Text.{◌==◌ as str_eq}
use umay.Base.{
  ℕ, ◌≡◌, List, [], ◌∷◌, ◌++◌, Bool, true, false, ◌||◌, String, Option, none, some, Outcome, ok,
  err, panic, Error, take, if◌then◌else◌,
}
use umay.App.Config.Tls.{Bytes}
use umay.Tls.Pki.{Rcgen, TestPki}

-- What each file holds.
abbrev pub Files : Type 0
Files = String → Option Bytes

abbrev pub put : Files → String → Bytes → Files
put files path bs q = if str_eq q path then some bs else files q

abbrev pub content : Option Bytes → Bytes
content none = []
content (some bs) = bs

-- What a write to an open file answers: everything is written, or an error after some bytes.
pub data Written : Type 0 where
  written : Written
  failed : ℕ → Error → Written

-- The names of the files that are written.
abbrev pub file_names : List String
file_names =
    "ca.crt" ∷ "ca.key" ∷ "server.crt" ∷ "server.key" ∷ "client.crt" ∷ "client.key" ∷ "ca-chain.pem"
    ∷ []

-- Whether a name is one of them. Each is a single component, neither absolute nor empty.
abbrev pub is_in : List String → String → Bool
is_in [] name = false
is_in (n ∷ names) name = str_eq n name || is_in names name

-- What the system answers to each call. Two of those names that are joined to one directory are the
-- same path just when they are the same.
pub record Disk : Type 0 where
  pub join : String → String → String
  pub join-eq :
      (dir a b : String)
      → is_in file_names a ≡ true
      → is_in file_names b ≡ true
      → str_eq (join dir a) (join dir b) ≡ str_eq a b
  pub create_dir_all : String → Outcome (Unit {0})
  pub create : String → Outcome (Unit {0})
  pub write : String → Bytes → Written

-- A step on the files, which may fail.
abbrev pub M : Type 0
M = Files → Outcome (Unit {0}) × Files

abbrev pub then_do : M → Outcome (Unit {0}) × Files → Outcome (Unit {0}) × Files
then_do k (ok u, files) = k files
then_do k (err e, files) = (err e, files)
then_do k (panic, files) = (panic, files)

infixl 5 ◌>>◌
abbrev pub ◌>>◌ : M → M → M
◌>>◌ m k files = then_do k (m files)

module _ (disk : Disk) where
  open disk use {join, create_dir_all, create, write}

  abbrev pub ask : Outcome (Unit {0}) → M
  ask r files = (r, files)

  -- `File::create` truncates.
  abbrev pub created : String → Outcome (Unit {0}) → M
  created path (ok u) files = (ok tt, put files path [])
  created path (err e) files = (err e, files)
  created path panic files = (panic, files)

  unfoldable pub create_file : String → M
  create_file path = created path (create path)

  abbrev pub appended : String → Bytes → Written → M
  appended path bs written files = (ok tt, put files path (content (files path) ++ bs))
  appended path bs (failed n e) files = (err e, put files path (content (files path) ++ take n bs))

  -- `write_all` on a file that is open at its end
  unfoldable pub write_all : String → Bytes → M
  write_all path bs = appended path bs (write path bs)

  -- `fs::write`
  unfoldable pub fs_write : String → Bytes → M
  unfolding create_file write_all
  fs_write path bs = create_file path >> write_all path bs

  module _ (rcgen : Rcgen) where
    open rcgen use {Certificate, KeyPair, der, pem, serialize_pem}

    unfoldable pub write_cert_and_key : String → String → Certificate → KeyPair → M
    unfolding fs_write
    write_cert_and_key directory prefix cert key =
        fs_write (join directory (String.◌++◌ prefix ".crt")) (der cert)
        >> fs_write (join directory (String.◌++◌ prefix ".key")) (serialize_pem key)

    unfoldable pub write_full_chain : TestPki rcgen → String → M
    unfolding create_file write_all
    write_full_chain pki directory =
        let chain_path = join directory "ca-chain.pem" in
        create_file chain_path
        >> write_all chain_path (pem pki.ca_cert.0)
        >> write_all chain_path (pem pki.server_cert.0)
        >> write_all chain_path (pem pki.client_cert.0)

    unfoldable pub write_certs_and_keys : TestPki rcgen → String → M
    unfolding write_cert_and_key write_full_chain
    write_certs_and_keys pki directory =
        ask (create_dir_all directory)
        >> write_cert_and_key directory "ca" pki.ca_cert.0 pki.ca_cert.1
        >> write_cert_and_key directory "server" pki.server_cert.0 pki.server_cert.1
        >> write_cert_and_key directory "client" pki.client_cert.0 pki.client_cert.1
        >> write_full_chain pki directory
