-- ===== src/Tls/Pki/Writes.antt =====
-- What the writes to files that umay/src/tls/pki.rs makes leave once they succeed.
use mathlib.Core.Path.{fun_ext}
use text.Mathlib.Text.{◌==◌ as str_eq}
use text.Mathlib.TextEquality.{eq_iff}
use umay.Base.{
  ◌≡◌, refl, ap, sym, ◌∙◌, [], ◌++◌, String, true, some, Outcome, ok, err, panic, arith,
}
use umay.App.Config.Tls.{Bytes}
use umay.Tls.Pki.Files.{
  Files, put, content, Written, written, failed, Disk, M, then_do, ◌>>◌, created, create_file,
  appended, write_all, fs_write,
}

str_eq_self : (s : String) → str_eq s s ≡ true
str_eq_self s = (eq_iff s s).1 refl

put_self : (files : Files) (path : String) (bs : Bytes) → put files path bs path ≡ some bs
put_self files path bs = rw (str_eq_self path)

put-put :
    (files : Files) (path : String) (bs cs : Bytes)
    → put (put files path bs) path cs ≡ put files path cs
put-put files path bs cs = fun_ext λ q. ground arith

-- Where a sequence succeeds, so do its parts.
pub then-ok :
    (m k : M) (files out : Files)
    → (m >> k) files ≡ (ok tt, out)
    → (mid : Files) × (m files ≡ (ok tt, mid)) × (k mid ≡ (ok tt, out))
then-ok m k files out h = by_first (m files) refl h
  where
    by_first :
        (r : Outcome (Unit {0}) × Files)
        → m files ≡ r
        → then_do k r ≡ (ok tt, out)
        → (mid : Files) × (m files ≡ (ok tt, mid)) × (k mid ≡ (ok tt, out))
    by_first (ok u, mid) e g = (mid, e, g)
    by_first (err x, mid) e g = cc
    by_first (panic, mid) e g = cc

module _ (disk : Disk) where
  open disk use {join}

  pub create_file-ok :
      (path : String) (files out : Files)
      → create_file disk path files ≡ (ok tt, out)
      → out ≡ put files path []
  unfolding create_file
  create_file-ok path files out h = by_answer (disk.create path) h
    where
      by_answer :
          (r : Outcome (Unit {0}))
          → created disk path r files ≡ (ok tt, out)
          → out ≡ put files path []
      by_answer (ok u) g = sym (ap (λ (x : Outcome (Unit {0}) × Files). x.1) g)
      by_answer (err e) g = cc
      by_answer panic g = cc

  write_all-ok :
      (path : String) (bs : Bytes) (files out : Files)
      → write_all disk path bs files ≡ (ok tt, out)
      → out ≡ put files path (content (files path) ++ bs)
  unfolding write_all
  write_all-ok path bs files out h = by_answer (disk.write path bs) h
    where
      by_answer :
          (r : Written)
          → appended disk path bs r files ≡ (ok tt, out)
          → out ≡ put files path (content (files path) ++ bs)
      by_answer written g = sym (ap (λ (x : Outcome (Unit {0}) × Files). x.1) g)
      by_answer (failed n e) g = cc

  -- The file that was put, written on.
  append_put :
      (files : Files) (path : String) (bs cs : Bytes)
      → put (put files path bs) path (content (put files path bs path) ++ cs)
        ≡ put files path (bs ++ cs)
  append_put files path bs cs =
      ap (λ o. put (put files path bs) path (content o ++ cs)) (put_self files path bs)
      ∙ put-put files path bs (bs ++ cs)

  pub fs_write-ok :
      (path : String) (bs : Bytes) (files out : Files)
      → fs_write disk path bs files ≡ (ok tt, out)
      → out ≡ put files path bs
  unfolding fs_write
  fs_write-ok path bs files out h =
      let (mid, a, b) = then-ok (create_file disk path) (write_all disk path bs) files out h in
      write_all-ok path bs mid out b
      ∙ ap (λ f. put f path (content (f path) ++ bs)) (create_file-ok path files mid a)
      ∙ append_put files path [] bs

  pub write_on :
      (path : String) (bs cs : Bytes) (files mid out : Files)
      → mid ≡ put files path bs
      → write_all disk path cs mid ≡ (ok tt, out)
      → out ≡ put files path (bs ++ cs)
  write_on path bs cs files mid out e h =
      write_all-ok path cs mid out h
      ∙ ap (λ f. put f path (content (f path) ++ cs)) e
      ∙ append_put files path bs cs
