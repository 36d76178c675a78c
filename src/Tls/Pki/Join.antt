-- ===== src/Tls/Pki/Join.antt =====
-- `Path::join` of the standard library on Unix, for the directory to which umay/src/tls/pki.rs writes: a
-- name that begins with a slash replaces the directory, and another is put behind it and a slash.
use Prim.Native.String
use Prim.Native.String.{len, slice}
use text.Mathlib.Text.{◌==◌ as str_eq, starts_with}
use text.Mathlib.TextEquality.{eq_iff}
use text.Mathlib.TextPositions.{len-append, slice-append_right}
use mathlib.Core.Path.{subst}
use umay.Base.{
  ◌+◌, ◌-◌, ◌≡◌, refl, ap, sym, ◌∙◌, List, [], ◌∷◌, String, Bool, true, false, ◌||◌, All,
  if◌then◌else◌,
}
use umay.Tls.Pki.Files.{file_names, is_in}

-- The directory as a name is put behind it.
abbrev slashed : String → String
slashed dir =
    if str_eq dir "" || str_eq (slice dir (len dir - 1) (len dir)) "/"
    then dir
    else String.◌++◌ dir "/"

abbrev pub path_join : String → String → String
path_join dir name = if starts_with name "/" then name else String.◌++◌ (slashed dir) name

cancel : (s x y : String) → String.◌++◌ s x ≡ String.◌++◌ s y → x ≡ y
cancel s x y e =
    let same : len s + len x ≡ len s + len y = sym (len-append s x) ∙ ap len e ∙ len-append s y in
    sym (slice-append_right s x)
    ∙ ap (λ t. slice t (len s) (len s + len x)) e
    ∙ ap (slice (String.◌++◌ s y) (len s)) same
    ∙ slice-append_right s y

both_true : (x y : Bool) → (x ≡ true → y ≡ true) → (y ≡ true → x ≡ true) → x ≡ y
both_true true y f g = sym (f refl)
both_true false true f g = g refl
both_true false false f g = refl

behind_eq : (s a b : String) → str_eq (String.◌++◌ s a) (String.◌++◌ s b) ≡ str_eq a b
behind_eq s a b =
    both_true _ _ (λ h. (eq_iff a b).1 (cancel s a b ((eq_iff _ _).0 h)))
      (λ h. (eq_iff _ _).1 (ap (String.◌++◌ s) ((eq_iff a b).0 h)))

relative :
    (names : List String) (a : String)
    → All (λ n. starts_with n "/" ≡ false) names
    → is_in names a ≡ true
    → starts_with a "/" ≡ false
relative [] a h k = cc
relative (n ∷ names) a h k = by_test (str_eq n a) (relative names a h.1) refl k
  where
    by_test :
        (b : Bool)
        → (is_in names a ≡ true → starts_with a "/" ≡ false)
        → str_eq n a ≡ b
        → (b || is_in names a) ≡ true
        → starts_with a "/" ≡ false
    by_test true later e k = subst (λ x. starts_with x "/" ≡ false) ((eq_iff n a).0 e) h.0
    by_test false later e k = later k

pub path_join-eq :
    (dir a b : String)
    → is_in file_names a ≡ true
    → is_in file_names b ≡ true
    → str_eq (path_join dir a) (path_join dir b) ≡ str_eq a b
path_join-eq dir a b h k =
    let all : All (λ n. starts_with n "/" ≡ false) file_names =
      (refl, (refl, (refl, (refl, (refl, (refl, (refl, tt))))))) in
    rw (relative file_names a all h, relative file_names b all k) (behind_eq (slashed dir) a b)
