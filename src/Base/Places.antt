-- ===== src/Base/Places.antt =====
-- Places in a list, and what is left of a list from one on.
use Prim.Native.Nat.{ℕ, zero, suc, ◌≤◌}
use mathlib.Core.Path.{◌≡◌, refl, ap, subst}
use mathlib.Core.List.{List, [], ◌∷◌, ◌++◌, map}
use mathlib.Core.Option.{some, some-injective}
use native.Mathlib.Omega.{arith}
use umay.Base.Lists.{length, get_elem?, drop, All, All-append}

pub get_elem?-map {ℓ κ} :
    {A : Type ℓ} {B : Type κ} (f : A → B) (xs : List A) (i : ℕ) (a : A)
    → get_elem? xs i ≡ some a
    → get_elem? (map f xs) i ≡ some (f a)
get_elem?-map f [] i a h = cc
get_elem?-map f (x ∷ xs) zero a h = ap (λ y. some (f y)) (some-injective x a h)
get_elem?-map f (x ∷ xs) (suc i) a h = get_elem?-map f xs i a h

pub get_elem?-append_some {ℓ} :
    {A : Type ℓ} (xs ys : List A) (i : ℕ) (a : A)
    → get_elem? xs i ≡ some a
    → get_elem? (xs ++ ys) i ≡ some a
get_elem?-append_some [] ys i a h = cc
get_elem?-append_some (x ∷ xs) ys zero a h = h
get_elem?-append_some (x ∷ xs) ys (suc i) a h = get_elem?-append_some xs ys i a h

All-drop {ℓ κ} : {A : Type ℓ} (P : A → Type κ) (n : ℕ) (xs : List A) → All P xs → All P (drop n xs)
All-drop P zero xs h = h
All-drop P (suc n) [] h = tt
All-drop P (suc n) (x ∷ xs) h = All-drop P n xs h.1

pub All-drop-length {ℓ κ} :
    {A : Type ℓ} (P : A → Type κ) (xs : List A) → All P (drop (length xs) xs)
All-drop-length P [] = tt
All-drop-length P (x ∷ xs) = All-drop-length P xs

pub All-drop-get_elem? {ℓ κ} :
    {A : Type ℓ} (P : A → Type κ) (xs : List A) (n i : ℕ) (a : A)
    → All P (drop n xs)
    → n ≤ i
    → get_elem? xs i ≡ some a
    → P a
All-drop-get_elem? P [] n i a h le e = cc
All-drop-get_elem? P (x ∷ xs) zero zero a h le e = subst P (some-injective x a e) h.0
All-drop-get_elem? P (x ∷ xs) zero (suc i) a h le e =
    All-drop-get_elem? P xs zero i a h.1 (omega arith) e
All-drop-get_elem? P (x ∷ xs) (suc n) zero a h le e = absurd (omega arith)
All-drop-get_elem? P (x ∷ xs) (suc n) (suc i) a h le e =
    All-drop-get_elem? P xs n i a h (omega arith) e

pub All-drop-append {ℓ κ} :
    {A : Type ℓ} (P : A → Type κ) (n : ℕ) (xs ys : List A)
    → All P (drop n xs)
    → All P ys
    → All P (drop n (xs ++ ys))
All-drop-append P zero xs ys h k = All-append P xs ys h k
All-drop-append P (suc n) [] ys h k = All-drop P (suc n) ys k
All-drop-append P (suc n) (x ∷ xs) ys h k = All-drop-append P n xs ys h k

pub get_elem?-last {ℓ} :
    {A : Type ℓ} (xs : List A) (a : A) → get_elem? (xs ++ a ∷ []) (length xs) ≡ some a
get_elem?-last [] a = refl
get_elem?-last (x ∷ xs) a = get_elem?-last xs a
