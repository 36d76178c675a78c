-- ===== src/App/Server/Traverse.antt =====
-- A fallible body on each item of a list, as the loops of umay/src/app run it.
use mathlib.Core.Option.{some-injective}
use mathlib.Core.Path.{subst}
use umay.Base.{
  ◌≡◌, refl, List, [], ◌∷◌, ◌++◌, Outcome, ok, err, panic, ◌>>=◌, >>=-eq-ok, Error, ℕ, zero, suc,
  some, get_elem?, length, map, ap,
}

module _ {A B : Type 0} (f : A → Outcome B) where
  unfoldable pub traverse : List A → Outcome (List B)
  traverse [] = ok []
  traverse (x ∷ xs) = do y ← f x; ys ← traverse xs; ok (y ∷ ys)

  -- Item by item.
  abbrev pub Yields : List A → List B → Type 0
  Yields [] [] = Unit
  Yields [] (y ∷ ys) = ⊥
  Yields (x ∷ xs) [] = ⊥
  Yields (x ∷ xs) (y ∷ ys) = (f x ≡ ok y) × Yields xs ys

  pub traverse-ok : (xs : List A) (ys : List B) → traverse xs ≡ ok ys → Yields xs ys
  unfolding traverse
  traverse-ok [] [] h = tt
  traverse-ok [] (y ∷ ys) h = cc
  traverse-ok (x ∷ xs) ys h =
      let (z, e, h1) = >>=-eq-ok (f x) _ h in
      let (zs, g, h2) = >>=-eq-ok (traverse xs) _ h1 in
      subst (Yields (x ∷ xs)) {x = z ∷ zs} (cc) (e, traverse-ok xs zs g)

  pub Yields-traverse : (xs : List A) (ys : List B) → Yields xs ys → traverse xs ≡ ok ys
  unfolding traverse
  Yields-traverse [] [] h = refl
  Yields-traverse [] (y ∷ ys) h = absurd h
  Yields-traverse (x ∷ xs) [] h = absurd h
  Yields-traverse (x ∷ xs) (y ∷ ys) h = rw (h.0, Yields-traverse xs ys h.1)

  pub Yields-get_elem? :
      (xs : List A) (ys : List B) (i : ℕ) (x : A) (y : B)
      → Yields xs ys
      → get_elem? xs i ≡ some x
      → get_elem? ys i ≡ some y
      → f x ≡ ok y
  Yields-get_elem? [] ys i x y h e g = cc
  Yields-get_elem? (a ∷ xs) [] i x y h e g = cc
  Yields-get_elem? (a ∷ xs) (b ∷ ys) zero x y h e g =
      cc (h.0, some-injective a x e, some-injective b y g)
  Yields-get_elem? (a ∷ xs) (b ∷ ys) (suc i) x y h e g = Yields-get_elem? xs ys i x y h.1 e g

  pub Yields-length : (xs : List A) (ys : List B) → Yields xs ys → length ys ≡ length xs
  Yields-length [] [] h = refl
  Yields-length [] (y ∷ ys) h = absurd h
  Yields-length (x ∷ xs) [] h = absurd h
  Yields-length (x ∷ xs) (y ∷ ys) h = ap suc (Yields-length xs ys h.1)

  pub Yields-map : (xs : List A) (ys : List B) → Yields xs ys → map f xs ≡ map ok ys
  Yields-map [] [] h = refl
  Yields-map [] (y ∷ ys) h = absurd h
  Yields-map (x ∷ xs) [] h = absurd h
  Yields-map (x ∷ xs) (y ∷ ys) h = cc (h.0, Yields-map xs ys h.1)

  -- The first failure is the whole's, whatever comes after.
  pub traverse-err :
      (xs : List A) (ys : List B) (x : A) (rest : List A) (e : Error)
      → Yields xs ys
      → f x ≡ err e
      → traverse (xs ++ x ∷ rest) ≡ err e
  unfolding traverse
  traverse-err [] [] x rest e h g = rw g
  traverse-err [] (y ∷ ys) x rest e h g = absurd h
  traverse-err (z ∷ xs) [] x rest e h g = absurd h
  traverse-err (z ∷ xs) (y ∷ ys) x rest e h g = rw (h.0, traverse-err xs ys x rest e h.1 g)

  pub traverse-panic :
      (xs : List A) (ys : List B) (x : A) (rest : List A)
      → Yields xs ys
      → f x ≡ panic
      → traverse (xs ++ x ∷ rest) ≡ panic
  unfolding traverse
  traverse-panic [] [] x rest h g = rw g
  traverse-panic [] (y ∷ ys) x rest h g = absurd h
  traverse-panic (z ∷ xs) [] x rest h g = absurd h
  traverse-panic (z ∷ xs) (y ∷ ys) x rest h g = rw (h.0, traverse-panic xs ys x rest h.1 g)
