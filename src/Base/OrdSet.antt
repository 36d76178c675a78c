-- ===== src/Base/OrdSet.antt =====
-- `BTreeSet<K>`: the list of its entries in increasing order, which is what its `iter` yields.
pub mod Ext
pub mod Size
use Prim.Native.Nat.{Ordering}
use Prim.Native.Nat.Ordering.{lt, eq, gt}
use mathlib.Core.Path.{◌≡◌, refl}
use mathlib.Core.Bool.{Bool, true, false, ◌||◌, ◌&&◌}
use mathlib.Core.List.{List, [], ◌∷◌}
use native.Mathlib.Omega.{arith}
use umay.Base.Ord.{Ord, Less}
use umay.Base.Lists.{All}
use umay.Base.Tests.{if◌then◌else◌}

abbrev pub is_eq : Ordering → Bool
is_eq lt = false
is_eq eq = true
is_eq gt = false

module _ {ℓ} {K : Type ℓ} ⦃o : Ord K⦄ where
  unfoldable pub insert : K → List K → List K
  insert a [] = a ∷ []
  insert a (x ∷ xs) = elim (o.cmp a x) [ lt ↦ a ∷ x ∷ xs | eq ↦ x ∷ xs | gt ↦ x ∷ insert a xs ]

  -- `collect`: each item is inserted in turn.
  unfoldable pub extend : List K → List K → List K
  unfolding insert
  extend s [] = s
  extend s (a ∷ items) = extend (insert a s) items

  unfoldable pub collect : List K → List K
  unfolding extend
  collect items = extend [] items

  unfoldable pub contains : List K → K → Bool
  contains [] b = false
  contains (x ∷ xs) b = is_eq (o.cmp b x) || contains xs b

  -- `BTreeSet::retain`
  unfoldable pub retain : (K → Bool) → List K → List K
  retain p [] = []
  retain p (x ∷ xs) = if p x then x ∷ retain p xs else retain p xs

  abbrev pub IsSorted : List K → Type ℓ
  IsSorted [] = Unit
  IsSorted (x ∷ xs) = All (Less x) xs × IsSorted xs

  pub Less-All : (a x : K) (xs : List K) → Less a x → All (Less x) xs → All (Less a) xs
  Less-All a x [] h k = tt
  Less-All a x (y ∷ ys) h k = (o.cmp_trans a x y h k.0, Less-All a x ys h k.1)

  pub gt-Less : (a b : K) → o.cmp a b ≡ gt → Less b a
  gt-Less a b h = rw (o.cmp_flip a b, h)

  pub All-insert {κ} : (P : K → Type κ) (a : K) (s : List K) → P a → All P s → All P (insert a s)
  unfolding insert
  All-insert P a [] p h = (p, tt)
  All-insert P a (x ∷ xs) p h = ground (arith, All-insert P a xs p)

  All-extend {κ} :
      (P : K → Type κ) (s items : List K) → All P s → All P items → All P (extend s items)
  unfolding extend
  All-extend P s [] h k = h
  All-extend P s (a ∷ items) h k = All-extend P (insert a s) items (All-insert P a s k.0 h) k.1

  pub All-collect {κ} : (P : K → Type κ) (items : List K) → All P items → All P (collect items)
  unfolding collect
  All-collect P items h = All-extend P [] items tt h

  pub insert-IsSorted : (a : K) (s : List K) → IsSorted s → IsSorted (insert a s)
  unfolding insert
  insert-IsSorted a [] h = (tt, tt)
  insert-IsSorted a (x ∷ xs) h =
      ground (arith, insert-IsSorted a xs, Less-All a x xs, All-insert (Less x) a xs, gt-Less a x)

  pub extend-IsSorted : (s items : List K) → IsSorted s → IsSorted (extend s items)
  unfolding extend
  extend-IsSorted s [] h = h
  extend-IsSorted s (a ∷ items) h = extend-IsSorted (insert a s) items (insert-IsSorted a s h)

  pub collect-IsSorted : (items : List K) → IsSorted (collect items)
  unfolding collect
  collect-IsSorted items = extend-IsSorted [] items tt

  pub contains-insert :
      (a : K) (s : List K) (b : K) → contains (insert a s) b ≡ (is_eq (o.cmp b a) || contains s b)
  unfolding insert contains
  contains-insert a [] b = refl
  contains-insert a (x ∷ xs) b = ground (arith, contains-insert a xs b, o.eq_of_cmp a x)

  pub contains-extend :
      (s items : List K) (b : K) → contains (extend s items) b ≡ (contains items b || contains s b)
  unfolding extend contains
  contains-extend s [] b = refl
  contains-extend s (a ∷ items) b =
      ground (arith, contains-extend (insert a s) items b, contains-insert a s b)

  -- The set holds what was collected.
  pub contains-collect : (items : List K) (b : K) → contains (collect items) b ≡ contains items b
  unfolding collect contains
  contains-collect items b = ground (arith, contains-extend [] items b)

  pub contains-retain :
      (p : K → Bool) (s : List K) (b : K) → contains (retain p s) b ≡ (contains s b && p b)
  unfolding retain contains
  contains-retain p [] b = refl
  contains-retain p (x ∷ xs) b = ground (arith, contains-retain p xs b, o.eq_of_cmp b x)

  pub All-retain {κ} : (P : K → Type κ) (p : K → Bool) (s : List K) → All P s → All P (retain p s)
  unfolding retain
  All-retain P p [] h = tt
  All-retain P p (x ∷ xs) h = ground (arith, All-retain P p xs)

  pub retain-IsSorted : (p : K → Bool) (s : List K) → IsSorted s → IsSorted (retain p s)
  unfolding retain
  retain-IsSorted p [] h = tt
  retain-IsSorted p (x ∷ xs) h = ground (arith, retain-IsSorted p xs, All-retain (Less x) p xs)

  pub not_contains : (a : K) (s : List K) → All (Less a) s → contains s a ≡ false
  unfolding contains
  not_contains a [] h = refl
  not_contains a (x ∷ xs) h = ground (arith, not_contains a xs)

  pub contains_head : (x : K) (xs : List K) → contains (x ∷ xs) x ≡ true
  unfolding contains
  contains_head x xs = rw (o.cmp_self x)
