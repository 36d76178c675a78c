-- ===== src/Base/Ord.antt =====
-- Rust's `Ord`: a comparison with the laws that the trait documents, where `==` is `≡`.
use Prim.Native.Nat.{ℕ, compare, Ordering}
use Prim.Native.Nat.Ordering.{lt, eq, gt}
use mathlib.Core.Path.{◌≡◌}
use native.Mathlib.Omega.{arith}

abbrev pub flip : Ordering → Ordering
flip lt = gt
flip eq = eq
flip gt = lt

pub record Ord {ℓ} (K : Type ℓ) : Type ℓ where
  pub cmp : K → K → Ordering
  pub cmp_self : (a : K) → cmp a a ≡ eq
  pub eq_of_cmp : (a b : K) → cmp a b ≡ eq → a ≡ b
  pub cmp_flip : (a b : K) → cmp b a ≡ flip (cmp a b)
  pub cmp_trans : (a b c : K) → cmp a b ≡ lt → cmp b c ≡ lt → cmp a c ≡ lt

abbrev pub Less {ℓ} : {K : Type ℓ} ⦃o : Ord K⦄ → K → K → Type 0
Less ⦃o⦄ a b = o.cmp a b ≡ lt

pub compare-flip : (a b : ℕ) → compare b a ≡ flip (compare a b)
compare-flip a b = ground arith

pub compare_trans : (a b c : ℕ) → compare a b ≡ lt → compare b c ≡ lt → compare a c ≡ lt
compare_trans a b c = ground arith

pub compare_self : (a : ℕ) → compare a a ≡ eq
compare_self a = ground arith

pub compare-eq : (a b : ℕ) → compare a b ≡ eq → a ≡ b
compare-eq a b = ground arith

instance abbrev pub nat_ord : Ord ℕ
nat_ord = record {
  cmp = compare;
  cmp_self = compare_self;
  eq_of_cmp = compare-eq;
  cmp_flip = compare-flip;
  cmp_trans = compare_trans;
}

-- A derived `Ord` compares the fields in order.
abbrev pub and_then : Ordering → Ordering → Ordering
and_then lt rest = lt
and_then eq rest = rest
and_then gt rest = gt

module _ {ℓ κ} {A : Type ℓ} {B : Type κ} ⦃a : Ord A⦄ ⦃b : Ord B⦄ where
  abbrev pub pair_cmp : A × B → A × B → Ordering
  pair_cmp x y = and_then (a.cmp x.0 y.0) (b.cmp x.1 y.1)

  pub pair_self : (x : A × B) → pair_cmp x x ≡ eq
  pair_self x = ground (arith, a.cmp_self x.0, b.cmp_self x.1)

  pub pair_eq : (x y : A × B) → pair_cmp x y ≡ eq → x ≡ y
  pair_eq x y = ground (arith, a.eq_of_cmp x.0 y.0, b.eq_of_cmp x.1 y.1)

  pub pair_flip : (x y : A × B) → pair_cmp y x ≡ flip (pair_cmp x y)
  pair_flip x y = ground (arith, a.cmp_flip x.0 y.0, b.cmp_flip x.1 y.1)

  pub pair_trans : (x y z : A × B) → pair_cmp x y ≡ lt → pair_cmp y z ≡ lt → pair_cmp x z ≡ lt
  pair_trans x y z h k = ground (
    arith,
    a.eq_of_cmp x.0 y.0,
    a.eq_of_cmp y.0 z.0,
    a.cmp_self x.0,
    a.cmp_trans x.0 y.0 z.0,
    b.cmp_trans x.1 y.1 z.1,
  )

  instance abbrev pub pair_ord : Ord (A × B)
  pair_ord = record {
    cmp = pair_cmp;
    cmp_self = pair_self;
    eq_of_cmp = pair_eq;
    cmp_flip = pair_flip;
    cmp_trans = pair_trans;
  }

-- The order of the tuples that an injective encoding gives.
abbrev pub ord_by {ℓ κ} :
    {A : Type ℓ} {B : Type κ} ⦃b : Ord B⦄ (f : A → B) → ((x y : A) → f x ≡ f y → x ≡ y) → Ord A
ord_by ⦃b⦄ f inj = record {
  cmp = λ x y. b.cmp (f x) (f y);
  cmp_self = λ x. b.cmp_self (f x);
  eq_of_cmp = λ x y h. inj x y (b.eq_of_cmp (f x) (f y) h);
  cmp_flip = λ x y. b.cmp_flip (f x) (f y);
  cmp_trans = λ x y z. b.cmp_trans (f x) (f y) (f z);
}
