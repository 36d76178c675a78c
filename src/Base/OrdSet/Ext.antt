-- ===== src/Base/OrdSet/Ext.antt =====
-- Sorted lists and their members: the lemmas on when two sets are one.
use mathlib.Core.Path.{◌≡◌, refl, sym, ap₂, subst, ◌∙◌}
use mathlib.Core.Bool.{false, ◌||◌}
use mathlib.Core.List.{List, [], ◌∷◌}
use native.Mathlib.Omega.{arith}
use umay.Base.Ord.{Ord, Less}
use umay.Base.OrdSet.{
  contains, collect, IsSorted, is_eq, contains_head, not_contains, Less-All, gt-Less,
  contains-collect, collect-IsSorted,
}

module _ {ℓ} {K : Type ℓ} ⦃o : Ord K⦄ where
  abbrev pub SameMembers : List K → List K → Type ℓ
  SameMembers xs ys = (b : K) → contains xs b ≡ contains ys b

  contains_cons :
      (x : K) (xs : List K) (b : K) → contains (x ∷ xs) b ≡ (is_eq (o.cmp b x) || contains xs b)
  unfolding contains
  contains_cons x xs b = refl

  -- What lies below the least entry is no member.
  not_least : (a x : K) (xs : List K) → IsSorted (x ∷ xs) → Less a x → contains (x ∷ xs) a ≡ false
  not_least a x xs h k = not_contains a (x ∷ xs) (k, Less-All a x xs k h.0)

  contains_nil : (b : K) → contains [] b ≡ false
  unfolding contains
  contains_nil b = refl

  -- Two sorted non-empty sets with the same members have the same least entry.
  head_eq :
      (x : K) (xs : List K) (y : K) (ys : List K)
      → IsSorted (x ∷ xs)
      → IsSorted (y ∷ ys)
      → SameMembers (x ∷ xs) (y ∷ ys)
      → x ≡ y
  head_eq x xs y ys hx hy same = ground (
    arith,
    same x,
    same y,
    contains_head x xs,
    contains_head y ys,
    not_least x y ys hy,
    not_least y x xs hx,
    o.eq_of_cmp x y,
    gt-Less x y,
  )

  tail_same :
      (x : K) (xs ys : List K)
      → IsSorted (x ∷ xs)
      → IsSorted (x ∷ ys)
      → SameMembers (x ∷ xs) (x ∷ ys)
      → SameMembers xs ys
  tail_same x xs ys hx hy same b = ground (
    arith,
    same b,
    contains_cons x xs b,
    contains_cons x ys b,
    o.eq_of_cmp b x,
    not_contains x xs hx.0,
    not_contains x ys hy.0,
  )

  pub eq_of_SameMembers : (s t : List K) → IsSorted s → IsSorted t → SameMembers s t → s ≡ t
  eq_of_SameMembers [] [] hs ht same = refl
  eq_of_SameMembers [] (y ∷ ys) hs ht same =
      ground (arith, same y, contains_nil y, contains_head y ys)
  eq_of_SameMembers (x ∷ xs) [] hs ht same =
      ground (arith, same x, contains_nil x, contains_head x xs)
  eq_of_SameMembers (x ∷ xs) (y ∷ ys) hs ht same =
      let e : x ≡ y = head_eq x xs y ys hs ht same in
      ap₂ (◌∷◌) e (
        eq_of_SameMembers xs ys hs.1 ht.1 (
          tail_same x xs ys hs (subst (λ z. IsSorted (z ∷ ys)) (sym e) ht)
            (subst (λ z. SameMembers (x ∷ xs) (z ∷ ys)) (sym e) same)))

  pub collect_eq : (xs ys : List K) → SameMembers xs ys → collect xs ≡ collect ys
  collect_eq xs ys same =
      eq_of_SameMembers (collect xs) (collect ys) (collect-IsSorted xs) (collect-IsSorted ys)
        (λ b. contains-collect xs b ∙ same b ∙ sym (contains-collect ys b))
