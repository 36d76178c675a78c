-- ===== src/Base/OrdMap.antt =====
-- `BTreeMap<K, V>` as an association list: the program looks keys up and never walks the map.
use mathlib.Core.Path.{◌≡◌, refl}
use mathlib.Core.List.{List, [], ◌∷◌}
use mathlib.Core.Option
use mathlib.Core.Option.{Option, none, some}
use native.Mathlib.Omega.{arith}
use umay.Base.Ord.{Ord}
use umay.Base.OrdSet.{is_eq}
use umay.Base.Tests.{if◌then◌else◌}

module _ {ℓ κ} {K : Type ℓ} {V : Type κ} ⦃o : Ord K⦄ where
  unfoldable pub get : List (K × V) → K → Option V
  get [] k = none
  get ((j, v) ∷ m) k = if is_eq (o.cmp k j) then some v else get m k

  -- `*m.entry(k).or_insert(d) = f(..)`
  unfoldable pub upsert : K → V → (V → V) → List (K × V) → List (K × V)
  upsert k d f [] = (k, f d) ∷ []
  upsert k d f ((j, v) ∷ m) = if is_eq (o.cmp k j) then (j, f v) ∷ m else (j, v) ∷ upsert k d f m

  -- `if let Some(v) = m.get_mut(k) { *v = f(*v) }`
  unfoldable pub modify : K → (V → V) → List (K × V) → List (K × V)
  modify k f [] = []
  modify k f ((j, v) ∷ m) = if is_eq (o.cmp k j) then (j, f v) ∷ m else (j, v) ∷ modify k f m

  pub get-upsert :
      (k : K) (d : V) (f : V → V) (m : List (K × V)) (j : K)
      → get (upsert k d f m) j
        ≡ (if is_eq (o.cmp j k) then some (f (Option.get_or (get m k) d)) else get m j)
  unfolding get upsert
  get-upsert k d f [] j = refl
  get-upsert k d f ((i, v) ∷ m) j = ground (
    arith,
    get-upsert k d f m j,
    o.eq_of_cmp k i,
    o.eq_of_cmp j i,
    o.eq_of_cmp j k,
    o.cmp_self k,
    o.cmp_self j,
  )

  pub get-modify :
      (k : K) (f : V → V) (m : List (K × V)) (j : K)
      → get (modify k f m) j ≡ (if is_eq (o.cmp j k) then Option.map f (get m k) else get m j)
  unfolding get modify
  get-modify k f [] j = ground arith
  get-modify k f ((i, v) ∷ m) j = ground (
    arith,
    get-modify k f m j,
    o.eq_of_cmp k i,
    o.eq_of_cmp j i,
    o.eq_of_cmp j k,
    o.cmp_self k,
    o.cmp_self j,
  )
